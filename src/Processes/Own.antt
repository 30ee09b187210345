-- ===== src/Processes/Own.antt =====
-- Whose child a thread waits for, in any order of the steps.
use mathlib.Core.Path.{subst}
use socket_project.Prelude.{
  ℕ, zero, suc, ◌≤◌, ◌≡◌, ◌≢◌, refl, ap, ◌∙◌, true, false, none, some, List, [], ◌∷◌, arith,
  get_elem?, set, All,
}
use socket_project.Worker.{WaitStatus}
use socket_project.Processes.{
  Child, Stage, starts, piped, forked, reads, waits, ended, World, count_pid, end_child, takes,
  no_child, waitpid_one, waitpid, at_stage, pipe, fork, close_write, kill_children, kill, Step,
  makes_pipe, forks, fork_fails, closes, sees_end, gives_up, read_fails, waited, wait_fails, again,
  exits, closes_output, child_forks, descendant_forks, descendant_closes, descendant_ends, Steps,
  stay, more, all_start, worker,
}
use socket_project.Processes.Counts.{
  own, is_own, weigh, owners, is_served, weigh-set, All-set, All-get, count-to_child,
  end_child-KeepsPid, count-kill_children, Takes, waitpid_one-Takes,
}

pub record Inv (cs : List Child) (ss : List Stage) : Type 0 where
  pub matched : (pid : ℕ) → count_pid pid cs ≡ owners pid ss
  pub unique : (pid : ℕ) → count_pid pid cs ≤ 1
  pub served : All (λ s. is_served s ≡ true) ss

module _ (cs : List Child) (ss : List Stage) (h : Inv cs ss) where
  -- A thread goes on with the same child, or with none before and after.
  keeps :
      (i : ℕ) (s s' : Stage)
      → get_elem? ss i ≡ some s
      → own s' ≡ own s
      → is_served s' ≡ true
      → Inv cs (set ss i s')
  keeps i s s' e same good = record {
    matched = λ pid. omega (
      arith,
      h.matched pid,
      weigh-set (λ s. is_own pid (own s)) ss i s s' e,
      ap (is_own pid) same,
    );
    unique = h.unique;
    served = All-set (λ x. is_served x ≡ true) ss i s' h.served good;
  }

  -- A change of the children that keeps how many have each pid.
  recount : (cs' : List Child) → ((pid : ℕ) → count_pid pid cs' ≡ count_pid pid cs) → Inv cs' ss
  recount cs' e = record {
    matched = λ pid. e pid ∙ h.matched pid;
    unique = λ pid. omega (arith, e pid, h.unique pid);
    served = h.served;
  }

  at_served : (i : ℕ) (s : Stage) → get_elem? ss i ≡ some s → is_served s ≡ true
  at_served i s e = All-get (λ x. is_served x ≡ true) ss i s h.served e

  fork-Inv :
      (i p pid : ℕ) (writes : List ℕ)
      → get_elem? ss i ≡ some (piped p)
      → count_pid pid cs ≡ 0
      → Inv
          (record { pid = pid; writes = writes; status = none } ∷ cs)
          (set ss i (forked p (some pid)))
  unfolding count_pid is_own own is_served
  fork-Inv i p pid writes e new = record {
    matched = λ q. ground (
      arith,
      h.matched q,
      weigh-set (λ s. is_own q (own s)) ss i (piped p) (forked p (some pid)) e,
    );
    unique = λ q. ground (arith, h.unique q);
    served = All-set (λ x. is_served x ≡ true) ss i (forked p (some pid)) h.served refl;
  }

  waited-Inv :
      (i pid : ℕ) (st : WaitStatus) (cs' : List Child)
      → get_elem? ss i ≡ some (waits (some pid))
      → waitpid_one pid cs ≡ takes st cs'
      → Inv cs' (set ss i (ended (some st)))
  unfolding is_own own is_served
  waited-Inv i pid st cs' e f =
      let taken : Takes pid cs (takes st cs') = subst (Takes pid cs) f (waitpid_one-Takes pid cs) in
      record {
        matched = λ q. omega (
          arith,
          h.matched q,
          taken q,
          weigh-set (λ s. is_own q (own s)) ss i (waits (some pid)) (ended (some st)) e,
        );
        unique = λ q. omega (arith, h.unique q, taken q);
        served = All-set (λ x. is_served x ≡ true) ss i (ended (some st)) h.served refl;
      }

  found : (i pid : ℕ) → get_elem? ss i ≡ some (waits (some pid)) → waitpid_one pid cs ≢ no_child
  unfolding is_own own
  found i pid e f =
      let gone : Takes pid cs no_child = subst (Takes pid cs) f (waitpid_one-Takes pid cs) in
      ground (
        arith,
        h.matched pid,
        gone,
        weigh-set (λ s. is_own pid (own s)) ss i (waits (some pid)) starts e,
      )

Step-Inv : {w v : World} → Step false w v → Inv w.children w.threads → Inv v.children v.threads
unfolding pipe fork close_write kill at_stage waitpid own is_served
Step-Inv (makes_pipe {w} i e) h =
    keeps w.children w.threads h i starts (piped w.next_pipe) e refl refl
Step-Inv (forks {w} i p pid e new) h = fork-Inv w.children w.threads h i p pid w.open_pipes e new
Step-Inv (fork_fails i p e f) h = absurd (cc)
Step-Inv (closes {w} i p (some pid) e) h =
    keeps w.children w.threads h i (forked p (some pid)) (reads p (some pid)) e refl refl
Step-Inv (closes {w} i p none e) h =
    absurd (cc (at_served w.children w.threads h i (forked p none) e))
Step-Inv (sees_end {w} i p (some pid) e f) h =
    keeps w.children w.threads h i (reads p (some pid)) (waits (some pid)) e refl refl
Step-Inv (sees_end {w} i p none e f) h =
    absurd (cc (at_served w.children w.threads h i (reads p none) e))
Step-Inv (gives_up {w} i p (some pid) e) h =
    recount w.children (set w.threads i (waits (some pid)))
      (keeps w.children w.threads h i (reads p (some pid)) (waits (some pid)) e refl refl)
      (kill_children (some pid) w.children) (λ q. count-kill_children (some pid) q w.children)
Step-Inv (gives_up {w} i p none e) h =
    absurd (cc (at_served w.children w.threads h i (reads p none) e))
Step-Inv (read_fails {w} i p (some pid) e) h =
    keeps w.children w.threads h i (reads p (some pid)) (waits (some pid)) e refl refl
Step-Inv (read_fails {w} i p none e) h =
    absurd (cc (at_served w.children w.threads h i (reads p none) e))
Step-Inv (waited {w} i (some pid) st cs e f) h = waited-Inv w.children w.threads h i pid st cs e f
Step-Inv (waited {w} i none st cs e f) h =
    absurd (cc (at_served w.children w.threads h i (waits none) e))
Step-Inv (wait_fails {w} i (some pid) e f) h = absurd (found w.children w.threads h i pid e f)
Step-Inv (wait_fails {w} i none e f) h =
    absurd (cc (at_served w.children w.threads h i (waits none) e))
Step-Inv (again {w} i (some st) e) h =
    keeps w.children w.threads h i (ended (some st)) starts e refl refl
Step-Inv (again {w} i none e) h = absurd (cc (at_served w.children w.threads h i (ended none) e))
Step-Inv (exits {w} pid st) h =
    recount w.children w.threads h _
      (λ q. count-to_child pid q (end_child st) w.children (end_child-KeepsPid st))
Step-Inv (closes_output {w} pid p) h =
    recount w.children w.threads h _ (λ q. count-to_child pid q _ w.children (λ c. refl))
Step-Inv (child_forks front c back e r) h = h
Step-Inv (descendant_forks front ps back e) h = h
Step-Inv (descendant_closes front ps back p e) h = h
Step-Inv (descendant_ends front ps back e) h = h

pub Steps-Inv :
    {w v : World} → Steps false w v → Inv w.children w.threads → Inv v.children v.threads
Steps-Inv stay h = h
Steps-Inv (more r s) h = Step-Inv s (Steps-Inv r h)

pub all_start-Inv : (n : ℕ) → Inv [] (all_start n)
unfolding all_start count_pid weigh own is_own is_served
all_start-Inv zero = record { matched = λ pid. refl; unique = λ pid. omega arith; served = tt }
all_start-Inv (suc n) =
    let h = all_start-Inv n in
    record {
      matched = λ pid. omega (arith, h.matched pid);
      unique = h.unique;
      served = (refl, h.served);
    }

-- In every interleaving of a worker's threads and their children in which no fork fails, no thread
-- ends its waitpid without a status, each child in the process table is the own child of exactly
-- one thread that has still to wait for it, and no child is there twice.
pub Steps-served :
    (n : ℕ) (w : World)
    → Steps false (worker n) w
    → All (λ s. is_served s ≡ true) w.threads
      × ((pid : ℕ)
          → (count_pid pid w.children ≡ owners pid w.threads) × (count_pid pid w.children ≤ 1))
unfolding worker
Steps-served n w r =
    let h : Inv w.children w.threads = Steps-Inv r (all_start-Inv n) in
    (h.served, λ pid. (h.matched pid, h.unique pid))
