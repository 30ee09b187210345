-- ===== src/Processes/Progress.antt =====
-- When the children have ended, no thread waits for one.
use socket_project.Prelude.{
  ℕ, zero, suc, ◌≤◌, ◌≡◌, refl, ap, inl, inr, Bool, true, false, Option, none, some, List, [], ◌∷◌,
  ◌==◌, arith, get_elem?, Bool-cases, All,
}
use socket_project.Processes.{
  Child, Stage, starts, piped, forked, reads, waits, ended, World, count_pid, contains, without,
  is_running, child_writes, at_end, Waited, blocks, takes, no_child, beside, waitpid_one, waitpid,
  at_stage, pipe, fork, close_write, kill, Step, makes_pipe, forks, fork_fails, closes, sees_end,
  gives_up, read_fails, waited, wait_fails, again, exits, closes_output, child_forks,
  descendant_forks, descendant_closes, descendant_ends, descendant_writes, Steps, stay, more,
  worker,
}
use socket_project.Processes.Counts.{own, is_own, weigh, is_served, weigh-set, weigh-ge, All-get}
use socket_project.Processes.Own.{Inv, Steps-Inv, all_start-Inv}

-- The pipe whose write end the thread has open.
unfoldable pub open_pipe : Stage → Option ℕ
open_pipe (piped p) = some p
open_pipe (forked p pid) = some p
open_pipe _ = none

abbrev openers : ℕ → List Stage → ℕ
openers q = weigh (λ s. is_own q (open_pipe s))

-- What a thread waits for has come: the pipe's end, or the end of its child.
unfoldable pub is_taken : Waited → Bool
is_taken (takes st cs) = true
is_taken _ = false

unfoldable pub can_go_on : World → Stage → Bool
can_go_on w (reads p pid) = at_end p w
can_go_on w (waits pid) = is_taken (waitpid pid w.children)
can_go_on w _ = true

-- Each write end that the worker has open is some thread's.
abbrev IsHeld : World → Type 0
IsHeld w = (q : ℕ) → contains q w.open_pipes ≡ true → 1 ≤ openers q w.threads

contains-without :
    (p q : ℕ) (qs : List ℕ)
    → contains q (without p qs) ≡ true
    → (contains q qs ≡ true) × ((p == q) ≡ false)
unfolding contains without
contains-without p q [] h = absurd (cc)
contains-without p q (x ∷ qs) h = ground (arith, contains-without p q qs)

-- A thread goes on, with its write end open as before.
IsHeld-same :
    (w : World) (i : ℕ) (s s' : Stage)
    → IsHeld w
    → get_elem? w.threads i ≡ some s
    → open_pipe s' ≡ open_pipe s
    → IsHeld (at_stage w i s')
unfolding at_stage
IsHeld-same w i s s' h e same q c =
    omega
      (arith, h q c, weigh-set (λ x. is_own q (open_pipe x)) w.threads i s s' e, ap (is_own q) same)

Step-IsHeld : {may_fail : Bool} {w v : World} → Step may_fail w v → IsHeld w → IsHeld v
unfolding pipe fork close_write kill at_stage open_pipe contains is_own
Step-IsHeld (makes_pipe {w} i e) h = λ q c.
    ground
      (arith, h q, weigh-set (λ x. is_own q (open_pipe x)) w.threads i starts (piped w.next_pipe) e)
Step-IsHeld (forks {w} i p pid e new) h = IsHeld-same w i (piped p) (forked p (some pid)) h e refl
Step-IsHeld (fork_fails {w} i p e f) h = IsHeld-same w i (piped p) (forked p none) h e refl
Step-IsHeld (closes {w} i p pid e) h = λ q c.
    let (k, other) = contains-without p q w.open_pipes c in
    ground (
      arith,
      h q,
      weigh-set (λ x. is_own q (open_pipe x)) w.threads i (forked p pid) (reads p pid) e,
    )
Step-IsHeld (sees_end {w} i p pid e f) h = IsHeld-same w i (reads p pid) (waits pid) h e refl
Step-IsHeld (gives_up {w} i p pid e) h = IsHeld-same w i (reads p pid) (waits pid) h e refl
Step-IsHeld (read_fails {w} i p pid e) h = IsHeld-same w i (reads p pid) (waits pid) h e refl
Step-IsHeld (waited {w} i pid st cs e f) h = IsHeld-same w i (waits pid) (ended (some st)) h e refl
Step-IsHeld (wait_fails {w} i pid e f) h = IsHeld-same w i (waits pid) (ended none) h e refl
Step-IsHeld (again {w} i st e) h = IsHeld-same w i (ended st) starts h e refl
Step-IsHeld (exits pid st) h = h
Step-IsHeld (closes_output pid p) h = h
Step-IsHeld (child_forks front c back e r) h = h
Step-IsHeld (descendant_forks front ps back e) h = h
Step-IsHeld (descendant_closes front ps back p e) h = h
Step-IsHeld (descendant_ends front ps back e) h = h

Steps-IsHeld : {may_fail : Bool} {w v : World} → Steps may_fail w v → IsHeld w → IsHeld v
Steps-IsHeld stay h = h
Steps-IsHeld (more r s) h = Step-IsHeld s (Steps-IsHeld r h)

-- Facts of a world in which the children have ended.
child_writes-ended :
    (p : ℕ) (cs : List Child) → All (λ c. is_running c ≡ false) cs → child_writes p cs ≡ false
unfolding child_writes
child_writes-ended p [] h = refl
child_writes-ended p (c ∷ cs) h = ground (arith, h.0, child_writes-ended p cs h.1)

beside-is_taken : (c : Child) (r : Waited) → is_taken (beside c r) ≡ is_taken r
unfolding beside is_taken
beside-is_taken c blocks = refl
beside-is_taken c (takes st cs) = refl
beside-is_taken c no_child = refl

waitpid_one-ended :
    (pid : ℕ) (cs : List Child)
    → All (λ c. is_running c ≡ false) cs
    → 1 ≤ count_pid pid cs
    → is_taken (waitpid_one pid cs) ≡ true
unfolding waitpid_one count_pid is_taken is_running
waitpid_one-ended pid [] h k = absurd (omega arith)
waitpid_one-ended pid (c ∷ cs) h k =
    ground (arith, h.0, beside-is_taken c (waitpid_one pid cs), waitpid_one-ended pid cs h.1)

closed_pipes : (q : ℕ) (ss : List Stage) → All (λ s. open_pipe s ≡ none) ss → openers q ss ≡ 0
unfolding weigh is_own
closed_pipes q [] h = refl
closed_pipes q (s ∷ ss) h = omega (arith, ap (is_own q) h.0, closed_pipes q ss h.1)

All-of_get {ℓ κ} :
    {A : Type ℓ} (P : A → Type κ) (xs : List A)
    → ((i : ℕ) (x : A) → get_elem? xs i ≡ some x → P x)
    → All P xs
All-of_get P [] h = tt
All-of_get P (x ∷ xs) h = (h zero x refl, All-of_get P xs (λ i. h (suc i)))

can_go_on-at :
    (w : World) (i : ℕ) (s : Stage)
    → Inv w.children w.threads
    → IsHeld w
    → All (λ c. is_running c ≡ false) w.children
    → w.descendants ≡ []
    → All (λ x. open_pipe x ≡ none) w.threads
    → get_elem? w.threads i ≡ some s
    → can_go_on w s ≡ true
unfolding can_go_on at_end descendant_writes waitpid own is_own is_served
can_go_on-at w i starts v h c d o e = refl
can_go_on-at w i (piped p) v h c d o e = refl
can_go_on-at w i (forked p pid) v h c d o e = refl
can_go_on-at w i (ended st) v h c d o e = refl
can_go_on-at w i (reads p pid) v h c d o e = elim (Bool-cases (contains p w.open_pipes)) [
  | inl open' ↦ absurd (omega (arith, h p open', closed_pipes p w.threads o))
  | inr shut ↦ rw (shut, child_writes-ended p w.children c, d) refl
]
can_go_on-at w i (waits none) v h c d o e =
    absurd (cc (All-get (λ x. is_served x ≡ true) w.threads i (waits none) v.served e))
can_go_on-at w i (waits (some pid)) v h c d o e =
    let mine : is_own pid (some pid) ≡ 1 = ground arith in
    waitpid_one-ended pid w.children c (
      omega (
        arith,
        mine,
        v.matched pid,
        weigh-ge (λ x. is_own pid (own x)) w.threads i (waits (some pid)) e,
      ))

booted-IsHeld : (n : ℕ) → IsHeld (worker n)
unfolding worker contains
booted-IsHeld n q c = absurd (cc)

-- In every interleaving in which no fork fails, when all children and all processes that these
-- have forked have ended and no thread is between its pipe and its close of the write end, no
-- thread is held up: each read of a pipe is at its end, and each waitpid finds its child.
pub Steps-can_go_on :
    (n : ℕ) (w : World)
    → Steps false (worker n) w
    → All (λ c. is_running c ≡ false) w.children
    → w.descendants ≡ []
    → All (λ s. open_pipe s ≡ none) w.threads
    → All (λ s. can_go_on w s ≡ true) w.threads
unfolding worker
Steps-can_go_on n w r c d o =
    let v : Inv w.children w.threads = Steps-Inv r (all_start-Inv n) in
    let h : IsHeld w = Steps-IsHeld r (booted-IsHeld n) in
    All-of_get (λ s. can_go_on w s ≡ true) w.threads (λ i s. can_go_on-at w i s v h c d o)
