-- ===== src/Processes/Counts.antt =====
-- The children and the threads by number: what a step does to the counts.
use mathlib.Core.Path.{subst}
use socket_project.Prelude.{
  ℕ, zero, suc, ◌+◌, ◌≤◌, ◌≡◌, refl, ap, inl, inr, Bool, true, false, Option, none, some, List, [],
  ◌∷◌, ◌==◌, arith, if◌then◌else◌, get_elem?, set, Bool-cases, All,
}
use socket_project.Worker.{WaitStatus, signaled}
use socket_project.Processes.{
  Child, Stage, forked, reads, waits, ended, count_pid, is_running, end_child, to_child, Waited,
  blocks, takes, no_child, beside, waitpid_one, kill_children,
}

-- The child that the thread has forked and not waited for yet.
unfoldable pub own : Stage → Option ℕ
own (forked p pid) = pid
own (reads p pid) = pid
own (waits pid) = pid
own _ = none

unfoldable pub is_own : ℕ → Option ℕ → ℕ
is_own pid none = 0
is_own pid (some q) = if q == pid then 1 else 0

-- The sum of a number for each thread.
unfoldable pub weigh : (Stage → ℕ) → List Stage → ℕ
weigh f [] = 0
weigh f (s ∷ ss) = f s + weigh f ss

-- How many threads have the child as their own.
abbrev pub owners : ℕ → List Stage → ℕ
owners pid = weigh (λ s. is_own pid (own s))

-- A thread that has a child and a status where it should.
unfoldable pub is_served : Stage → Bool
is_served (forked p none) = false
is_served (reads p none) = false
is_served (waits none) = false
is_served (ended none) = false
is_served _ = true

pub weigh-set :
    (f : Stage → ℕ) (ss : List Stage) (i : ℕ) (s s' : Stage)
    → get_elem? ss i ≡ some s
    → weigh f (set ss i s') + f s ≡ weigh f ss + f s'
unfolding weigh
weigh-set f [] i s s' h = absurd (cc)
weigh-set f (x ∷ ss) zero s s' h =
    let e : x ≡ s = cc in let k : f x ≡ f s = ap f e in omega (arith, k)
weigh-set f (x ∷ ss) (suc i) s s' h = omega (arith, weigh-set f ss i s s' h)

pub weigh-ge :
    (f : Stage → ℕ) (ss : List Stage) (i : ℕ) (s : Stage)
    → get_elem? ss i ≡ some s
    → f s ≤ weigh f ss
unfolding weigh
weigh-ge f [] i s h = absurd (cc)
weigh-ge f (x ∷ ss) zero s h = let e : x ≡ s = cc in let k : f x ≡ f s = ap f e in omega (arith, k)
weigh-ge f (x ∷ ss) (suc i) s h = omega (arith, weigh-ge f ss i s h)

some_injective {ℓ} : {A : Type ℓ} {x y : A} → some x ≡ some y → x ≡ y
some_injective e = cc

pub All-set {ℓ κ} :
    {A : Type ℓ} (P : A → Type κ) (xs : List A) (i : ℕ) (x : A)
    → All P xs
    → P x
    → All P (set xs i x)
All-set P [] i x h k = h
All-set P (y ∷ xs) zero x h k = (k, h.1)
All-set P (y ∷ xs) (suc i) x h k = (h.0, All-set P xs i x h.1 k)

pub All-get {ℓ κ} :
    {A : Type ℓ} (P : A → Type κ) (xs : List A) (i : ℕ) (x : A)
    → All P xs
    → get_elem? xs i ≡ some x
    → P x
All-get P [] i x h e = absurd (cc)
All-get P (y ∷ xs) zero x h e = subst P (some_injective e) h.0
All-get P (y ∷ xs) (suc i) x h e = All-get P xs i x h.1 e

-- Changes of a child that keep its pid.
abbrev pub KeepsPid : (Child → Child) → Type 0
KeepsPid f = (c : Child) → (f c).pid ≡ c.pid

pub count-to_child :
    (pid q : ℕ) (f : Child → Child) (cs : List Child)
    → KeepsPid f
    → count_pid q (to_child pid f cs) ≡ count_pid q cs
unfolding count_pid to_child
count-to_child pid q f [] h = refl
count-to_child pid q f (c ∷ cs) h = ground (arith, h c, count-to_child pid q f cs h)

pub end_child-KeepsPid : (st : WaitStatus) → KeepsPid (end_child st)
unfolding end_child is_running
end_child-KeepsPid st c = ground arith

pub count-kill_children :
    (pid : Option ℕ) (q : ℕ) (cs : List Child) → count_pid q (kill_children pid cs) ≡ count_pid q cs
unfolding count_pid kill_children
count-kill_children (some pid) q cs =
    count-to_child pid q (end_child (signaled 9)) cs (end_child-KeepsPid (signaled 9))
count-kill_children none q [] = refl
count-kill_children none q (c ∷ cs) =
    ground (arith, end_child-KeepsPid (signaled 9) c, count-kill_children none q cs)

-- What waitpid takes out of the table.
abbrev pub Takes : ℕ → List Child → Waited → Type 0
Takes pid cs blocks = Unit {0}
Takes pid cs (takes st cs') = (q : ℕ) → count_pid q cs' + is_own q (some pid) ≡ count_pid q cs
Takes pid cs no_child = count_pid pid cs ≡ 0

beside-Takes :
    (pid : ℕ) (c : Child) (cs : List Child) (r : Waited)
    → (c.pid == pid) ≡ false
    → Takes pid cs r
    → Takes pid (c ∷ cs) (beside c r)
unfolding beside count_pid
beside-Takes pid c cs blocks e h = tt
beside-Takes pid c cs (takes st cs') e h = λ q. omega (arith, h q)
beside-Takes pid c cs no_child e h = ground arith

pub waitpid_one-Takes : (pid : ℕ) (cs : List Child) → Takes pid cs (waitpid_one pid cs)
unfolding waitpid_one count_pid is_own
waitpid_one-Takes pid [] = refl
waitpid_one-Takes pid (c ∷ cs) = elim (Bool-cases (c.pid == pid)) [
  | inr miss ↦
      rw (miss, waitpid_one)
        (beside-Takes pid c cs (waitpid_one pid cs) miss (waitpid_one-Takes pid cs))
  | inl hit ↦ rw (hit, waitpid_one) (go hit c.status)
]
  where
    go :
        (c.pid == pid) ≡ true
        → (o : Option WaitStatus)
        → Takes pid (c ∷ cs) (elim o [ none ↦ blocks | some st ↦ takes st cs ])
    go hit none = tt
    go hit (some st) = λ q. ground arith
