-- ===== src/Acceptor/Connections/Lost.antt =====
-- A connection of the worker whose thread cannot be made.
use socket_project.Prelude.{
  arith, ℕ, ◌≡◌, ap, sym, ◌∙◌, inl, inr, Bool, true, false, List, ◌∷◌, ◌++◌, leb, ◌==◌, Bool-cases,
}
use socket_project.Acceptor.{max_concurrent_tasks}
use socket_project.Processes.{without}
use socket_project.Acceptor.Connections.{
  Stage, closing, Thread, World, take_connection, close_connection, IsFree, Move, gets_no_task,
  opens_source, closes_source, pipe_fails, gcc_pipe, gcc_closes_write, gcc_ends, run_pipe,
  run_closes_write, run_ends, Step, accepts, moves, returns, opens_other, closes_other, counts,
  Steps, stay, more,
}
use socket_project.Acceptor.Connections.Once.{
  times, holds, held, held-append, times-append, times-without, times-IsFree, without_head,
}

-- Open, and no thread of the process has it.
abbrev Lost : ℕ → World → Type 0
Lost fd w = (times fd w.fds ≡ 1) × (held fd w.threads ≡ 0) × (times fd w.others ≡ 0)

new_other : (x fd : ℕ) (t : List ℕ) → IsFree x t → times fd t ≡ 1 → (x == fd) ≡ false
new_other x fd t free one = elim (Bool-cases (x == fd)) [
  | inr e ↦ e
  | inl e ↦
      let same : x ≡ fd = ground arith in
      absurd (omega (arith, ap (λ n. times n t) same, times-IsFree x t free))
]

take_connection-Lost :
    (creates : Bool) (cfd fd : ℕ) (w : World)
    → IsFree cfd w.fds
    → Lost fd w
    → Lost fd (take_connection creates cfd w)
unfolding take_connection times held holds
take_connection-Lost creates cfd fd w free (one, lost, alone) =
    let other = new_other cfd fd w.fds free one in
    elim (Bool-cases (leb max_concurrent_tasks w.active_tasks)) [
      | inl full ↦ rw (full, without_head cfd w.fds free) (one, lost, alone)
      | inr room ↦ elim (Bool-cases creates) [
        | inl c ↦ rw (room, c, other) (omega arith, omega arith, alone)
        | inr c ↦ rw (room, c, other) (omega arith, lost, alone)
      ]
    ]

-- A thread does not touch what it does not have.
Move-Lost :
    (fd : ℕ) {t t' : List ℕ} {s s' : Stage}
    → Move t s t' s'
    → times fd t ≡ 1
    → times fd (holds s) ≡ 0
    → (times fd t' ≡ 1) × (times fd (holds s') ≡ 0)
unfolding times holds
Move-Lost fd gets_no_task one h = (one, h)
Move-Lost fd (opens_source {t} f free) one h =
    rw (new_other f fd t free one) (omega arith, omega arith)
Move-Lost fd (closes_source {t} {f}) one h = rw (times-without fd f t) (ground arith)
Move-Lost fd pipe_fails one h = (one, h)
Move-Lost fd (gcc_pipe {t} r w free free') one h =
    let not_r = new_other r fd t free one in
    let not_w = new_other w fd (r ∷ t) free' (rw not_r (omega arith)) in
    rw (not_r, not_w) (omega arith, omega arith)
Move-Lost fd (gcc_closes_write {t} {r} {w}) one h = rw (times-without fd w t) (ground arith)
Move-Lost fd (gcc_ends {t} {r} code) one h = elim (Bool-cases (code == 0)) [
  | inl ok ↦ rw (times-without fd r t, ok) (ground arith)
  | inr bad ↦ rw (times-without fd r t, bad) (ground arith)
]
Move-Lost fd (run_pipe {t} r w free free') one h =
    let not_r = new_other r fd t free one in
    let not_w = new_other w fd (r ∷ t) free' (rw not_r (omega arith)) in
    rw (not_r, not_w) (omega arith, omega arith)
Move-Lost fd (run_closes_write {t} {r} {w}) one h = rw (times-without fd w t) (ground arith)
Move-Lost fd (run_ends {t} {r}) one h = rw (times-without fd r t) (ground arith)

moves-Lost :
    (t t' : List ℕ) (front : List Thread) (cfd : ℕ) (s s' : Stage) (back : List Thread) (fd : ℕ)
    → Move t s t' s'
    → times fd t ≡ 1
    → held fd (front ++ record { cfd = cfd; stage = s } ∷ back) ≡ 0
    → (times fd t' ≡ 1) × (held fd (front ++ record { cfd = cfd; stage = s' } ∷ back) ≡ 0)
unfolding held times
moves-Lost t t' front cfd s s' back fd m one lost =
    let was = held-append fd front (record { cfd = cfd; stage = s } ∷ back) in
    let is = held-append fd front (record { cfd = cfd; stage = s' } ∷ back) in
    let (one', lost') = Move-Lost fd m one (omega (arith, was)) in (one', omega (arith, was, is))

returns-Lost :
    (t : List ℕ) (front : List Thread) (cfd : ℕ) (back : List Thread) (fd : ℕ)
    → times fd t ≡ 1
    → held fd (front ++ record { cfd = cfd; stage = closing } ∷ back) ≡ 0
    → (times fd (without cfd t) ≡ 1) × (held fd (front ++ back) ≡ 0)
unfolding held holds times
returns-Lost t front cfd back fd one lost =
    let was = held-append fd front (record { cfd = cfd; stage = closing } ∷ back) in
    let is = held-append fd front back in rw (times-without fd cfd t) (ground (arith, was, is))

closes_other-Lost :
    (t front : List ℕ) (n : ℕ) (back : List ℕ) (fd : ℕ)
    → times fd t ≡ 1
    → times fd (front ++ n ∷ back) ≡ 0
    → (times fd (without n t) ≡ 1) × (times fd (front ++ back) ≡ 0)
unfolding times
closes_other-Lost t front n back fd one alone =
    let was = times-append fd front (n ∷ back) in
    let is = times-append fd front back in rw (times-without fd n t) (ground (arith, was, is))

Step-Lost : (created : ℕ → Bool) (fd : ℕ) {w v : World} → Step created w v → Lost fd w → Lost fd v
unfolding close_connection times
Step-Lost created fd (accepts {w} cfd free) l = take_connection-Lost (created cfd) cfd fd w free l
Step-Lost created fd (moves {w} front cfd s s' back fds e m) l =
    let (one, lost) =
      moves-Lost w.fds fds front cfd s s' back fd m l.0 (ap (held fd) (sym e) ∙ l.1) in
    (one, lost, l.2)
Step-Lost created fd (returns {w} front cfd back e) l =
    let (one, lost) = returns-Lost w.fds front cfd back fd l.0 (ap (held fd) (sym e) ∙ l.1) in
    (one, lost, l.2)
Step-Lost created fd (opens_other {w} n free) l =
    rw (new_other n fd w.fds free l.0) (omega (arith, l.0), l.1, omega (arith, l.2))
Step-Lost created fd (closes_other {w} front n back e) l =
    let (one, alone) = closes_other-Lost w.fds front n back fd l.0 (ap (times fd) (sym e) ∙ l.2) in
    (one, l.1, alone)
Step-Lost created fd (counts n) l = l

Steps-Lost : (created : ℕ → Bool) (fd : ℕ) {w v : World} → Steps created w v → Lost fd w → Lost fd v
Steps-Lost created fd stay l = l
Steps-Lost created fd (more ss s) l = Step-Lost created fd s (Steps-Lost created fd ss l)

-- A connection that accept_loop takes below the task limit, with a new number that nothing in the
-- process has, and for which pthread_create fails stays open for good: no interleaving of what
-- comes after, in the worker or in the process's other threads, closes it.
pub take_connection_lost :
    (created : ℕ → Bool) (cfd : ℕ) (w v : World)
    → created cfd ≡ false
    → leb max_concurrent_tasks w.active_tasks ≡ false
    → IsFree cfd w.fds
    → held cfd w.threads ≡ 0
    → times cfd w.others ≡ 0
    → Steps created (take_connection (created cfd) cfd w) v
    → times cfd v.fds ≡ 1
unfolding take_connection times
take_connection_lost created cfd w v fails room free none_has alone ss =
    let here : (cfd == cfd) ≡ true = ground arith in
    let new : Lost cfd (take_connection (created cfd) cfd w) =
      rw (fails, room, here) (omega (arith, times-IsFree cfd w.fds free), none_has, alone) in
    (Steps-Lost created cfd ss new).0
