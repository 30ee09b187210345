-- ===== src/Acceptor/Connections/Once.antt =====
-- The worker's threads close what they open.
use socket_project.Prelude.{
  arith, ℕ, ◌+◌, ◌≤◌, ◌≡◌, refl, ap, ◌∙◌, inl, inr, Bool, true, List, [], ◌∷◌, ◌++◌, leb, ◌==◌,
  if◌then◌else◌, Bool-cases,
}
use socket_project.Acceptor.{max_concurrent_tasks}
use socket_project.Processes.{contains, without}
use socket_project.Acceptor.Connections.{
  Stage, writing, gcc_piped, gcc_reads, run_piped, run_reads, closing, Thread, World,
  take_connection, IsFree, Move, gets_no_task, opens_source, closes_source, pipe_fails, gcc_pipe,
  gcc_closes_write, gcc_ends, run_pipe, run_closes_write, run_ends, Step, accepts, close_connection,
  moves, returns, opens_other, closes_other, counts, Steps, stay, more, no_connections,
}

-- How often a number stands in a list.
unfoldable pub times : ℕ → List ℕ → ℕ
times fd [] = 0
times fd (n ∷ ns) = (if n == fd then 1 else 0) + times fd ns

-- What a thread has open beside its connection.
unfoldable pub holds : Stage → List ℕ
holds (writing f) = f ∷ []
holds (gcc_piped r w) = w ∷ r ∷ []
holds (gcc_reads r) = r ∷ []
holds (run_piped r w) = w ∷ r ∷ []
holds (run_reads r) = r ∷ []
holds _ = []

-- How often a number is open in the threads, the connections included.
unfoldable pub held : ℕ → List Thread → ℕ
held fd [] = 0
held fd (x ∷ xs) = times fd (x.cfd ∷ holds x.stage) + held fd xs

pub held-append : (fd : ℕ) (xs ys : List Thread) → held fd (xs ++ ys) ≡ held fd xs + held fd ys
unfolding held
held-append fd [] ys = omega arith
held-append fd (x ∷ xs) ys = omega (arith, held-append fd xs ys)

pub times-append : (fd : ℕ) (xs ys : List ℕ) → times fd (xs ++ ys) ≡ times fd xs + times fd ys
unfolding times
times-append fd [] ys = omega arith
times-append fd (x ∷ xs) ys = omega (arith, times-append fd xs ys)

pub times-without :
    (fd x : ℕ) (ns : List ℕ) → times fd (without x ns) ≡ (if x == fd then 0 else times fd ns)
unfolding times without
times-without fd x [] = ground arith
times-without fd x (n ∷ ns) = ground (arith, times-without fd x ns)

pub times-IsFree : (fd : ℕ) (ns : List ℕ) → IsFree fd ns → times fd ns ≡ 0
unfolding times contains
times-IsFree fd [] h = refl
times-IsFree fd (n ∷ ns) h = ground (arith, times-IsFree fd ns)

without-IsFree : (x : ℕ) (ns : List ℕ) → IsFree x ns → without x ns ≡ ns
unfolding contains without
without-IsFree x [] h = refl
without-IsFree x (n ∷ ns) h = ground (arith, without-IsFree x ns)

-- A connection that is closed at once.
pub without_head : (x : ℕ) (ns : List ℕ) → IsFree x ns → without x (x ∷ ns) ≡ ns
unfolding without
without_head x ns h = ground (arith, without-IsFree x ns h)

-- With the number of openings elsewhere, `elsewhere`, a thread's step keeps the count.
abbrev Counted : ℕ → ℕ → List ℕ → Stage → Type 0
Counted elsewhere fd t s = (times fd t ≤ 1) × (times fd t ≡ elsewhere + times fd (holds s))

new_times : (x fd : ℕ) (t : List ℕ) → IsFree x t → times fd t ≤ 1 → times fd (x ∷ t) ≤ 1
unfolding times
new_times x fd t free once = elim (Bool-cases (x == fd)) [
  | inr other ↦ rw other (omega (arith, once))
  | inl same ↦
      let e : x ≡ fd = ground arith in
      rw same (omega (arith, ap (λ n. times n t) e, times-IsFree x t free))
]

Move-Counted :
    (elsewhere fd : ℕ) {t t' : List ℕ} {s s' : Stage}
    → Move t s t' s'
    → Counted elsewhere fd t s
    → Counted elsewhere fd t' s'
unfolding times holds
Move-Counted k fd gets_no_task h = h
Move-Counted k fd (opens_source {t} f free) h = (new_times f fd t free h.0, omega (arith, h.1))
Move-Counted k fd (closes_source {t} {f}) h = rw (times-without fd f t) (ground (arith, h))
Move-Counted k fd pipe_fails h = h
Move-Counted k fd (gcc_pipe {t} r w free free') h =
    (new_times w fd (r ∷ t) free' (new_times r fd t free h.0), omega (arith, h.1))
Move-Counted k fd (gcc_closes_write {t} {r} {w}) h = rw (times-without fd w t) (ground (arith, h))
Move-Counted k fd (gcc_ends {t} {r} code) h = elim (Bool-cases (code == 0)) [
  | inl ok ↦ rw (times-without fd r t, ok) (ground (arith, h))
  | inr bad ↦ rw (times-without fd r t, bad) (ground (arith, h))
]
Move-Counted k fd (run_pipe {t} r w free free') h =
    (new_times w fd (r ∷ t) free' (new_times r fd t free h.0), omega (arith, h.1))
Move-Counted k fd (run_closes_write {t} {r} {w}) h = rw (times-without fd w t) (ground (arith, h))
Move-Counted k fd (run_ends {t} {r}) h = rw (times-without fd r t) (ground (arith, h))

-- No number is open twice.
abbrev pub IsDistinct : List ℕ → Type 0
IsDistinct fds = (fd : ℕ) → times fd fds ≤ 1

-- The open descriptors are those of the other threads and what the threads of connections have open.
abbrev pub Once : World → Type 0
Once w = (fd : ℕ) → (times fd w.fds ≤ 1) × (times fd w.fds ≡ times fd w.others + held fd w.threads)

accepts-Once : (cfd : ℕ) (w : World) → IsFree cfd w.fds → Once w → Once (take_connection true cfd w)
unfolding take_connection times held holds
accepts-Once cfd w free once fd = elim (Bool-cases (leb max_concurrent_tasks w.active_tasks)) [
  | inl full ↦ rw (full, without_head cfd w.fds free) (once fd)
  | inr room ↦ rw room (new_times cfd fd w.fds free (once fd).0, omega (arith, (once fd).1))
]

moves-Once :
    (base t t' : List ℕ) (front : List Thread) (cfd : ℕ) (s s' : Stage) (back : List Thread)
    (fd : ℕ)
    → Move t s t' s'
    → times fd t ≤ 1
    → times fd t ≡ times fd base + held fd (front ++ record { cfd = cfd; stage = s } ∷ back)
    → (times fd t' ≤ 1)
      × (times fd t' ≡ times fd base + held fd (front ++ record { cfd = cfd; stage = s' } ∷ back))
unfolding held times
moves-Once base t t' front cfd s s' back fd m once count =
    let was = held-append fd front (record { cfd = cfd; stage = s } ∷ back) in
    let is = held-append fd front (record { cfd = cfd; stage = s' } ∷ back) in
    let elsewhere = times fd base + held fd front + (if cfd == fd then 1 else 0) + held fd back in
    let (one, all_of) = Move-Counted elsewhere fd m (once, omega (arith, count, was)) in
    (one, omega (arith, all_of, is))

returns-Once :
    (base t : List ℕ) (front : List Thread) (cfd : ℕ) (back : List Thread) (fd : ℕ)
    → times fd t ≤ 1
    → times fd t ≡ times fd base + held fd (front ++ record { cfd = cfd; stage = closing } ∷ back)
    → (times fd (without cfd t) ≤ 1)
      × (times fd (without cfd t) ≡ times fd base + held fd (front ++ back))
unfolding held holds times
returns-Once base t front cfd back fd once count =
    let was = held-append fd front (record { cfd = cfd; stage = closing } ∷ back) in
    let is = held-append fd front back in rw (times-without fd cfd t) (ground (arith, was, is))

-- Every thread can be made.
abbrev pub every : ℕ → Bool
every n = true

closes_other-Once :
    (t front : List ℕ) (n : ℕ) (back : List ℕ) (rest fd : ℕ)
    → times fd t ≤ 1
    → times fd t ≡ times fd (front ++ n ∷ back) + rest
    → (times fd (without n t) ≤ 1) × (times fd (without n t) ≡ times fd (front ++ back) + rest)
unfolding times
closes_other-Once t front n back rest fd once count =
    let was = times-append fd front (n ∷ back) in
    let is = times-append fd front back in rw (times-without fd n t) (ground (arith, was, is))

Step-Once : {w v : World} → Step every w v → Once w → Once v
unfolding close_connection times
Step-Once (accepts {w} cfd free) o = accepts-Once cfd w free o
Step-Once (moves {w} front cfd s s' back fds e m) o = λ fd.
    moves-Once w.others w.fds fds front cfd s s' back fd m (o fd).0
      ((o fd).1 ∙ ap (λ xs. times fd w.others + held fd xs) e)
Step-Once (returns {w} front cfd back e) o = λ fd.
    returns-Once w.others w.fds front cfd back fd (o fd).0
      ((o fd).1 ∙ ap (λ xs. times fd w.others + held fd xs) e)
Step-Once (opens_other {w} n free) o =
    λ fd. (new_times n fd w.fds free (o fd).0, omega (arith, (o fd).1))
Step-Once (closes_other {w} front n back e) o = λ fd.
    closes_other-Once w.fds front n back (held fd w.threads) fd (o fd).0
      ((o fd).1 ∙ ap (λ xs. times fd xs + held fd w.threads) e)
Step-Once (counts n) o = o

Steps-Once : {w v : World} → Steps every w v → Once w → Once v
Steps-Once stay o = o
Steps-Once (more ss s) o = Step-Once s (Steps-Once ss o)

-- When each thread can be made, and no number is open twice at the start, in every interleaving of
-- accept_loop, the threads of handle_connection and compile_and_stream, on each of their paths but
-- the one on which the second pipe fails, and whatever the process's other threads open and close,
-- and however the count of tasks goes, each open descriptor is open once, and is either one of the
-- other threads', or the connection of one thread, or the FILE or the pipe's end that this thread
-- has in use at that point; so all that was opened for a connection is closed once its thread has
-- returned.
pub no_connections-Once :
    (fds : List ℕ) (w : World) → IsDistinct fds → Steps every (no_connections fds) w → Once w
unfolding no_connections held
no_connections-Once fds w distinct ss = Steps-Once ss (λ fd. (distinct fd, omega arith))
