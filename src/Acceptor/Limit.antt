-- ===== src/Acceptor/Limit.antt =====
-- The task limit of accept_loop in worker.c, over every interleaving of its steps.
use socket_project.Prelude.{ℕ, zero, suc, ◌+◌, ◌%◌, ◌^◌, ◌≤◌, ◌≡◌, refl, ap, ◌∙◌, Bool, true, arith}
use socket_project.LoadMonitor.{Load, load_task_start, load_task_done}
use socket_project.Acceptor.{
  Node, Accepted, connection, error, accept_round, Step, accepts, drops, starts, fails_open, writes,
  fails_compile, runs, finishes, begin_task, fail_open, write_source, fail_compile, start_binary,
  end_task, tasks, Steps, stay, more, worker_start, anytime, one_by_one, max_concurrent_tasks,
}

-- The active count is the number of threads in compile_and_stream.
unfoldable pub IsCounted : Node → Type 0
IsCounted n = n.load.active_tasks ≡ tasks n % 2 ^ 32

start_counted :
    (l : Load) (k : ℕ)
    → l.active_tasks ≡ k % 2 ^ 32
    → (load_task_start l).active_tasks ≡ suc k % 2 ^ 32
unfolding load_task_start
start_counted l k h = ground arith

done_counted :
    (l : Load) (k : ℕ)
    → l.active_tasks ≡ suc k % 2 ^ 32
    → (load_task_done l).active_tasks ≡ k % 2 ^ 32
unfolding load_task_done
done_counted l k h = ground arith

accept_round-IsCounted : (a : Accepted) (n : Node) → IsCounted n → IsCounted (accept_round a n)
unfolding IsCounted accept_round tasks
accept_round-IsCounted (error e) n h = ground arith
accept_round-IsCounted connection n h = ground arith

Step-IsCounted : {may : Node → Bool} {n m : Node} → Step may n m → IsCounted n → IsCounted m
unfolding IsCounted tasks begin_task fail_open write_source fail_compile start_binary end_task
Step-IsCounted (accepts {n} a e f) h = accept_round-IsCounted a n h
Step-IsCounted (drops e) h = h
Step-IsCounted (starts {n} e) h =
    start_counted n.load (tasks n) h ∙ ap (λ k. k % 2 ^ 32) (omega arith)
Step-IsCounted (fails_open {n} {k} e) h =
    done_counted n.load (k + n.compiling + n.running) (h ∙ ap (λ j. j % 2 ^ 32) (omega arith))
Step-IsCounted (writes {n} {k} e) h = h ∙ ap (λ j. j % 2 ^ 32) (omega arith)
Step-IsCounted (fails_compile {n} {k} e) h =
    done_counted n.load (n.opening + k + n.running) (h ∙ ap (λ j. j % 2 ^ 32) (omega arith))
Step-IsCounted (runs {n} {k} e) h = h ∙ ap (λ j. j % 2 ^ 32) (omega arith)
Step-IsCounted (finishes {n} {k} e) h =
    done_counted n.load (n.opening + n.compiling + k) (h ∙ ap (λ j. j % 2 ^ 32) (omega arith))

Steps-IsCounted_from : {may : Node → Bool} {n m : Node} → Steps may n m → IsCounted n → IsCounted m
Steps-IsCounted_from stay h = h
Steps-IsCounted_from (more r s) h = Step-IsCounted s (Steps-IsCounted_from r h)

worker_start-IsCounted : IsCounted worker_start
unfolding IsCounted tasks worker_start
worker_start-IsCounted = refl

-- In every interleaving of accept_loop with the connection threads, whenever clients connect,
-- whether source files open, and whether programs compile, the active task count is the number of
-- threads in compile_and_stream modulo 2^32.
pub Steps-active_tasks :
    (may : Node → Bool) (n : Node)
    → Steps may worker_start n
    → n.load.active_tasks ≡ tasks n % 2 ^ 32
unfolding IsCounted
Steps-active_tasks may n r = Steps-IsCounted_from r worker_start-IsCounted

abbrev IsLimited : Node → Type 0
IsLimited n = (IsCounted n) × (tasks n + n.receiving ≤ max_concurrent_tasks)

accept_round-limit :
    (a : Accepted) (n : Node)
    → one_by_one n ≡ true
    → IsLimited n
    → tasks (accept_round a n) + (accept_round a n).receiving ≤ max_concurrent_tasks
unfolding IsCounted accept_round one_by_one tasks
accept_round-limit (error e) n f h = ground arith
accept_round-limit connection n f h = ground arith

Step-IsLimited : {n m : Node} → Step one_by_one n m → IsLimited n → IsLimited m
unfolding tasks begin_task fail_open write_source fail_compile start_binary end_task
Step-IsLimited s h = (Step-IsCounted s h.0, bound s h)
  where
    bound :
        {n m : Node}
        → Step one_by_one n m
        → IsLimited n
        → tasks m + m.receiving ≤ max_concurrent_tasks
    bound (accepts {n} a e f) h = accept_round-limit a n f h
    bound (drops e) h = omega arith
    bound (starts e) h = omega arith
    bound (fails_open e) h = omega arith
    bound (writes e) h = omega arith
    bound (fails_compile e) h = omega arith
    bound (runs e) h = omega arith
    bound (finishes e) h = omega arith

Steps-IsLimited : {n m : Node} → Steps one_by_one n m → IsLimited n → IsLimited m
Steps-IsLimited stay h = h
Steps-IsLimited (more r s) h = Step-IsLimited s (Steps-IsLimited r h)

-- When clients connect only while no connection waits for its task, every interleaving of
-- accept_loop with the connection threads keeps the threads in compile_and_stream and the
-- connections before it at most 8 together, and the active task count is the number of threads in
-- compile_and_stream.
pub one_by_one_limit :
    (n : Node)
    → Steps one_by_one worker_start n
    → (tasks n + n.receiving ≤ max_concurrent_tasks) × (n.load.active_tasks ≡ tasks n)
unfolding worker_start IsCounted tasks
one_by_one_limit n r =
    let h : IsLimited n = Steps-IsLimited r (refl, omega arith) in (h.1, h.0 ∙ omega (arith, h.1))

-- The node after `r` connections were accepted and none was served.
abbrev crowd : ℕ → Node
crowd r = record {
  load = record { active_tasks = 0; total_tasks = 0 };
  accepting = true;
  receiving = r;
  opening = 0;
  compiling = 0;
  running = 0;
}

gather : (r : ℕ) → Steps anytime (crowd 0) (crowd r)
unfolding accept_round anytime
gather zero = stay
gather (suc r) = more (gather r) (accepts connection refl refl)

Steps-trans : {may : Node → Bool} {a b c : Node} → Steps may a b → Steps may b c → Steps may a c
Steps-trans r stay = r
Steps-trans r (more s x) = more (Steps-trans r s) x

-- One connection's task, until its binary runs.
served : ℕ → Node → Node
served r n = start_binary n.compiling (write_source n.opening (begin_task r n))

serve_one : (r : ℕ) (n : Node) → n.receiving ≡ suc r → Steps anytime n (served r n)
unfolding served begin_task write_source
serve_one r n e = more (more (more stay (starts e)) (writes refl)) (runs refl)

serve_all :
    (r : ℕ) (n : Node)
    → n.receiving ≡ r
    → (m : Node) × (Steps anytime n m) × (m.running ≡ r + n.running)
unfolding served begin_task write_source start_binary
serve_all zero n e = (n, stay, omega arith)
serve_all (suc r) n e =
    let (m, s, h) = serve_all r (served r n) refl in
    (m, Steps-trans (serve_one r n e) s, h ∙ omega arith)

-- When clients connect at any time, any number of tasks can come to run at once, since accept_loop
-- counts no connection before its task was received.
pub running_unbounded : (n : ℕ) → (m : Node) × (Steps anytime worker_start m) × (m.running ≡ n)
unfolding worker_start
running_unbounded n =
    let (m, s, h) = serve_all n (crowd n) refl in (m, Steps-trans (gather n) s, h ∙ omega arith)
