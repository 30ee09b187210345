-- ===== src/Acceptor/Tests.antt =====
-- The interleavings of accept_loop at concrete runs.
use socket_project.Prelude.{true, ◌+◌, ◌≤◌, ◌%◌, ◌^◌, ◌≡◌, refl}
use socket_project.NetUtils.{eintr}
use socket_project.LoadMonitor.{load_task_start, load_task_done}
use socket_project.Acceptor.{
  Node, connection, error, accept_round, accepts, starts, fails_open, writes, runs, begin_task,
  fail_open, write_source, start_binary, tasks, Steps, stay, more, worker_start, anytime,
  one_by_one, max_concurrent_tasks,
}
use socket_project.Acceptor.Limit.{Steps-active_tasks, one_by_one_limit, running_unbounded}

-- Two connections at once: one source file does not open, the other task runs.
abbrev two_served : Node
two_served = record {
  load = record { active_tasks = 1; total_tasks = 2 };
  accepting = true;
  receiving = 0;
  opening = 0;
  compiling = 0;
  running = 1;
}

two_served-Steps : Steps anytime worker_start two_served
unfolding accept_round anytime load_task_start load_task_done worker_start begin_task fail_open
    write_source start_binary
two_served-Steps =
    more
      (more
        (more
          (more
            (more (more (more stay (accepts connection refl refl)) (accepts connection refl refl))
              (starts refl))
            (starts refl))
          (fails_open refl))
        (writes refl))
      (runs refl)

Steps-active_tasks_example : two_served.load.active_tasks ≡ tasks two_served % 2 ^ 32
Steps-active_tasks_example = Steps-active_tasks anytime two_served two_served-Steps

abbrev one_served : Node
one_served = record {
  load = record { active_tasks = 1; total_tasks = 1 };
  accepting = true;
  receiving = 0;
  opening = 1;
  compiling = 0;
  running = 0;
}

one_served-Steps : Steps one_by_one worker_start one_served
unfolding accept_round one_by_one load_task_start worker_start begin_task
one_served-Steps =
    more (more (more stay (accepts (error eintr) refl refl)) (accepts connection refl refl))
      (starts refl)

one_by_one_limit_example :
    (tasks one_served + one_served.receiving ≤ max_concurrent_tasks)
    × (one_served.load.active_tasks ≡ tasks one_served)
one_by_one_limit_example = one_by_one_limit one_served one_served-Steps

running_unbounded_example :
    (m : Node) × (Steps anytime worker_start m) × (m.running ≡ max_concurrent_tasks + 92)
running_unbounded_example = running_unbounded (max_concurrent_tasks + 92)
