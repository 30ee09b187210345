-- ===== src/Processes/Races.antt =====
-- What one thread's child does to another thread.
use socket_project.Prelude.{◌≡◌, refl, true, false, none, some, [], ◌∷◌}
use socket_project.Worker.{WaitStatus}
use socket_project.Processes.{
  reads, ended, World, at_end, Steps, stay, more, makes_pipe, forks, fork_fails, closes, sees_end,
  waited, wait_fails, exits, worker, all_start, pipe, fork, close_write, at_stage, to_child,
  end_child, is_running, contains, without, child_writes, descendant_writes, count_pid, waitpid,
  waitpid_one, waitpid_any,
}

-- When the fork of one of two threads fails, there is an interleaving in which its waitpid takes
-- the status of the other thread's child, whatever that is, and the other thread ends with a
-- status that was never written.
pub stolen_status :
    (st : WaitStatus)
    → (w : World) × Steps true (worker 2) w × (w.threads ≡ ended none ∷ ended (some st) ∷ [])
unfolding worker all_start pipe fork close_write at_stage to_child end_child is_running contains
    without child_writes count_pid waitpid waitpid_one waitpid_any at_end descendant_writes
stolen_status st = (
  _,
  more
      (more
        (more
          (more
            (more
              (more
                (more
                  (more
                    (more (more (more stay (makes_pipe 0 refl)) (forks 0 0 41 refl refl))
                      (closes 0 0 (some 41) refl))
                    (makes_pipe 1 refl))
                  (fork_fails 1 1 refl refl))
                (closes 1 1 none refl))
              (sees_end 1 1 none refl refl))
            (exits 41 st))
          (waited 1 none st [] refl refl))
        (sees_end 0 0 (some 41) refl refl))
      (wait_fails 0 (some 41) refl refl),
  refl,
)

-- There is an interleaving of two threads, with no failing fork, in which one thread's child has
-- ended, with any status, the worker holds no write end, and the thread's pipe still has no end,
-- since the other thread's child, which runs, has its write end too.
pub pipe_held :
    (st : WaitStatus)
    → (w : World) × Steps false (worker 2) w
      × (w.threads ≡ reads 0 (some 41) ∷ reads 1 (some 42) ∷ [])
      × (w.children
          ≡ record { pid = 41; writes = 1 ∷ 0 ∷ []; status = some st }
            ∷ record { pid = 42; writes = 1 ∷ 0 ∷ []; status = none }
            ∷ [])
      × (at_end 0 w ≡ false)
unfolding worker all_start pipe fork close_write at_stage to_child end_child is_running contains
    without child_writes descendant_writes count_pid at_end
pipe_held st = (
  _,
  more
      (more
        (more
          (more
            (more (more (more stay (makes_pipe 0 refl)) (makes_pipe 1 refl))
              (forks 1 1 42 refl refl))
            (forks 0 0 41 refl refl))
          (closes 0 0 (some 41) refl))
        (closes 1 1 (some 42) refl))
      (exits 41 st),
  refl,
  refl,
  refl,
)
