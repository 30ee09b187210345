-- ===== src/Processes/Tests.antt =====
-- Two threads, of which one has run a child.
use socket_project.Prelude.{ℕ, ◌≤◌, ◌≡◌, refl, true, false, none, some, [], ◌∷◌, All}
use socket_project.Worker.{exited}
use socket_project.Processes.{
  starts, reads, ended, World, at_end, count_pid, Steps, stay, more, makes_pipe, forks, closes,
  exits, worker, all_start, pipe, fork, close_write, at_stage, to_child, end_child, is_running,
  without,
}
use socket_project.Processes.Counts.{owners, is_served}
use socket_project.Processes.Own.{Steps-served}
use socket_project.Processes.Progress.{can_go_on, open_pipe, Steps-can_go_on}
use socket_project.Processes.Races.{stolen_status, pipe_held}

abbrev over : World
over = record {
  children = record { pid = 41; writes = 0 ∷ []; status = some (exited 3) } ∷ [];
  descendants = [];
  open_pipes = [];
  next_pipe = 1;
  threads = reads 0 (some 41) ∷ starts ∷ [];
}

over-Steps : Steps false (worker 2) over
unfolding worker all_start pipe fork close_write at_stage to_child end_child is_running without
    count_pid
over-Steps =
    more
      (more (more (more stay (makes_pipe 0 refl)) (forks 0 0 41 refl refl))
        (closes 0 0 (some 41) refl))
      (exits 41 (exited 3))

Steps-served_example :
    All (λ s. is_served s ≡ true) over.threads
    × ((pid : ℕ)
        → (count_pid pid over.children ≡ owners pid over.threads)
          × (count_pid pid over.children ≤ 1))
Steps-served_example = Steps-served 2 over over-Steps

Steps-can_go_on_example : All (λ s. can_go_on over s ≡ true) over.threads
unfolding is_running open_pipe
Steps-can_go_on_example = Steps-can_go_on 2 over over-Steps (refl, tt) refl (refl, (refl, tt))

stolen_status_example :
    (w : World) × Steps true (worker 2) w × (w.threads ≡ ended none ∷ ended (some (exited 3)) ∷ [])
stolen_status_example = stolen_status (exited 3)

pipe_held_example :
    (w : World) × Steps false (worker 2) w
    × (w.threads ≡ reads 0 (some 41) ∷ reads 1 (some 42) ∷ [])
    × (w.children
        ≡ record { pid = 41; writes = 1 ∷ 0 ∷ []; status = some (exited 3) }
          ∷ record { pid = 42; writes = 1 ∷ 0 ∷ []; status = none }
          ∷ [])
    × (at_end 0 w ≡ false)
pipe_held_example = pipe_held (exited 3)
