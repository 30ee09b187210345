-- ===== src/TempFiles/Tests.antt =====
-- Two tasks at a time at concrete inputs.
use socket_project.Prelude.{ℕ, ◌≡◌, refl, Option, none, some, List, [], ◌∷◌, length, replicate}
use socket_project.Wire.{Bytes, header_bytes, new_header, be32}
use socket_project.NetUtils.{moves, send_all, send_loop, send_msg, send_payload}
use socket_project.LoadMonitor.{load_task_start, load_task_done}
use socket_project.Worker.{
  Child, Env, exited, stream_loop, stream_and_wait, exit_code, ignoring, send_done,
  compile_and_stream,
}
use socket_project.Worker.Tests.{greeting, client}
use socket_project.TempFiles.{
  Disk, written, Thread, inode_at, set_inode, fopen_inode, fopen_disk, fwrite, source_bytes,
  after_gcc, after_run, close_task, turn, turn_of, run_turns, booted, host_of,
}
use socket_project.TempFiles.Alone.{ending}
use socket_project.TempFiles.Together.{run_turns-compile_and_stream}
use socket_project.TempFiles.Cleanup.{is_holding, any_holding, run_turns-holding}
use socket_project.TempFiles.Crossed.{new_thread, willing, programs, crossing, run_turns-crossing}

abbrev quiet : Child
quiet = record { output = []; calls = moves 4096 ∷ []; status = λ _. exited 0 }

-- A program is the length of its source.
abbrev compiles : Option Bytes → Option ℕ → Child × Option ℕ
compiles (some source) binary = (quiet, some (length source))
compiles none binary = (quiet, none)

abbrev env : Env
env = willing compiles (λ binary. greeting)

abbrev short : Thread
short = new_thread env client (1 ∷ [])

abbrev long : Thread
long = new_thread env client (1 ∷ 2 ∷ [])

-- The long task's file is written, and the short task's turns come.
abbrev between : Disk
between = record {
  load = record { active_tasks = 1; total_tasks = 1 };
  inodes = (1 ∷ 2 ∷ []) ∷ [];
  source = some 0;
  binary = none;
}

run_turns-compile_and_stream_example :
    (t' : Thread) × (d' : Disk) × (run_turns
        (replicate 6 0)
        (short ∷ record long { stage = written } ∷ [])
        between
      ≡ (t' ∷ record long { stage = written } ∷ [], d'))
    × (ending t'.stage t' d' ≡ compile_and_stream env (1 ∷ []) (host_of between) client)
unfolding run_turns turn_of turn new_thread booted fopen_disk fopen_inode fwrite inode_at set_inode
    load_task_start
run_turns-compile_and_stream_example =
    run_turns-compile_and_stream (1 ∷ 1 ∷ []) (short ∷ long ∷ []) []
      (record long { stage = written } ∷ []) short between (1 ∷ []) refl refl

-- Both tasks to their ends, their turns taken alternately.
abbrev alternately : List ℕ
alternately = 0 ∷ 1 ∷ 0 ∷ 1 ∷ 0 ∷ 1 ∷ 0 ∷ 1 ∷ 0 ∷ 1 ∷ 0 ∷ 1 ∷ []

run_turns-holding_example : (run_turns alternately (short ∷ long ∷ []) booted).1.source ≡ none
unfolding run_turns turn_of turn new_thread booted fopen_disk fopen_inode fwrite inode_at set_inode
    source_bytes after_gcc after_run close_task any_holding is_holding load_task_start
    load_task_done stream_and_wait stream_loop exit_code send_done ignoring send_msg send_all
    send_loop send_payload header_bytes new_header be32
run_turns-holding_example = run_turns-holding alternately (short ∷ long ∷ []) refl

-- The client of the short task gets the output of the long one.
run_turns-crossing_example :
    programs (run_turns crossing (short ∷ long ∷ []) booted).0 ≡ some (some 2) ∷ none ∷ []
unfolding stream_and_wait stream_loop exit_code
run_turns-crossing_example =
    run_turns-crossing compiles (λ binary. greeting) (1 ∷ []) (1 ∷ 2 ∷ []) client client client refl
