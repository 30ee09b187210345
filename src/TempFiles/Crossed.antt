-- ===== src/TempFiles/Crossed.antt =====
-- What two tasks at a time can do to one another through the shared files.
use socket_project.Prelude.{
  ℕ, ◌≡◌, refl, ap, ◌∙◌, true, Option, none, some, List, [], ◌∷◌, ◌++◌, append-nil, length, drop,
  drop-all, arith,
}
use socket_project.Wire.{Bytes}
use socket_project.NetUtils.{Socket, Io, done, failed, blocked}
use socket_project.LoadMonitor.{load_task_start}
use socket_project.Worker.{Child, Env, stream_and_wait}
use socket_project.TempFiles.{
  Disk, received, written, compiled, Thread, inode_at, set_inode, fopen_inode, fopen_disk, fwrite,
  source_bytes, after_gcc, after_run, turn, turn_of, run_turns, booted,
}

-- The thread of a task that was received.
unfoldable pub new_thread : Env → Socket → Bytes → Thread
new_thread env client contents = record {
  env = env;
  client = client;
  stage = received contents;
  ran = none;
}

-- The first thread writes its file; the second writes its own; the first compiles and runs.
abbrev pub crossing : List ℕ
crossing = 0 ∷ 0 ∷ 1 ∷ 1 ∷ 0 ∷ 0 ∷ []

-- An operating system that opens files and makes pipes.
abbrev pub willing : (Option Bytes → Option ℕ → Child × Option ℕ) → (Option ℕ → Child) → Env
willing gcc exec = record { opens = true; pipes = true; gcc = gcc; exec = exec }

-- The program that each thread executed, if it did.
unfoldable pub programs : List Thread → List (Option (Option ℕ))
programs [] = []
programs (t ∷ ts) = t.ran ∷ programs ts

rewritten : (b : Bytes) → b ++ drop (length b) [] ≡ b
rewritten b = ap (◌++◌ b) (drop-all (length b) [] (omega arith)) ∙ append-nil b

after_run-ran : (r : Io ℕ) (t : Thread) → (after_run r t).ran ≡ t.ran
unfolding after_run
after_run-ran (done code s) t = ground arith
after_run-ran (failed s) t = refl
after_run-ran (blocked s) t = refl

programs-run :
    (t u : Thread) (d : Disk)
    → programs (run_turns (0 ∷ []) (record t { stage = compiled } ∷ u ∷ []) d).0
      ≡ some d.binary ∷ u.ran ∷ []
unfolding programs run_turns turn_of turn
programs-run t u d = rw (after_run-ran _ _) refl

-- When files open, pipes are made, and gcc exits with 0 on the second of two tasks' sources, and
-- there are no files at the start, the order of turns `crossing` of the two tasks' threads makes
-- the first thread execute the program of the second task's source.
pub run_turns-crossing :
    (gcc : Option Bytes → Option ℕ → Child × Option ℕ) (exec : Option ℕ → Child)
    (first second : Bytes) (client other client' : Socket)
    → stream_and_wait (gcc (some second) none).0 client ≡ done 0 client'
    → (let env = willing gcc exec in
        programs
          (run_turns crossing
            (new_thread env client first ∷ new_thread env other second ∷ [])
            booted).0
        ≡ some (gcc (some second) none).1 ∷ none ∷ [])
unfolding run_turns turn_of turn new_thread booted fopen_disk fopen_inode fwrite inode_at set_inode
    source_bytes after_gcc
run_turns-crossing gcc exec first second client other client' g =
    ap (λ x. programs (run_turns (0 ∷ 0 ∷ []) (t ∷ u ∷ []) (disk x)).0) (rewritten second)
    ∙ ap (λ r. programs (run_turns (0 ∷ []) (after_gcc r t ∷ u ∷ []) compiled_disk).0) g
    ∙ programs-run (record t { client = client' }) u compiled_disk
  where
    t : Thread
    t = record (new_thread (willing gcc exec) client first) { stage = written }

    u : Thread
    u = record (new_thread (willing gcc exec) other second) { stage = written }

    disk : Bytes → Disk
    disk x = record booted {
      load = load_task_start (load_task_start booted.load);
      inodes = x ∷ [];
      source = some 0;
    }

    compiled_disk : Disk
    compiled_disk = record (disk second) { binary = (gcc (some second) none).1 }
