-- ===== src/TempFiles.antt =====
-- New_socket_proj/worker.c: compile_and_stream in threads of one process, which share the two files that
-- the process id names. The threads take turns; a turn is one system call on the files, with the
-- streaming that follows it.
pub mod Files
pub mod Alone
pub mod Together
pub mod Cleanup
pub mod Crossed
pub mod Tests
use mathlib.Core.Option
use socket_project.Prelude.{
  ℕ, zero, suc, Bool, true, false, Option, none, some, List, [], ◌∷◌, ◌++◌, ◌==◌, if◌then◌else◌,
  length, drop,
}
use socket_project.Wire.{Bytes}
use socket_project.NetUtils.{Socket, Io, done, failed, blocked}
use socket_project.LoadMonitor.{Load, load_task_start, load_task_done}
use socket_project.Worker.{Child, Host, Env, stream_and_wait, send_done}

-- `source` and `binary` are what the two names stand for: an inode, and a program. An inode that lost
-- its name still takes the bytes that an open stream writes.
pub record Disk : Type 0 where
  pub load : Load
  pub inodes : List Bytes
  pub source : Option ℕ
  pub binary : Option ℕ

-- How far a thread has come, and with the bytes and the inode that it still has to write.
pub data Stage : Type 0 where
  received : Bytes → Stage
  opened : Bytes → ℕ → Stage
  written : Stage
  compiled : Stage
  refused : Stage
  executed : Stage
  source_gone : Stage
  finished : Stage
  waiting : Stage

-- `ran` records the program that the thread executed.
pub record Thread : Type 0 where
  pub env : Env
  pub client : Socket
  pub stage : Stage
  pub ran : Option (Option ℕ)

unfoldable pub inode_at : List Bytes → ℕ → Bytes
inode_at [] i = []
inode_at (b ∷ bs) zero = b
inode_at (b ∷ bs) (suc i) = inode_at bs i

unfoldable pub set_inode : List Bytes → ℕ → Bytes → List Bytes
set_inode [] i c = []
set_inode (b ∷ bs) zero c = c ∷ bs
set_inode (b ∷ bs) (suc i) c = b ∷ set_inode bs i c

-- `fopen(src_path, "wb")`: the file of that name is emptied, or a new one made.
unfoldable pub fopen_inode : Disk → ℕ
fopen_inode d = elim d.source [ some i ↦ i | none ↦ length d.inodes ]

unfoldable pub fopen_disk : Disk → Disk
fopen_disk d = elim d.source [
  | some i ↦ record d { inodes = set_inode d.inodes i [] }
  | none ↦ record d { inodes = d.inodes ++ ([] ∷ []); source = some (length d.inodes) }
]

-- `fwrite` and `fclose`: the stream writes from the start of its inode, over what is there by then.
unfoldable pub fwrite : Bytes → ℕ → Disk → Disk
fwrite contents i d = record d {
  inodes = set_inode d.inodes i (contents ++ drop (length contents) (inode_at d.inodes i));
}

unfoldable pub source_bytes : Disk → Option Bytes
source_bytes d = Option.map (inode_at d.inodes) d.source

-- The exit code of gcc decides whether the thread goes on to run the program.
unfoldable pub after_gcc : Io ℕ → Thread → Thread
after_gcc (done code s) t = elim (code == 0) [
  | true ↦ record t { client = s; stage = compiled }
  | false ↦ elim (send_done code s) [
    | done _ s' ↦ record t { client = s'; stage = refused }
    | failed s' ↦ record t { client = s'; stage = waiting }
    | blocked s' ↦ record t { client = s'; stage = waiting }
  ]
]
after_gcc (failed s) t = record t { client = s; stage = waiting }
after_gcc (blocked s) t = record t { client = s; stage = waiting }

unfoldable pub after_run : Io ℕ → Thread → Thread
after_run (done code s) t = elim (send_done code s) [
  | done _ s' ↦ record t { client = s'; stage = executed }
  | failed s' ↦ record t { client = s'; stage = waiting }
  | blocked s' ↦ record t { client = s'; stage = waiting }
]
after_run (failed s) t = record t { client = s; stage = waiting }
after_run (blocked s) t = record t { client = s; stage = waiting }

unfoldable pub close_task : Disk → Disk
close_task d = record d { load = load_task_done d.load }

-- One turn of a thread at its stage.
unfoldable pub turn : Stage → Thread → Disk → Thread × Disk
turn (received contents) t d =
    let counted = record d { load = load_task_start d.load } in
    if t.env.opens
    then (record t { stage = opened contents (fopen_inode counted) }, fopen_disk counted)
    else (record t { stage = finished }, close_task counted)
turn (opened contents i) t d = (record t { stage = written }, fwrite contents i d)
turn written t d =
    let (child, binary') = t.env.gcc (source_bytes d) d.binary in
    if t.env.pipes
    then (after_gcc (stream_and_wait child t.client) t, record d { binary = binary' })
    else (record t { stage = compiled }, d)
turn compiled t d = (
  after_run (stream_and_wait (t.env.exec d.binary) t.client) (record t { ran = some d.binary }),
  d,
)
turn refused t d = (record t { stage = finished }, close_task (record d { source = none }))
turn executed t d = (record t { stage = source_gone }, record d { source = none })
turn source_gone t d = (record t { stage = finished }, close_task (record d { binary = none }))
turn finished t d = (t, d)
turn waiting t d = (t, d)

-- The turn of the thread with this number; a number of no thread is a turn that nobody takes.
unfoldable pub turn_of : ℕ → List Thread → Disk → List Thread × Disk
turn_of k [] d = ([], d)
turn_of zero (t ∷ ts) d = let (t', d') = turn t.stage t d in (t' ∷ ts, d')
turn_of (suc k) (t ∷ ts) d = let (ts', d') = turn_of k ts d in (t ∷ ts', d')

unfoldable pub run_turns : List ℕ → List Thread → Disk → List Thread × Disk
run_turns [] ts d = (ts, d)
run_turns (k ∷ ks) ts d = let (ts', d') = turn_of k ts d in run_turns ks ts' d'

unfoldable pub booted : Disk
booted = record {
  load = record { active_tasks = 0; total_tasks = 0 };
  inodes = [];
  source = none;
  binary = none;
}

-- What a task that starts now would find.
unfoldable pub host_of : Disk → Host
host_of d = record { load = d.load; source = source_bytes d; binary = d.binary }
