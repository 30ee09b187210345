-- ===== src/Worker.antt =====
-- New_socket_proj/worker.c: a task file is received, compiled and run, and its output streamed back.
pub mod Stream
pub mod Compile
pub mod Talk
pub mod Protocol
pub mod Tests
use socket_project.Prelude.{
  ℕ, ◌+◌, ◌-◌, ◌≤◌, min, Bool, true, false, ◌||◌, Option, none, some, List, [], ◌∷◌, ltb, leb, ◌==◌,
  if◌then◌else◌, length, take, drop,
}
use socket_project.Wire.{
  Bytes, be32, of_be16, of_be32, max_file_size, max_filename_len, msg_task_file, msg_output,
  msg_task_done,
}
use socket_project.NetUtils.{
  Outcome, moves, fails, eintr, Socket, Io, M, done, failed, blocked, ◌>>=◌, ◌>>◌, return, send_msg,
  recv_msg,
}
use socket_project.LoadMonitor.{Load, load_task_start, load_task_done}

abbrev pub output_buf_size : ℕ
output_buf_size = 4096

-- What `waitpid` reports.
pub data WaitStatus : Type 0 where
  exited : ℕ → WaitStatus
  signaled : ℕ → WaitStatus
  other : WaitStatus

-- A child process at the pipe: all that it will write, the outcomes of the coming reads, and its
-- status, which may depend on whether it was killed.
pub record Child : Type 0 where
  pub output : Bytes
  pub calls : List Outcome
  pub status : Bool → WaitStatus

-- The loop of `stream_and_wait` ended, with the child killed or not, or waits in `read` or `send`.
pub data Streamed : Type 0 where
  ended : Bool → Socket → Streamed
  waits : Socket → Streamed

unfoldable pub stream_loop : Bytes → List Outcome → Socket → Streamed
stream_loop output [] s = waits s
stream_loop output (fails errno ∷ os) s = elim (errno == eintr) [
  | true ↦ stream_loop output os s
  | false ↦ ended false s
]
stream_loop output (moves k ∷ os) s =
    let n = min k (min output_buf_size (length output)) in
    elim (n == 0) [
      | true ↦ ended false s
      | false ↦ elim (send_msg msg_output (some (take n output)) n s) [
        | done _ s' ↦ stream_loop (drop n output) os s'
        | failed s' ↦ ended true s'
        | blocked s' ↦ waits s'
      ]
    ]

unfoldable pub exit_code : WaitStatus → ℕ
exit_code (exited code) = code
exit_code (signaled sig) = 128 + sig
exit_code other = 0

unfoldable pub stream_and_wait : Child → M ℕ
stream_and_wait child s = elim (stream_loop child.output child.calls s) [
  | ended killed s' ↦ done (exit_code (child.status killed)) s'
  | waits s' ↦ blocked s'
]

-- `filename` and `file_data` of a task.
pub record Task : Type 0 where
  pub filename : Bytes
  pub file_data : Bytes

-- The guards of `handle_connection` on a MSG_TASK_FILE payload; `none` is a `break`.
unfoldable pub parse_file : Bytes → ℕ → Bytes → ℕ → Option Task
parse_file payload plen filename offset =
    let file_len = of_be32 (drop offset payload) in
    if ltb max_file_size file_len || ltb plen (offset + 4 + file_len)
    then none
    else some
        (record { filename = filename; file_data = take file_len (drop (offset + 4) payload) })

unfoldable pub parse_task : Bytes → ℕ → Option Task
parse_task payload plen =
    let fn_len = of_be16 payload in
    if ltb plen 6
    then none
    else (if leb max_filename_len fn_len || ltb plen (2 + fn_len + 4)
        then none
        else parse_file payload plen (take fn_len (drop 2 payload)) (2 + fn_len))

-- The process's counters, and its two files: the source file's contents and the program that the
-- binary file holds. Both paths depend on the process id alone.
pub record Host : Type 0 where
  pub load : Load
  pub source : Option Bytes
  pub binary : Option ℕ

-- What the operating system answers to one task: whether the source file opens and the first pipe
-- can be made, what gcc does with the source file and the binary file, and what running does.
pub record Env : Type 0 where
  pub opens : Bool
  pub pipes : Bool
  pub gcc : Option Bytes → Option ℕ → Child × Option ℕ
  pub exec : Option ℕ → Child

-- A `send_msg` whose result is not looked at.
unfoldable pub ignoring : M (Unit {0}) → M (Unit {0})
ignoring m s = elim (m s) [
  | done _ s' ↦ done tt s'
  | failed s' ↦ done tt s'
  | blocked s' ↦ blocked s'
]

unfoldable pub send_done : ℕ → M (Unit {0})
send_done code = ignoring (send_msg msg_task_done (some (be32 code)) 4)

unfoldable pub run_binary : Env → Host → M Host
run_binary env h = do
  run_exit ← stream_and_wait (env.exec h.binary)
  send_done run_exit
  return (record { load = load_task_done h.load; source = none; binary = none })

-- The compiler's turn; what follows it is `run_binary`.
unfoldable pub compile_source : Env → Host → M Host
compile_source env h = do
  let (child, binary') = env.gcc h.source h.binary
  compile_exit ← stream_and_wait child
  elim (compile_exit == 0) [
    | true ↦ run_binary env (record h { binary = binary' })
    | false ↦
        send_done compile_exit
        >> return (record { load = load_task_done h.load; source = none; binary = binary' })
  ]

unfoldable pub compile_and_stream : Env → Bytes → Host → M Host
compile_and_stream env contents h =
    let started : Host = record h { load = load_task_start h.load } in
    if env.opens
    then (let written : Host = record started { source = some contents } in
        if env.pipes then compile_source env written else run_binary env written)
    else return (record started { load = load_task_done started.load })

-- One connection; the socket is closed at the end on every path.
unfoldable pub handle_task : Env → Option Task → Host → M Host
handle_task env none h = return h
handle_task env (some t) h = compile_and_stream env t.file_data h

unfoldable pub handle_connection : Env → (ℕ → Bool) → Host → M Host
handle_connection env malloc h s = elim (recv_msg malloc s) [
  | failed s' ↦ done h s'
  | blocked s' ↦ blocked s'
  | done m s' ↦
      if m.type == msg_task_file
      then handle_task env (parse_task m.payload (length m.payload)) h s'
      else done h s'
]
