-- ===== src/Session/Tests.antt =====
-- A whole task at concrete inputs.
use socket_project.Prelude.{
  ℕ, ◌≡◌, refl, Bool, true, Option, none, some, [], ◌∷◌, arith, length, replicate,
}
use socket_project.Wire.{Bytes, header_bytes, read_header, new_header, be32, be16, of_be16, of_be32}
use socket_project.NetUtils.{
  moves, Socket, done, send_all, send_loop, send_msg, send_payload, recv_all, recv_loop, recv_msg,
  recv_payload,
}
use socket_project.PeerList.{peer_list_init}
use socket_project.Float.{toy_ops}
use socket_project.LoadMonitor.{Load, Machine, load_task_start, load_task_done}
use socket_project.Worker.{
  Host, handle_connection, handle_task, parse_task, parse_file, compile_and_stream, compile_source,
  run_binary, send_done, ignoring, stream_and_wait, stream_loop, exit_code,
}
use socket_project.Worker.Protocol.{socket_of}
use socket_project.Worker.Tests.{test_env, idle_host, run_frames}
use socket_project.Dispatcher.{
  Reply, silent, Target, self, peer, task_payload, send_task_file, returned, select_target,
  connect_target, dispatch,
}
use socket_project.Dispatcher.Tests.{small_task, small_task-IsTask}
use socket_project.Session.Whole.{dispatch-handle_connection}

abbrev always : ℕ → Bool
always n = true

abbrev task_bytes : Bytes
task_bytes = 6 ∷ 0 ∷ 0 ∷ 0 ∷ 0 ∷ 12 ∷ 0 ∷ 0 ∷ 0 ∷ 3 ∷ 97 ∷ 46 ∷ 99 ∷ 0 ∷ 0 ∷ 0 ∷ 3 ∷ 1 ∷ 2 ∷ 3 ∷ []

abbrev server : Socket
server = record { incoming = task_bytes; outgoing = []; calls = replicate 90 (moves 64) }

length-task_payload : length (task_payload small_task) ≡ 12
unfolding task_payload be32 be16
length-task_payload = refl

-- The submitter's end, to which the worker's frames come.
abbrev submitting : Socket
submitting = record { incoming = run_frames; outgoing = []; calls = replicate 80 (moves 64) }

-- The first connection fails, the one to this node works.
abbrev connect : Target → Option Socket
connect self = some submitting
connect (peer ip port) = none

-- Nobody answers the queries.
abbrev nobody : Bytes → Reply
nobody ip = silent

abbrev here : Machine
here = record { loadavg = none; processors = some 4 }

abbrev no_tasks : Load
no_tasks = record { active_tasks = 0; total_tasks = 0 }

connects : (t : Target) → connect_target connect t ≡ some submitting
unfolding connect_target
connects self = refl
connects (peer ip port) = refl

worker_sends :
    (socket_of (handle_connection test_env always idle_host server)).outgoing ≡ run_frames
unfolding handle_connection handle_task parse_task parse_file compile_and_stream compile_source
    run_binary send_done ignoring stream_and_wait stream_loop exit_code load_task_start
    load_task_done recv_msg recv_payload recv_all recv_loop read_header of_be16 of_be32 send_msg
    send_all send_loop send_payload header_bytes new_header be32
worker_sends = refl

submitter_sends : (socket_of (send_task_file always small_task submitting)).outgoing ≡ task_bytes
unfolding send_task_file task_payload send_msg send_all send_loop send_payload header_bytes
    new_header be32 be16
submitter_sends = refl

dispatch-handle_connection_example :
    (h : Host) × (w c : Socket) × (handle_connection test_env always idle_host server ≡ done h w)
    × (dispatch toy_ops nobody connect always here no_tasks small_task peer_list_init ≡ (
      returned 3 (119 ∷ 104 ∷ 105 ∷ []) c,
      (select_target toy_ops nobody here no_tasks peer_list_init).1,
    ))
unfolding exit_code
dispatch-handle_connection_example =
    dispatch-handle_connection toy_ops nobody connect always always here no_tasks peer_list_init
      test_env idle_host small_task submitting server small_task-IsTask refl (λ n h. refl) refl
      (connects _) submitter_sends worker_sends refl refl refl (omega arith) (omega arith)
      (omega arith) (omega (arith, length-task_payload)) (omega (arith, length-task_payload))
