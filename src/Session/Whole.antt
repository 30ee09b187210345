-- ===== src/Session/Whole.antt =====
-- `dispatch` of dispatcher.c and `handle_connection` of worker.c at the two ends of one connection.
use socket_project.Prelude.{
  ℕ, ◌+◌, ◌≤◌, ◌<◌, ◌^◌, ◌≡◌, ap, sym, ◌∙◌, Bool, true, false, Option, some, ◌++◌, append_cancel,
  arith, length,
}
use socket_project.Wire.{Bytes, header_size, msg_task_file}
use socket_project.NetUtils.{Socket, done}
use socket_project.NetUtils.Send.{ready}
use socket_project.NetUtils.Frame.{frame, send_msg-ready}
use socket_project.PeerList.{Peers}
use socket_project.Float.{FloatOps}
use socket_project.LoadMonitor.{Load, Machine}
use socket_project.Worker.{Task, Env, Host, exit_code, handle_connection}
use socket_project.Worker.Protocol.{socket_of}
use socket_project.Worker.Compile.{compiled, Flows, cost}
use socket_project.Dispatcher.{
  Reply, Target, returned, task_payload, send_task_file, receive_output, select_target,
  connect_target, run_on, dispatch,
}
use socket_project.Dispatcher.TaskFile.{IsTask, send_task_file-eq}
use socket_project.Dispatcher.Output.{Allocates}
use socket_project.Session.{receive_output-handle_connection}

send_task_file-ready :
    (malloc : ℕ → Bool) (t : Task) (c : Socket)
    → IsTask t
    → malloc (length (task_payload t)) ≡ true
    → header_size + length (task_payload t) ≤ ready c.calls
    → (c' : Socket) × (send_task_file malloc t c ≡ done tt c')
      × (c'.outgoing ≡ c.outgoing ++ frame msg_task_file (task_payload t))
      × (c'.incoming ≡ c.incoming)
      × (ready c.calls ≤ ready c'.calls + (header_size + length (task_payload t)))
send_task_file-ready malloc t c it m room =
    let (c', e, o, i, r) = send_msg-ready msg_task_file (task_payload t) c room in
    (c', ap (λ f. f c) (send_task_file-eq malloc t it m) ∙ e, o, i, r)

run_on-sent :
    (malloc : ℕ → Bool) (t : Task) (c c' : Socket)
    → send_task_file malloc t c ≡ done tt c'
    → run_on malloc t (some c) ≡ receive_output malloc c'
unfolding run_on
run_on-sent malloc t c c' e = rw (e, run_on)

-- A task as its submitter sees it: whichever node was selected, and whether dispatch reached it or
-- fell back to this one, when the connection's other end is a worker's handler, each end receives
-- all that the other sends, the task has a name under 256 bytes and at most 4 MB, memory can be
-- had, the source file opens, the pipe is made, gcc exits with 0, both children's output is read
-- to its end and the kernel serves enough calls, then the handler returns, and dispatch returns
-- the program's exit code after writing the compiler's output and then the program's output.
pub dispatch-handle_connection :
    (f : FloatOps) (reply : Bytes → Reply) (connect : Target → Option Socket)
    (malloc malloc' : ℕ → Bool) (m : Machine) (l : Load) (g : Peers) (env : Env) (h : Host)
    (t : Task) (c w : Socket)
    → IsTask t
    → malloc (length (task_payload t)) ≡ true
    → Allocates malloc
    → malloc' (length (task_payload t) + 1) ≡ true
    → connect_target connect (select_target f reply m l g).0 ≡ some c
    → (socket_of (send_task_file malloc t c)).outgoing ≡ c.outgoing ++ w.incoming
    → (socket_of (handle_connection env malloc' h w)).outgoing ≡ w.outgoing ++ c.incoming
    → env.opens ≡ true
    → env.pipes ≡ true
    → let (gcc, binary) = compiled env t.file_data h.binary in
      let program = env.exec binary in
      let code = exit_code (program.status false) in
      exit_code (gcc.status false) ≡ 0
      → Flows gcc
      → Flows program
      → code < 2 ^ 32
      → header_size + length (task_payload t) + (cost gcc + cost program + header_size + 4)
        ≤ ready w.calls
      → header_size + length (task_payload t) + length c.incoming ≤ ready c.calls
      → (h' : Host) × (w' c' : Socket) × (handle_connection env malloc' h w ≡ done h' w')
        × (dispatch f reply connect malloc m l t g
            ≡ (returned code (gcc.output ++ program.output) c', (select_target f reply m l g).1))
unfolding dispatch
dispatch-handle_connection f reply connect malloc malloc' m l g env h t c w it ma al mb con there
      back o p z fg fp hc room room' =
    let (c', e, _, i, r) = send_task_file-ready malloc t c it ma (omega arith) in
    let (h', w', sent, ew, ow, receives) =
      receive_output-handle_connection malloc malloc' env h t c c' w it ma al mb e
        (ap (λ x. (socket_of x).outgoing) (sym e) ∙ there) o p z fg fp hc room in
    let same : c.incoming ≡ sent =
      append_cancel w.outgoing c.incoming sent
        (sym back ∙ ap (λ x. (socket_of x).outgoing) ew ∙ ow) in
    let (r', er) = receives c' (i ∙ same) (omega (arith, ap length same)) in
    (
      h',
      w',
      r',
      ew,
      ap (λ x. (x, (select_target f reply m l g).1))
          (ap (run_on malloc t) con ∙ run_on-sent malloc t c c' e ∙ er),
    )
