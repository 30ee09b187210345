-- ===== src/Session.antt =====
-- Both ends of one task: dispatcher.c sends it over a connection, worker.c receives, compiles and runs
-- it, and dispatcher.c prints what comes back.
pub mod Whole
pub mod Tests
use socket_project.Prelude.{
  ℕ, ◌+◌, ◌≤◌, ◌<◌, ◌^◌, ◌≡◌, refl, ap, sym, ◌∙◌, Bool, true, false, some, [], ◌++◌, append-nil,
  arith, ◌==◌, length,
}
use socket_project.Wire.{Bytes, header_size, msg_task_file}
use socket_project.NetUtils.{Socket, Io, done, send_msg, recv_msg, Message}
use socket_project.NetUtils.Send.{ready}
use socket_project.NetUtils.RoundTrip.{recv_msg-send_msg}
use socket_project.Worker.{
  Task, Env, Host, exit_code, parse_task, handle_task, handle_connection, compile_and_stream,
}
use socket_project.Worker.Compile.{compile_and_stream_runs, compiled, Flows, cost, Ran}
use socket_project.Dispatcher.{Reception, returned, task_payload, send_task_file, receive_output}
use socket_project.Dispatcher.TaskFile.{
  IsTask, length-task_payload, parse_task-task_payload, send_task_file-eq,
}
use socket_project.Dispatcher.Output.{Allocates, receive_output-Ran}

-- A fresh connection: `c'` is the dispatcher's end after it has sent the task, `w` the worker's end,
-- to which those bytes come.
-- The worker's handler gets the very file that was submitted.
handle_connection-send_task_file :
    (malloc malloc' : ℕ → Bool) (env : Env) (h : Host) (t : Task) (c c' w : Socket)
    → IsTask t
    → malloc (length (task_payload t)) ≡ true
    → malloc' (length (task_payload t) + 1) ≡ true
    → send_task_file malloc t c ≡ done tt c'
    → c'.outgoing ≡ c.outgoing ++ w.incoming
    → header_size + length (task_payload t) ≤ ready w.calls
    → (w' : Socket) × (handle_connection env malloc' h w ≡ compile_and_stream env t.file_data h w')
      × (w'.incoming ≡ [])
      × (w'.outgoing ≡ w.outgoing)
      × (ready w.calls ≤ ready w'.calls + (header_size + length (task_payload t)))
unfolding handle_connection handle_task
handle_connection-send_task_file malloc malloc' env h t c c' w it m m' sent link room =
    let sent' = ap (λ f. f c) (send_task_file-eq malloc t it m) in
    let (w', e, i, o, r) =
      recv_msg-send_msg malloc' msg_task_file (task_payload t) [] c c' w (omega arith)
        (length-task_payload t it).1 m' (sym sent' ∙ sent) (append-nil c'.outgoing ∙ link) room in
    (w', rw (e, handle_connection, parse_task-task_payload t it), i, o, r)

-- A task over a fresh connection, end to end: when the dispatcher has sent a task with a name
-- under 256 bytes and at most 4 MB, the worker gets those bytes, memory can be had, the source
-- file opens, the pipe is made, gcc exits with 0, both children's output is read to its end and
-- the kernel serves enough calls, then the worker's handler returns, and a dispatcher that
-- receives what the handler sent returns the program's exit code after writing the compiler's
-- output and then the program's output.
pub receive_output-handle_connection :
    (malloc malloc' : ℕ → Bool) (env : Env) (h : Host) (t : Task) (c c' w : Socket)
    → IsTask t
    → malloc (length (task_payload t)) ≡ true
    → Allocates malloc
    → malloc' (length (task_payload t) + 1) ≡ true
    → send_task_file malloc t c ≡ done tt c'
    → c'.outgoing ≡ c.outgoing ++ w.incoming
    → env.opens ≡ true
    → env.pipes ≡ true
    → let (gcc, binary) = compiled env t.file_data h.binary in
      let program = env.exec binary in
      let code = exit_code (program.status false) in
      exit_code (gcc.status false) ≡ 0
      → Flows gcc
      → Flows program
      → code < 2 ^ 32
      → header_size + length (task_payload t) + (cost gcc + cost program + header_size + 4)
        ≤ ready w.calls
      → (h' : Host) × (w' : Socket) × (sent : Bytes) × (handle_connection env malloc' h w
          ≡ done h' w')
        × (w'.outgoing ≡ w.outgoing ++ sent)
        × ((r : Socket)
            → r.incoming ≡ sent
            → length sent ≤ ready r.calls
            → (r' : Socket) × (receive_output malloc r
                ≡ returned code (gcc.output ++ program.output) r'))
receive_output-handle_connection malloc malloc' env h t c c' w it m al m' sent link o p z fg fp hc
      room =
    let (u, e, _, ou, ru) =
      handle_connection-send_task_file malloc malloc' env h t c c' w it m m' sent link
        (omega arith) in
    let (h', w', out, ec, oc, ran) =
      compile_and_stream_runs env t.file_data h u o p z fg fp (omega arith) in
    (
      h',
      w',
      out,
      e ∙ ec,
      oc ∙ ap (λ x. x ++ out) ou,
      λ r i k.
          let (r', er, _) =
            receive_output-Ran malloc _ out [] _ r al hc ran (i ∙ sym (append-nil out)) k in
          (r', er),
    )
