-- ===== src/Worker/Protocol.antt =====
-- What a client of worker.c can be sent, whatever arrives and whatever the operating system answers.
use mathlib.Core.Path.{subst}
use socket_project.Prelude.{
  ℕ, ◌≡◌, refl, ◌∙◌, sym, ap, Bool, true, false, inl, inr, Option, none, some, [], ◌++◌, append-nil,
  append_assoc, ◌==◌, if◌then◌else◌, Bool-cases, length, drop, take-append-drop,
}
use socket_project.Wire.{Bytes, be32, msg_task_done, msg_task_file}
use socket_project.Wire.Codec.{length-be32}
use socket_project.NetUtils.{Socket, Io, M, done, failed, blocked, send_msg, recv_msg, Message}
use socket_project.NetUtils.Send.{Sent}
use socket_project.NetUtils.Frame.{frame, send_msg-Sent}
use socket_project.NetUtils.Sticky.{Dead, Sticky, Ends, Ends->>=, send_msg-Dead, recv_msg-Sticky}
use socket_project.Worker.{
  Child, Streamed, ended, waits, stream_loop, stream_and_wait, exit_code, Host, Env, Task, ignoring,
  send_done, run_binary, compile_source, compile_and_stream, handle_task, handle_connection,
  parse_task,
}
use socket_project.Worker.Stream.{output_frames}
use socket_project.Worker.Talk.{
  Talks, Live, State, State-Talks, Talks-same, Leaves, stream_loop-Leaves,
}

abbrev Final : {A : Type 0} → Bytes → Io A → Type 0
Final out r = Ends (Talks out) (Talks out) (Talks out) r

stream_and_wait-State :
    (child : Child) (out : Bytes) (s : Socket)
    → State out s
    → Ends (State out) (Talks out) (Talks out) (stream_and_wait child s)
unfolding stream_and_wait
stream_and_wait-State child out s h =
    go (stream_loop child.output child.calls s)
      (stream_loop-Leaves child.calls out child.output s h)
  where
    go :
        (r : Streamed)
        → Leaves out r
        → Ends (State out) (Talks out) (Talks out) (elim r [
          | ended killed s' ↦ done (exit_code (child.status killed)) s'
          | waits s' ↦ blocked s'
        ])
    go (ended killed t) k = k
    go (waits t) k = k

-- Frames of output and the front of the last frame.
Talks-last :
    (out : Bytes) (s t : Socket) (l : Live out s) (code : ℕ) (x y : Bytes)
    → x ++ y ≡ frame msg_task_done (be32 code)
    → t.outgoing ≡ s.outgoing ++ x
    → Talks out t
Talks-last out s t l code x y e o = record {
  chunks = l.chunks;
  bounded = l.bounded;
  code = code;
  sent = output_frames l.chunks ++ x;
  rest = y;
  bytes = o ∙ ap (λ u. u ++ x) l.bytes ∙ append_assoc out _ _;
  whole = append_assoc (output_frames l.chunks) x y ∙ ap (◌++◌ (output_frames l.chunks)) e;
}

Sent-last :
    (out : Bytes) (s : Socket) (l : Live out s) (code : ℕ) (r : Io (Unit {0}))
    → Sent (frame msg_task_done (be32 code)) s.outgoing s.incoming r
    → Final out r
Sent-last out s l code (done _ t) (e, i) =
    Talks-last out s t l code (frame msg_task_done (be32 code)) [] (append-nil _) e
Sent-last out s l code (failed t) (m, k, e, i) =
    Talks-last out s t l code _ (drop m (frame msg_task_done (be32 code)))
      (take-append-drop m (frame msg_task_done (be32 code))) e
Sent-last out s l code (blocked t) (m, k, e, i) =
    Talks-last out s t l code _ (drop m (frame msg_task_done (be32 code)))
      (take-append-drop m (frame msg_task_done (be32 code))) e

Final-Dead :
    (out : Bytes) (s : Socket) (r : Io (Unit {0}))
    → Talks out s
    → Ends (λ t. ⊥) (λ t. (t.outgoing ≡ s.outgoing) × Dead t.calls) (λ t. t.outgoing ≡ s.outgoing) r
    → Final out r
Final-Dead out s (done _ t) c h = absurd h
Final-Dead out s (failed t) c (e, d) = Talks-same out s t c e
Final-Dead out s (blocked t) c e = Talks-same out s t c e

ignoring-Final :
    (out : Bytes) (m : M (Unit {0})) (s : Socket) → Final out (m s) → Final out (ignoring m s)
unfolding ignoring
ignoring-Final out m s h = go (m s) h
  where
    go :
        (r : Io (Unit {0}))
        → Final out r
        → Final {A = Unit {0}} out
            (elim r [ done _ s' ↦ done tt s' | failed s' ↦ done tt s' | blocked s' ↦ blocked s' ])
    go (done _ t) k = k
    go (failed t) k = k
    go (blocked t) k = k

send_done-Final : (code : ℕ) (out : Bytes) (s : Socket) → State out s → Final out (send_done code s)
unfolding send_done
send_done-Final code out s h =
    ignoring-Final out (send_msg msg_task_done (some (be32 code)) 4) s (elim h [
      | inl l ↦
          subst (λ n. Final out (send_msg msg_task_done (some (be32 code)) n s)) (length-be32 code)
            (Sent-last out s l code
              (send_msg msg_task_done (some (be32 code)) (length (be32 code)) s)
              (send_msg-Sent msg_task_done (be32 code) s))
      | inr (c, d) ↦
          Final-Dead out s (send_msg msg_task_done (some (be32 code)) 4 s) c
            (send_msg-Dead msg_task_done (some (be32 code)) 4 s d)
    ])

run_binary-Final :
    (env : Env) (h : Host) (out : Bytes) (s : Socket) → State out s → Final out (run_binary env h s)
unfolding run_binary
run_binary-Final env h out s k =
    Ends->>= (State out) (Talks out) (Talks out) (Talks out) (stream_and_wait (env.exec h.binary)) _
      s (stream_and_wait-State (env.exec h.binary) out s k)
      (λ code t k'.
        Ends->>= (Talks out) (Talks out) (Talks out) (Talks out) (send_done code) _ t
          (send_done-Final code out t k') (λ a u k''. k''))

compile_source-Final :
    (env : Env) (h : Host) (out : Bytes) (s : Socket)
    → State out s
    → Final out (compile_source env h s)
unfolding compile_source
compile_source-Final env h out s k =
    let compiled = env.gcc h.source h.binary in
    Ends->>= (State out) (Talks out) (Talks out) (Talks out) (stream_and_wait compiled.0) _ s
      (stream_and_wait-State compiled.0 out s k)
      (λ code t k'. elim (Bool-cases (code == 0)) [
        | inl ok ↦ rw ok (run_binary-Final env (record h { binary = compiled.1 }) out t k')
        | inr bad ↦ rw bad (
            Ends->>= (Talks out) (Talks out) (Talks out) (Talks out) (send_done code) _ t
              (send_done-Final code out t k') (λ a u k''. k''))
      ])

either-Final :
    {A : Type 0} (b : Bool) (m m' : M A) (out : Bytes) (s : Socket)
    → Final out (m s)
    → Final out (m' s)
    → Final out ((if b then m else m') s)
either-Final true m m' out s h h' = h
either-Final false m m' out s h h' = h'

compile_and_stream-Final :
    (env : Env) (contents : Bytes) (h : Host) (out : Bytes) (s : Socket)
    → State out s
    → Final out (compile_and_stream env contents h s)
unfolding compile_and_stream
compile_and_stream-Final env contents h out s k =
    either-Final env.opens _ _ out s
      (either-Final env.pipes _ _ out s (compile_source-Final env _ out s k)
        (run_binary-Final env _ out s k))
      (State-Talks out s k)

handle_task-Final :
    (env : Env) (task : Option Task) (h : Host) (out : Bytes) (s : Socket)
    → State out s
    → Final out (handle_task env task h s)
unfolding handle_task
handle_task-Final env none h out s k = State-Talks out s k
handle_task-Final env (some t) h out s k = compile_and_stream-Final env t.file_data h out s k

unspoken : (out : Bytes) (t : Socket) → t.outgoing ≡ out → Sticky t.calls → State out t
unfolding output_frames
unspoken out t e h =
    inl (record { chunks = []; bounded = tt; bytes = e ∙ sym (append-nil out); sticky = h })

silent : (out : Bytes) (t : Socket) → t.outgoing ≡ out → Talks out t
unfolding output_frames
silent out t e = record {
  chunks = [];
  bounded = tt;
  code = 0;
  sent = [];
  rest = frame msg_task_done (be32 0);
  bytes = e ∙ sym (append-nil out);
  whole = refl;
}

-- The socket when the handler has returned or waits.
abbrev pub socket_of {ℓ} : {A : Type ℓ} → Io A → Socket
socket_of (done a t) = t
socket_of (failed t) = t
socket_of (blocked t) = t

Final-Talks : {A : Type 0} (out : Bytes) (r : Io A) → Final out r → Talks out (socket_of r)
Final-Talks out (done a t) h = h
Final-Talks out (failed t) h = h
Final-Talks out (blocked t) h = h

-- Whatever a client sends, and whatever the file system, gcc and the programs do, when a worker's
-- handler has returned or waits, what it sent is the front of a talk: MSG_OUTPUT frames of 1 to
-- 4096 bytes, then one MSG_TASK_DONE with an exit code. The connection stays failed once a call on
-- it failed.
pub handle_connection-Talks :
    (env : Env) (malloc : ℕ → Bool) (h : Host) (s : Socket)
    → Sticky s.calls
    → Talks s.outgoing (socket_of (handle_connection env malloc h s))
unfolding handle_connection
handle_connection-Talks env malloc h s k =
    Final-Talks s.outgoing (handle_connection env malloc h s)
      (go (recv_msg malloc s) (recv_msg-Sticky malloc s k))
  where
    go :
        (r : Io Message)
        → Ends
            (λ t. (t.outgoing ≡ s.outgoing) × Sticky t.calls)
            (λ t. t.outgoing ≡ s.outgoing)
            (λ t. t.outgoing ≡ s.outgoing)
            r
        → Final s.outgoing (elim r [
          | failed s' ↦ done h s'
          | blocked s' ↦ blocked s'
          | done m s' ↦
              if m.type == msg_task_file
              then handle_task env (parse_task m.payload (length m.payload)) h s'
              else done h s'
        ])
    go (failed t) e = silent s.outgoing t e
    go (blocked t) e = silent s.outgoing t e
    go (done m t) (e, q) = elim (Bool-cases (m.type == msg_task_file)) [
      | inl file ↦ rw file (
          handle_task-Final env (parse_task m.payload (length m.payload)) h s.outgoing t
            (unspoken s.outgoing t e q))
      | inr other ↦ rw other (silent s.outgoing t e)
    ]
