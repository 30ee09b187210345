-- ===== src/Worker/Talk.antt =====
-- stream_and_wait of worker.c: what the client has been sent when it leaves its loop.
use mathlib.Core.Path.{subst}
use socket_project.Prelude.{
  ℕ, min, ◌≡◌, refl, ◌∙◌, sym, ap, ◌⊎◌, true, inl, inr, some, List, [], ◌∷◌, ◌++◌, append-nil,
  append_assoc, arith, ◌==◌, Bool-cases, length, take, drop, All, All-append, length-take,
  take-append-drop,
}
use socket_project.Wire.{Bytes, be32, msg_output, msg_task_done}
use socket_project.NetUtils.{
  Outcome, moves, fails, eintr, Socket, Io, done, failed, blocked, send_msg,
}
use socket_project.NetUtils.Send.{Sent}
use socket_project.NetUtils.Frame.{frame, send_msg-Sent}
use socket_project.NetUtils.Sticky.{Dead, Sticky, Ends, send_msg-Sticky, send_msg-Dead}
use socket_project.Worker.{Streamed, ended, waits, stream_loop, output_buf_size}
use socket_project.Worker.Stream.{output_frames, output_frames-append, IsChunk}

-- What went out so far is the front of a talk: frames of output, each of 1 to 4096 bytes, then one
-- exit code.
pub record Talks (out : Bytes) (t : Socket) : Type 0 where
  pub chunks : List Bytes
  pub bounded : All IsChunk chunks
  pub code : ℕ
  pub sent : Bytes
  pub rest : Bytes
  pub bytes : t.outgoing ≡ out ++ sent
  pub whole : sent ++ rest ≡ output_frames chunks ++ frame msg_task_done (be32 code)

-- What went out is whole frames of output, and the connection has not failed.
pub record Live (out : Bytes) (t : Socket) : Type 0 where
  pub chunks : List Bytes
  pub bounded : All IsChunk chunks
  pub bytes : t.outgoing ≡ out ++ output_frames chunks
  pub sticky : Sticky t.calls

abbrev pub State : Bytes → Socket → Type 0
State out t = Live out t ⊎ (Talks out t × Dead t.calls)

Live-Talks : (out : Bytes) (t : Socket) → Live out t → Talks out t
Live-Talks out t l = record {
  chunks = l.chunks;
  bounded = l.bounded;
  code = 0;
  sent = output_frames l.chunks;
  rest = frame msg_task_done (be32 0);
  bytes = l.bytes;
  whole = refl;
}

pub State-Talks : (out : Bytes) (t : Socket) → State out t → Talks out t
State-Talks out t (inl l) = Live-Talks out t l
State-Talks out t (inr (c, d)) = c

-- A socket to which the same bytes were sent.
pub Talks-same : (out : Bytes) (s t : Socket) → Talks out s → t.outgoing ≡ s.outgoing → Talks out t
Talks-same out s t c e = record {
  chunks = c.chunks;
  bounded = c.bounded;
  code = c.code;
  sent = c.sent;
  rest = c.rest;
  bytes = e ∙ c.bytes;
  whole = c.whole;
}

regroup : (a b c d : Bytes) → (a ++ b) ++ (c ++ d) ≡ (a ++ (b ++ c)) ++ d
regroup a b c d = simp (append_assoc)

output_frames_snoc :
    (cs : List Bytes) (c : Bytes)
    → output_frames (cs ++ (c ∷ [])) ≡ output_frames cs ++ frame msg_output c
unfolding output_frames
output_frames_snoc cs c =
    output_frames-append cs (c ∷ [])
    ∙ ap (◌++◌ (output_frames cs)) (append-nil (frame msg_output c))

-- Whole frames, and the front of one more frame of output.
Talks-cut :
    (out : Bytes) (s t : Socket) (l : Live out s) (c : Bytes) (m : ℕ)
    → IsChunk c
    → t.outgoing ≡ s.outgoing ++ take m (frame msg_output c)
    → Talks out t
unfolding output_frames
Talks-cut out s t l c m b e = record {
  chunks = l.chunks ++ (c ∷ []);
  bounded = All-append IsChunk l.chunks (c ∷ []) l.bounded (b, tt);
  code = 0;
  sent = output_frames l.chunks ++ take m (frame msg_output c);
  rest = drop m (frame msg_output c) ++ frame msg_task_done (be32 0);
  bytes = e ∙ ap (λ u. u ++ take m (frame msg_output c)) l.bytes ∙ append_assoc out _ _;
  whole =
      regroup (output_frames l.chunks) (take m (frame msg_output c)) (drop m (frame msg_output c))
        (frame msg_task_done (be32 0))
      ∙ ap (λ u. (output_frames l.chunks ++ u) ++ frame msg_task_done (be32 0))
          (take-append-drop m (frame msg_output c))
      ∙ ap (λ u. u ++ frame msg_task_done (be32 0)) (sym (output_frames_snoc l.chunks c));
}

Live-snoc :
    (out : Bytes) (s t : Socket) (l : Live out s) (c : Bytes)
    → IsChunk c
    → t.outgoing ≡ s.outgoing ++ frame msg_output c
    → Sticky t.calls
    → Live out t
Live-snoc out s t l c b e h = record {
  chunks = l.chunks ++ (c ∷ []);
  bounded = All-append IsChunk l.chunks (c ∷ []) l.bounded (b, tt);
  bytes =
      e
      ∙ ap (λ u. u ++ frame msg_output c) l.bytes
      ∙ append_assoc out _ _
      ∙ ap (◌++◌ out) (sym (output_frames_snoc l.chunks c));
  sticky = h;
}

Sent-chunk :
    (out : Bytes) (s : Socket) (l : Live out s) (c : Bytes) (r : Io (Unit {0}))
    → IsChunk c
    → Sent (frame msg_output c) s.outgoing s.incoming r
    → Ends (λ t. Sticky t.calls) (λ t. Dead t.calls) (λ t. Unit {0}) r
    → Ends (State out) (State out) (Talks out) r
Sent-chunk out s l c (done _ t) b (e, i) h = inl (Live-snoc out s t l c b e h)
Sent-chunk out s l c (failed t) b (m, k, e, i) h = inr (Talks-cut out s t l c m b e, h)
Sent-chunk out s l c (blocked t) b (m, k, e, i) h = Talks-cut out s t l c m b e

Ends-Dead :
    (out : Bytes) (s : Socket) (r : Io (Unit {0}))
    → Talks out s
    → Ends (λ t. ⊥) (λ t. (t.outgoing ≡ s.outgoing) × Dead t.calls) (λ t. t.outgoing ≡ s.outgoing) r
    → Ends (State out) (State out) (Talks out) r
Ends-Dead out s (done _ t) c h = absurd h
Ends-Dead out s (failed t) c (e, d) = inr (Talks-same out s t c e, d)
Ends-Dead out s (blocked t) c e = Talks-same out s t c e

send_chunk-State :
    (out : Bytes) (n : ℕ) (output : Bytes) (s : Socket)
    → State out s
    → IsChunk (take n output)
    → length (take n output) ≡ n
    → Ends (State out) (State out) (Talks out) (send_msg msg_output (some (take n output)) n s)
send_chunk-State out n output s (inl l) b e =
    let c = take n output in
    subst (λ m. Ends (State out) (State out) (Talks out) (send_msg msg_output (some c) m s)) e
      (Sent-chunk out s l c (send_msg msg_output (some c) (length c) s) b
        (send_msg-Sent msg_output c s) (send_msg-Sticky msg_output (some c) (length c) s l.sticky))
send_chunk-State out n output s (inr (c, d)) b e =
    Ends-Dead out s (send_msg msg_output (some (take n output)) n s) c
      (send_msg-Dead msg_output (some (take n output)) n s d)

abbrev pub Leaves : Bytes → Streamed → Type 0
Leaves out (ended killed t) = State out t
Leaves out (waits t) = Talks out t

after_chunk :
    (out : Bytes) (r : Io (Unit {0})) (next : Socket → Streamed)
    → Ends (State out) (State out) (Talks out) r
    → ((t : Socket) → State out t → Leaves out (next t))
    → Leaves out
        (elim r [ done _ s' ↦ next s' | failed s' ↦ ended true s' | blocked s' ↦ waits s' ])
after_chunk out (done _ t) next h k = k t h
after_chunk out (failed t) next h k = h
after_chunk out (blocked t) next h k = h

pub stream_loop-Leaves :
    (os : List Outcome) (out output : Bytes) (s : Socket)
    → State out s
    → Leaves out (stream_loop output os s)
unfolding stream_loop
stream_loop-Leaves [] out output s h = State-Talks out s h
stream_loop-Leaves (fails errno ∷ os) out output s h = elim (Bool-cases (errno == eintr)) [
  | inl again ↦ rw (again, stream_loop) (stream_loop-Leaves os out output s h)
  | inr fatal ↦ rw (fatal, stream_loop) h
]
stream_loop-Leaves (moves k ∷ os) out output s h =
    let n = min k (min output_buf_size (length output)) in
    elim (Bool-cases (n == 0)) [
      | inl end ↦ rw (end, stream_loop) h
      | inr more ↦
          let l : length (take n output) ≡ n = omega (arith, length-take n output) in
          let b : IsChunk (take n output) = (ground arith, omega arith) in
          rw (more, stream_loop)
            (after_chunk out (send_msg msg_output (some (take n output)) n s)
              (λ t. stream_loop (drop n output) os t) (send_chunk-State out n output s h b l)
              (λ t h'. stream_loop-Leaves os out (drop n output) t h'))
    ]
