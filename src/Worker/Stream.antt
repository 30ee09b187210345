-- ===== src/Worker/Stream.antt =====
-- `stream_and_wait` of worker.c: what the client is sent while a child runs.
use socket_project.Prelude.{
  ℕ, zero, suc, ◌+◌, ◌*◌, ◌≤◌, ◌<◌, min, ◌≡◌, refl, ap, sym, ◌∙◌, false, inl, inr, some, List, [],
  ◌∷◌, ◌++◌, append_assoc, append-nil, arith, ◌==◌, Bool-cases, length, take, drop, All,
  take-append-drop, length-take, length-drop,
}
use mathlib.Core.Path.{subst}
use socket_project.Wire.{Bytes, msg_output, header_size}
use socket_project.NetUtils.{Outcome, moves, fails, eintr, Socket, done, send_msg}
use socket_project.NetUtils.Send.{ready}
use socket_project.NetUtils.Frame.{frame, send_msg-ready}
use socket_project.Worker.{Child, ended, output_buf_size, stream_loop, stream_and_wait, exit_code}

-- The chunks of a child's output as MSG_OUTPUT frames, and joined.
unfoldable pub output_frames : List Bytes → Bytes
output_frames [] = []
output_frames (c ∷ cs) = frame msg_output c ++ output_frames cs

unfoldable pub joined : List Bytes → Bytes
joined [] = []
joined (c ∷ cs) = c ++ joined cs

pub joined-append : (xs ys : List Bytes) → joined (xs ++ ys) ≡ joined xs ++ joined ys
unfolding joined
joined-append [] ys = refl
joined-append (x ∷ xs) ys = ap (◌++◌ x) (joined-append xs ys) ∙ sym (append_assoc x _ _)

pub output_frames-append :
    (xs ys : List Bytes) → output_frames (xs ++ ys) ≡ output_frames xs ++ output_frames ys
unfolding output_frames
output_frames-append [] ys = refl
output_frames-append (x ∷ xs) ys =
    ap (◌++◌ (frame msg_output x)) (output_frames-append xs ys)
    ∙ sym (append_assoc (frame msg_output x) _ _)

-- A chunk is never empty and never longer than the buffer.
abbrev pub IsChunk : Bytes → Type 0
IsChunk c = (1 ≤ length c) × (length c ≤ output_buf_size)

stream_step :
    (k : ℕ) (os : List Outcome) (output : Bytes) (s t : Socket)
    → let n = min k (min output_buf_size (length output)) in
      0 < n
      → send_msg msg_output (some (take n output)) n s ≡ done tt t
      → stream_loop output (moves k ∷ os) s ≡ stream_loop (drop n output) os t
unfolding stream_loop
stream_step k os output s t pos sent =
    let n = min k (min output_buf_size (length output)) in
    let more : (n == 0) ≡ false = ground arith in rw (more, stream_loop, sent)

stream_end :
    (k : ℕ) (os : List Outcome) (s : Socket) → stream_loop [] (moves k ∷ os) s ≡ ended false s
unfolding stream_loop
stream_end k os s =
    let none_left : min k (min output_buf_size 0) ≡ 0 = omega arith in rw (none_left, stream_loop)

send_chunk :
    (n : ℕ) (output : Bytes) (s : Socket)
    → n ≤ length output
    → header_size + n ≤ ready s.calls
    → (t : Socket) × (send_msg msg_output (some (take n output)) n s ≡ done tt t)
      × (t.outgoing ≡ s.outgoing ++ frame msg_output (take n output))
      × (t.incoming ≡ s.incoming)
      × (ready s.calls ≤ ready t.calls + (header_size + n))
send_chunk n output s h c =
    let l : length (take n output) ≡ n = omega (arith, length-take n output) in
    let (t, e, o, i, r) = send_msg-ready msg_output (take n output) s (omega arith) in
    (
      t,
      subst (λ m. send_msg msg_output (some (take n output)) m s ≡ done tt t) l e,
      o,
      i,
      omega arith,
    )

-- The loop went through the whole output: it sent the chunks, in order, as MSG_OUTPUT frames, read
-- nothing from the client, and left calls for what comes next.
pub record Drained (os : List Outcome) (output : Bytes) (s : Socket) : Type 0 where
  pub chunks : List Bytes
  pub final : Socket
  pub runs : stream_loop output os s ≡ ended false final
  pub joins : joined chunks ≡ output
  pub bounded : All IsChunk chunks
  pub sent : final.outgoing ≡ s.outgoing ++ output_frames chunks
  pub unread : final.incoming ≡ s.incoming
  pub left : ready s.calls ≤ ready final.calls + (header_size + 1) * length output

Drained-step :
    (os : List Outcome) (k n : ℕ) (output : Bytes) (s u : Socket)
    → stream_loop output (moves k ∷ os) s ≡ stream_loop (drop n output) os u
    → 1 ≤ n
    → n ≤ length output
    → n ≤ output_buf_size
    → u.outgoing ≡ s.outgoing ++ frame msg_output (take n output)
    → u.incoming ≡ s.incoming
    → ready s.calls ≤ ready u.calls + (header_size + n)
    → Drained os (drop n output) u
    → Drained (moves k ∷ os) output s
unfolding joined output_frames
Drained-step os k n output s u e pos inside small o i r d = record {
  chunks = take n output ∷ d.chunks;
  final = d.final;
  runs = e ∙ d.runs;
  joins = ap (◌++◌ (take n output)) d.joins ∙ take-append-drop n output;
  bounded = ((omega (arith, length-take n output), omega (arith, length-take n output)), d.bounded);
  sent =
      d.sent
      ∙ ap (λ w. w ++ output_frames d.chunks) o
      ∙ append_assoc s.outgoing (frame msg_output (take n output)) (output_frames d.chunks);
  unread = d.unread ∙ i;
  left = omega (arith, d.left, length-drop n output);
}

-- When the reads go on to the end of a child's output and the client takes it, the loop of
-- stream_and_wait ends without killing the child, and has sent the output whole and in order in
-- MSG_OUTPUT frames of 1 to 4096 bytes.
pub stream_loop-Drained :
    (os : List Outcome) (output : Bytes) (s : Socket)
    → length output < ready os
    → (header_size + 1) * length output ≤ ready s.calls
    → Drained os output s
unfolding stream_loop joined output_frames
stream_loop-Drained [] output s h c = absurd (omega arith)
stream_loop-Drained (fails errno ∷ os) output s h c = elim (Bool-cases (errno == eintr)) [
  | inl again ↦
      let d = stream_loop-Drained os output s (rw again at h) c in
      record {
        chunks = d.chunks;
        final = d.final;
        runs = rw (again, stream_loop) d.runs;
        joins = d.joins;
        bounded = d.bounded;
        sent = d.sent;
        unread = d.unread;
        left = d.left;
      }
  | inr fatal ↦ absurd (ground arith)
]
stream_loop-Drained (moves zero ∷ os) output s h c = absurd (omega arith)
stream_loop-Drained (moves (suc k) ∷ os) [] s h c = record {
  chunks = [];
  final = s;
  runs = stream_end (suc k) os s;
  joins = refl;
  bounded = tt;
  sent = sym (append-nil s.outgoing);
  unread = refl;
  left = omega arith;
}
stream_loop-Drained (moves (suc k) ∷ os) (b ∷ output) s h c =
    let n = min (suc k) (min output_buf_size (length (b ∷ output))) in
    let (u, eu, ou, iu, ru) = send_chunk n (b ∷ output) s (omega arith) (omega arith) in
    Drained-step os (suc k) n (b ∷ output) s u
      (stream_step (suc k) os (b ∷ output) s u (omega arith) eu) (omega arith) (omega arith)
      (omega arith) ou iu ru
      (stream_loop-Drained os (drop n (b ∷ output)) u (omega (arith, length-drop n (b ∷ output)))
        (omega (arith, length-drop n (b ∷ output))))

-- Then `stream_and_wait` returns the child's exit code.
pub stream_and_wait-eq :
    (child : Child) (s : Socket) (d : Drained child.calls child.output s)
    → stream_and_wait child s ≡ done (exit_code (child.status false)) d.final
unfolding stream_and_wait
stream_and_wait-eq child s d = rw (d.runs, stream_and_wait)
