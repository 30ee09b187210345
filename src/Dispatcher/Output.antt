-- ===== src/Dispatcher/Output.antt =====
-- `receive_output` of dispatcher.c: it ends, and it writes what the worker's child wrote.
use socket_project.Prelude.{
  ℕ, zero, suc, ◌+◌, ◌≤◌, ◌<◌, ◌^◌, ◌≡◌, ◌≢◌, refl, ap, sym, ◌∙◌, Bool, true, inl, inr, List, [],
  ◌∷◌, ◌⊎◌, ◌++◌, append_assoc, append-nil, arith, leb, ◌==◌, Bool-cases, length, length-append,
  All,
}
use mathlib.Core.Path.{ap₂}
use socket_project.Wire.{Bytes, be32, header_size, msg_output, msg_task_done}
use socket_project.Wire.Codec.{of_be32-be32, length-be32}
use socket_project.NetUtils.{Socket, Io, done, failed, blocked, recv_msg, Message}
use socket_project.NetUtils.Send.{ready}
use socket_project.NetUtils.Frame.{frame, length-frame, recv_msg-frame}
use socket_project.NetUtils.Guard.{recv_msg_bounds}
use socket_project.Worker.{output_buf_size}
use socket_project.Worker.Stream.{output_frames, joined, IsChunk}
use socket_project.Worker.Compile.{Ran}
use socket_project.Dispatcher.{returned, out_of_fuel, done_code, receive_loop, receive_output}

Io-cases {ℓ} :
    {A : Type ℓ} (r : Io A)
    → ((a : A) × (t : Socket) × (r ≡ done a t))
      ⊎ (((t : Socket) × (r ≡ failed t)) ⊎ ((t : Socket) × (r ≡ blocked t)))
Io-cases (done a t) = inl (a, t, refl)
Io-cases (failed t) = inr (inl (t, refl))
Io-cases (blocked t) = inr (inr (t, refl))

recv_msg_shortens :
    (malloc : ℕ → Bool) (m : Message) (s t : Socket)
    → recv_msg malloc s ≡ done m t
    → length t.incoming < length s.incoming
recv_msg_shortens malloc m s t e =
    let (hdr, l, _, _, _, i, _) = recv_msg_bounds malloc m s t e in
    omega (
      arith,
      ap length i,
      length-append hdr (m.payload ++ t.incoming),
      length-append m.payload t.incoming,
    )

receive_loop-ends :
    (fuel : ℕ) (malloc : ℕ → Bool) (out : Bytes) (s : Socket)
    → length s.incoming < fuel
    → receive_loop fuel malloc out s ≢ out_of_fuel
unfolding receive_loop
receive_loop-ends zero malloc out s h = absurd (omega arith)
receive_loop-ends (suc fuel) malloc out s h = elim (Io-cases (recv_msg malloc s)) [
  | inr (inl (t, e)) ↦ rw (e, receive_loop) (λ p. cc)
  | inr (inr (t, e)) ↦ rw (e, receive_loop) (λ p. cc)
  | inl (m, t, e) ↦ elim (Bool-cases (m.type == msg_task_done)) [
    | inl last ↦ rw (e, receive_loop, last) (λ p. cc)
    | inr more ↦
        rw (e, receive_loop, more)
          (receive_loop-ends fuel malloc _ t (omega (arith, recv_msg_shortens malloc m s t e)))
  ]
]

-- On every stream and with any answers of the kernel and of malloc, receive_output returns or
-- waits for the peer: its loop never outlasts the stream.
pub receive_output_ends : (malloc : ℕ → Bool) (s : Socket) → receive_output malloc s ≢ out_of_fuel
unfolding receive_output
receive_output_ends malloc s = receive_loop-ends (length s.incoming + 1) malloc [] s (omega arith)

-- Blocks up to the size that a worker's messages need can be had.
abbrev pub Allocates : (ℕ → Bool) → Type 0
Allocates malloc = (n : ℕ) → n ≤ output_buf_size + 1 → malloc n ≡ true

receive_loop-output :
    (fuel : ℕ) (malloc : ℕ → Bool) (out p : Bytes) (s t : Socket)
    → recv_msg malloc s ≡ done (record { type = msg_output; payload = p }) t
    → receive_loop (suc fuel) malloc out s ≡ receive_loop fuel malloc (out ++ p) t
unfolding receive_loop
receive_loop-output fuel malloc out p s t e = rw (e, receive_loop)

receive_loop-done :
    (fuel : ℕ) (malloc : ℕ → Bool) (out p : Bytes) (s t : Socket)
    → recv_msg malloc s ≡ done (record { type = msg_task_done; payload = p }) t
    → receive_loop (suc fuel) malloc out s ≡ returned (done_code p) out t
unfolding receive_loop
receive_loop-done fuel malloc out p s t e = rw (e, receive_loop)

done_code-be32 : (code : ℕ) → code < 2 ^ 32 → done_code (be32 code) ≡ code
unfolding done_code
done_code-be32 code h =
    let four : leb 4 (length (be32 code)) ≡ true = rw (length-be32 code) in
    rw four (rw append-nil at (of_be32-be32 code [] h))

receive_loop-frames :
    (chunks : List Bytes) (fuel code : ℕ) (malloc : ℕ → Bool) (out more : Bytes) (s : Socket)
    → Allocates malloc
    → All IsChunk chunks
    → code < 2 ^ 32
    → s.incoming ≡ output_frames chunks ++ (frame msg_task_done (be32 code) ++ more)
    → length (output_frames chunks) + header_size + 4 ≤ ready s.calls
    → length (output_frames chunks) < fuel
    → (t : Socket) × (receive_loop fuel malloc out s ≡ returned code (out ++ joined chunks) t)
      × (t.incoming ≡ more)
unfolding output_frames joined
receive_loop-frames chunks zero code malloc out more s al b hc i room f = absurd (omega arith)
receive_loop-frames [] (suc fuel) code malloc out more s al b hc i room f =
    let l = length-be32 code in
    let (t, e, it, _, _) =
      recv_msg-frame malloc msg_task_done (be32 code) more s (omega arith) (omega arith)
        (al (length (be32 code) + 1) (omega arith)) i (omega arith) in
    (
      t,
      receive_loop-done fuel malloc out (be32 code) s t e
          ∙ ap₂ (λ c w. returned c w t) (done_code-be32 code hc) (sym (append-nil out)),
      it,
    )
receive_loop-frames (c ∷ chunks) (suc fuel) code malloc out more s al b hc i room f =
    let rest = output_frames chunks ++ (frame msg_task_done (be32 code) ++ more) in
    let l1 = length-append (frame msg_output c) (output_frames chunks) in
    let l2 = length-frame msg_output c in
    let (u, e, iu, _, ru) =
      recv_msg-frame malloc msg_output c rest s (omega arith) (omega (arith, b.0))
        (al (length c + 1) (omega (arith, b.0)))
        (i ∙ append_assoc (frame msg_output c) (output_frames chunks) _) (omega arith) in
    let (t, et, it) =
      receive_loop-frames chunks fuel code malloc (out ++ c) more u al b.1 hc iu (omega arith)
        (omega arith) in
    (
      t,
      receive_loop-output fuel malloc out c s u e
          ∙ et
          ∙ ap (λ w. returned code w t) (append_assoc out c (joined chunks)),
      it,
    )

-- When the stream starts with the frames of a run, each of 1 to 4096 bytes, and their
-- MSG_TASK_DONE, and memory and enough calls can be had, receive_output writes the run's output in
-- order and returns its 32-bit exit code, and leaves what follows on the stream.
pub receive_output-Ran :
    (malloc : ℕ → Bool) (output sent more : Bytes) (code : ℕ) (s : Socket)
    → Allocates malloc
    → code < 2 ^ 32
    → Ran output code sent
    → s.incoming ≡ sent ++ more
    → length sent ≤ ready s.calls
    → (t : Socket) × (receive_output malloc s ≡ returned code output t) × (t.incoming ≡ more)
unfolding receive_output
receive_output-Ran malloc output sent more code s al hc r i room =
    let last = frame msg_task_done (be32 code) in
    let l : length sent ≡ length (output_frames r.chunks) + header_size + 4 = omega (
      arith,
      ap length r.bytes,
      length-append (output_frames r.chunks) last,
      length-frame msg_task_done (be32 code),
      length-be32 code,
    ) in
    let li : length s.incoming ≡ length sent + length more =
      omega (arith, ap length i, length-append sent more) in
    let (t, e, it) =
      receive_loop-frames r.chunks (length s.incoming + 1) code malloc [] more s al r.bounded hc
        (i ∙ ap (λ w. w ++ more) r.bytes ∙ append_assoc (output_frames r.chunks) last more)
        (omega arith) (omega arith) in
    (t, e ∙ ap (λ w. returned code w t) r.joins, it)
