-- ===== src/NetUtils/Frame.antt =====
-- `send_msg` and `recv_msg` of net_utils.c: frames on the wire.
use socket_project.Prelude.{
  ℕ, ◌+◌, ◌≤◌, ◌<◌, ◌≡◌, refl, sym, ◌∙◌, Bool, true, false, some, ◌++◌, append_assoc, append-nil,
  arith, [], ◌∷◌, ltb, length, take, take-all, length-append, take-append_le, take-append_add,
}
use mathlib.Core.Path.{subst₂}
use socket_project.Wire.{Bytes, header_size, header_bytes, read_header, new_header}
use socket_project.Wire.Codec.{length-header_bytes, read_header-new_header}
use socket_project.NetUtils.{
  Socket, Io, M, done, failed, blocked, ◌>>◌, bind-eq_of_done, return, send_all, recv_all, send_msg,
  send_payload, recv_msg, recv_payload, max_payload,
}
use socket_project.NetUtils.Send.{ready, Sent, send_all-Sent, send_all-ready}
use socket_project.NetUtils.Recv.{recv_all-ready}

-- A message as bytes.
unfoldable pub frame : ℕ → Bytes → Bytes
frame type payload = header_bytes (new_header type (length payload)) ++ payload

pub length-frame : (type : ℕ) (p : Bytes) → length (frame type p) ≡ header_size + length p
unfolding frame
length-frame type p = omega (
  arith,
  length-append (header_bytes (new_header type (length p))) p,
  length-header_bytes (new_header type (length p)),
)

Sent-append_left :
    (a b out inc : Bytes) (m : ℕ) (t : Socket)
    → m < length a
    → t.outgoing ≡ out ++ take m a
    → t.incoming ≡ inc
    → (k : ℕ) × (k < length (a ++ b)) × (t.outgoing ≡ out ++ take k (a ++ b)) × (t.incoming ≡ inc)
Sent-append_left a b out inc m t h o i =
    (m, omega (arith, length-append a b), rw (take-append_le m a b (omega arith)) o, i)

Sent-append_right :
    (a b out inc : Bytes) (r : Io (Unit {0})) → Sent b (out ++ a) inc r → Sent (a ++ b) out inc r
Sent-append_right a b out inc (done _ t) (o, i) = (rw (← append_assoc out a b) o, i)
Sent-append_right a b out inc (failed t) (m, h, o, i) = (
  length a + m,
  omega (arith, length-append a b),
  rw (take-append_add m a b, ← append_assoc out a (take m b)) o,
  i,
)
Sent-append_right a b out inc (blocked t) (m, h, o, i) = (
  length a + m,
  omega (arith, length-append a b),
  rw (take-append_add m a b, ← append_assoc out a (take m b)) o,
  i,
)

-- Two sends in a row.
Sent->> :
    (a b out inc : Bytes) (r : Io (Unit {0})) (k : M (Unit {0})) (s : Socket)
    → Sent a out inc r
    → ((t : Socket) → Sent b t.outgoing t.incoming (k t))
    → Sent (a ++ b) out inc (◌>>◌ (λ _. r) k s)
Sent->> a b out inc (done _ t) k s (o, i) next =
    Sent-append_right a b out inc (k t) (subst₂ (λ u v. Sent b u v (k t)) o i (next t))
Sent->> a b out inc (failed t) k s (m, h, o, i) next = Sent-append_left a b out inc m t h o i
Sent->> a b out inc (blocked t) k s (m, h, o, i) next = Sent-append_left a b out inc m t h o i

some_payload : (b : ℕ) (p : Bytes) → ltb 0 (length (b ∷ p)) ≡ true
some_payload b p = ground arith

send_payload-Sent :
    (p : Bytes) (s : Socket) → Sent p s.outgoing s.incoming (send_payload (some p) (length p) s)
unfolding send_payload
send_payload-Sent [] s = (sym (append-nil s.outgoing), refl)
send_payload-Sent (b ∷ p) s =
    rw (some_payload b p, take-all (length p) p (omega arith)) (send_all-Sent (b ∷ p) s)

-- For every sequence of kernel answers, send_msg with a payload of the given length returns 0 only
-- after header and payload are on the wire in order; after -1, or while it waits, a proper prefix
-- of the frame is; and it reads nothing.
pub send_msg-Sent :
    (type : ℕ) (p : Bytes) (s : Socket)
    → Sent (frame type p) s.outgoing s.incoming (send_msg type (some p) (length p) s)
unfolding send_msg frame
send_msg-Sent type p s =
    let hdr = header_bytes (new_header type (length p)) in
    Sent->> hdr p s.outgoing s.incoming (send_all hdr s) (send_payload (some p) (length p)) s
      (send_all-Sent hdr s) (send_payload-Sent p)

send_payload-ready :
    (p : Bytes) (s : Socket)
    → length p ≤ ready s.calls
    → (t : Socket) × (send_payload (some p) (length p) s ≡ done tt t)
      × (ready s.calls ≤ ready t.calls + length p)
unfolding send_payload
send_payload-ready [] s h = (s, refl, omega arith)
send_payload-ready (b ∷ p) s h =
    let (t, e, _, _, r) = send_all-ready (b ∷ p) s h in
    rw (some_payload b p, take-all (length p) p (omega arith)) (t, e, r)

-- send_msg returns 0 with the whole frame on the wire whenever as many calls of the kernel move
-- bytes, interruptions aside, as the frame has bytes.
pub send_msg-ready :
    (type : ℕ) (p : Bytes) (s : Socket)
    → header_size + length p ≤ ready s.calls
    → (t : Socket) × (send_msg type (some p) (length p) s ≡ done tt t)
      × (t.outgoing ≡ s.outgoing ++ frame type p)
      × (t.incoming ≡ s.incoming)
      × (ready s.calls ≤ ready t.calls + (header_size + length p))
unfolding send_msg
send_msg-ready type p s h =
    let hdr = header_bytes (new_header type (length p)) in
    let l = length-header_bytes (new_header type (length p)) in
    let (u, eu, _, _, ru) = send_all-ready hdr s (omega arith) in
    let (t, et, rt) = send_payload-ready p u (omega arith) in
    let e : send_msg type (some p) (length p) s ≡ done tt t =
      bind-eq_of_done (send_all hdr) (λ _. send_payload (some p) (length p)) s eu et in
    let w : Sent (frame type p) s.outgoing s.incoming (done tt t) =
      rw e at (send_msg-Sent type p s) in
    (t, e, w.0, w.1, omega arith)

fits : (n : ℕ) → n ≤ max_payload → ltb max_payload n ≡ false
fits n h = ground arith

recv_payload-ready :
    (malloc : ℕ → Bool) (type : ℕ) (p more : Bytes) (s : Socket)
    → length p ≤ max_payload
    → malloc (length p + 1) ≡ true
    → s.incoming ≡ p ++ more
    → length p ≤ ready s.calls
    → (t : Socket) × (recv_payload malloc type (length p) s
        ≡ done (record { type = type; payload = p }) t)
      × (t.incoming ≡ more)
      × (t.outgoing ≡ s.outgoing)
      × (ready s.calls ≤ ready t.calls + length p)
unfolding recv_payload
recv_payload-ready malloc type [] more s hp room i h = (s, refl, i, refl, omega arith)
recv_payload-ready malloc type (b ∷ p) more s hp room i h =
    let (t, e, it, ot, r) = recv_all-ready (length (b ∷ p)) (b ∷ p) more s refl i h in
    let e' =
      bind-eq_of_done (recv_all (length (b ∷ p)))
        (λ payload. return (record { type = type; payload = payload })) s e refl in
    (t, rw (some_payload b p, fits (length (b ∷ p)) hp, room) e', it, ot, r)

-- A frame at the front of the stream is received, and what follows it stays.
pub recv_msg-frame :
    (malloc : ℕ → Bool) (type : ℕ) (p more : Bytes) (s : Socket)
    → type < 256
    → length p ≤ max_payload
    → malloc (length p + 1) ≡ true
    → s.incoming ≡ frame type p ++ more
    → header_size + length p ≤ ready s.calls
    → (t : Socket) × (recv_msg malloc s ≡ done (record { type = type; payload = p }) t)
      × (t.incoming ≡ more)
      × (t.outgoing ≡ s.outgoing)
      × (ready s.calls ≤ ready t.calls + (header_size + length p))
unfolding recv_msg frame new_header
recv_msg-frame malloc type p more s ht hp room i h =
    let hdr = header_bytes (new_header type (length p)) in
    let l = length-header_bytes (new_header type (length p)) in
    let (u, eu, iu, ou, ru) =
      recv_all-ready header_size hdr (p ++ more) s l (i ∙ append_assoc hdr p more) (omega arith) in
    let (t, et, it, ot, rt) = recv_payload-ready malloc type p more u hp room iu (omega arith) in
    let rh : read_header hdr ≡ new_header type (length p) =
      rw append-nil at (read_header-new_header type (length p) [] ht (omega arith)) in
    (t, bind-eq_of_done (recv_all header_size) _ s eu (rw rh et), it, ot ∙ ou, omega arith)
