-- ===== src/NetUtils/RoundTrip.antt =====
-- What `send_msg` writes, `recv_msg` reads (net_utils.c).
use socket_project.Prelude.{
  ℕ, ◌+◌, ◌≤◌, ◌<◌, ◌≡◌, sym, ◌∙◌, Bool, true, some, ◌++◌, append_assoc, length, append_cancel,
}
use socket_project.Wire.{Bytes, header_size}
use socket_project.NetUtils.{Socket, done, send_msg, recv_msg, max_payload}
use socket_project.NetUtils.Send.{ready, Sent}
use socket_project.NetUtils.Frame.{frame, send_msg-Sent, recv_msg-frame}

-- When send_msg has returned 0 for a payload within the limit and the receiver's stream continues
-- with what was sent, recv_msg returns the same type and payload however the two kernels cut the
-- stream, given memory and enough calls, and leaves the stream at what follows.
pub recv_msg-send_msg :
    (malloc : ℕ → Bool) (type : ℕ) (p more : Bytes) (s t r : Socket)
    → type < 256
    → length p ≤ max_payload
    → malloc (length p + 1) ≡ true
    → send_msg type (some p) (length p) s ≡ done tt t
    → t.outgoing ++ more ≡ s.outgoing ++ r.incoming
    → header_size + length p ≤ ready r.calls
    → (r' : Socket) × (recv_msg malloc r ≡ done (record { type = type; payload = p }) r')
      × (r'.incoming ≡ more)
      × (r'.outgoing ≡ r.outgoing)
      × (ready r.calls ≤ ready r'.calls + (header_size + length p))
recv_msg-send_msg malloc type p more s t r ht hp room e link h =
    let w : Sent (frame type p) s.outgoing s.incoming (done tt t) =
      rw e at (send_msg-Sent type p s) in
    let i : r.incoming ≡ frame type p ++ more =
      append_cancel s.outgoing r.incoming (frame type p ++ more)
        (sym link ∙ rw (w.0, append_assoc s.outgoing (frame type p) more)) in
    recv_msg-frame malloc type p more r ht hp room i h
