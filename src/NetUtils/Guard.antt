-- ===== src/NetUtils/Guard.antt =====
-- `recv_msg` of net_utils.c on streams that nobody vouches for.
use socket_project.Prelude.{
  ℕ, ◌+◌, ◌≤◌, ◌<◌, ◌≡◌, ap, ◌∙◌, Bool, true, inl, inr, [], ◌++◌, arith, ltb, Bool-cases, length,
}
use socket_project.Wire.{Bytes, header_size, read_header}
use socket_project.NetUtils.{
  Socket, Io, done, return, failed, recv_all, recv_payload, recv_msg, Message, max_payload,
  bind-eq_of_done, bind-eq-done,
}
use socket_project.NetUtils.Send.{ready}
use socket_project.NetUtils.Recv.{Received, recv_all-Received, recv_all-ready}

-- A payload that `recv_payload` returns has the announced length, within the limit.
recv_payload_bounds :
    (malloc : ℕ → Bool) (type plen : ℕ) (m : Message) (s t : Socket)
    → recv_payload malloc type plen s ≡ done m t
    → (m.type ≡ type)
      × (length m.payload ≡ plen)
      × (plen ≤ max_payload)
      × (s.incoming ≡ m.payload ++ t.incoming)
      × (t.outgoing ≡ s.outgoing)
unfolding recv_payload
recv_payload_bounds malloc type plen m s t h = elim (Bool-cases (ltb 0 plen)) [
  | inr empty ↦
      let e : ◌≡◌ {A = Io Message} (done (record { type = type; payload = [] }) s) (done m t) =
        rw (empty) at h in
      ground arith
  | inl some_bytes ↦ elim (Bool-cases (ltb max_payload plen)) [
    | inl over ↦
        let e : ◌≡◌ {A = Io Message} (failed s) (done m t) = rw (some_bytes, over) at h in
        absurd (cc)
    | inr fits ↦ elim (Bool-cases (malloc (plen + 1))) [
      | inr full ↦
          let e : ◌≡◌ {A = Io Message} (failed s) (done m t) = rw (some_bytes, fits, full) at h in
          absurd (cc)
      | inl room ↦
          let (p, u, e, f) =
            bind-eq-done (recv_all plen)
              (λ payload. return (record { type = type; payload = payload })) s
              (rw (some_bytes, fits, room) at h) in
          let w : Received plen s.incoming s.outgoing (done p u) =
            rw e at (recv_all-Received plen s) in
          ground arith
    ]
  ]
]

-- Whatever the stream holds, a message that recv_msg returns has the type and the length that the
-- 8 bytes before it announce, its payload is within the limit of 4 MB plus 264 bytes, it was taken
-- off the stream exactly, and nothing was sent.
pub recv_msg_bounds :
    (malloc : ℕ → Bool) (m : Message) (s t : Socket)
    → recv_msg malloc s ≡ done m t
    → (hdr : Bytes) × (length hdr ≡ header_size)
      × (m.type ≡ (read_header hdr).type)
      × (length m.payload ≡ (read_header hdr).payload_len)
      × (length m.payload ≤ max_payload)
      × (s.incoming ≡ hdr ++ (m.payload ++ t.incoming))
      × (t.outgoing ≡ s.outgoing)
unfolding recv_msg
recv_msg_bounds malloc m s t h =
    let (hdr, u, eu, ep) = bind-eq-done (recv_all header_size) _ s h in
    let w : Received header_size s.incoming s.outgoing (done hdr u) =
      rw eu at (recv_all-Received header_size s) in
    let (et, el, eb, ei, eo) =
      recv_payload_bounds malloc (read_header hdr).type (read_header hdr).payload_len m u t ep in
    (hdr, w.0, et, el, omega arith, w.1 ∙ ap (◌++◌ hdr) ei, eo ∙ w.2)

-- When a header that announces more than the limit can be read, recv_msg returns -1 whatever
-- malloc would say, with the payload still unread.
pub recv_msg_oversize :
    (malloc : ℕ → Bool) (hdr more : Bytes) (s : Socket)
    → length hdr ≡ header_size
    → s.incoming ≡ hdr ++ more
    → max_payload < (read_header hdr).payload_len
    → header_size ≤ ready s.calls
    → (t : Socket) × (recv_msg malloc s ≡ failed t)
      × (t.incoming ≡ more)
      × (t.outgoing ≡ s.outgoing)
unfolding recv_msg recv_payload
recv_msg_oversize malloc hdr more s l i big h =
    let (u, eu, iu, ou, _) = recv_all-ready header_size hdr more s l i h in
    let positive : ltb 0 (read_header hdr).payload_len ≡ true = ground arith in
    let over : ltb max_payload (read_header hdr).payload_len ≡ true = ground arith in
    (u, bind-eq_of_done (recv_all header_size) _ s eu (rw (positive, over)), iu, ou)
