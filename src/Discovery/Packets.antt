-- ===== src/Discovery/Packets.antt =====
-- HELLO and BYE from one node's `send_broadcast` to another's listener.
use mathlib.Core.Option
use socket_project.Prelude.{
  ℕ, ◌+◌, ◌-◌, ◌^◌, ◌≤◌, ◌<◌, ◌≡◌, ◌≢◌, ap, sym, ◌∙◌, false, none, some, ◌++◌, arith, ltb, length,
  take, drop, length-append, length-take, length-replicate, replicate, take-all, drop-append,
}
use socket_project.Wire.{
  Bytes, be16, of_be16, header_size, header_bytes, read_header, new_header, msg_hello, msg_bye,
}
use socket_project.Wire.Codec.{
  of_be16-be16, length-be16, length-header_bytes, read_header-new_header, strcmp_eq-of_ne,
  strcmp_eq_refl,
}
use socket_project.PeerList.{
  Peers, max_peers, inet_addrstrlen, seen, peer_list_add, peer_list_touch, peer_list_remove,
}
use socket_project.PeerList.Slots.{peer_of}
use socket_project.PeerList.Table.{IsTable}
use socket_project.PeerList.Lookup.{peer_list_touch-peer_of, peer_list_remove-peer_of}
use socket_project.PeerList.Add.{used, entry_after, peer_list_add-peer_of}
use socket_project.Discovery.{
  Discovery, max_hostname_len, hello_size, padded, build_hello, send_broadcast, listen_buf_size,
  on_hello, on_message, on_datagram,
}

length-padded : (n : ℕ) (s : Bytes) → length s ≤ n → length (padded n s) ≡ n
unfolding padded
length-padded n s h =
    omega (
      arith,
      length-append s (replicate (n - length s) 0),
      length-replicate {A = ℕ} (n - length s) 0,
    )

length-build_hello :
    (d : Discovery) (hostname : Bytes) → length (build_hello d hostname) ≡ hello_size
unfolding build_hello
length-build_hello d hostname =
    let name = take (max_hostname_len - 1) hostname in
    omega (
      arith,
      length-append (be16 d.own_port) (padded max_hostname_len name),
      length-be16 d.own_port,
      length-padded max_hostname_len name,
      length-take (max_hostname_len - 1) hostname,
    )

-- The packet that a node broadcasts.
abbrev packet : Discovery → Bytes → ℕ → Bytes
packet d hostname type = header_bytes (new_header type hello_size) ++ build_hello d hostname

-- It passes the listener's length checks at any other node.
on_datagram-packet :
    (d r : Discovery) (hostname src_ip : Bytes) (type now now' : ℕ) (g : Peers)
    → type < 256
    → src_ip ≢ r.local_ip
    → (on_datagram r src_ip (packet d hostname type) now now' g
        ≡ on_message src_ip (packet d hostname type) now now' g)
      × (read_header (packet d hostname type) ≡ new_header type hello_size)
unfolding on_datagram new_header
on_datagram-packet d r hostname src_ip type now now' g ht ne =
    let hdr = header_bytes (new_header type hello_size) in
    let l : length (packet d hostname type) ≡ header_size + hello_size = omega (
      arith,
      length-append hdr (build_hello d hostname),
      length-header_bytes (new_header type hello_size),
      length-build_hello d hostname,
    ) in
    let header : read_header (packet d hostname type) ≡ new_header type hello_size =
      read_header-new_header type hello_size (build_hello d hostname) ht (omega arith) in
    let long : ltb (length (packet d hostname type)) header_size ≡ false = ground arith in
    let whole : ltb (length (packet d hostname type)) (header_size + hello_size) ≡ false =
      ground arith in
    (
      rw (
        take-all listen_buf_size (packet d hostname type) (omega arith),
        long,
        header,
        whole,
        strcmp_eq-of_ne src_ip r.local_ip ne,
      ),
      header,
    )

sent_packet :
    (d : Discovery) (hostname p : Bytes) (type : ℕ)
    → send_broadcast d hostname type ≡ some p
    → packet d hostname type ≡ p
unfolding send_broadcast
sent_packet d hostname p type s = ground arith

on_message-hello :
    (d : Discovery) (hostname src_ip : Bytes) (now now' : ℕ) (g : Peers)
    → d.own_port < 2 ^ 16
    → read_header (packet d hostname msg_hello) ≡ new_header msg_hello hello_size
    → on_message src_ip (packet d hostname msg_hello) now now' g
      ≡ peer_list_touch src_ip now' (peer_list_add src_ip d.own_port now g)
unfolding on_message on_hello new_header build_hello
on_message-hello d hostname src_ip now now' g port h =
    let hdr = header_bytes (new_header msg_hello hello_size) in
    let body : drop header_size (hdr ++ build_hello d hostname) ≡ build_hello d hostname =
      drop-append header_size hdr _ (length-header_bytes (new_header msg_hello hello_size)) in
    let own : of_be16 (build_hello d hostname) ≡ d.own_port = of_be16-be16 d.own_port _ port in
    rw (h, body, own)

on_message-bye :
    (src_ip buf : Bytes) (now now' : ℕ) (g : Peers)
    → read_header buf ≡ new_header msg_bye hello_size
    → on_message src_ip buf now now' g ≡ peer_list_remove src_ip g
unfolding on_message new_header
on_message-bye src_ip buf now now' g h = rw h

-- The listener's two calls for a HELLO.
pub on_datagram-hello_calls :
    (d r : Discovery) (hostname src_ip packet : Bytes) (now now' : ℕ) (g : Peers)
    → send_broadcast d hostname msg_hello ≡ some packet
    → d.own_port < 2 ^ 16
    → src_ip ≢ r.local_ip
    → on_datagram r src_ip packet now now' g
      ≡ peer_list_touch src_ip now' (peer_list_add src_ip d.own_port now g)
on_datagram-hello_calls d r hostname src_ip p now now' g s port ne =
    let (m, header) =
      on_datagram-packet d r hostname src_ip msg_hello now now' g (omega arith) ne in
    ap (λ w. on_datagram r src_ip w now now' g) (sym (sent_packet d hostname p msg_hello s))
    ∙ m
    ∙ on_message-hello d hostname src_ip now now' g port header

-- A HELLO that a node broadcasts reaches the table of any other node whose local address differs
-- from the sender's: the sender's entry is brought up to date or made while there is room, with
-- the port that the sender was started on, as last seen at the time of the touch.
pub on_datagram-hello :
    (d r : Discovery) (hostname src_ip packet : Bytes) (now now' : ℕ) (g : Peers)
    → send_broadcast d hostname msg_hello ≡ some packet
    → d.own_port < 2 ^ 16
    → src_ip ≢ r.local_ip
    → length src_ip < inet_addrstrlen
    → IsTable g
    → peer_of src_ip (on_datagram r src_ip packet now now' g)
      ≡ Option.map
          (seen now')
          (entry_after src_ip d.own_port now (peer_of src_ip g) (ltb (used g) max_peers))
unfolding send_broadcast
on_datagram-hello d r hostname src_ip p now now' g s port ne l t =
    let g₁ = peer_list_add src_ip d.own_port now g in
    ap (peer_of src_ip) (on_datagram-hello_calls d r hostname src_ip p now now' g s port ne)
    ∙ peer_list_touch-peer_of src_ip now' g₁ src_ip
    ∙ rw (strcmp_eq_refl src_ip) (
        ap (Option.map (seen now'))
          (peer_list_add-peer_of src_ip d.own_port now g l src_ip t ∙ rw (strcmp_eq_refl src_ip)))

-- A BYE that a node broadcasts removes that node's entry from the sound table of any other node
-- whose local address differs from the sender's.
pub on_datagram-bye :
    (d r : Discovery) (hostname src_ip packet : Bytes) (now now' : ℕ) (g : Peers)
    → send_broadcast d hostname msg_bye ≡ some packet
    → src_ip ≢ r.local_ip
    → IsTable g
    → peer_of src_ip (on_datagram r src_ip packet now now' g) ≡ none
unfolding send_broadcast
on_datagram-bye d r hostname src_ip p now now' g s ne t =
    let e = sent_packet d hostname p msg_bye s in
    let (m, header) = on_datagram-packet d r hostname src_ip msg_bye now now' g (omega arith) ne in
    ap (λ w. peer_of src_ip (on_datagram r src_ip w now now' g)) (sym e)
    ∙ ap (peer_of src_ip) (m ∙ on_message-bye src_ip (packet d hostname msg_bye) now now' g header)
    ∙ peer_list_remove-peer_of src_ip g src_ip t
    ∙ rw (strcmp_eq_refl src_ip)
