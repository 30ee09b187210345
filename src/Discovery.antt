-- ===== src/Discovery.antt =====
-- New_socket_proj/discovery.c: HELLO and BYE datagrams, and what the listener does with any datagram.
pub mod Packets
pub mod Listener
pub mod Tests
use socket_project.Prelude.{
  ℕ, ◌+◌, ◌-◌, Bool, true, false, Option, none, some, ◌++◌, ltb, ◌==◌, if◌then◌else◌, length, take,
  drop, replicate,
}
use socket_project.Wire.{
  Bytes, be16, of_be16, header_size, header_bytes, read_header, new_header, strcmp_eq, msg_hello,
  msg_bye,
}
use socket_project.PeerList.{Peers, peer_list_add, peer_list_touch, peer_list_remove}

abbrev pub max_hostname_len : ℕ
max_hostname_len = 64

-- `sizeof(payload_hello_t)`
abbrev pub hello_size : ℕ
hello_size = 2 + max_hostname_len

-- `g_own_port`, `g_local_ip`, and whether `g_bcast_fd` is open.
pub record Discovery : Type 0 where
  pub own_port : ℕ
  pub local_ip : Bytes
  pub bcast_open : Bool

-- A field of `n` bytes that starts with a string and is zero behind it.
unfoldable pub padded : ℕ → Bytes → Bytes
padded n s = s ++ replicate (n - length s) 0

-- `hostname` is what `gethostname` writes.
unfoldable pub build_hello : Discovery → Bytes → Bytes
build_hello d hostname =
    be16 d.own_port ++ padded max_hostname_len (take (max_hostname_len - 1) hostname)

-- The datagram that `send_broadcast` sends, if any.
unfoldable pub send_broadcast : Discovery → Bytes → ℕ → Option Bytes
send_broadcast d hostname type =
    if d.bcast_open
    then some (header_bytes (new_header type hello_size) ++ build_hello d hostname)
    else none

-- The buffer of the listener; a longer datagram is cut.
abbrev pub listen_buf_size : ℕ
listen_buf_size = header_size + hello_size + 16

-- `now` and `now'` are the times at which the table is written.
unfoldable pub on_hello : Bytes → ℕ → Bytes → ℕ → ℕ → Peers → Peers
on_hello src_ip plen buf now now' g =
    if ltb plen hello_size
    then g
    else peer_list_touch src_ip now' (peer_list_add src_ip (of_be16 (drop header_size buf)) now g)

unfoldable pub on_message : Bytes → Bytes → ℕ → ℕ → Peers → Peers
on_message src_ip buf now now' g =
    let hdr = read_header buf in
    if hdr.type == msg_hello
    then on_hello src_ip hdr.payload_len buf now now' g
    else (if hdr.type == msg_bye then peer_list_remove src_ip g else g)

-- One round of `listener_thread`.
unfoldable pub on_datagram : Discovery → Bytes → Bytes → ℕ → ℕ → Peers → Peers
on_datagram d src_ip datagram now now' g =
    let buf = take listen_buf_size datagram in
    if ltb (length buf) header_size
    then g
    else (if ltb (length buf) (header_size + (read_header buf).payload_len)
        then g
        else (if strcmp_eq src_ip d.local_ip then g else on_message src_ip buf now now' g))
