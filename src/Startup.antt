-- ===== src/Startup.antt =====
-- New_socket_proj/main.c: the arguments of `main`, and what its own thread sets up, up to the end of
-- discovery_start. An argument is
-- a byte list without its NUL.
pub mod Arguments
pub mod Run
pub mod Tests
use socket_project.Prelude.{
  ℕ, ◌+◌, ◌-◌, ◌*◌, ◌%◌, ◌^◌, min, Bool, true, false, ◌&&◌, ◌||◌, Option, none, some, List, [], ◌∷◌,
  leb, ◌==◌, if◌then◌else◌, take,
}
use socket_project.Wire.{Bytes, strcmp_eq}
use socket_project.PeerList.{Peers, inet_addrstrlen, peer_list_init}
use socket_project.LocalIp.{Interface, loopback_ip, get_local_ip}
use socket_project.Descriptors.{Table, Kernel, make_tcp_server, make_udp_broadcast_socket}
use socket_project.Discovery.{Discovery}

abbrev pub default_worker_port : ℕ
default_worker_port = 7777

abbrev pub port_flag : Bytes
port_flag = b'-' ∷ b'-' ∷ b'p' ∷ b'o' ∷ b'r' ∷ b't' ∷ []

abbrev pub iface_flag : Bytes
iface_flag = b'-' ∷ b'-' ∷ b'i' ∷ b'f' ∷ b'a' ∷ b'c' ∷ b'e' ∷ []

abbrev pub is_digit : ℕ → Bool
is_digit c = leb b'0' c && leb c b'9'

abbrev pub is_space : ℕ → Bool
is_space c = c == b' ' || leb 9 c && leb c 13

-- The digits at the front of a string, after those that make `acc`.
unfoldable pub digits_value : ℕ → Bytes → ℕ
digits_value acc [] = acc
digits_value acc (c ∷ s) = if is_digit c then digits_value (acc * 10 + (c - b'0')) s else acc

-- `(uint16_t)atoi(s)` behind the white space. `atoi` takes a number outside the range of `long` to the
-- nearest end of it, and the conversions keep the low bits.
unfoldable pub signed_port : Bytes → ℕ
signed_port [] = 0
signed_port (c ∷ s) =
    if c == b'-'
    then (2 ^ 16 - min (digits_value 0 s) (2 ^ 63) % 2 ^ 16) % 2 ^ 16
    else min (digits_value 0 (if c == b'+' then s else c ∷ s)) (2 ^ 63 - 1) % 2 ^ 16

unfoldable pub port_of : Bytes → ℕ
port_of [] = 0
port_of (c ∷ s) = if is_space c then port_of s else signed_port (c ∷ s)

-- The variables that the loop over `argv` sets.
pub record Settings : Type 0 where
  pub port : ℕ
  pub iface : Option Bytes

-- The loop from `argv[i]` on; `none` is `usage`, which exits.
unfoldable pub parse_args : List Bytes → Settings → Option Settings
parse_args [] set = some set
parse_args (a ∷ []) set = none
parse_args (a ∷ b ∷ argv) set = elim (strcmp_eq a port_flag) [
  | true ↦ parse_args argv (record set { port = port_of b })
  | false ↦ elim (strcmp_eq a iface_flag) [
    | true ↦ parse_args argv (record set { iface = some b })
    | false ↦ none
  ]
]

-- What the calls of main's own thread have made when discovery_start is done: discovery's variables, the
-- descriptor of the TCP server, the descriptors that these calls have opened beside those of the start,
-- and the peer table with which the threads begin. What the threads then do to the table, and the sockets
-- that they open themselves, are not part of it.
pub record Running : Type 0 where
  pub discovery : Discovery
  pub server_fd : ℕ
  pub bcast_fd : ℕ
  pub descriptors : Table
  pub peers : Peers

-- What `discovery_start` makes of the broadcast socket; `none` is DIE.
unfoldable pub with_bcast : ℕ → Bytes → ℕ → Option ℕ × Table → Option Running
with_bcast own_tcp_port local_ip server_fd (none, t) = none
with_bcast own_tcp_port local_ip server_fd (some fd, t) = some (record {
  discovery = record {
    own_port = own_tcp_port;
    local_ip = take (inet_addrstrlen - 1) local_ip;
    bcast_open = true;
  };
  server_fd = server_fd;
  bcast_fd = fd;
  descriptors = t;
  peers = peer_list_init;
})

unfoldable pub discovery_start : Kernel → ℕ → Bytes → ℕ → Table → Option Running
discovery_start k own_tcp_port local_ip server_fd t =
    with_bcast own_tcp_port local_ip server_fd (make_udp_broadcast_socket k 0 t)

-- The rest of `main` after `worker_start` has asked for its server; without one it exits.
unfoldable pub with_server : Kernel → ℕ → Bytes → Option ℕ × Table → Option Running
with_server udp port local_ip (none, t) = none
with_server udp port local_ip (some fd, t) = discovery_start udp port local_ip fd t

-- `tcp` and `udp` are what the kernel answers to the two socket makers.
unfoldable pub start_workers : Kernel → Kernel → ℕ → Bytes → Table → Option Running
start_workers tcp udp port local_ip t = with_server udp port local_ip (make_tcp_server tcp port t)

abbrev pub ip_or_loopback : Option Bytes → Bytes
ip_or_loopback none = loopback_ip
ip_or_loopback (some ip) = ip

-- `main` up to the end of discovery_start; `none` is an exit. Only the thread of the load responder, a
-- pause and the prompt follow.
unfoldable pub start :
    Kernel → Kernel → Option (List Interface) → List Bytes → Table → Option Running
start tcp udp interfaces argv t =
    elim (parse_args argv (record { port = default_worker_port; iface = none })) [
      | none ↦ none
      | some set ↦
          start_workers tcp udp set.port (ip_or_loopback (get_local_ip set.iface interfaces)) t
    ]
