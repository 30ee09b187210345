-- ===== src/Descriptors.antt =====
-- New_socket_proj/net_utils.c: make_udp_broadcast_socket, make_tcp_server and tcp_connect, as system
-- calls on the process's descriptor table. What the kernel answers to each call is an argument.
pub mod Opening
pub mod Dispatch
pub mod Tests
use socket_project.Prelude.{
  ℕ, ◌+◌, ◌%◌, ◌^◌, ◌||◌, Bool, true, false, Option, none, some, List, [], ◌∷◌, ltb, ◌==◌,
  if◌then◌else◌,
}
use socket_project.Wire.{Bytes}

pub data Kind : Type 0 where
  stream : Kind
  datagram : Kind

-- Where a socket is bound or connected to: the address, `none` for INADDR_ANY, and the port.
pub record Endpoint : Type 0 where
  pub address : Option Bytes
  pub port : ℕ

-- An open descriptor: its number, the options that were set, and what was done with it.
pub record Descriptor : Type 0 where
  pub fd : ℕ
  pub kind : Kind
  pub broadcast : Bool
  pub reuse_addr : Bool
  pub reuse_port : Bool
  pub bound : Option Endpoint
  pub backlog : Option ℕ
  pub remote : Option Endpoint

abbrev pub Table : Type 0
Table = List Descriptor

-- The answers: the number that `socket` gives, and whether each other call succeeds.
pub record Kernel : Type 0 where
  pub socket : Option ℕ
  pub sets_broadcast : Bool
  pub sets_reuse_addr : Bool
  pub sets_reuse_port : Bool
  pub binds : Bool
  pub listens : Bool
  pub parses_ip : Bool
  pub connects : Bool

-- `socket(AF_INET, kind, 0)` with the number `fd`.
unfoldable pub fresh : ℕ → Kind → Descriptor
fresh fd kind = record {
  fd = fd;
  kind = kind;
  broadcast = false;
  reuse_addr = false;
  reuse_port = false;
  bound = none;
  backlog = none;
  remote = none;
}

-- A system call on the descriptor `fd` that changes its socket.
unfoldable pub set_socket : ℕ → (Descriptor → Descriptor) → Table → Table
set_socket fd f [] = []
set_socket fd f (d ∷ t) = (if d.fd == fd then f d else d) ∷ set_socket fd f t

unfoldable pub close : ℕ → Table → Table
close fd [] = []
close fd (d ∷ t) = let rest = close fd t in if d.fd == fd then rest else d ∷ rest

-- `setsockopt`: a failure leaves the option as it was.
unfoldable pub set_broadcast : Bool → Descriptor → Descriptor
set_broadcast ok d = record d { broadcast = d.broadcast || ok }

unfoldable pub set_reuse : Bool → Bool → Descriptor → Descriptor
set_reuse addr_ok port_ok d = record d {
  reuse_addr = d.reuse_addr || addr_ok;
  reuse_port = d.reuse_port || port_ok;
}

-- `bind` to INADDR_ANY; `htons((uint16_t)port)`.
unfoldable pub bind_any : ℕ → Descriptor → Descriptor
bind_any port d = record d { bound = some (record { address = none; port = port % 2 ^ 16 }) }

unfoldable pub start_listening : ℕ → Descriptor → Descriptor
start_listening backlog d = record d { backlog = some backlog }

unfoldable pub connect_to : Bytes → ℕ → Descriptor → Descriptor
connect_to ip port d = record d { remote = some (record { address = some ip; port = port }) }

-- The result is the descriptor, `none` for -1, and the table after the calls.
unfoldable pub make_udp_broadcast_socket : Kernel → ℕ → Table → Option ℕ × Table
make_udp_broadcast_socket k port t = elim k.socket [
  | none ↦ (none, t)
  | some fd ↦
      let t₁ = fresh fd datagram ∷ t in
      let t₂ = set_socket fd (set_broadcast k.sets_broadcast) t₁ in
      let t₃ = set_socket fd (set_reuse k.sets_reuse_addr k.sets_reuse_port) t₂ in
      if ltb 0 port
      then (if k.binds then (some fd, set_socket fd (bind_any port) t₃) else (none, close fd t₃))
      else (some fd, t₃)
]

unfoldable pub make_tcp_server : Kernel → ℕ → Table → Option ℕ × Table
make_tcp_server k port t = elim k.socket [
  | none ↦ (none, t)
  | some fd ↦
      let t₁ = fresh fd stream ∷ t in
      let t₂ = set_socket fd (set_reuse k.sets_reuse_addr k.sets_reuse_port) t₁ in
      if k.binds
      then (let t₃ = set_socket fd (bind_any port) t₂ in
          if k.listens
          then (some fd, set_socket fd (start_listening 32) t₃)
          else (none, close fd t₃))
      else (none, close fd t₂)
]

unfoldable pub tcp_connect : Kernel → Bytes → ℕ → Table → Option ℕ × Table
tcp_connect k ip port t = elim k.socket [
  | none ↦ (none, t)
  | some fd ↦
      let t₁ = fresh fd stream ∷ t in
      if k.parses_ip
      then (if k.connects
          then (some fd, set_socket fd (connect_to ip port) t₁)
          else (none, close fd t₁))
      else (none, close fd t₁)
]
