-- ===== src/Descriptors/Dispatch.antt =====
-- New_socket_proj/dispatcher.c, its descriptors: the sockets that query_peer_load and dispatch make, use
-- and close. A target is an address and a port.
pub mod Closing
use socket_project.Prelude.{ℕ, Bool, true, false, Option, none, some, List, [], ◌∷◌}
use socket_project.Wire.{Bytes}
use socket_project.Descriptors.{Table, Kernel, close, make_udp_broadcast_socket, tcp_connect}

-- One query: what the kernel gives to it, and whether `select` finds a datagram.
pub record Asking : Type 0 where
  pub kernel : Kernel
  pub selected : Bool

-- After the timeout, and after `recv`.
unfoldable pub close_query : Bool → Option ℕ × Table → Table
close_query selected (none, t) = t
close_query false (some fd, t) = close fd t
close_query true (some fd, t) = close fd t

unfoldable pub query_sockets : List Asking → Table → Table
query_sockets [] t = t
query_sockets (q ∷ qs) t =
    query_sockets qs (close_query q.selected (make_udp_broadcast_socket q.kernel 0 t))

-- The table while the task is sent and its output comes back, `none` if dispatch returns before, and
-- the table in the end.
pub record Exchange : Type 0 where
  pub during : Option Table
  pub after : Table

-- The task's way over a connection: `close` after a send that failed, and after the output.
unfoldable pub exchange : Bool → Option ℕ × Table → Exchange
exchange sends (none, t) = record { during = none; after = t }
exchange false (some fd, t) = record { during = some t; after = close fd t }
exchange true (some fd, t) = record { during = some t; after = close fd t }

-- Where dispatch connects to: this node's own address, or a peer's, with this node's for the fallback.
pub record Route : Type 0 where
  pub use_local : Bool
  pub local_ip : Bytes
  pub own_port : ℕ
  pub best_ip : Bytes
  pub best_port : ℕ

unfoldable pub fall_back : Kernel → Route → Option ℕ × Table → Option ℕ × Table
fall_back k r (some fd, t) = (some fd, t)
fall_back k r (none, t) = tcp_connect k r.local_ip r.own_port t

unfoldable pub open_route : Kernel → Kernel → Route → Table → Option ℕ × Table
open_route k k' r t = elim r.use_local [
  | true ↦ tcp_connect k r.local_ip r.own_port t
  | false ↦ fall_back k' r (tcp_connect k r.best_ip r.best_port t)
]

-- `k` and `k'` answer to the two attempts to connect.
unfoldable pub dispatch_sockets : List Asking → Kernel → Kernel → Route → Bool → Table → Exchange
dispatch_sockets qs k k' r sends t = exchange sends (open_route k k' r (query_sockets qs t))
