-- ===== src/Descriptors/Tests.antt =====
-- The socket makers of net_utils.c at a table with one descriptor.
use socket_project.Prelude.{◌≡◌, refl, true, false, some, none, [], ◌∷◌, arith}
use socket_project.Descriptors.{
  Table, Kernel, datagram, fresh, set_socket, close, connect_to, set_broadcast, set_reuse,
  make_udp_broadcast_socket, tcp_connect,
}
use socket_project.Descriptors.Dispatch.{
  Asking, Route, dispatch_sockets, exchange, open_route, fall_back, query_sockets, close_query,
}
use socket_project.Descriptors.Dispatch.Closing.{Closes, dispatch_sockets-Closes}
use socket_project.Descriptors.Opening.{GivesFree, connected_socket, broadcast_socket}

abbrev one_open : Table
one_open =
    record {
      fd = 3;
      kind = datagram;
      broadcast = true;
      reuse_addr = false;
      reuse_port = false;
      bound = none;
      backlog = none;
      remote = none;
    }
    ∷ []

-- The next number is 4; no connection is accepted.
abbrev kernel : Kernel
kernel = record {
  socket = some 4;
  sets_broadcast = true;
  sets_reuse_addr = true;
  sets_reuse_port = false;
  binds = true;
  listens = true;
  parses_ip = true;
  connects = false;
}

kernel-GivesFree : GivesFree kernel one_open
kernel-GivesFree fd e = ground arith

refused : tcp_connect kernel (49 ∷ []) 7777 one_open ≡ (none, one_open)
unfolding tcp_connect fresh close
refused = refl

unbound :
    make_udp_broadcast_socket kernel 0 one_open ≡ (some 4, broadcast_socket kernel 0 4 ∷ one_open)
unfolding make_udp_broadcast_socket fresh set_socket set_broadcast set_reuse
unbound = refl

-- The peer at 49 refuses the connection, and this node, at 65, takes it.
abbrev to_peer : Route
to_peer = record {
  use_local = false;
  local_ip = 65 ∷ [];
  own_port = 7777;
  best_ip = 49 ∷ [];
  best_port = 7777;
}

abbrev accepting : Kernel
accepting = record kernel { connects = true }

accepting-GivesFree : GivesFree accepting one_open
accepting-GivesFree fd e = ground arith

abbrev one_query : Asking
one_query = record { kernel = kernel; selected = true }

falls_back :
    (dispatch_sockets (one_query ∷ []) kernel accepting to_peer true one_open).during
    ≡ some (connected_socket (65 ∷ []) 7777 4 ∷ one_open)
unfolding dispatch_sockets exchange open_route fall_back tcp_connect set_socket fresh close
    connect_to query_sockets close_query make_udp_broadcast_socket set_broadcast set_reuse
falls_back = refl

dispatch_sockets-Closes_example :
    Closes to_peer one_open
      (dispatch_sockets (one_query ∷ []) kernel accepting to_peer true one_open)
dispatch_sockets-Closes_example =
    dispatch_sockets-Closes (one_query ∷ []) kernel accepting to_peer true one_open
      (kernel-GivesFree, tt) kernel-GivesFree accepting-GivesFree
