-- ===== src/Startup/Run.antt =====
-- What the own calls of `main` of main.c have set up when discovery_start is done.
use socket_project.Prelude.{
  ℕ, ◌-◌, ◌^◌, ◌<◌, ◌≡◌, refl, ◌∙◌, ap, true, false, Option, none, some, List, [], ◌∷◌, ◌==◌, All,
  take,
}
use socket_project.Wire.{Bytes, strcmp_eq}
use socket_project.PeerList.{inet_addrstrlen, peer_list_init}
use socket_project.LocalIp.{Interface, get_local_ip}
use socket_project.Descriptors.{Table, Kernel}
use socket_project.Descriptors.Opening.{
  listening_socket, broadcast_socket, make_tcp_server_succeeds, make_udp_broadcast_socket_succeeds,
}
use socket_project.Startup.{
  Settings, Running, port_flag, iface_flag, port_of, parse_args, with_bcast, discovery_start,
  with_server, start_workers, ip_or_loopback, start,
}
use socket_project.Startup.Arguments.{decimal, port_of-decimal}

-- What `main` makes of these settings.
abbrev pub prepared : Kernel → Kernel → ℕ → ℕ → Option (List Interface) → Settings → Table → Running
prepared tcp udp server bcast interfaces set t = record {
  discovery = record {
    own_port = set.port;
    local_ip = take (inet_addrstrlen - 1) (ip_or_loopback (get_local_ip set.iface interfaces));
    bcast_open = true;
  };
  server_fd = server;
  bcast_fd = bcast;
  descriptors = broadcast_socket udp 0 bcast ∷ listening_socket tcp set.port server ∷ t;
  peers = peer_list_init;
}

-- The kernel makes the two sockets, with numbers that are not in use.
pub record Serves (tcp udp : Kernel) (server bcast : ℕ) (t : Table) : Type 0 where
  pub server_made : tcp.socket ≡ some server
  pub server_free : All (λ d. (d.fd == server) ≡ false) t
  pub binds : tcp.binds ≡ true
  pub listens : tcp.listens ≡ true
  pub bcast_made : udp.socket ≡ some bcast
  pub bcast_free : ((server == bcast) ≡ false) × All (λ d. (d.fd == bcast) ≡ false) t

parse_args-port_iface :
    (p name : Bytes)
    → parse_args (port_flag ∷ p ∷ iface_flag ∷ name ∷ []) (record { port = 7777; iface = none })
      ≡ some (record { port = port_of p; iface = some name })
unfolding parse_args strcmp_eq
parse_args-port_iface p name = refl

-- With sockets to be had, the set-up succeeds with any arguments that the loop accepts.
start-prepared :
    (tcp udp : Kernel) (server bcast : ℕ) (interfaces : Option (List Interface)) (argv : List Bytes)
    (set : Settings) (t : Table)
    → Serves tcp udp server bcast t
    → parse_args argv (record { port = 7777; iface = none }) ≡ some set
    → start tcp udp interfaces argv t ≡ some (prepared tcp udp server bcast interfaces set t)
unfolding start start_workers with_server discovery_start with_bcast
start-prepared tcp udp server bcast interfaces argv set t h e =
    let opened =
      make_tcp_server_succeeds tcp set.port server t h.server_made h.server_free h.binds
        h.listens in
    let sends =
      make_udp_broadcast_socket_succeeds udp bcast (listening_socket tcp set.port server ∷ t)
        h.bcast_made h.bcast_free in
    let ip = ip_or_loopback (get_local_ip set.iface interfaces) in
    rw (e, start)
      (ap (with_server udp set.port ip) opened ∙ ap (with_bcast set.port ip server) sends)

pub start-port :
    (tcp udp : Kernel) (server bcast p : ℕ) (name : Bytes) (interfaces : Option (List Interface))
    (t : Table)
    → Serves tcp udp server bcast t
    → p < 2 ^ 16
    → start tcp udp interfaces (port_flag ∷ decimal p ∷ iface_flag ∷ name ∷ []) t
      ≡ some (prepared tcp udp server bcast interfaces (record { port = p; iface = some name }) t)
start-port tcp udp server bcast p name interfaces t h small =
    start-prepared tcp udp server bcast interfaces (port_flag ∷ decimal p ∷ iface_flag ∷ name ∷ [])
      (record { port = p; iface = some name }) t h
      (parse_args-port_iface (decimal p) name ∙ rw (port_of-decimal p small) refl)
