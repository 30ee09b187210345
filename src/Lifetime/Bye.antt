-- ===== src/Lifetime/Bye.antt =====
-- `main` says goodbye, unless a dispatch keeps it waiting.
use socket_project.Prelude.{
  ℕ, ◌<◌, ◌≡◌, ◌≢◌, ◌⊎◌, inl, inr, refl, true, Option, none, some, List, ◌++◌, length, arith,
}
use socket_project.Wire.{Bytes, header_bytes, new_header, msg_bye}
use socket_project.PeerList.{Peers}
use socket_project.PeerList.Slots.{peer_of}
use socket_project.PeerList.Table.{IsTable}
use socket_project.Descriptors.{Table, Kernel, make_tcp_server, make_udp_broadcast_socket}
use socket_project.Discovery.{Discovery, hello_size, build_hello, send_broadcast, on_datagram}
use socket_project.Discovery.Packets.{on_datagram-bye}
use socket_project.Startup.{
  Settings, Running, with_bcast, discovery_start, with_server, start_workers, start, parse_args,
  ip_or_loopback,
}
use socket_project.LocalIp.{get_local_ip}
use socket_project.Shell.{Action}
use socket_project.Shell.Rounds.{HasHung, run_repl-Ends}
use socket_project.Lifetime.{returns, hangs, discovery_send_bye, after_repl, Given, main}

with_bcast_open :
    (port server : ℕ) (ip : Bytes) (x : Option ℕ × Table) (r : Running)
    → with_bcast port ip server x ≡ some r
    → r.discovery.bcast_open ≡ true
unfolding with_bcast
with_bcast_open port server ip (none, t) r e = ground arith
with_bcast_open port server ip (some fd, t) r e = ground arith

with_server_open :
    (udp : Kernel) (port : ℕ) (ip : Bytes) (x : Option ℕ × Table) (r : Running)
    → with_server udp port ip x ≡ some r
    → r.discovery.bcast_open ≡ true
unfolding with_server discovery_start
with_server_open udp port ip (none, t) r e = ground arith
with_server_open udp port ip (some fd, t) r e =
    with_bcast_open port fd ip (make_udp_broadcast_socket udp 0 t) r e

start_open :
    (h : Given) (argv : List Bytes) (r : Running)
    → start h.tcp h.udp h.interfaces argv h.descriptors ≡ some r
    → r.discovery.bcast_open ≡ true
unfolding start start_workers
start_open h argv r = go (parse_args argv (record { port = 7777; iface = none }))
  where
    go :
        (o : Option Settings)
        → elim o [
          | none ↦ none
          | some set ↦
              start_workers h.tcp h.udp set.port
                (ip_or_loopback (get_local_ip set.iface h.interfaces))
                h.descriptors
        ]
          ≡ some r
        → r.discovery.bcast_open ≡ true
    go none e = ground arith
    go (some set) e =
        with_server_open h.udp set.port _ (make_tcp_server h.tcp set.port h.descriptors) r e

broadcasts :
    (d : Discovery) (hostname : Bytes)
    → d.bcast_open ≡ true
    → (bye : Bytes) × (send_broadcast d hostname msg_bye ≡ some bye)
unfolding send_broadcast
broadcasts d hostname e =
    (header_bytes (new_header msg_bye hello_size) ++ build_hello d hostname, ground arith)

-- When main's set-up succeeds, then within one round more than stdin has bytes main has either
-- returned, after sending a BYE that removes the node's entry from the sound table of any other
-- node whose local address differs from the sender's, or it waits for good in a dispatch that does
-- not return, as some round allows, and has sent no BYE.
pub main-on_datagram :
    (h : Given) (argv : List Bytes) (r : Running) (other : Discovery) (src_ip : Bytes)
    (now now' : ℕ) (g : Peers)
    → start h.tcp h.udp h.interfaces argv h.descriptors ≡ some r
    → length h.input < length h.rounds
    → src_ip ≢ other.local_ip
    → IsTable g
    → ((actions : List Action) × (bye : Bytes) × (main h argv ≡ returns r actions (some bye))
        × (peer_of src_ip (on_datagram other src_ip bye now now' g) ≡ none))
      ⊎ ((actions : List Action) × (main h argv ≡ hangs r actions) × HasHung h.rounds)
unfolding main after_repl discovery_send_bye
main-on_datagram h argv r other src_ip now now' g s l ne t =
    elim (run_repl-Ends h.malloc h.fopen h.rounds h.input l) [
      | inl (actions, e) ↦
          let (bye, sent) = broadcasts r.discovery h.hostname (start_open h argv r s) in
          inl (
            actions,
            bye,
            rw (s, e, main, after_repl, sent) refl,
            on_datagram-bye r.discovery other h.hostname src_ip bye now now' g sent ne t,
          )
      | inr (actions, e, hung) ↦ inr (actions, rw (s, e, main, after_repl) refl, hung)
    ]
