-- ===== src/Heartbeat/Tests.antt =====
-- An announcer and a listener over a few seconds, with one HELLO lost.
use socket_project.Prelude.{◌+◌, ◌≤◌, ◌≡◌, ◌≢◌, refl, true, some, [], ◌∷◌, ◌++◌, arith}
use socket_project.Wire.{Bytes, strcmp_eq, msg_hello, header_bytes, new_header}
use socket_project.PeerList.{PeerInfo, peer_timeout_secs}
use socket_project.PeerList.Slots.{peer_of}
use socket_project.PeerList.Lookup.{unequal}
use socket_project.Discovery.{hello_size, build_hello, send_broadcast}
use socket_project.Presence.{ticks}
use socket_project.Presence.Tests.{node_ip, greeted, node, greeted-Steps, greeted_entry}
use socket_project.Heartbeat.{
  Nodes, Pair, sleep_again, loses, others, Beats, none_yet, then_one, heard,
}
use socket_project.Heartbeat.Alive.{Reaches, Beats-heard}

abbrev nodes : Nodes
nodes = record {
  announcer = record { own_port = 7777; local_ip = node_ip; bcast_open = true };
  listener = record { own_port = 7778; local_ip = 66 ∷ []; bcast_open = true };
  hostname = 97 ∷ [];
  src_ip = node_ip;
}

ne : ◌≢◌ {A = Bytes} node_ip (66 ∷ [])
unfolding strcmp_eq
ne = unequal node_ip (66 ∷ []) refl

nodes-Reaches : Reaches nodes
unfolding send_broadcast
nodes-Reaches = record {
  packet = header_bytes (new_header msg_hello hello_size) ++ build_hello nodes.announcer (97 ∷ []);
  sent = refl;
  port = omega arith;
  other = ne;
  fits = omega arith;
}

-- The HELLO of second 105 is lost.
abbrev missed : Pair
missed = record { world = record greeted { now = 105 }; hello_at = 110; lost = 1 }

missed-Beats : Beats 1 1 4 nodes (heard greeted) missed
unfolding heard sleep_again
missed-Beats =
    then_one
      (then_one
        (then_one
          (then_one
            (then_one (then_one none_yet (others (ticks (omega arith)) (omega arith)))
              (others (ticks (omega arith)) (omega arith)))
            (others (ticks (omega arith)) (omega arith)))
          (others (ticks (omega arith)) (omega arith)))
        (others (ticks (omega arith)) (omega arith)))
      (loses (omega arith) (omega arith))

Beats-heard_example :
    (q : PeerInfo) × (peer_of node_ip missed.world.peers ≡ some q)
    × (missed.world.now ≤ q.last_seen + peer_timeout_secs)
Beats-heard_example =
    Beats-heard 1 1 4 100 nodes greeted node missed nodes-Reaches (omega arith) greeted-Steps
      greeted_entry refl missed-Beats
