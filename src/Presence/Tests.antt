-- ===== src/Presence/Tests.antt =====
-- The peer table of discovery.c over a few seconds.
use socket_project.Prelude.{◌+◌, ◌≤◌, ◌≡◌, refl, true, some, [], ◌∷◌, arith}
use socket_project.Wire.{Bytes, strcmp_eq}
use socket_project.PeerList.{
  PeerInfo, peer_timeout_secs, zero_peer, peer_list_init, first_slot, matches, find_slot,
  find_free_slot, modify, new_peer, announced, peer_list_add,
}
use socket_project.PeerList.Slots.{peer_of}
use socket_project.PeerList.Table.{adds, call_peers}
use socket_project.Presence.{World, calls, Steps, stay, more, started, any_call, reap_interval}
use socket_project.Presence.Bounds.{entry_age}

abbrev pub node_ip : Bytes
node_ip = 49 ∷ 50 ∷ []

-- After a HELLO at second 100.
abbrev pub greeted : World
greeted = record {
  now = 100;
  reap_at = 115;
  peers = call_peers (adds node_ip 7777 100) peer_list_init;
}

abbrev pub node : PeerInfo
node = record {
  ip = node_ip;
  port = 7777;
  load_pct = 0;
  active_tasks = 0;
  total_tasks = 0;
  num_cores = 1;
  last_seen = 100;
  valid = true;
}

pub greeted-Steps : Steps 1 any_call (started 100) greeted
unfolding started any_call
greeted-Steps = more stay (calls (adds node_ip 7777 100) refl (refl, omega arith))

pub greeted_entry : peer_of node_ip greeted.peers ≡ some node
unfolding peer_of call_peers peer_list_add find_slot find_free_slot first_slot matches strcmp_eq
    modify new_peer announced zero_peer peer_list_init
greeted_entry = refl

entry_age_example : greeted.now ≤ node.last_seen + peer_timeout_secs + reap_interval + 1
entry_age_example = entry_age 1 100 greeted node_ip node greeted-Steps greeted_entry
