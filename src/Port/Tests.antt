-- ===== src/Port/Tests.antt =====
-- The shared port at concrete inputs.
use socket_project.Prelude.{
  ℕ, ◌≡◌, refl, true, none, some, [], ◌∷◌, arith, replicate, ◌==◌, ◌%◌, ◌^◌, ◌<◌, if◌then◌else◌,
}
use socket_project.Wire.{
  Bytes, be16, be32, header_bytes, load_resp_bytes, new_header, of_be16, of_be32, of_byte,
  read_header, read_load_resp, strcmp_eq,
}
use socket_project.PeerList.{
  PeerInfo, Peers, max_peers, peer_list_get_all, peer_list_init, find_slot, first_slot,
  load_reported, matches, modify, peer_list_update_load,
}
use socket_project.PeerList.Table.{peer_list_init-IsTable}
use socket_project.Float.{toy_ops, toy_ops-IsOrdered}
use socket_project.LoadMonitor.{
  Load, Machine, load_score_local, load_get_percentage, load_get, load_get_core_count, capped,
}
use socket_project.Discovery.{Discovery}
use socket_project.Responder.{local_load, answer, load_response}
use socket_project.Dispatcher.{
  self, peer, select_target, choose, query_all, consider, query_peer_load, load_request, no_best,
  read_reply,
}
use socket_project.Port.{
  Arrival, Node, listener_thread, responder_hears, ask, first_reply, load_responder_thread,
  responder_loop, hears, respond, request_at,
}
use socket_project.Port.Listener.{Keeps, listener_thread-Keeps}
use socket_project.Port.Cluster.{
  Network, IsSane, Leads, replies, select_target-Leads, select_target-unheard,
}

abbrev here : Discovery
here = record { own_port = 7777; local_ip = 65 ∷ []; bcast_open = true }

abbrev unloaded : Machine
unloaded = record { loadavg = none; processors = some 4 }

abbrev tasks : ℕ → Load
tasks n = record { active_tasks = n; total_tasks = n }

abbrev noise : Arrival
noise = record {
  src_ip = 66 ∷ [];
  src_port = 9999;
  datagram = replicate 80 1;
  now = 100;
  now' = 101;
  machine = unloaded;
  load = tasks 0;
}

listener_thread-Keeps_example :
    Keeps here
      (some noise ∷ none ∷ some noise ∷ [])
      peer_list_init
      (listener_thread here true (some noise ∷ none ∷ some noise ∷ []) peer_list_init)
listener_thread-Keeps_example =
    listener_thread-Keeps here true (some noise ∷ none ∷ some noise ∷ []) peer_list_init
      (omega arith, (tt, (omega arith, tt))) peer_list_init-IsTable

abbrev busy : Bytes → ℕ
busy [] = 0
busy (x ∷ xs) = if x == 50 then 1 else 3

-- The kernel gives a request from an odd port to the responder; the address 50 runs one task, any
-- other three.
abbrev node_at : Bytes → Node
node_at ip = record {
  port = record {
    listener = true;
    responder = true;
    to_listener = λ a p. p % 2 == 0;
    to_responder = λ a p. p % 2 == 1;
  };
  discovery = here;
  machine = unloaded;
  load = tasks (busy ip);
}

abbrev ports_from : ℕ → Network
ports_from n = record { nodes = node_at; own_ip = 65 ∷ []; src_port = λ ip. n; at = λ ip. 100 }

abbrev entry : ℕ → PeerInfo
entry n = record {
  ip = n ∷ [];
  port = 7777;
  load_pct = 0;
  active_tasks = 0;
  total_tasks = 0;
  num_cores = 1;
  last_seen = 0;
  valid = true;
}

abbrev two_peers : Peers
two_peers = entry 51 ∷ entry 50 ∷ []

busy_small : (ip : Bytes) → busy ip < 2 ^ 32
busy_small [] = omega arith
busy_small (x ∷ xs) = ground arith

ports_from-IsSane : (n : ℕ) → IsSane toy_ops (ports_from n)
unfolding local_load load_get_percentage load_get load_get_core_count
ports_from-IsSane n = record {
  words = λ ip. record {
    pct = omega arith;
    active = omega (arith, busy_small ip);
    total = omega (arith, busy_small ip);
    cores = omega arith;
  };
  numbers = λ ip. refl;
  limit = refl;
}

low_score : toy_ops.le (load_score_local toy_ops unloaded (tasks 2)) 0x4e6e_6b28 ≡ true
unfolding load_score_local load_get_percentage load_get
low_score = refl

-- The peer at 50, which runs fewer tasks than this node, is picked.
picks_least :
    (select_target toy_ops (replies toy_ops (ports_from 1)) unloaded (tasks 2) two_peers).0
    ≡ peer (50 ∷ []) (some 7777)
unfolding select_target choose peer_list_get_all load_score_local load_get_percentage load_get
    query_all consider query_peer_load replies ask first_reply load_responder_thread responder_loop
    hears responder_hears respond load_request no_best read_reply capped load_get_core_count
    find_slot first_slot load_reported matches modify peer_list_update_load request_at answer
    load_response local_load be16 be32 header_bytes load_resp_bytes new_header of_be16 of_be32
    of_byte read_header read_load_resp strcmp_eq
picks_least = refl

select_target-Leads_example :
    Leads toy_ops toy_ops-IsOrdered
      (ports_from 1)
      (ports_from-IsSane 1)
      (load_score_local toy_ops unloaded (tasks 2))
      (peer_list_get_all max_peers two_peers)
      (select_target toy_ops (replies toy_ops (ports_from 1)) unloaded (tasks 2) two_peers).0
select_target-Leads_example =
    select_target-Leads toy_ops toy_ops-IsOrdered (ports_from 1) (ports_from-IsSane 1) unloaded
      (tasks 2) two_peers low_score

select_target-unheard_example :
    select_target toy_ops (replies toy_ops (ports_from 2)) unloaded (tasks 2) two_peers
    ≡ (self, two_peers)
unfolding peer_list_get_all responder_hears
select_target-unheard_example =
    select_target-unheard toy_ops toy_ops-IsOrdered (ports_from 2) (ports_from-IsSane 2) unloaded
      (tasks 2) two_peers low_score (refl, (refl, tt))
