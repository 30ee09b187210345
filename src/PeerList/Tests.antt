-- ===== src/PeerList/Tests.antt =====
-- peer_list.c at concrete inputs.
use socket_project.Prelude.{◌≡◌, refl, List, [], ◌∷◌, arith, ltb}
use socket_project.Wire.{Bytes, strcmp_eq}
use socket_project.PeerList.{
  Peers, max_peers, zero_peer, seen, peer_list_init, peer_list_add, peer_list_touch, first_slot,
  find_slot, find_free_slot, matches, modify, new_peer, announced,
}
use socket_project.PeerList.Slots.{peer_of}
use socket_project.PeerList.Table.{
  IsTable, PeerCall, adds, touches, run_peers, call_peers, run_peers-init-IsTable,
}
use socket_project.PeerList.Add.{used, entry_after, peer_list_add-peer_of}

-- "10.0.0.2" and "10.0.0.3"
abbrev ip_2 : Bytes
ip_2 = 49 ∷ 48 ∷ 46 ∷ 48 ∷ 46 ∷ 48 ∷ 46 ∷ 50 ∷ []

abbrev ip_3 : Bytes
ip_3 = 49 ∷ 48 ∷ 46 ∷ 48 ∷ 46 ∷ 48 ∷ 46 ∷ 51 ∷ []

abbrev calls : List PeerCall
calls = adds ip_2 7777 100 ∷ adds ip_3 7778 104 ∷ touches ip_2 105 ∷ []

abbrev two_peers : Peers
two_peers = run_peers calls peer_list_init

run_peers-init-IsTable_example : IsTable two_peers
run_peers-init-IsTable_example = run_peers-init-IsTable calls (omega arith)

two_peers-IsTable : IsTable two_peers
two_peers-IsTable = run_peers-init-IsTable calls (omega arith)

two_peers-used : used two_peers ≡ 2
unfolding run_peers call_peers peer_list_init peer_list_add peer_list_touch find_slot find_free_slot
    first_slot matches modify new_peer announced seen zero_peer used strcmp_eq
two_peers-used = refl

peer_list_add-peer_of_example :
    peer_of ip_3 (peer_list_add ip_3 9000 106 two_peers)
    ≡ entry_after ip_3 9000 106 (peer_of ip_3 two_peers) (ltb (used two_peers) max_peers)
unfolding strcmp_eq
peer_list_add-peer_of_example =
    peer_list_add-peer_of ip_3 9000 106 two_peers (omega arith) ip_3 two_peers-IsTable
