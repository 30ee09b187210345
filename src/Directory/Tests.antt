-- ===== src/Directory/Tests.antt =====
-- The directory at a concrete run of calls.
use mathlib.Core.Quot.{Quot}
use socket_project.Prelude.{◌≡◌, arith, List, [], ◌∷◌, replicate}
use socket_project.Wire.{Bytes}
use socket_project.PeerList.{max_peers, peer_list_init, peer_list_get_all}
use socket_project.PeerList.Table.{PeerCall, adds, removes, updates_load, touches, reaps, run_peers}
use socket_project.Directory.Laws.{run_directory}
use socket_project.Directory.Refinement.{peer_list_get_all-run_peers}

-- "10.0.0.2" and "10.0.0.3"
abbrev ip_2 : Bytes
ip_2 = 49 ∷ 48 ∷ 46 ∷ 48 ∷ 46 ∷ 48 ∷ 46 ∷ 50 ∷ []

abbrev ip_3 : Bytes
ip_3 = 49 ∷ 48 ∷ 46 ∷ 48 ∷ 46 ∷ 48 ∷ 46 ∷ 51 ∷ []

-- Two peers come, one goes and comes back.
abbrev calls : List PeerCall
calls =
    adds ip_2 7777 100
    ∷ adds ip_3 7778 104
    ∷ updates_load ip_3 (replicate 16 1) 105
    ∷ removes ip_2
    ∷ adds ip_2 7779 106
    ∷ touches ip_3 120
    ∷ reaps 137
    ∷ []

peer_list_get_all-run_peers_example :
    Quot.mk (peer_list_get_all max_peers (run_peers calls peer_list_init))
    ≡ run_directory calls (Quot.mk [])
peer_list_get_all-run_peers_example = peer_list_get_all-run_peers calls (omega arith)
