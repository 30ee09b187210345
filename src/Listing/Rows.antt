-- ===== src/Listing/Rows.antt =====
-- What peer_list_print shows is the snapshot that dispatch looks at.
use socket_project.Prelude.{ℕ, ◌≡◌, refl, [], ◌∷◌, ◌++◌, arith}
use socket_project.Wire.{Bytes}
use socket_project.PeerList.{Peers, max_peers, peer_list_get_all}
use socket_project.PeerList.Table.{IsTable}
use socket_project.Directory.{entries}
use socket_project.Directory.Refinement.{peer_list_get_all-entries, length-entries-le}
use socket_project.Listing.{print_row, print_peer, print_peers, peer_list_print}

-- One line after the other.
unfoldable pub lines : (ℕ → Bytes) → Peers → Bytes
lines tenths [] = []
lines tenths (p ∷ l) = print_peer tenths p ++ lines tenths l

print_peers-entries :
    (tenths : ℕ → Bytes) (g : Peers) → print_peers tenths g ≡ lines tenths (entries g)
unfolding print_peers lines entries
print_peers-entries tenths [] = refl
print_peers-entries tenths (p ∷ g) = ground (arith, print_peers-entries tenths g)

-- Under its own line, peer_list_print has one line for each peer of a sound table that
-- peer_list_get_all with room for 64 gives, in the same order.
peer_list_print-peer_list_get_all :
    (tenths : ℕ → Bytes) (local_ip : Bytes) (local_port local_load total_tasks : ℕ) (g : Peers)
    → IsTable g
    → peer_list_print tenths local_ip local_port local_load total_tasks g
      ≡ print_row tenths local_ip local_port local_load total_tasks
        ++ lines tenths (peer_list_get_all max_peers g)
        ++ (10 ∷ [])
unfolding peer_list_print
peer_list_print-peer_list_get_all tenths local_ip local_port local_load total_tasks g t =
    let shown =
      peer_list_get_all-entries max_peers g (omega (arith, length-entries-le g, t.size)) in
    rw (print_peers-entries tenths g, shown) refl
