-- ===== src/Listing.antt =====
-- New_socket_proj/peer_list.c: the lines of peer_list_print under its two heading lines. How printf writes
-- a float is the parameter `tenths`.
pub mod Rows
use socket_project.Prelude.{ℕ, ◌-◌, Option, List, [], ◌∷◌, ◌++◌, if◌then◌else◌, length, replicate}
use socket_project.Wire.{Bytes}
use socket_project.PeerList.{PeerInfo, Peers}
use socket_project.Startup.Arguments.{decimal}

-- `%-Ns` and `%-Nu`
unfoldable pub left_justified : ℕ → Bytes → Bytes
left_justified width s = s ++ replicate (width - length s) b' '

-- `"%-18s %-8u %.1f%%        %u\n"`
unfoldable pub print_row : (ℕ → Bytes) → Bytes → ℕ → ℕ → ℕ → Bytes
print_row tenths ip port load_pct count =
    left_justified 18 ip
    ++ (b' ' ∷ left_justified 8 (decimal port))
    ++ (b' ' ∷ tenths load_pct)
    ++ (b'%' ∷ replicate 8 b' ')
    ++ decimal count
    ++ (10 ∷ [])

unfoldable pub print_peer : (ℕ → Bytes) → PeerInfo → Bytes
print_peer tenths p = print_row tenths p.ip p.port p.load_pct p.total_tasks

unfoldable pub print_peers : (ℕ → Bytes) → Peers → Bytes
print_peers tenths [] = []
print_peers tenths (p ∷ g) =
    if p.valid then print_peer tenths p ++ print_peers tenths g else print_peers tenths g

-- `local_load` and `total_tasks` are what the load monitor gives.
unfoldable pub peer_list_print : (ℕ → Bytes) → Bytes → ℕ → ℕ → ℕ → Peers → Bytes
peer_list_print tenths local_ip local_port local_load total_tasks g =
    print_row tenths local_ip local_port local_load total_tasks ++ print_peers tenths g ++ (10 ∷ [])
