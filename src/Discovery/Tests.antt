-- ===== src/Discovery/Tests.antt =====
-- discovery.c at concrete inputs.
use socket_project.Prelude.{ℕ, ◌≡◌, ◌≢◌, refl, true, some, [], ◌∷◌, ◌++◌}
use socket_project.Wire.{Bytes, header_bytes, new_header, strcmp_eq, msg_hello}
use socket_project.PeerList.Lookup.{unequal}
use socket_project.Discovery.{Discovery, hello_size, build_hello, send_broadcast}

abbrev node_a : Discovery
node_a = record { own_port = 7777; local_ip = 65 ∷ []; bcast_open = true }

abbrev pub node_b : Discovery
node_b = record { own_port = 7778; local_ip = 66 ∷ []; bcast_open = true }

abbrev name : Bytes
name = 97 ∷ 98 ∷ []

abbrev packet : ℕ → Bytes
packet type = header_bytes (new_header type hello_size) ++ build_hello node_a name

a_sends : send_broadcast node_a name msg_hello ≡ some (packet msg_hello)
unfolding send_broadcast
a_sends = refl

pub a_ne_b : ◌≢◌ {A = Bytes} (65 ∷ []) (66 ∷ [])
unfolding strcmp_eq
a_ne_b = unequal (65 ∷ []) (66 ∷ []) refl
