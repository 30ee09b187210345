-- ===== src/Lifetime/Tests.antt =====
-- `main` with a port and an interface, and `quit` at the prompt.
use socket_project.Prelude.{◌≡◌, ◌⊎◌, true, none, some, List, [], ◌∷◌, ◌++◌, arith, replicate}
use socket_project.Wire.{Bytes}
use socket_project.PeerList.{Peers, peer_list_init}
use socket_project.PeerList.Slots.{peer_of}
use socket_project.PeerList.Table.{IsTable, adds, run_peers, run_peers-init-IsTable}
use socket_project.Discovery.{on_datagram}
use socket_project.Discovery.Tests.{node_b, a_ne_b}
use socket_project.Startup.{Running, port_flag, iface_flag}
use socket_project.Startup.Arguments.{decimal}
use socket_project.Startup.Run.{prepared, start-port}
use socket_project.Startup.Tests.{kernel, kernel-Serves}
use socket_project.Shell.Rounds.{HasHung}
use socket_project.Shell.{Action, quit_word, newline, go}
use socket_project.Lifetime.{returns, hangs, Given, main}
use socket_project.Lifetime.Bye.{main-on_datagram}

abbrev given : Given
given = record {
  tcp = kernel 3;
  udp = kernel 4;
  interfaces = none;
  descriptors = [];
  malloc = λ n. true;
  fopen = λ path. none;
  hostname = 97 ∷ [];
  rounds = replicate 6 (go true);
  input = quit_word ++ (newline ∷ []);
}

abbrev argv : List Bytes
argv = port_flag ∷ decimal 8080 ∷ iface_flag ∷ (101 ∷ []) ∷ []

abbrev set_up : Running
set_up =
    prepared (kernel 3) (kernel 4) 3 4 none (record { port = 8080; iface = some (101 ∷ []) }) []

-- Another node's table, in which this node is listed.
abbrev listing : Peers
listing = run_peers (adds (65 ∷ []) 8080 100 ∷ []) peer_list_init

listing-IsTable : IsTable listing
listing-IsTable = run_peers-init-IsTable (adds (65 ∷ []) 8080 100 ∷ []) (omega arith)

main-on_datagram_example :
    ((actions : List Action) × (bye : Bytes) × (main given argv ≡ returns set_up actions (some bye))
      × (peer_of (65 ∷ []) (on_datagram node_b (65 ∷ []) bye 110 110 listing) ≡ none))
    ⊎ ((actions : List Action) × (main given argv ≡ hangs set_up actions) × HasHung given.rounds)
main-on_datagram_example =
    main-on_datagram given argv set_up node_b (65 ∷ []) 110 110 listing
      (start-port (kernel 3) (kernel 4) 3 4 8080 (101 ∷ []) none [] kernel-Serves (omega arith))
      (omega arith) a_ne_b listing-IsTable
