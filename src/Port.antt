-- ===== src/Port.antt =====
-- New_socket_proj/discovery.c and main.c: listener_thread and load_responder_thread as loops, and UDP
-- port 9999 (DISCOVERY_PORT) of one node, which both bind with SO_REUSEPORT.
pub mod Listener
pub mod Query
pub mod Cluster
pub mod Tests
use socket_project.Prelude.{
  ℕ, Bool, true, false, ◌&&◌, Option, none, some, List, [], ◌∷◌, ◌==◌, if◌then◌else◌,
}
use socket_project.Wire.{Bytes, strcmp_eq}
use socket_project.PeerList.{Peers}
use socket_project.Float.{FloatOps}
use socket_project.LoadMonitor.{Load, Machine}
use socket_project.Discovery.{Discovery, on_datagram}
use socket_project.Responder.{answer}
use socket_project.Dispatcher.{Reply, silent, answers, load_request}

-- A datagram, the times at which the listener writes the table for it, and the state in which the
-- responder meets it.
pub record Arrival : Type 0 where
  pub src_ip : Bytes
  pub src_port : ℕ
  pub datagram : Bytes
  pub now : ℕ
  pub now' : ℕ
  pub machine : Machine
  pub load : Load

-- The loop of `listener_thread` over what each `recvfrom` gives; `none` for one that fails.
unfoldable pub listener_loop : Discovery → List (Option Arrival) → Peers → Peers
listener_loop d [] g = g
listener_loop d (none ∷ rs) g = listener_loop d rs g
listener_loop d (some a ∷ rs) g =
    listener_loop d rs (on_datagram d a.src_ip a.datagram a.now a.now' g)

-- `bound` says whether make_udp_broadcast_socket gave a descriptor.
unfoldable pub listener_thread : Discovery → Bool → List (Option Arrival) → Peers → Peers
listener_thread d false rs g = g
listener_thread d true rs g = listener_loop d rs g

-- A datagram that the responder sends, and where to.
pub record Datagram : Type 0 where
  pub to_ip : Bytes
  pub to_port : ℕ
  pub pkt : Bytes

-- `sendto`, if the round comes to it.
unfoldable pub respond : FloatOps → Arrival → List Datagram → List Datagram
respond f a rest = elim (answer f a.machine a.load a.datagram) [
  | none ↦ rest
  | some pkt ↦ record { to_ip = a.src_ip; to_port = a.src_port; pkt = pkt } ∷ rest
]

-- The loop of `load_responder_thread`: what it sends.
unfoldable pub responder_loop : FloatOps → List (Option Arrival) → List Datagram
responder_loop f [] = []
responder_loop f (none ∷ rs) = responder_loop f rs
responder_loop f (some a ∷ rs) = respond f a (responder_loop f rs)

unfoldable pub load_responder_thread : FloatOps → Bool → List (Option Arrival) → List Datagram
load_responder_thread f false rs = []
load_responder_thread f true rs = responder_loop f rs

-- Which of the two threads have bound the port, and to which of the two sockets the kernel gives a
-- unicast datagram from an address: of a group with SO_REUSEPORT it picks one.
pub record Group : Type 0 where
  pub listener : Bool
  pub responder : Bool
  pub to_listener : Bytes → ℕ → Bool
  pub to_responder : Bytes → ℕ → Bool

unfoldable pub responder_hears : Group → Bytes → ℕ → Bool
responder_hears u ip port = u.responder && u.to_responder ip port

-- What one `recvfrom` of a thread gets of a unicast datagram.
unfoldable pub hears : Bool → Arrival → List (Option Arrival)
hears true a = some a ∷ []
hears false a = []

-- A node of the network.
pub record Node : Type 0 where
  pub port : Group
  pub discovery : Discovery
  pub machine : Machine
  pub load : Load

-- The MSG_LOAD_REQ of query_peer_load from one address, at a node.
unfoldable pub request_at : Node → Bytes → ℕ → ℕ → Arrival
request_at n ip port now = record {
  src_ip = ip;
  src_port = port;
  datagram = load_request;
  now = now;
  now' = now;
  machine = n.machine;
  load = n.load;
}

-- The first datagram that comes back to the asking socket, at the time `now`.
unfoldable pub first_reply : Bytes → ℕ → ℕ → List Datagram → Reply
first_reply ip port now [] = silent
first_reply ip port now (s ∷ rest) =
    if strcmp_eq s.to_ip ip && (s.to_port == port)
    then answers s.pkt now
    else first_reply ip port now rest

-- What query_peer_load gets from that node, and that node's table after the request.
unfoldable pub ask : FloatOps → Node → Bytes → ℕ → ℕ → Reply
ask f n ip port now = first_reply ip port now (
    load_responder_thread f n.port.responder
      (hears (responder_hears n.port ip port) (request_at n ip port now)))

unfoldable pub asked : Node → Bytes → ℕ → ℕ → Peers → Peers
asked n ip port now g =
    listener_thread n.discovery n.port.listener
      (hears (n.port.to_listener ip port) (request_at n ip port now)) g
