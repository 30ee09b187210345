-- ===== src/Heartbeat.antt =====
-- New_socket_proj/discovery.c, two nodes: announcer_thread of one beside the listener, the reaper and the
-- dispatcher of the other. `slow` bounds how long after its sleep the announcer gets to run, `late` the
-- same for the reaper. A HELLO arrives in the second in which it is sent, or is lost.
pub mod Alive
pub mod Tests
use socket_project.Prelude.{ℕ, suc, ◌+◌, ◌≤◌, ◌<◌, none, some}
use socket_project.Wire.{Bytes, msg_hello}
use socket_project.PeerList.{Peers}
use socket_project.Discovery.{Discovery, send_broadcast, on_datagram}
use socket_project.Presence.{World, no_bye}
use socket_project.Presence

-- `DISCOVERY_INTERVAL`
abbrev pub discovery_interval : ℕ
discovery_interval = 5

-- The node that announces itself, the one that listens, and what the network shows of the first.
pub record Nodes : Type 0 where
  pub announcer : Discovery
  pub listener : Discovery
  pub hostname : Bytes
  pub src_ip : Bytes

-- `hello_at` is when the announcer's sleep ends, `lost` how many HELLOs in a row got lost last.
pub record Pair : Type 0 where
  pub world : World
  pub hello_at : ℕ
  pub lost : ℕ

-- The listener's table after a HELLO of the announcer.
unfoldable pub hear : Nodes → ℕ → Peers → Peers
hear n now g = elim (send_broadcast n.announcer n.hostname msg_hello) [
  | none ↦ g
  | some packet ↦ on_datagram n.listener n.src_ip packet now now g
]

unfoldable pub sleep_again : ℕ → ℕ
sleep_again now = now + discovery_interval

-- No more than `most` HELLOs in a row are lost.
pub data Beat (late slow most : ℕ) (n : Nodes) : Pair → Pair → Type 0 where
  arrives :
      {x : Pair}
      → x.hello_at ≤ x.world.now
      → Beat late slow most n x (record {
        world = record x.world { peers = hear n x.world.now x.world.peers };
        hello_at = sleep_again x.world.now;
        lost = 0;
      })
  loses :
      {x : Pair}
      → x.hello_at ≤ x.world.now
      → x.lost < most
      → Beat late slow most n x (record x { hello_at = sleep_again x.world.now; lost = suc x.lost })
  others :
      {x : Pair} {v : World}
      → Presence.Step late (no_bye n.src_ip) x.world v
      → v.now ≤ x.hello_at + slow
      → Beat late slow most n x (record x { world = v })

pub data Beats (late slow most : ℕ) (n : Nodes) : Pair → Pair → Type 0 where
  none_yet : {x : Pair} → Beats late slow most n x x
  then_one :
      {x y z : Pair}
      → Beats late slow most n x y
      → Beat late slow most n y z
      → Beats late slow most n x z

-- The listener at `w`, in the second of a HELLO that arrived.
unfoldable pub heard : World → Pair
heard w = record { world = w; hello_at = sleep_again w.now; lost = 0 }
