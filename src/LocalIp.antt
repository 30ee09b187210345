-- ===== src/LocalIp.antt =====
-- New_socket_proj/net_utils.c: get_local_ip, the choice of the address by which peers know a node.
pub mod Choice
pub mod Tests
use socket_project.Prelude.{Bool, true, ◌&&◌, not, Option, none, some, List, [], ◌∷◌, if◌then◌else◌}
use socket_project.Wire.{Bytes, strcmp_eq}

-- An entry of the list that `getifaddrs` gives: whether it has an AF_INET address, whether
-- IFF_LOOPBACK is set, and the address as `inet_ntop` writes it.
pub record Interface : Type 0 where
  pub name : Bytes
  pub has_inet : Bool
  pub is_loopback : Bool
  pub address : Bytes

-- "127.0.0.1"
abbrev pub loopback_ip : Bytes
loopback_ip = 49 ∷ 50 ∷ 55 ∷ 46 ∷ 48 ∷ 46 ∷ 48 ∷ 46 ∷ 49 ∷ []

unfoldable pub usable : Interface → Bool
usable i = i.has_inet && not i.is_loopback

-- `none` is a NULL `iface`.
unfoldable pub is_wanted : Option Bytes → Interface → Bool
is_wanted none i = usable i
is_wanted (some iface) i = usable i && strcmp_eq i.name iface

unfoldable pub first_match : (Interface → Bool) → List Interface → Option Interface
first_match test [] = none
first_match test (i ∷ ifs) = if test i then some i else first_match test ifs

-- `out_ip` from a pass that may have found an interface.
unfoldable pub address_or_loopback : Option Interface → Bytes
address_or_loopback none = loopback_ip
address_or_loopback (some i) = i.address

unfoldable pub second_pass : Option Bytes → List Interface → Bytes
second_pass none ifs = loopback_ip
second_pass (some iface) ifs = address_or_loopback (first_match usable ifs)

-- `none` in is a failing `getifaddrs`, `none` out is -1.
unfoldable pub get_local_ip : Option Bytes → Option (List Interface) → Option Bytes
get_local_ip iface none = none
get_local_ip iface (some ifs) = elim (first_match (is_wanted iface) ifs) [
  | some i ↦ some i.address
  | none ↦ some (second_pass iface ifs)
]
