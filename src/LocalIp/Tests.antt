-- ===== src/LocalIp/Tests.antt =====
-- get_local_ip of net_utils.c at a concrete list.
use socket_project.Prelude.{◌≡◌, ◌⊎◌, true, false, some, List, [], ◌∷◌}
use socket_project.Wire.{Bytes}
use socket_project.LocalIp.{Interface, loopback_ip, get_local_ip}
use socket_project.LocalIp.Choice.{IsOutward, IsAsked, IsFirst, HasNone, get_local_ip_choice}

-- "lo" and "e"
abbrev interfaces : List Interface
interfaces =
    record { name = 108 ∷ 111 ∷ []; has_inet = true; is_loopback = true; address = loopback_ip }
    ∷ record { name = 101 ∷ []; has_inet = true; is_loopback = false; address = 49 ∷ 48 ∷ [] }
    ∷ []

get_local_ip_choice_example :
    (ip : Bytes) × (get_local_ip (some (119 ∷ [])) (some interfaces) ≡ some ip)
    × (IsFirst (IsAsked (some (119 ∷ []))) ip interfaces
        ⊎ (HasNone (IsAsked (some (119 ∷ []))) interfaces
            × (IsFirst IsOutward ip interfaces
                ⊎ (HasNone IsOutward interfaces × (ip ≡ loopback_ip)))))
get_local_ip_choice_example = get_local_ip_choice (some (119 ∷ [])) interfaces
