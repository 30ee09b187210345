-- ===== src/Startup/Tests.antt =====
-- `main` of main.c at concrete arguments.
use socket_project.Prelude.{◌≡◌, refl, true, some, [], ◌∷◌, ℕ}
use socket_project.Descriptors.{Kernel}
use socket_project.Startup.{digits_value, signed_port, port_of}
use socket_project.Startup.Run.{Serves}

-- "abc", "65537", "-1", " +12x"
port_of_text : port_of (97 ∷ 98 ∷ 99 ∷ []) ≡ 0
unfolding port_of signed_port digits_value
port_of_text = refl

port_of_big : port_of (54 ∷ 53 ∷ 53 ∷ 51 ∷ 55 ∷ []) ≡ 1
unfolding port_of signed_port digits_value
port_of_big = refl

port_of_minus : port_of (45 ∷ 49 ∷ []) ≡ 65535
unfolding port_of signed_port digits_value
port_of_minus = refl

port_of_front : port_of (32 ∷ 43 ∷ 49 ∷ 50 ∷ 120 ∷ []) ≡ 12
unfolding port_of signed_port digits_value
port_of_front = refl

-- The kernel with `fd` as its next number.
abbrev pub kernel : ℕ → Kernel
kernel fd = record {
  socket = some fd;
  sets_broadcast = true;
  sets_reuse_addr = true;
  sets_reuse_port = true;
  binds = true;
  listens = true;
  parses_ip = true;
  connects = true;
}

pub kernel-Serves : Serves (kernel 3) (kernel 4) 3 4 []
kernel-Serves = record {
  server_made = refl;
  server_free = tt;
  binds = refl;
  listens = refl;
  bcast_made = refl;
  bcast_free = (refl, tt);
}
