-- ===== src/Descriptors/Opening.antt =====
-- What the socket makers of net_utils.c leave in the descriptor table.
use mathlib.Core.Path.{subst}
use mathlib.Core.Option.{some-injective}
use socket_project.Prelude.{
  ℕ, ◌%◌, ◌^◌, ◌≡◌, refl, sym, ◌∙◌, inl, inr, true, false, Option, none, some, [], ◌∷◌, ltb, ◌==◌,
  if◌then◌else◌, arith, Bool-cases, Option-cases, All,
}
use socket_project.Wire.{Bytes}
use socket_project.Descriptors.{
  stream, datagram, Descriptor, Table, Kernel, fresh, set_socket, close, set_broadcast, set_reuse,
  bind_any, start_listening, connect_to, make_udp_broadcast_socket, make_tcp_server, tcp_connect,
}

-- The kernel gives a number that is not in use.
abbrev pub IsFree : ℕ → Table → Type 0
IsFree fd = All (λ d. (d.fd == fd) ≡ false)

abbrev pub GivesFree : Kernel → Table → Type 0
GivesFree k t = (fd : ℕ) → k.socket ≡ some fd → IsFree fd t

set_socket-IsFree :
    (fd : ℕ) (f : Descriptor → Descriptor) (t : Table) → IsFree fd t → set_socket fd f t ≡ t
unfolding set_socket
set_socket-IsFree fd f [] h = refl
set_socket-IsFree fd f (d ∷ t) h = rw (h.0, set_socket-IsFree fd f t h.1) refl

close-IsFree : (fd : ℕ) (t : Table) → IsFree fd t → close fd t ≡ t
unfolding close
close-IsFree fd [] h = refl
close-IsFree fd (d ∷ t) h = rw (h.0, close-IsFree fd t h.1) refl

==_refl : (n : ℕ) → (n == n) ≡ true
==_refl n = ground arith

set_socket_head :
    (fd : ℕ) (d : Descriptor) (f : Descriptor → Descriptor) (t : Table)
    → d.fd ≡ fd
    → IsFree fd t
    → set_socket fd f (d ∷ t) ≡ f d ∷ t
unfolding set_socket
set_socket_head fd d f t e h = rw (e, ==_refl fd, set_socket-IsFree fd f t h) refl

pub close_head :
    (fd : ℕ) (d : Descriptor) (t : Table) → d.fd ≡ fd → IsFree fd t → close fd (d ∷ t) ≡ t
unfolding close
close_head fd d t e h = rw (e, ==_refl fd) (close-IsFree fd t h)

-- -1 with the table as it was, or a descriptor with exactly this socket added to the table.
abbrev pub Opens : (ℕ → Descriptor) → Table → Option ℕ × Table → Type 0
Opens d t (none, t') = t' ≡ t
Opens d t (some fd, t') = t' ≡ d fd ∷ t

abbrev pub connected_socket : Bytes → ℕ → ℕ → Descriptor
connected_socket ip port fd = record {
  fd = fd;
  kind = stream;
  broadcast = false;
  reuse_addr = false;
  reuse_port = false;
  bound = none;
  backlog = none;
  remote = some (record { address = some ip; port = port });
}

abbrev pub listening_socket : Kernel → ℕ → ℕ → Descriptor
listening_socket k port fd = record {
  fd = fd;
  kind = stream;
  broadcast = false;
  reuse_addr = k.sets_reuse_addr;
  reuse_port = k.sets_reuse_port;
  bound = some (record { address = none; port = port % 2 ^ 16 });
  backlog = some 32;
  remote = none;
}

abbrev pub broadcast_socket : Kernel → ℕ → ℕ → Descriptor
broadcast_socket k port fd = record {
  fd = fd;
  kind = datagram;
  broadcast = k.sets_broadcast;
  reuse_addr = k.sets_reuse_addr;
  reuse_port = k.sets_reuse_port;
  bound = if ltb 0 port then some (record { address = none; port = port % 2 ^ 16 }) else none;
  backlog = none;
  remote = none;
}

tcp_connect-Opens :
    (k : Kernel) (ip : Bytes) (port : ℕ) (t : Table)
    → GivesFree k t
    → Opens (connected_socket ip port) t (tcp_connect k ip port t)
unfolding tcp_connect fresh connect_to
tcp_connect-Opens k ip port t free = elim (Option-cases k.socket) [
  | inl e ↦ rw (e, tcp_connect) refl
  | inr (fd, e) ↦
      let new = fresh fd stream in
      let shut = close_head fd new t refl (free fd e) in
      elim (Bool-cases k.parses_ip) [
        | inl p ↦ elim (Bool-cases k.connects) [
          | inl c ↦
              rw (e, tcp_connect, p, c)
                (set_socket_head fd new (connect_to ip port) t refl (free fd e))
          | inr c ↦ rw (e, tcp_connect, p, c) shut
        ]
        | inr p ↦ rw (e, tcp_connect, p) shut
      ]
]

make_tcp_server-Opens :
    (k : Kernel) (port : ℕ) (t : Table)
    → GivesFree k t
    → Opens (listening_socket k port) t (make_tcp_server k port t)
unfolding make_tcp_server fresh set_reuse bind_any start_listening
make_tcp_server-Opens k port t free = elim (Option-cases k.socket) [
  | inl e ↦ rw (e, make_tcp_server) refl
  | inr (fd, e) ↦
      let d₁ = fresh fd stream in
      let d₂ = set_reuse k.sets_reuse_addr k.sets_reuse_port d₁ in
      let d₃ = bind_any port d₂ in
      let reuse =
        set_socket_head fd d₁ (set_reuse k.sets_reuse_addr k.sets_reuse_port) t refl (free fd e) in
      let bound = set_socket_head fd d₂ (bind_any port) t refl (free fd e) in
      elim (Bool-cases k.binds) [
        | inl p ↦ elim (Bool-cases k.listens) [
          | inl c ↦
              rw (e, make_tcp_server, p, c, reuse, bound)
                (set_socket_head fd d₃ (start_listening 32) t refl (free fd e))
          | inr c ↦
              rw (e, make_tcp_server, p, c, reuse, bound) (close_head fd d₃ t refl (free fd e))
        ]
        | inr p ↦ rw (e, make_tcp_server, p, reuse) (close_head fd d₂ t refl (free fd e))
      ]
]

make_udp_broadcast_socket-Opens :
    (k : Kernel) (port : ℕ) (t : Table)
    → GivesFree k t
    → Opens (broadcast_socket k port) t (make_udp_broadcast_socket k port t)
unfolding make_udp_broadcast_socket fresh set_broadcast set_reuse bind_any
make_udp_broadcast_socket-Opens k port t free = elim (Option-cases k.socket) [
  | inl e ↦ rw (e, make_udp_broadcast_socket) refl
  | inr (fd, e) ↦
      let d₁ = fresh fd datagram in
      let d₂ = set_broadcast k.sets_broadcast d₁ in
      let d₃ = set_reuse k.sets_reuse_addr k.sets_reuse_port d₂ in
      let cast = set_socket_head fd d₁ (set_broadcast k.sets_broadcast) t refl (free fd e) in
      let reuse =
        set_socket_head fd d₂ (set_reuse k.sets_reuse_addr k.sets_reuse_port) t refl (free fd e) in
      elim (Bool-cases (ltb 0 port)) [
        | inl p ↦ elim (Bool-cases k.binds) [
          | inl c ↦
              rw (e, make_udp_broadcast_socket, p, c, cast, reuse, p)
                (set_socket_head fd d₃ (bind_any port) t refl (free fd e))
          | inr c ↦
              rw (e, make_udp_broadcast_socket, p, c, cast, reuse)
                (close_head fd d₃ t refl (free fd e))
        ]
        | inr p ↦ rw (e, make_udp_broadcast_socket, p, cast, reuse, p) refl
      ]
]

only_free : (k : Kernel) (fd : ℕ) (t : Table) → k.socket ≡ some fd → IsFree fd t → GivesFree k t
only_free k fd t e free n e' = subst (λ m. IsFree m t) (some-injective fd n (sym e ∙ e')) free

Opens-some :
    (d : ℕ → Descriptor) (t : Table) (fd : ℕ) (r : Option ℕ × Table)
    → Opens d t r
    → r.0 ≡ some fd
    → r ≡ (some fd, d fd ∷ t)
Opens-some d t fd (none, t') h e = cc
Opens-some d t fd (some n, t') h e = ground (arith, h)

pub make_tcp_server_succeeds :
    (k : Kernel) (port fd : ℕ) (t : Table)
    → k.socket ≡ some fd
    → IsFree fd t
    → k.binds ≡ true
    → k.listens ≡ true
    → make_tcp_server k port t ≡ (some fd, listening_socket k port fd ∷ t)
unfolding make_tcp_server
make_tcp_server_succeeds k port fd t e free b l =
    Opens-some (listening_socket k port) t fd (make_tcp_server k port t)
      (make_tcp_server-Opens k port t (only_free k fd t e free))
      (rw (e, make_tcp_server, b, l) refl)

pub make_udp_broadcast_socket_succeeds :
    (k : Kernel) (fd : ℕ) (t : Table)
    → k.socket ≡ some fd
    → IsFree fd t
    → make_udp_broadcast_socket k 0 t ≡ (some fd, broadcast_socket k 0 fd ∷ t)
unfolding make_udp_broadcast_socket
make_udp_broadcast_socket_succeeds k fd t e free =
    Opens-some (broadcast_socket k 0) t fd (make_udp_broadcast_socket k 0 t)
      (make_udp_broadcast_socket-Opens k 0 t (only_free k fd t e free))
      (rw (e, make_udp_broadcast_socket) refl)

-- When the kernel gives out unused numbers, tcp_connect, make_tcp_server and
-- make_udp_broadcast_socket each either return -1 with the descriptor table as it was, or a
-- descriptor with exactly one socket added: connected to the address and port; bound to the port
-- and listening; or with the broadcast option as setsockopt left it, and bound if the port is not
-- 0.
pub sockets-Opens :
    (k : Kernel) (ip : Bytes) (port : ℕ) (t : Table)
    → GivesFree k t
    → Opens (connected_socket ip port) t (tcp_connect k ip port t)
      × Opens (listening_socket k port) t (make_tcp_server k port t)
      × Opens (broadcast_socket k port) t (make_udp_broadcast_socket k port t)
sockets-Opens k ip port t free = (
  tcp_connect-Opens k ip port t free,
  make_tcp_server-Opens k port t free,
  make_udp_broadcast_socket-Opens k port t free,
)
