-- ===== src/Descriptors/Dispatch/Closing.antt =====
-- dispatcher.c closes what it opens.
use mathlib.Core.Path.{subst}
use socket_project.Prelude.{
  ℕ, ◌≡◌, refl, ap, sym, ◌⊎◌, inl, inr, Bool, true, false, Option, none, some, List, [], ◌∷◌, All,
  Bool-cases, Option-cases,
}
use socket_project.Wire.{Bytes}
use socket_project.Descriptors.{Descriptor, Table, Kernel, make_udp_broadcast_socket, tcp_connect}
use socket_project.Descriptors.Opening.{
  GivesFree, IsFree, Opens, close_head, connected_socket, broadcast_socket, sockets-Opens,
}
use socket_project.Descriptors.Dispatch.{
  Asking, close_query, query_sockets, Exchange, exchange, Route, fall_back, open_route,
  dispatch_sockets,
}

-- -1, or the number that `socket` gave.
abbrev FromKernel : Kernel → Option ℕ → Type 0
FromKernel k r = (r ≡ none) ⊎ (r ≡ k.socket)

tcp_connect-FromKernel :
    (k : Kernel) (ip : Bytes) (port : ℕ) (t : Table) → FromKernel k (tcp_connect k ip port t).0
unfolding tcp_connect
tcp_connect-FromKernel k ip port t = elim (Option-cases k.socket) [
  | inl e ↦ inl (rw (e, tcp_connect) refl)
  | inr (fd, e) ↦ elim (Bool-cases k.parses_ip) [
    | inr p ↦ inl (rw (e, tcp_connect, p) refl)
    | inl p ↦ elim (Bool-cases k.connects) [
      | inr c ↦ inl (rw (e, tcp_connect, p, c) refl)
      | inl c ↦ inr (rw (e, tcp_connect, p, c) refl)
    ]
  ]
]

make_udp_broadcast_socket-FromKernel :
    (k : Kernel) (t : Table) → FromKernel k (make_udp_broadcast_socket k 0 t).0
unfolding make_udp_broadcast_socket
make_udp_broadcast_socket-FromKernel k t = elim (Option-cases k.socket) [
  | inl e ↦ inl (rw (e, make_udp_broadcast_socket) refl)
  | inr (fd, e) ↦ inr (rw (e, make_udp_broadcast_socket) refl)
]

-- The result of a maker: nothing changed, or one socket more, with a number that was free.
abbrev Made : (ℕ → Descriptor) → Table → Option ℕ × Table → Type 0
Made d t r = (r ≡ (none, t)) ⊎ ((fd : ℕ) × (r ≡ (some fd, d fd ∷ t)) × IsFree fd t)

Opens-Made :
    (k : Kernel) (d : ℕ → Descriptor) (t : Table) (r : Option ℕ × Table)
    → GivesFree k t
    → FromKernel k r.0
    → Opens d t r
    → Made d t r
Opens-Made k d t (none, t') free from o = inl (ap (λ x. (none, x)) o)
Opens-Made k d t (some fd, t') free (inl e) o = absurd cc
Opens-Made k d t (some fd, t') free (inr e) o = inr (fd, ap (λ x. (some fd, x)) o, free fd (sym e))

tcp_connect-Made :
    (k : Kernel) (ip : Bytes) (port : ℕ) (t : Table)
    → GivesFree k t
    → Made (connected_socket ip port) t (tcp_connect k ip port t)
tcp_connect-Made k ip port t free =
    Opens-Made k (connected_socket ip port) t _ free (tcp_connect-FromKernel k ip port t)
      (sockets-Opens k ip port t free).0

query-closes :
    (q : Asking) (t : Table)
    → GivesFree q.kernel t
    → close_query q.selected (make_udp_broadcast_socket q.kernel 0 t) ≡ t
unfolding close_query
query-closes q t free =
    let made =
      Opens-Made q.kernel (broadcast_socket q.kernel 0) t _ free
        (make_udp_broadcast_socket-FromKernel q.kernel t) (sockets-Opens q.kernel [] 0 t free).2 in
    elim made [
      | inl e ↦ rw (e, close_query) refl
      | inr (fd, e, h) ↦ elim (Bool-cases q.selected) [
        | inl s ↦ rw (e, s, close_query) (close_head fd _ t refl h)
        | inr s ↦ rw (e, s, close_query) (close_head fd _ t refl h)
      ]
    ]

query_sockets-closes :
    (qs : List Asking) (t : Table) → All (λ q. GivesFree q.kernel t) qs → query_sockets qs t ≡ t
unfolding query_sockets
query_sockets-closes [] t h = refl
query_sockets-closes (q ∷ qs) t h = rw (query-closes q t h.0) (query_sockets-closes qs t h.1)

abbrev own_socket : Route → ℕ → Descriptor
own_socket r = connected_socket r.local_ip r.own_port

abbrev peer_socket : Route → ℕ → Descriptor
peer_socket r = connected_socket r.best_ip r.best_port

-- No connection, one to this node, or, where a peer was picked, one to the peer.
abbrev Routed : Route → Table → Option ℕ × Table → Type 0
Routed r t o = Made (own_socket r) t o ⊎ ((r.use_local ≡ false) × Made (peer_socket r) t o)

fall_back-Routed :
    (k : Kernel) (r : Route) (t : Table) (o : Option ℕ × Table)
    → r.use_local ≡ false
    → GivesFree k t
    → Made (peer_socket r) t o
    → Routed r t (fall_back k r o)
unfolding fall_back
fall_back-Routed k r t o u free (inl e) =
    inl (rw (e, fall_back) (tcp_connect-Made k r.local_ip r.own_port t free))
fall_back-Routed k r t o u free (inr (fd, e, h)) = inr (u, inr (fd, rw (e, fall_back) refl, h))

open_route-Routed :
    (k k' : Kernel) (r : Route) (t : Table)
    → GivesFree k t
    → GivesFree k' t
    → Routed r t (open_route k k' r t)
unfolding open_route fall_back
open_route-Routed k k' r t free free' = elim (Bool-cases r.use_local) [
  | inl u ↦ inl (rw (u, open_route) (tcp_connect-Made k r.local_ip r.own_port t free))
  | inr u ↦
      let to_peer = tcp_connect k r.best_ip r.best_port t in
      let route : open_route k k' r t ≡ fall_back k' r to_peer = rw (u, open_route) refl in
      subst (Routed r t) (sym route)
        (fall_back-Routed k' r t to_peer u free' (tcp_connect-Made k r.best_ip r.best_port t free))
]

-- What dispatch leaves, and with which socket it sends the task.
abbrev pub Closes : Route → Table → Exchange → Type 0
Closes r t x =
    (x.after ≡ t)
    × ((x.during ≡ none)
        ⊎ (((fd : ℕ) × (x.during ≡ some (own_socket r fd ∷ t)))
            ⊎ ((r.use_local ≡ false) × (fd : ℕ) × (x.during ≡ some (peer_socket r fd ∷ t)))))

-- The exchange over a new connection.
exchange-Made :
    (sends : Bool) (d : ℕ → Descriptor) (t : Table) (o : Option ℕ × Table)
    → ((fd : ℕ) → (d fd).fd ≡ fd)
    → Made d t o
    → ((exchange sends o).after ≡ t)
      × (((exchange sends o).during ≡ none)
          ⊎ ((fd : ℕ) × ((exchange sends o).during ≡ some (d fd ∷ t))))
unfolding exchange
exchange-Made sends d t o num (inl e) = rw (e, exchange) (refl, inl refl)
exchange-Made true d t o num (inr (fd, e, h)) =
    rw (e, exchange) (close_head fd (d fd) t (num fd) h, inr (fd, refl))
exchange-Made false d t o num (inr (fd, e, h)) =
    rw (e, exchange) (close_head fd (d fd) t (num fd) h, inr (fd, refl))

exchange-Closes :
    (sends : Bool) (r : Route) (t : Table) (o : Option ℕ × Table)
    → Routed r t o
    → Closes r t (exchange sends o)
exchange-Closes sends r t o (inl m) =
    let (shut, used) = exchange-Made sends (own_socket r) t o (λ fd. refl) m in
    (shut, elim used [ inl n ↦ inl n | inr k ↦ inr (inl k) ])
exchange-Closes sends r t o (inr (u, m)) =
    let (shut, used) = exchange-Made sends (peer_socket r) t o (λ fd. refl) m in
    (shut, elim used [ inl n ↦ inl n | inr k ↦ inr (inr (u, k.0, k.1)) ])

-- When the kernel gives out unused numbers, dispatch leaves the descriptor table as it was,
-- whatever comes of its queries, its attempts to connect and its sending; and it sends the task,
-- if it does, with just one socket more open than before, which is connected to this node, or to
-- the peer that it picked.
pub dispatch_sockets-Closes :
    (qs : List Asking) (k k' : Kernel) (r : Route) (sends : Bool) (t : Table)
    → All (λ q. GivesFree q.kernel t) qs
    → GivesFree k t
    → GivesFree k' t
    → Closes r t (dispatch_sockets qs k k' r sends t)
unfolding dispatch_sockets
dispatch_sockets-Closes qs k k' r sends t asked free free' =
    rw (query_sockets-closes qs t asked)
      (exchange-Closes sends r t _ (open_route-Routed k k' r t free free'))
