-- ===== src/Port/Cluster.antt =====
-- `dispatch` of dispatcher.c among nodes whose listener and responder share the port.
use socket_project.Prelude.{
  ℕ, ◌≡◌, refl, ap, sym, ◌∙◌, ◌⊎◌, inl, inr, Bool, true, false, some, [], ◌∷◌, Bool-cases, All,
}
use mathlib.Core.List.{not-mem-nil, eq-or-mem_of_mem-cons, Mem, mem-cons_self, mem-cons_of_mem}
use mathlib.Core.Logic.{∥∥₁_elim}
use mathlib.Core.HLevel.{⊥_prop}
use mathlib.Core.Path.{ap₂}
use socket_project.Wire.{Bytes}
use socket_project.PeerList.{PeerInfo, Peers, max_peers, peer_list_get_all}
use socket_project.Float.{FloatOps, IsOrdered, float_1e9, float_1e10}
use socket_project.LoadMonitor.{Load, Machine, load_score_local}
use socket_project.Dispatcher.{
  answers, Reply, Best, no_best, Target, self, peer, query_peer_load, query_all, select_target,
  info_port,
}
use socket_project.Dispatcher.Select.{
  score_of, Least, Numbers, IsOneOf, Chosen, select_target-Chosen,
}
use socket_project.Responder.{local_load, load_response}
use socket_project.Responder.Score.{answer_request, IsWords, query_peer_load-answer}
use socket_project.Port.{Node, responder_hears, ask}
use socket_project.Port.Query.{ask-heard, ask-unheard}

-- The nodes at each address, the address that the queries come from, and the port that the kernel
-- gives to the socket of each query.
pub record Network : Type 0 where
  pub nodes : Bytes → Node
  pub own_ip : Bytes
  pub src_port : Bytes → ℕ
  pub at : Bytes → ℕ

-- What each query of one dispatch brings back.
unfoldable pub replies : FloatOps → Network → Bytes → Reply
replies f w ip = ask f (w.nodes ip) w.own_ip (w.src_port ip) (w.at ip)

abbrev pub heard : Network → Bytes → Bool
heard w ip = responder_hears (w.nodes ip).port w.own_ip (w.src_port ip)

-- How a node scores itself.
abbrev pub own_score : FloatOps → Node → ℕ
own_score f n = load_score_local f n.machine n.load

-- What the nodes report are 32-bit words and numbers.
pub record IsSane (f : FloatOps) (w : Network) : Type 0 where
  pub words : (ip : Bytes) → IsWords (local_load f (w.nodes ip).machine (w.nodes ip).load)
  pub numbers : (ip : Bytes) → f.is_nan (own_score f (w.nodes ip)) ≡ false
  pub limit : f.is_nan float_1e9 ≡ false

module _ (f : FloatOps) (o : IsOrdered f) (w : Network) (s : IsSane f w) where
  score_heard :
      (p : PeerInfo)
      → heard w p.ip ≡ true
      → (score_of f (replies f w) p ≡ own_score f (w.nodes p.ip))
        × (info_port (query_peer_load f p.ip p.port (replies f w p.ip) []).info ≡ some p.port)
  unfolding replies
  score_heard p h =
      let n = w.nodes p.ip in
      let e = ask-heard f n w.own_ip (w.src_port p.ip) (w.at p.ip) h in
      let (reply, sent, score, port, _) =
        query_peer_load-answer f n.machine n.load p.ip p.port (w.at p.ip) [] (s.words p.ip) in
      let same : load_response f n.machine n.load ≡ reply =
        cc (sent, answer_request f n.machine n.load) in
      let back : replies f w p.ip ≡ answers reply (w.at p.ip) =
        e ∙ ap (λ b. answers b (w.at p.ip)) same in
      (
        ap (λ r. (query_peer_load f p.ip p.port r []).score) back ∙ score,
        ap (λ r. info_port (query_peer_load f p.ip p.port r []).info) back ∙ port,
      )

  score_unheard : (p : PeerInfo) → heard w p.ip ≡ false → score_of f (replies f w) p ≡ float_1e9
  unfolding replies query_peer_load
  score_unheard p h =
      rw (score_of, ask-unheard f (w.nodes p.ip) w.own_ip (w.src_port p.ip) (w.at p.ip) h)

  score_number : (p : PeerInfo) → f.is_nan (score_of f (replies f w) p) ≡ false
  score_number p = elim (Bool-cases (heard w p.ip)) [
    | inl h ↦ ap f.is_nan (score_heard p h).0 ∙ s.numbers p.ip
    | inr h ↦ ap f.is_nan (score_unheard p h) ∙ s.limit
  ]

  replies-Numbers : (ps : Peers) → Numbers f o (replies f w) ps
  replies-Numbers [] = tt
  replies-Numbers (p ∷ ps) = (score_number p, replies-Numbers ps)

  -- No peer that hears its request scores itself below `best`.
  abbrev pub LeastHeard : ℕ → Peers → Type 0
  LeastHeard best =
      All (λ p. (heard w p.ip ≡ false) ⊎ (f.le best (own_score f (w.nodes p.ip)) ≡ true))

  -- This node, or a peer of the list that heard its request, with the port of the list.
  abbrev pub Leads : ℕ → Peers → Target → Type 0
  Leads own ps t =
      ((t ≡ self) × LeastHeard own ps)
      ⊎ ((p : PeerInfo) × Mem p ps
          × (t ≡ peer p.ip (some p.port))
          × (heard w p.ip ≡ true)
          × LeastHeard (own_score f (w.nodes p.ip)) ps
          × (f.le own (own_score f (w.nodes p.ip)) ≡ false))

  Least-LeastHeard : (best : ℕ) (ps : Peers) → Least f o (replies f w) best ps → LeastHeard best ps
  Least-LeastHeard best [] l = tt
  Least-LeastHeard best (p ∷ ps) l = (
    elim (Bool-cases (heard w p.ip)) [
      | inl h ↦ inr (rw (← (score_heard p h).0) l.0)
      | inr h ↦ inl h
    ],
    Least-LeastHeard best ps l.1,
  )

  picked-heard :
      (own : ℕ) (p : PeerInfo)
      → f.le own float_1e9 ≡ true
      → f.le own (score_of f (replies f w) p) ≡ false
      → heard w p.ip ≡ true
  picked-heard own p low high = elim (Bool-cases (heard w p.ip)) [
    | inl h ↦ h
    | inr h ↦ absurd (cc (low, high, score_unheard p h))
  ]

  -- The peer that the best score came from.
  picked_peer :
      (own : ℕ) (b : Best) (ps : Peers)
      → f.le own float_1e9 ≡ true
      → f.le own b.score ≡ false
      → IsOneOf f o (replies f w) b no_best ps
      → (p : PeerInfo) × Mem p ps
        × (peer b.ip b.port ≡ peer p.ip (some p.port))
        × (heard w p.ip ≡ true)
        × (b.score ≡ own_score f (w.nodes p.ip))
  unfolding no_best
  picked_peer own b [] low high e = absurd (
      cc (
        o.le_trans own float_1e9 float_1e10 low (o.lt-le float_1e9 float_1e10 o.lt_limits),
        high,
        ap (λ x. x.score) e,
      ))
  picked_peer own b (p ∷ ps) low high (inl (score, ip, port)) =
      let h = picked-heard own p low (ap (f.le own) (sym score) ∙ high) in
      let (mine, its) = score_heard p h in
      (p, mem-cons_self, ap₂ peer ip (port ∙ its), h, score ∙ mine)
  picked_peer own b (p ∷ ps) low high (inr k) =
      let (q, m, e, h, score) = picked_peer own b ps low high k in
      (q, mem-cons_of_mem p m, e, h, score)

  Chosen-Leads :
      (own : ℕ) (ps : Peers) (t : Target)
      → f.le own float_1e9 ≡ true
      → Chosen f o (replies f w) own ps t
      → Leads own ps t
  Chosen-Leads own ps t low (inl (e, l)) = inl (e, Least-LeastHeard own ps l)
  Chosen-Leads own ps t low (inr (b, e, l, k, high)) =
      let (p, m, tp, h, score) = picked_peer own b ps low high k in
      inr (
        p,
        m,
        e ∙ tp,
        h,
        Least-LeastHeard (own_score f (w.nodes p.ip)) ps (rw (← score) l),
        rw (← score) high,
      )

  -- When every node reports words and numbers and this node's score is at most 1e9, dispatch picks
  -- either this node, and then no peer whose responder got its request scores itself lower, or a
  -- listed peer whose responder got its request, with the port of the list: its own score is the
  -- least among those peers, and this node's is not at or below it.
  pub select_target-Leads :
      (m : Machine) (l : Load) (g : Peers)
      → f.le (load_score_local f m l) float_1e9 ≡ true
      → Leads
          (load_score_local f m l)
          (peer_list_get_all max_peers g)
          (select_target f (replies f w) m l g).0
  select_target-Leads m l g low =
      let peers = peer_list_get_all max_peers g in
      Chosen-Leads (load_score_local f m l) peers _ low
        (select_target-Chosen f o (replies f w) m l g (replies-Numbers peers))

  -- Queries that no responder hears leave the table as it is.
  query_all-unheard :
      (ps : Peers) (b : Best) (g : Peers)
      → All (λ p. heard w p.ip ≡ false) ps
      → (query_all f (replies f w) ps b g).1 ≡ g
  unfolding query_all query_peer_load replies
  query_all-unheard [] b g h = refl
  query_all-unheard (p ∷ ps) b g h =
      let e = ask-unheard f (w.nodes p.ip) w.own_ip (w.src_port p.ip) (w.at p.ip) h.0 in
      query_all-unheard ps _ _ h.1 ∙ ap (λ r. (query_peer_load f p.ip p.port r g).peers) e

  unheard_mem :
      (p : PeerInfo) (ps : Peers)
      → All (λ q. heard w q.ip ≡ false) ps
      → heard w p.ip ≡ true
      → Mem p ps
      → ⊥
  unheard_mem p [] h k m = not-mem-nil m
  unheard_mem p (q ∷ ps) h k m = ∥∥₁_elim (eq-or-mem_of_mem-cons m) ⊥_prop (λ o. elim o [
    | inl e ↦ cc (h.0, k, ap (λ x. heard w x.ip) e)
    | inr n ↦ unheard_mem p ps h.1 k n
  ])

  Leads-self :
      (own : ℕ) (ps : Peers) (t : Target)
      → All (λ p. heard w p.ip ≡ false) ps
      → Leads own ps t
      → t ≡ self
  Leads-self own ps t h (inl (e, _)) = e
  Leads-self own ps t h (inr (p, m, _, k, _, _)) = absurd (unheard_mem p ps h k m)

  -- When on no listed peer the load request comes to the responder, because the kernel gives it to
  -- the listener or because the responder has no socket, dispatch picks this node if its score is
  -- at most 1e9, and leaves the table as it was.
  pub select_target-unheard :
      (m : Machine) (l : Load) (g : Peers)
      → f.le (load_score_local f m l) float_1e9 ≡ true
      → All (λ p. heard w p.ip ≡ false) (peer_list_get_all max_peers g)
      → select_target f (replies f w) m l g ≡ (self, g)
  unfolding select_target
  select_target-unheard m l g low h =
      let peers = peer_list_get_all max_peers g in
      ap₂ (λ t p. (t, p))
        (Leads-self (load_score_local f m l) peers _ h (select_target-Leads m l g low))
        (query_all-unheard peers no_best g h)
