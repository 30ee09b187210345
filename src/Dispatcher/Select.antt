-- ===== src/Dispatcher/Select.antt =====
-- Which node `dispatch` of dispatcher.c picks.
use socket_project.Prelude.{
  ℕ, ◌≡◌, refl, ap, ◌∙◌, ◌⊎◌, inl, inr, true, false, [], ◌∷◌, arith, ◌==◌, Bool-cases, length, All,
}
use socket_project.Wire.{Bytes}
use socket_project.PeerList.{PeerInfo, Peers, max_peers, peer_list_get_all}
use socket_project.Float.{FloatOps, IsOrdered}
use socket_project.LoadMonitor.{Load, Machine, load_score_local}
use socket_project.Dispatcher.{
  Reply, silent, answers, Query, Best, no_best, info_port, read_reply, query_peer_load, consider,
  query_all, Target, self, peer, choose, select_target,
}

-- A score does not depend on the table: it is the same when the peer is asked in its turn.
abbrev pub score_of : FloatOps → (Bytes → Reply) → PeerInfo → ℕ
score_of f reply p = (query_peer_load f p.ip p.port (reply p.ip) []).score

read_reply_score :
    (f : FloatOps) (ip : Bytes) (port : ℕ) (buf : Bytes) (now : ℕ) (g g' : Peers)
    → ((read_reply f ip port buf now g).score ≡ (read_reply f ip port buf now g').score)
      × ((read_reply f ip port buf now g).info ≡ (read_reply f ip port buf now g').info)
unfolding read_reply
read_reply_score f ip port buf now g g' = ground arith

query_score :
    (f : FloatOps) (ip : Bytes) (port : ℕ) (r : Reply) (g g' : Peers)
    → ((query_peer_load f ip port r g).score ≡ (query_peer_load f ip port r g').score)
      × ((query_peer_load f ip port r g).info ≡ (query_peer_load f ip port r g').info)
unfolding query_peer_load
query_score f ip port silent g g' = (refl, refl)
query_score f ip port (answers d now) g g' = read_reply_score f ip port _ now g g'

module _ (f : FloatOps) (o : IsOrdered f) (reply : Bytes → Reply) where
  -- No peer's score is below the best one.
  abbrev pub Least : ℕ → Peers → Type 0
  Least best = All (λ p. f.le best (score_of f reply p) ≡ true)

  abbrev pub Picked : Best → PeerInfo → Type 0
  Picked b p =
      (b.score ≡ score_of f reply p)
      × (b.ip ≡ p.ip)
      × (b.port ≡ info_port (query_peer_load f p.ip p.port (reply p.ip) []).info)

  -- The best is one of the peers asked, with the score and the port of its reply, or the initial one.
  abbrev pub IsOneOf : Best → Best → Peers → Type 0
  IsOneOf b b₀ [] = b ≡ b₀
  IsOneOf b b₀ (p ∷ ps) = Picked b p ⊎ IsOneOf b b₀ ps

  -- No score is a NaN.
  abbrev pub Numbers : Peers → Type 0
  Numbers = All (λ p. f.is_nan (score_of f reply p) ≡ false)

  unfoldable pub best_of : Peers → Best → Peers → Best
  best_of ps b g = (query_all f reply ps b g).0

  consider_falls :
      (ip : Bytes) (q : Query) (b : Best)
      → f.is_nan b.score ≡ false
      → f.is_nan q.score ≡ false
      → (f.le (consider f ip q b).score b.score ≡ true)
        × (f.le (consider f ip q b).score q.score ≡ true)
        × (f.is_nan (consider f ip q b).score ≡ false)
  unfolding consider
  consider_falls ip q b n m = elim (Bool-cases (f.lt q.score b.score)) [
    | inl less ↦ rw (less, consider) (o.lt-le q.score b.score less, o.le_refl q.score m, m)
    | inr not_less ↦
        rw (not_less, consider) (o.le_refl b.score n, o.le_total q.score b.score m n not_less, n)
  ]

  Least-below : (a b : ℕ) (ps : Peers) → f.le a b ≡ true → Least b ps → Least a ps
  Least-below a b [] h l = tt
  Least-below a b (p ∷ ps) h l = (o.le_trans a b _ h l.0, Least-below a b ps h l.1)

  -- The best only falls, and ends at or below every score.
  best_falls :
      (ps : Peers) (b : Best) (g : Peers)
      → f.is_nan b.score ≡ false
      → Numbers ps
      → (f.le (best_of ps b g).score b.score ≡ true) × Least (best_of ps b g).score ps
  unfolding best_of query_all
  best_falls [] b g n ns = (o.le_refl b.score n, tt)
  best_falls (p ∷ ps) b g n ns =
      let q = query_peer_load f p.ip p.port (reply p.ip) g in
      let same = (query_score f p.ip p.port (reply p.ip) g []).0 in
      let c = consider_falls p.ip q b n (rw same ns.0) in
      let b' = consider f p.ip q b in
      let r = best_falls ps b' q.peers c.2 ns.1 in
      let last = (best_of ps b' q.peers).score in
      (
        o.le_trans last b'.score b.score r.0 c.0,
        (rw (← same) (o.le_trans last b'.score q.score r.0 c.1), r.1),
      )

  IsOneOf-next :
      (ps : Peers) (x b' b : Best) (p : PeerInfo)
      → (b' ≡ b) ⊎ Picked b' p
      → IsOneOf x b' ps
      → Picked x p ⊎ IsOneOf x b ps
  IsOneOf-next [] x b' b p (inl e) h = inr (h ∙ e)
  IsOneOf-next [] x b' b p (inr k) h = inl (rw h k)
  IsOneOf-next (y ∷ ps) x b' b p c (inl k) = inr (inl k)
  IsOneOf-next (y ∷ ps) x b' b p c (inr h) = elim (IsOneOf-next ps x b' b p c h) [
    | inl k ↦ inl k
    | inr k ↦ inr (inr k)
  ]

  consider_picks :
      (p : PeerInfo) (b : Best) (g : Peers)
      → (consider f p.ip (query_peer_load f p.ip p.port (reply p.ip) g) b ≡ b)
        ⊎ Picked (consider f p.ip (query_peer_load f p.ip p.port (reply p.ip) g) b) p
  unfolding consider
  consider_picks p b g =
      let q = query_peer_load f p.ip p.port (reply p.ip) g in
      let same = query_score f p.ip p.port (reply p.ip) g [] in
      elim (Bool-cases (f.lt q.score b.score)) [
        | inl less ↦ inr (rw (less, consider) (same.0, refl, ap info_port same.1))
        | inr not_less ↦ inl (rw (not_less, consider))
      ]

  pub best_is_one : (ps : Peers) (b : Best) (g : Peers) → IsOneOf (best_of ps b g) b ps
  unfolding best_of query_all
  best_is_one [] b g = refl
  best_is_one (p ∷ ps) b g =
      let q = query_peer_load f p.ip p.port (reply p.ip) g in
      let b' = consider f p.ip q b in
      IsOneOf-next ps (best_of ps b' q.peers) b' b p (consider_picks p b g)
        (best_is_one ps b' q.peers)

  -- This node is chosen only if no peer scored lower; a peer only if no peer scored lower and this
  -- node does not score at or below it. The peer's address and port come from one peer asked.
  abbrev pub Chosen : ℕ → Peers → Target → Type 0
  Chosen own peers t =
      ((t ≡ self) × Least own peers)
      ⊎ ((b : Best) × (t ≡ peer b.ip b.port)
          × Least b.score peers
          × IsOneOf b no_best peers
          × (f.le own b.score ≡ false))

  choose-Chosen :
      (own : ℕ) (peers : Peers) (b : Best)
      → Least b.score peers
      → IsOneOf b no_best peers
      → Chosen own peers (choose f (length peers) own b)
  unfolding choose
  choose-Chosen own [] b l k = inl (refl, tt)
  choose-Chosen own (p ∷ ps) b l k =
      let some_peers : (length (p ∷ ps) == 0) ≡ false = ground arith in
      elim (Bool-cases (f.le own b.score)) [
        | inl low ↦ inl (rw (some_peers, low), Least-below own b.score (p ∷ ps) low l)
        | inr high ↦ inr (b, rw (some_peers, high), l, k, high)
      ]

  -- When no score is a NaN, dispatch either picks this node, and then no peer of the snapshot
  -- scored below it, or picks the address and port of a peer with the least score of the snapshot
  -- (or the initial best), and then this node does not score at or below that.
  pub select_target-Chosen :
      (m : Machine) (l : Load) (g : Peers)
      → Numbers (peer_list_get_all max_peers g)
      → Chosen
          (load_score_local f m l)
          (peer_list_get_all max_peers g)
          (select_target f reply m l g).0
  unfolding select_target best_of no_best
  select_target-Chosen m l g ns =
      let peers = peer_list_get_all max_peers g in
      choose-Chosen (load_score_local f m l) peers (best_of peers no_best g)
        (best_falls peers no_best g o.limit_number ns).1 (best_is_one peers no_best g)
