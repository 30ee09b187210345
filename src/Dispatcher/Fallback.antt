-- ===== src/Dispatcher/Fallback.antt =====
-- `dispatch` of dispatcher.c when no peer answers, and what the queries do to the table.
use socket_project.Prelude.{
  ℕ, ◌≡◌, ◌+◌, drop, refl, inl, inr, true, [], ◌∷◌, ltb, ◌==◌, Bool-cases, length,
}
use mathlib.Core.Path.{ap₂}
use socket_project.Wire.{Bytes, header_size, load_resp_size, msg_load_resp, read_header}
use socket_project.PeerList.{Peers, max_peers, peer_list_get_all}
use socket_project.PeerList.Table.{IsTable, peer_list_update_load-IsTable}
use socket_project.Float.{FloatOps, IsOrdered, float_1e9, float_1e10}
use socket_project.LoadMonitor.{Load, Machine, load_score_local}
use socket_project.Dispatcher.{
  Reply, silent, answers, Best, no_best, self, choose, read_reply, query_peer_load, query_all,
  select_target,
}
use socket_project.Dispatcher.Select.{best_of, best_is_one, IsOneOf}

module _ (f : FloatOps) (o : IsOrdered f) where
  abbrev pub nobody : Bytes → Reply
  nobody ip = silent

  -- With no answer the best score stays at 1e9 or 1e10.
  best_of_none :
      (own : ℕ) (ps : Peers) (b : Best)
      → f.le own float_1e9 ≡ true
      → IsOneOf f o nobody b no_best ps
      → f.le own b.score ≡ true
  unfolding query_peer_load no_best
  best_of_none own [] b h e =
      rw e (o.le_trans own float_1e9 float_1e10 h (o.lt-le float_1e9 float_1e10 o.lt_limits))
  best_of_none own (p ∷ ps) b h (inl k) = rw k.0 h
  best_of_none own (p ∷ ps) b h (inr k) = best_of_none own ps b h k

  choose-self : (own : ℕ) (n : ℕ) (b : Best) → f.le own b.score ≡ true → choose f n own b ≡ self
  unfolding choose
  choose-self own n b h = rw h (elim (Bool-cases (n == 0)) [ inl e ↦ rw e | inr e ↦ rw e ])

  query_none : (ps : Peers) (b : Best) (g : Peers) → (query_all f nobody ps b g).1 ≡ g
  unfolding query_all query_peer_load
  query_none [] b g = refl
  query_none (p ∷ ps) b g = query_none ps _ g

  -- When no peer answers and this node's score is at most 1e9, dispatch picks this node, however
  -- many peers are listed, and the queries leave the table as it was.
  select_target-silent :
      (m : Machine) (l : Load) (g : Peers)
      → f.le (load_score_local f m l) float_1e9 ≡ true
      → select_target f nobody m l g ≡ (self, g)
  unfolding select_target best_of
  select_target-silent m l g h =
      let peers = peer_list_get_all max_peers g in
      let own = load_score_local f m l in
      let b = best_of f o nobody peers no_best g in
      let low = best_of_none own peers b h (best_is_one f o nobody peers no_best g) in
      ap₂ (λ t p. (t, p)) (choose-self own (length peers) b low) (query_none peers no_best g)

read_reply-IsTable :
    (f : FloatOps) (ip : Bytes) (port : ℕ) (buf : Bytes) (now : ℕ) (g : Peers)
    → IsTable g
    → IsTable (read_reply f ip port buf now g).peers
unfolding read_reply
read_reply-IsTable f ip port buf now g t =
    elim (Bool-cases (ltb (length buf) (header_size + load_resp_size))) [
      | inl short ↦ rw short t
      | inr long ↦ elim (Bool-cases ((read_header buf).type == msg_load_resp)) [
        | inl ok ↦ rw (long, ok) (peer_list_update_load-IsTable ip (drop header_size buf) now g t)
        | inr bad ↦ rw (long, bad) t
      ]
    ]

query-IsTable :
    (f : FloatOps) (ip : Bytes) (port : ℕ) (r : Reply) (g : Peers)
    → IsTable g
    → IsTable (query_peer_load f ip port r g).peers
unfolding query_peer_load
query-IsTable f ip port silent g t = t
query-IsTable f ip port (answers d now) g t = read_reply-IsTable f ip port _ now g t

query_all-IsTable :
    (f : FloatOps) (reply : Bytes → Reply) (ps : Peers) (b : Best) (g : Peers)
    → IsTable g
    → IsTable (query_all f reply ps b g).1
unfolding query_all
query_all-IsTable f reply [] b g t = t
query_all-IsTable f reply (p ∷ ps) b g t =
    query_all-IsTable f reply ps _ _ (query-IsTable f p.ip p.port (reply p.ip) g t)

-- Whatever datagrams come back to the load queries of one dispatch, a sound peer table stays
-- sound.
pub select_target-IsTable :
    (f : FloatOps) (reply : Bytes → Reply) (m : Machine) (l : Load) (g : Peers)
    → IsTable g
    → IsTable (select_target f reply m l g).1
unfolding select_target
select_target-IsTable f reply m l g t =
    query_all-IsTable f reply (peer_list_get_all max_peers g) no_best g t
