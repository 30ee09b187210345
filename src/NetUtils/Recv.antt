-- ===== src/NetUtils/Recv.antt =====
-- `recv_all` of net_utils.c: which bytes it returns, and when it is sure to return 0.
use socket_project.Prelude.{
  ℕ, zero, suc, ◌+◌, ◌-◌, ◌≤◌, ◌<◌, min, ◌≡◌, refl, ap, sym, ◌∙◌, false, inl, inr, List, [], ◌∷◌,
  ◌++◌, append_assoc, arith, ltb, ◌==◌, Bool-cases, length, take, drop, length-append, length-take,
  length-drop, take-append-drop, append_split,
}
use socket_project.Wire.{Bytes}
use socket_project.NetUtils.{
  Outcome, moves, fails, eintr, Socket, Io, done, failed, blocked, recv_loop, recv_all,
}
use socket_project.NetUtils.Send.{ready}

-- After 0 the first `len` bytes of the stream; after -1 or while it waits fewer were taken off it,
-- and nothing was sent.
abbrev pub Received : ℕ → Bytes → Bytes → Io Bytes → Type 0
Received len inc out (done bs t) = (length bs ≡ len) × (inc ≡ bs ++ t.incoming) × (t.outgoing ≡ out)
Received len inc out (failed t) =
    (bs : Bytes) × (length bs < len) × (inc ≡ bs ++ t.incoming) × (t.outgoing ≡ out)
Received len inc out (blocked t) =
    (bs : Bytes) × (length bs < len) × (inc ≡ bs ++ t.incoming) × (t.outgoing ≡ out)

got_more :
    (inc got rest : Bytes) (n : ℕ) → inc ≡ got ++ rest → inc ≡ (got ++ take n rest) ++ drop n rest
got_more inc got rest n e =
    e
    ∙ ap (◌++◌ got) (sym (take-append-drop n rest))
    ∙ sym (append_assoc got (take n rest) (drop n rest))

length-got_more :
    (len : ℕ) (got rest : Bytes) (n : ℕ)
    → n ≤ len - length got
    → length got ≤ len
    → length (got ++ take n rest) ≤ len
length-got_more len got rest n h k =
    omega (arith, length-append got (take n rest), length-take n rest)

recv_loop-Received :
    (os : List Outcome) (len : ℕ) (got inc : Bytes) (s : Socket)
    → length got ≤ len
    → inc ≡ got ++ s.incoming
    → Received len inc s.outgoing (recv_loop len got s os)
unfolding recv_loop
recv_loop-Received [] len got inc s h e = elim (Bool-cases (ltb (length got) len)) [
  | inl more ↦ rw more (got, ground arith, e, refl)
  | inr end ↦ rw end (ground arith, e, refl)
]
recv_loop-Received (fails errno ∷ os) len got inc s h e = elim (Bool-cases (ltb (length got) len)) [
  | inl more ↦ elim (Bool-cases (errno == eintr)) [
    | inl again ↦ rw (more, recv_loop, again) (recv_loop-Received os len got inc s h e)
    | inr fatal ↦ rw (more, recv_loop, fatal) (got, ground arith, e, refl)
  ]
  | inr end ↦ rw (end, recv_loop) (ground arith, e, refl)
]
recv_loop-Received (moves k ∷ os) len got inc s h e =
    let n = min k (min (len - length got) (length s.incoming)) in
    elim (Bool-cases (ltb (length got) len)) [
      | inl more ↦ elim (Bool-cases (min k (min (len - length got) (length s.incoming)) == 0)) [
        | inl end ↦ rw (more, recv_loop, end) (got, ground arith, e, refl)
        | inr some_bytes ↦
            rw (more, recv_loop, some_bytes)
              (recv_loop-Received os len (got ++ take n s.incoming) inc
                (record s { incoming = drop n s.incoming })
                (length-got_more len got s.incoming n (omega arith) h)
                (got_more inc got s.incoming n e))
      ]
      | inr end ↦ rw (end, recv_loop) (ground arith, e, refl)
    ]

-- For every sequence of kernel answers, recv_all returns 0 only with exactly the next len bytes of
-- the stream; after -1, or while it waits, fewer were taken, in order; and it sends nothing.
pub recv_all-Received : (len : ℕ) (s : Socket) → Received len s.incoming s.outgoing (recv_all len s)
unfolding recv_all
recv_all-Received len s = recv_loop-Received s.calls len [] s.incoming s (omega arith) refl

recv_loop-ready :
    (os : List Outcome) (len : ℕ) (got : Bytes) (s : Socket)
    → len - length got ≤ ready os
    → len - length got ≤ length s.incoming
    → (bs : Bytes) × (t : Socket) × (recv_loop len got s os ≡ done bs t)
      × (ready os ≤ ready t.calls + (len - length got))
unfolding recv_loop
recv_loop-ready [] len got s h a = (got, record s { calls = [] }, ground arith, omega arith)
recv_loop-ready (fails errno ∷ os) len got s h a = elim (Bool-cases (ltb (length got) len)) [
  | inl more ↦ elim (Bool-cases (errno == eintr)) [
    | inl again ↦ rw (more, recv_loop, again) (recv_loop-ready os len got s (rw again at h) a)
    | inr fatal ↦ absurd (ground arith)
  ]
  | inr end ↦ rw (end, recv_loop) (got, record s { calls = fails errno ∷ os }, refl, omega arith)
]
recv_loop-ready (moves zero ∷ os) len got s h a = elim (Bool-cases (ltb (length got) len)) [
  | inl more ↦ absurd (ground arith)
  | inr end ↦ rw (end, recv_loop) (got, record s { calls = moves zero ∷ os }, refl, omega arith)
]
recv_loop-ready (moves (suc k) ∷ os) len got s h a =
    let n = min (suc k) (min (len - length got) (length s.incoming)) in
    elim (Bool-cases (ltb (length got) len)) [
      | inl more ↦
          let some_bytes : (min (suc k) (min (len - length got) (length s.incoming)) == 0) ≡ false =
            ground arith in
          let l : length (got ++ take n s.incoming) ≡ length got + n =
            omega (arith, length-append got (take n s.incoming), length-take n s.incoming) in
          let (bs, t, e, r) =
            recv_loop-ready os len (got ++ take n s.incoming)
              (record s { incoming = drop n s.incoming }) (ground arith)
              (omega (arith, length-drop n s.incoming)) in
          rw (more, recv_loop, some_bytes) (bs, t, e, ground arith)
      | inr end ↦
          rw (end, recv_loop) (got, record s { calls = moves (suc k) ∷ os }, refl, omega arith)
    ]

-- `recv_all` returns 0 whenever the stream holds `len` bytes and as many calls are ready.
pub recv_all-ready :
    (len : ℕ) (front back : Bytes) (s : Socket)
    → length front ≡ len
    → s.incoming ≡ front ++ back
    → len ≤ ready s.calls
    → (t : Socket) × (recv_all len s ≡ done front t)
      × (t.incoming ≡ back)
      × (t.outgoing ≡ s.outgoing)
      × (ready s.calls ≤ ready t.calls + len)
unfolding recv_all
recv_all-ready len front back s l i h =
    let enough : len ≤ length s.incoming = omega (arith, ap length i, length-append front back) in
    let (bs, t, e, r) = recv_loop-ready s.calls len [] s (omega arith) (omega arith) in
    let w : Received len s.incoming s.outgoing (done bs t) = rw e at (recv_all-Received len s) in
    let (same, rest) = append_split front bs back t.incoming (l ∙ sym w.0) (sym i ∙ w.1) in
    (t, e ∙ ap (λ b. done b t) (sym same), sym rest, w.2, omega arith)
