-- ===== src/NetUtils/Send.antt =====
-- `send_all` of net_utils.c: what is on the wire when it returns, and when it is sure to return 0.
use socket_project.Prelude.{
  ℕ, zero, suc, ◌+◌, ◌-◌, ◌≤◌, ◌<◌, min, ◌≡◌, refl, ap, sym, false, inl, inr, List, [], ◌∷◌, ◌++◌,
  append-nil, append_assoc, arith, ltb, ◌==◌, if◌then◌else◌, Bool-cases, length, take, drop,
  take-all, take-take-drop,
}
use socket_project.Wire.{Bytes}
use socket_project.NetUtils.{
  Outcome, moves, fails, eintr, Socket, Io, done, failed, blocked, send_loop, send_all,
}

-- After 0 the whole buffer is on the wire, after -1 or while it waits a proper prefix of it, and
-- nothing was read.
abbrev pub Sent : Bytes → Bytes → Bytes → Io (Unit {0}) → Type 0
Sent buf out inc (done _ t) = (t.outgoing ≡ out ++ buf) × (t.incoming ≡ inc)
Sent buf out inc (failed t) =
    (m : ℕ) × (m < length buf) × (t.outgoing ≡ out ++ take m buf) × (t.incoming ≡ inc)
Sent buf out inc (blocked t) =
    (m : ℕ) × (m < length buf) × (t.outgoing ≡ out ++ take m buf) × (t.incoming ≡ inc)

sent_more :
    (buf out o : Bytes) (sent n : ℕ)
    → o ≡ out ++ take sent buf
    → o ++ take n (drop sent buf) ≡ out ++ take (sent + n) buf
sent_more buf out o sent n e =
    rw (e, append_assoc) (ap (◌++◌ out) (take-take-drop sent n (sent + n) buf refl))

sent_all :
    (buf out o : Bytes) (sent : ℕ)
    → o ≡ out ++ take sent buf
    → ltb sent (length buf) ≡ false
    → o ≡ out ++ buf
sent_all buf out o sent e h = rw e (ap (◌++◌ out) (take-all sent buf (ground arith)))

send_loop-Sent :
    (os : List Outcome) (buf out : Bytes) (sent : ℕ) (s : Socket)
    → s.outgoing ≡ out ++ take sent buf
    → Sent buf out s.incoming (send_loop buf sent s os)
unfolding send_loop
send_loop-Sent [] buf out sent s e = elim (Bool-cases (ltb sent (length buf))) [
  | inl more ↦ rw more (sent, ground arith, e, refl)
  | inr end ↦ rw end (sent_all buf out s.outgoing sent e end, refl)
]
send_loop-Sent (fails errno ∷ os) buf out sent s e = elim (Bool-cases (ltb sent (length buf))) [
  | inl more ↦ elim (Bool-cases (errno == eintr)) [
    | inl again ↦ rw (more, send_loop, again) (send_loop-Sent os buf out sent s e)
    | inr fatal ↦ rw (more, send_loop, fatal) (sent, ground arith, e, refl)
  ]
  | inr end ↦ rw (end, send_loop) (sent_all buf out s.outgoing sent e end, refl)
]
send_loop-Sent (moves k ∷ os) buf out sent s e = elim (Bool-cases (ltb sent (length buf))) [
  | inl more ↦ elim (Bool-cases (min k (length buf - sent) == 0)) [
    | inl stopped ↦ rw (more, send_loop, stopped) (sent, ground arith, e, refl)
    | inr some_bytes ↦
        rw (more, send_loop, some_bytes)
          (let n = min k (length buf - sent) in
            send_loop-Sent os buf out (sent + n)
              (record s { outgoing = s.outgoing ++ take n (drop sent buf) })
              (sent_more buf out s.outgoing sent n e))
  ]
  | inr end ↦ rw (end, send_loop) (sent_all buf out s.outgoing sent e end, refl)
]

-- Whatever the kernel answers, `send_all` returns 0 only after the whole buffer, in order.
pub send_all-Sent : (buf : Bytes) (s : Socket) → Sent buf s.outgoing s.incoming (send_all buf s)
unfolding send_all
send_all-Sent buf s = send_loop-Sent s.calls buf s.outgoing 0 s (sym (append-nil s.outgoing))

-- The calls up to the first that would end a loop: each moves a byte at least, or is interrupted.
abbrev pub ready : List Outcome → ℕ
ready [] = 0
ready (moves zero ∷ os) = 0
ready (moves (suc k) ∷ os) = suc (ready os)
ready (fails errno ∷ os) = if errno == eintr then ready os else 0

-- The same calls are still ready for whatever comes after `n` bytes.
send_loop-ready :
    (os : List Outcome) (buf : Bytes) (sent : ℕ) (s : Socket)
    → length buf - sent ≤ ready os
    → (t : Socket) × (send_loop buf sent s os ≡ done tt t)
      × (ready os ≤ ready t.calls + (length buf - sent))
unfolding send_loop
send_loop-ready [] buf sent s h = (record s { calls = [] }, ground arith, omega arith)
send_loop-ready (fails errno ∷ os) buf sent s h = elim (Bool-cases (ltb sent (length buf))) [
  | inl more ↦ elim (Bool-cases (errno == eintr)) [
    | inl again ↦ rw (more, send_loop, again) (send_loop-ready os buf sent s (rw again at h))
    | inr fatal ↦ absurd (ground arith)
  ]
  | inr end ↦ rw (end, send_loop) (record s { calls = fails errno ∷ os }, refl, omega arith)
]
send_loop-ready (moves zero ∷ os) buf sent s h = elim (Bool-cases (ltb sent (length buf))) [
  | inl more ↦ absurd (ground arith)
  | inr end ↦ rw (end, send_loop) (record s { calls = moves zero ∷ os }, refl, omega arith)
]
send_loop-ready (moves (suc k) ∷ os) buf sent s h = elim (Bool-cases (ltb sent (length buf))) [
  | inl more ↦
      let n = min (suc k) (length buf - sent) in
      let some_bytes : (min (suc k) (length buf - sent) == 0) ≡ false = ground arith in
      let (t, e, r) =
        send_loop-ready os buf (sent + n)
          (record s { outgoing = s.outgoing ++ take n (drop sent buf) }) (ground arith) in
      rw (more, send_loop, some_bytes) (t, e, ground arith)
  | inr end ↦ rw (end, send_loop) (record s { calls = moves (suc k) ∷ os }, refl, omega arith)
]

-- `send_all` returns 0 whenever as many calls are ready as there are bytes.
pub send_all-ready :
    (buf : Bytes) (s : Socket)
    → length buf ≤ ready s.calls
    → (t : Socket) × (send_all buf s ≡ done tt t)
      × (t.outgoing ≡ s.outgoing ++ buf)
      × (t.incoming ≡ s.incoming)
      × (ready s.calls ≤ ready t.calls + length buf)
unfolding send_all
send_all-ready buf s h =
    let (t, e, r) = send_loop-ready s.calls buf 0 s (omega arith) in
    let w : Sent buf s.outgoing s.incoming (done tt t) = rw e at (send_all-Sent buf s) in
    (t, e, w.0, w.1, omega arith)
