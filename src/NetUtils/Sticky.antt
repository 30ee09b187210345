-- ===== src/NetUtils/Sticky.antt =====
-- A connection that has failed stays failed: what net_utils.c makes of that.
use mathlib.Core.Path.{subst}
use socket_project.Prelude.{
  ℕ, zero, suc, ◌+◌, ◌-◌, ◌<◌, min, ◌≡◌, refl, Bool, true, false, inl, inr, Option, none, some,
  List, [], ◌∷◌, ◌++◌, arith, ltb, ◌==◌, if◌then◌else◌, Bool-cases, length, take, drop,
}
use socket_project.Wire.{Bytes, header_size, header_bytes, new_header, read_header}
use socket_project.Wire.Codec.{length-header_bytes}
use socket_project.NetUtils.{
  Outcome, moves, fails, eintr, Socket, Io, M, done, failed, blocked, ◌>>=◌, send_loop, send_all,
  recv_loop, recv_all, send_payload, send_msg, recv_payload, recv_msg, return, max_payload,
}

-- No call moves a byte any more.
abbrev pub Dead : List Outcome → Type 0
Dead [] = Unit {0}
Dead (moves zero ∷ os) = Dead os
Dead (moves (suc k) ∷ os) = ⊥
Dead (fails errno ∷ os) = Dead os

-- After a call that fails, interruptions aside, or moves nothing, no call moves a byte.
abbrev pub Sticky : List Outcome → Type 0
Sticky [] = Unit {0}
Sticky (moves zero ∷ os) = Dead os
Sticky (moves (suc k) ∷ os) = Sticky os
Sticky (fails errno ∷ os) = if errno == eintr then Sticky os else Dead os

-- `P` after 0, `Q` after -1 and `W` while the call waits.
abbrev pub Ends {ℓ} :
    {A : Type ℓ} → (Socket → Type 0) → (Socket → Type 0) → (Socket → Type 0) → Io A → Type 0
Ends P Q W (done _ t) = P t
Ends P Q W (failed t) = Q t
Ends P Q W (blocked t) = W t

pub Ends->>= {ℓ κ} :
    {A : Type ℓ} {B : Type κ} (P P' Q W : Socket → Type 0) (m : M A) (f : A → M B) (s : Socket)
    → Ends P Q W (m s)
    → ((a : A) (t : Socket) → P t → Ends P' Q W (f a t))
    → Ends P' Q W ((m >>= f) s)
Ends->>= {A} P P' Q W m f s e k = go (m s) e
  where
    go :
        (r : Io A)
        → Ends P Q W r
        → Ends P' Q W
            (elim r [ done a s' ↦ f a s' | failed s' ↦ failed s' | blocked s' ↦ blocked s' ])
    go (done a t) e = k a t e
    go (failed t) e = e
    go (blocked t) e = e

send_loop-Sticky :
    (os : List Outcome) (buf : Bytes) (sent : ℕ) (s : Socket)
    → Sticky os
    → Ends (λ t. Sticky t.calls) (λ t. Dead t.calls) (λ t. Unit {0}) (send_loop buf sent s os)
unfolding send_loop
send_loop-Sticky [] buf sent s h = elim (Bool-cases (ltb sent (length buf))) [
  | inl more ↦ rw more tt
  | inr end ↦ rw end tt
]
send_loop-Sticky (fails errno ∷ os) buf sent s h = elim (Bool-cases (ltb sent (length buf))) [
  | inl more ↦ elim (Bool-cases (errno == eintr)) [
    | inl again ↦ rw (more, send_loop, again) (send_loop-Sticky os buf sent s (rw again at h))
    | inr fatal ↦ rw (more, send_loop, fatal) (rw fatal at h)
  ]
  | inr end ↦ rw (end, send_loop) h
]
send_loop-Sticky (moves zero ∷ os) buf sent s h = elim (Bool-cases (ltb sent (length buf))) [
  | inl more ↦
      let stop : (min 0 (length buf - sent) == 0) ≡ true = ground arith in
      rw (more, send_loop, stop) h
  | inr end ↦ rw (end, send_loop) h
]
send_loop-Sticky (moves (suc k) ∷ os) buf sent s h = elim (Bool-cases (ltb sent (length buf))) [
  | inl more ↦
      let n = min (suc k) (length buf - sent) in
      let some_bytes : (min (suc k) (length buf - sent) == 0) ≡ false = ground arith in
      rw (more, send_loop, some_bytes)
        (send_loop-Sticky os buf (sent + n)
          (record s { outgoing = s.outgoing ++ take n (drop sent buf) }) h)
  | inr end ↦ rw (end, send_loop) h
]

-- With bytes to send, nothing goes out over a dead connection, and 0 is not returned.
send_loop-Dead :
    (os : List Outcome) (buf : Bytes) (sent : ℕ) (s : Socket)
    → Dead os
    → ltb sent (length buf) ≡ true
    → Ends
        (λ t. ⊥)
        (λ t. (t.outgoing ≡ s.outgoing) × Dead t.calls)
        (λ t. t.outgoing ≡ s.outgoing)
        (send_loop buf sent s os)
unfolding send_loop
send_loop-Dead [] buf sent s h more = rw more refl
send_loop-Dead (fails errno ∷ os) buf sent s h more = elim (Bool-cases (errno == eintr)) [
  | inl again ↦ rw (more, send_loop, again) (send_loop-Dead os buf sent s h more)
  | inr fatal ↦ rw (more, send_loop, fatal) (refl, h)
]
send_loop-Dead (moves zero ∷ os) buf sent s h more =
    let stop : (min 0 (length buf - sent) == 0) ≡ true = ground arith in
    rw (more, send_loop, stop) (refl, h)
send_loop-Dead (moves (suc k) ∷ os) buf sent s h more = absurd h

moved : (k : ℕ) (os : List Outcome) → Sticky (moves k ∷ os) → 0 < k → Sticky os
moved zero os h pos = absurd (omega arith)
moved (suc k) os h pos = h

recv_loop-Sticky :
    (os : List Outcome) (len : ℕ) (got : Bytes) (s : Socket)
    → Sticky os
    → Ends
        (λ t. (t.outgoing ≡ s.outgoing) × Sticky t.calls)
        (λ t. t.outgoing ≡ s.outgoing)
        (λ t. t.outgoing ≡ s.outgoing)
        (recv_loop len got s os)
unfolding recv_loop
recv_loop-Sticky [] len got s h = elim (Bool-cases (ltb (length got) len)) [
  | inl more ↦ rw more refl
  | inr end ↦ rw end (refl, tt)
]
recv_loop-Sticky (fails errno ∷ os) len got s h = elim (Bool-cases (ltb (length got) len)) [
  | inl more ↦ elim (Bool-cases (errno == eintr)) [
    | inl again ↦ rw (more, recv_loop, again) (recv_loop-Sticky os len got s (rw again at h))
    | inr fatal ↦ rw (more, recv_loop, fatal) refl
  ]
  | inr end ↦ rw (end, recv_loop) (refl, h)
]
recv_loop-Sticky (moves k ∷ os) len got s h = elim (Bool-cases (ltb (length got) len)) [
  | inl more ↦
      let n = min k (min (len - length got) (length s.incoming)) in
      elim (Bool-cases (n == 0)) [
        | inl stop ↦ rw (more, recv_loop, stop) refl
        | inr some_bytes ↦
            rw (more, recv_loop, some_bytes)
              (recv_loop-Sticky os len (got ++ take n s.incoming)
                (record s { incoming = drop n s.incoming }) (moved k os h (ground arith)))
      ]
  | inr end ↦ rw (end, recv_loop) (refl, h)
]

send_all-Sticky :
    (buf : Bytes) (s : Socket)
    → Sticky s.calls
    → Ends (λ t. Sticky t.calls) (λ t. Dead t.calls) (λ t. Unit {0}) (send_all buf s)
unfolding send_all
send_all-Sticky buf s h = send_loop-Sticky s.calls buf 0 s h

pub send_msg-Sticky :
    (type : ℕ) (payload : Option Bytes) (len : ℕ) (s : Socket)
    → Sticky s.calls
    → Ends (λ t. Sticky t.calls) (λ t. Dead t.calls) (λ t. Unit {0}) (send_msg type payload len s)
unfolding send_msg send_payload
send_msg-Sticky type none len s h =
    Ends->>= (λ t. Sticky t.calls) (λ t. Sticky t.calls) (λ t. Dead t.calls) (λ t. Unit {0})
      (send_all (header_bytes (new_header type len))) (λ _. send_payload none len) s
      (send_all-Sticky _ s h) (λ a t k. k)
send_msg-Sticky type (some p) len s h =
    Ends->>= (λ t. Sticky t.calls) (λ t. Sticky t.calls) (λ t. Dead t.calls) (λ t. Unit {0})
      (send_all (header_bytes (new_header type len))) (λ _. send_payload (some p) len) s
      (send_all-Sticky _ s h)
      (λ a t k. elim (Bool-cases (ltb 0 len)) [
        | inl more ↦ rw more (send_all-Sticky (take len p) t k)
        | inr end ↦ rw end k
      ])

pub send_msg-Dead :
    (type : ℕ) (payload : Option Bytes) (len : ℕ) (s : Socket)
    → Dead s.calls
    → Ends
        (λ t. ⊥)
        (λ t. (t.outgoing ≡ s.outgoing) × Dead t.calls)
        (λ t. t.outgoing ≡ s.outgoing)
        (send_msg type payload len s)
unfolding send_msg send_all
send_msg-Dead type payload len s h =
    let hdr = header_bytes (new_header type len) in
    Ends->>= (λ t. ⊥) (λ t. ⊥) (λ t. (t.outgoing ≡ s.outgoing) × Dead t.calls)
      (λ t. t.outgoing ≡ s.outgoing) (send_all hdr) (λ _. send_payload payload len) s
      (send_loop-Dead s.calls hdr 0 s h (ground (arith, length-header_bytes (new_header type len))))
      (λ a t k. absurd k)

-- Receiving sends nothing.
abbrev Heard : Bytes → Socket → Type 0
Heard out t = (t.outgoing ≡ out) × Sticky t.calls

abbrev Quiet : Bytes → Socket → Type 0
Quiet out t = t.outgoing ≡ out

recv_all-Sticky :
    (len : ℕ) (out : Bytes) (s : Socket)
    → Heard out s
    → Ends (Heard out) (Quiet out) (Quiet out) (recv_all len s)
unfolding recv_all
recv_all-Sticky len out s (o, h) =
    subst (λ u. Ends (Heard u) (Quiet u) (Quiet u) (recv_loop len [] s s.calls)) o
      (recv_loop-Sticky s.calls len [] s h)

recv_payload-Sticky :
    (malloc : ℕ → Bool) (type plen : ℕ) (out : Bytes) (s : Socket)
    → Heard out s
    → Ends (Heard out) (Quiet out) (Quiet out) (recv_payload malloc type plen s)
unfolding recv_payload
recv_payload-Sticky malloc type plen out s h = elim (Bool-cases (ltb 0 plen)) [
  | inl more ↦ elim (Bool-cases (ltb max_payload plen)) [
    | inl large ↦ rw (more, large) h.0
    | inr fits ↦ elim (Bool-cases (malloc (plen + 1))) [
      | inl room ↦
          rw (more, fits, room)
            (Ends->>= (Heard out) (Heard out) (Quiet out) (Quiet out) (recv_all plen)
              (λ payload. return (record { type = type; payload = payload })) s
              (recv_all-Sticky plen out s h) (λ a t k. k))
      | inr full ↦ rw (more, fits, full) h.0
    ]
  ]
  | inr end ↦ rw end h
]

pub recv_msg-Sticky :
    (malloc : ℕ → Bool) (s : Socket)
    → Sticky s.calls
    → Ends
        (λ t. (t.outgoing ≡ s.outgoing) × Sticky t.calls)
        (λ t. t.outgoing ≡ s.outgoing)
        (λ t. t.outgoing ≡ s.outgoing)
        (recv_msg malloc s)
unfolding recv_msg
recv_msg-Sticky malloc s h =
    Ends->>= (Heard s.outgoing) (Heard s.outgoing) (Quiet s.outgoing) (Quiet s.outgoing)
      (recv_all header_size) _ s (recv_all-Sticky header_size s.outgoing s (refl, h))
      (λ hdr t k.
        recv_payload-Sticky malloc (read_header hdr).type (read_header hdr).payload_len s.outgoing t
          k)
