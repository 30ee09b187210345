-- ===== src/NetUtils.antt =====
-- New_socket_proj/net_utils.c: exact sends and receives over a stream socket, and message frames.
-- The kernel's side of a connection is a `Socket`: the bytes that will arrive, the bytes that were
-- sent, and the outcomes of the coming system calls, in order. With no outcome left a call blocks.
pub mod Send
pub mod Recv
pub mod Frame
pub mod RoundTrip
pub mod Guard
pub mod Sticky
pub mod Tests
use socket_project.Prelude.{
  ℕ, ◌+◌, ◌-◌, min, ◌≡◌, refl, Bool, true, false, Option, none, some, List, [], ◌∷◌, ◌++◌, ltb,
  ◌==◌, if◌then◌else◌, length, take, drop,
}
use socket_project.Wire.{
  Bytes, header_size, header_bytes, read_header, new_header, max_file_size, max_filename_len,
}

-- A call moves at most this many bytes, or returns -1 with this errno.
pub data Outcome : Type 0 where
  moves : ℕ → Outcome
  fails : ℕ → Outcome

abbrev pub eintr : ℕ
eintr = 4

pub record Socket : Type 0 where
  pub incoming : Bytes
  pub outgoing : Bytes
  pub calls : List Outcome

-- Returned 0 with its results, returned -1, or still waits in a system call.
pub data Io {ℓ} (A : Type ℓ) : Type ℓ where
  done : A → Socket → Io A
  failed : Socket → Io A
  blocked : Socket → Io A

abbrev pub M {ℓ} : Type ℓ → Type ℓ
M A = Socket → Io A

infixl 5 ◌>>=◌ ◌>>◌
abbrev pub ◌>>=◌ {ℓ κ} : {A : Type ℓ} {B : Type κ} → M A → (A → M B) → M B
◌>>=◌ m f s = elim (m s) [ done a s' ↦ f a s' | failed s' ↦ failed s' | blocked s' ↦ blocked s' ]

abbrev pub ◌>>◌ {ℓ κ} : {A : Type ℓ} {B : Type κ} → M A → M B → M B
m >> k = m >>= λ _. k

pub bind-eq_of_done {ℓ κ} :
    {A : Type ℓ} {B : Type κ} (m : M A) (f : A → M B) (s : Socket) {a : A} {t : Socket} {r : Io B}
    → m s ≡ done a t
    → f a t ≡ r
    → (m >>= f) s ≡ r
bind-eq_of_done m f s e h = rw (e, ◌>>=◌) h

-- Inversion of a sequence that returned 0.
pub bind-eq-done {ℓ κ} :
    {A : Type ℓ} {B : Type κ} (m : M A) (f : A → M B) (s : Socket) {b : B} {t : Socket}
    → (m >>= f) s ≡ done b t
    → (a : A) × (u : Socket) × (m s ≡ done a u) × (f a u ≡ done b t)
bind-eq-done {A} {B} m f s {b} {t} = go (m s) refl
  where
    go :
        (r : Io A)
        → m s ≡ r
        → (elim r [ done a s' ↦ f a s' | failed s' ↦ failed s' | blocked s' ↦ blocked s' ])
          ≡ done b t
        → (a : A) × (u : Socket) × (m s ≡ done a u) × (f a u ≡ done b t)
    go (done a u) e h = (a, u, e, h)
    go (failed u) e h = cc
    go (blocked u) e h = cc

abbrev pub return {ℓ} : {A : Type ℓ} → A → M A
return a s = done a s

abbrev pub fail {ℓ} : {A : Type ℓ} → M A
fail s = failed s

-- The loop of `send_all`, with the outcomes of the coming calls of `send`.
unfoldable pub send_loop : Bytes → ℕ → Socket → List Outcome → Io (Unit {0})
send_loop buf sent s [] =
    if ltb sent (length buf)
    then blocked (record s { calls = [] })
    else done tt (record s { calls = [] })
send_loop buf sent s (fails errno ∷ os) = elim (ltb sent (length buf)) [
  | true ↦ elim (errno == eintr) [
    | true ↦ send_loop buf sent s os
    | false ↦ failed (record s { calls = os })
  ]
  | false ↦ done tt (record s { calls = fails errno ∷ os })
]
send_loop buf sent s (moves k ∷ os) = elim (ltb sent (length buf)) [
  | true ↦ elim (min k (length buf - sent) == 0) [
    | true ↦ failed (record s { calls = os })
    | false ↦
        let n = min k (length buf - sent) in
        send_loop buf (sent + n) (record s { outgoing = s.outgoing ++ take n (drop sent buf) }) os
  ]
  | false ↦ done tt (record s { calls = moves k ∷ os })
]

unfoldable pub send_all : Bytes → M (Unit {0})
send_all buf s = send_loop buf 0 s s.calls

-- The loop of `recv_all`; `got` is what the buffer holds. `recv` gives no byte at the end of the
-- stream.
unfoldable pub recv_loop : ℕ → Bytes → Socket → List Outcome → Io Bytes
recv_loop len got s [] =
    if ltb (length got) len
    then blocked (record s { calls = [] })
    else done got (record s { calls = [] })
recv_loop len got s (fails errno ∷ os) = elim (ltb (length got) len) [
  | true ↦ elim (errno == eintr) [
    | true ↦ recv_loop len got s os
    | false ↦ failed (record s { calls = os })
  ]
  | false ↦ done got (record s { calls = fails errno ∷ os })
]
recv_loop len got s (moves k ∷ os) = elim (ltb (length got) len) [
  | true ↦ elim (min k (min (len - length got) (length s.incoming)) == 0) [
    | true ↦ failed (record s { calls = os })
    | false ↦
        let n = min k (min (len - length got) (length s.incoming)) in
        recv_loop len (got ++ take n s.incoming) (record s { incoming = drop n s.incoming }) os
  ]
  | false ↦ done got (record s { calls = moves k ∷ os })
]

unfoldable pub recv_all : ℕ → M Bytes
recv_all len s = recv_loop len [] s s.calls

-- `none` is NULL. A payload is never shorter than its length says.
unfoldable pub send_payload : Option Bytes → ℕ → M (Unit {0})
send_payload none payload_len = return tt
send_payload (some p) payload_len =
    if ltb 0 payload_len then send_all (take payload_len p) else return tt

unfoldable pub send_msg : ℕ → Option Bytes → ℕ → M (Unit {0})
send_msg type payload payload_len = do
  send_all (header_bytes (new_header type payload_len))
  send_payload payload payload_len

-- What `recv_msg` stores: the type and the payload, empty for NULL. Its length is `*len_out`.
pub record Message : Type 0 where
  pub type : ℕ
  pub payload : Bytes

abbrev pub max_payload : ℕ
max_payload = max_file_size + max_filename_len + 8

-- `malloc n` says whether a block of that size can be had.
unfoldable pub recv_payload : (ℕ → Bool) → ℕ → ℕ → M Message
recv_payload malloc type plen =
    if ltb 0 plen
    then (if ltb max_payload plen
        then fail
        else (if malloc (plen + 1)
            then (do payload ← recv_all plen; return (record { type = type; payload = payload }))
            else fail))
    else return (record { type = type; payload = [] })

unfoldable pub recv_msg : (ℕ → Bool) → M Message
recv_msg malloc = do
  hdr ← recv_all header_size
  recv_payload malloc (read_header hdr).type (read_header hdr).payload_len
