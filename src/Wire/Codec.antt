-- ===== src/Wire/Codec.antt =====
-- The byte forms of common.h read back as what was written.
use socket_project.Prelude.{
  ℕ, ◌^◌, ◌<◌, ◌≡◌, ◌≢◌, refl, true, false, inl, inr, [], ◌∷◌, ◌++◌, arith, length, Bool-cases,
}
use socket_project.Wire.{
  Bytes, be32, be16, of_be32, of_be16, MsgHeader, header_bytes, read_header, new_header,
  header_size, strcmp_eq, LoadResp, load_resp_bytes, read_load_resp,
}

pub of_be32-be32 : (v : ℕ) (rest : Bytes) → v < 2 ^ 32 → of_be32 (be32 v ++ rest) ≡ v
unfolding be32 of_be32
of_be32-be32 v rest h = omega arith

pub of_be16-be16 : (v : ℕ) (rest : Bytes) → v < 2 ^ 16 → of_be16 (be16 v ++ rest) ≡ v
unfolding be16 of_be16
of_be16-be16 v rest h = omega arith

pub length-be32 : (v : ℕ) → length (be32 v) ≡ 4
unfolding be32
length-be32 v = refl

pub length-be16 : (v : ℕ) → length (be16 v) ≡ 2
unfolding be16
length-be16 v = refl

pub length-header_bytes : (h : MsgHeader) → length (header_bytes h) ≡ header_size
unfolding header_bytes
length-header_bytes h = refl

-- A header that `new_header` fills in reads back, whatever follows it.
pub read_header-new_header :
    (type len : ℕ) (rest : Bytes)
    → type < 256
    → len < 2 ^ 32
    → read_header (header_bytes (new_header type len) ++ rest) ≡ new_header type len
unfolding read_header header_bytes new_header
read_header-new_header type len rest ht hl = ground arith

pub strcmp_eq_refl : (a : Bytes) → strcmp_eq a a ≡ true
unfolding strcmp_eq
strcmp_eq_refl [] = refl
strcmp_eq_refl (x ∷ a) = ground (arith, strcmp_eq_refl a)

pub strcmp_eq→eq : (a b : Bytes) → strcmp_eq a b ≡ true → a ≡ b
unfolding strcmp_eq
strcmp_eq→eq [] [] h = refl
strcmp_eq→eq [] (y ∷ b) h = cc
strcmp_eq→eq (x ∷ a) [] h = cc
strcmp_eq→eq (x ∷ a) (y ∷ b) h = ground (arith, strcmp_eq→eq a b)

pub strcmp_eq-of_ne : (a b : Bytes) → a ≢ b → strcmp_eq a b ≡ false
strcmp_eq-of_ne a b h = elim (Bool-cases (strcmp_eq a b)) [
  | inl e ↦ absurd (h (strcmp_eq→eq a b e))
  | inr e ↦ e
]

-- A load response reads back field by field.
pub read_load_resp-load_resp_bytes :
    (r : LoadResp)
    → r.load_pct < 2 ^ 32
    → r.active_tasks < 2 ^ 32
    → r.total_tasks < 2 ^ 32
    → r.num_cores < 2 ^ 32
    → read_load_resp (load_resp_bytes r) ≡ r
unfolding read_load_resp load_resp_bytes
read_load_resp-load_resp_bytes r a b c d = ground arith
