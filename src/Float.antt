-- ===== src/Float.antt =====
-- The `float` arithmetic that load_monitor.c and dispatcher.c use. A float is its 32-bit pattern; the
-- operations are the machine's, a parameter of the code that calls them.
use socket_project.Prelude.{ℕ, ◌+◌, ◌*◌, ◌/◌, ◌≡◌, refl, Bool, true, false, arith, ltb, leb}

pub record FloatOps : Type 0 where
  pub add : ℕ → ℕ → ℕ
  pub mul : ℕ → ℕ → ℕ
  pub div : ℕ → ℕ → ℕ
  pub of_u32 : ℕ → ℕ
  pub lt : ℕ → ℕ → Bool
  pub le : ℕ → ℕ → Bool
  pub is_nan : ℕ → Bool

-- The patterns of the source's constants: 0, 10, 99, 100, 1e9 and 1e10.
abbrev pub float_0 : ℕ
float_0 = 0

abbrev pub float_10 : ℕ
float_10 = 0x4120_0000

abbrev pub float_99 : ℕ
float_99 = 0x42c6_0000

abbrev pub float_100 : ℕ
float_100 = 0x42c8_0000

abbrev pub float_1e9 : ℕ
float_1e9 = 0x4e6e_6b28

abbrev pub float_1e10 : ℕ
float_1e10 = 0x5015_02f9

-- IEEE 754 comparison: an order on what is no NaN, and the constants stand in it as they should.
pub record IsOrdered (f : FloatOps) : Type 0 where
  pub lt-le : (a b : ℕ) → f.lt a b ≡ true → f.le a b ≡ true
  pub le_refl : (a : ℕ) → f.is_nan a ≡ false → f.le a a ≡ true
  pub le_trans : (a b c : ℕ) → f.le a b ≡ true → f.le b c ≡ true → f.le a c ≡ true
  pub le_total :
      (a b : ℕ) → f.is_nan a ≡ false → f.is_nan b ≡ false → f.lt a b ≡ false → f.le b a ≡ true
  pub lt-not_le : (a b : ℕ) → f.lt a b ≡ true → f.le b a ≡ false
  pub limit_number : f.is_nan float_1e10 ≡ false
  pub lt_zero_hundred : f.lt float_0 float_100 ≡ true
  pub lt_limits : f.lt float_1e9 float_1e10 ≡ true

-- Numbers in the place of floats: an instance in which the laws hold.
abbrev pub toy_ops : FloatOps
toy_ops = record {
  add = ◌+◌;
  mul = λ a b. a * b / float_10;
  div = λ a b. a / b;
  of_u32 = λ n. n;
  lt = ltb;
  le = leb;
  is_nan = λ n. false;
}

pub toy_ops-IsOrdered : IsOrdered toy_ops
toy_ops-IsOrdered = record {
  lt-le = λ a b h. ground arith;
  le_refl = λ a h. ground arith;
  le_trans = λ a b c h k. ground arith;
  le_total = λ a b h k l. ground arith;
  lt-not_le = λ a b h. ground arith;
  limit_number = refl;
  lt_zero_hundred = refl;
  lt_limits = refl;
}
