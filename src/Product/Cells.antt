-- ===== src/Product/Cells.antt =====
-- The loops of program.c against the definition of the product.
use socket_project.Prelude.{
  ℕ, zero, suc, ◌+◌, ◌*◌, ◌≡◌, ◌==◌, ltb, leb, ◌&&◌, Bool, arith, if◌then◌else◌,
}
use socket_project.Product.{
  Matrix, set_cell, clear_columns, clear_rows, add_products, multiply_columns, multiply_rows,
  multiply,
}

-- f k + f (k + 1) + ..., so many terms.
unfoldable pub sum_from : ℕ → ℕ → (ℕ → ℕ) → ℕ
sum_from zero k f = 0
sum_from (suc n) k f = f k + sum_from n (suc k) f

-- `x` is one of the `n` numbers from `lo` on.
abbrev pub within : ℕ → ℕ → ℕ → Bool
within lo n x = leb lo x && ltb x (lo + n)

clear_columns_cell :
    (n i j : ℕ) (m : Matrix) (row col : ℕ)
    → clear_columns n i j m row col ≡ (if row == i && within j n col then 0 else m row col)
unfolding clear_columns set_cell
clear_columns_cell zero i j m row col = ground arith
clear_columns_cell (suc n) i j m row col =
    ground (arith, clear_columns_cell n i (suc j) (set_cell i j 0 m) row col)

clear_rows_cell :
    (n c i : ℕ) (m : Matrix) (row col : ℕ)
    → clear_rows n c i m row col ≡ (if within i n row && ltb col c then 0 else m row col)
unfolding clear_rows
clear_rows_cell zero c i m row col = ground arith
clear_rows_cell (suc n) c i m row col = ground (
  arith,
  clear_rows_cell n c (suc i) (clear_columns c i 0 m) row col,
  clear_columns_cell c i 0 m row col,
)

module _ (a b : Matrix) where
  abbrev dot : ℕ → ℕ → ℕ → ℕ
  dot n i j = sum_from n 0 (λ x. a i x * b x j)

  add_products_cell :
      (n i j k : ℕ) (m : Matrix) (row col : ℕ)
      → add_products a b n i j k m row col
        ≡ (if row == i && col == j then m i j + sum_from n k (λ x. a i x * b x j) else m row col)
  unfolding add_products set_cell sum_from
  add_products_cell zero i j k m row col = ground arith
  add_products_cell (suc n) i j k m row col =
      ground
        (arith, add_products_cell n i j (suc k) (set_cell i j (m i j + a i k * b k j) m) row col)

  multiply_columns_cell :
      (n c i j : ℕ) (m : Matrix) (row col : ℕ)
      → multiply_columns a b n c i j m row col
        ≡ (if row == i && within j n col then m row col + dot c row col else m row col)
  unfolding multiply_columns
  multiply_columns_cell zero c i j m row col = ground arith
  multiply_columns_cell (suc n) c i j m row col = ground (
    arith,
    multiply_columns_cell n c i (suc j) (add_products a b c i j 0 m) row col,
    add_products_cell c i j 0 m row col,
  )

  multiply_rows_cell :
      (n c1 c2 i : ℕ) (m : Matrix) (row col : ℕ)
      → multiply_rows a b n c1 c2 i m row col
        ≡ (if within i n row && ltb col c2 then m row col + dot c1 row col else m row col)
  unfolding multiply_rows
  multiply_rows_cell zero c1 c2 i m row col = ground arith
  multiply_rows_cell (suc n) c1 c2 i m row col = ground (
    arith,
    multiply_rows_cell n c1 c2 (suc i) (multiply_columns a b c2 c1 i 0 m) row col,
    multiply_columns_cell c2 c1 i 0 m row col,
  )

  -- Whatever the array held, after the loops the cell of a row below r1 and a column below c2 is the
  -- sum of the products along the shared dimension, and no other cell is written.
  pub multiply-sum :
      (r1 c1 c2 : ℕ) (result : Matrix) (row col : ℕ)
      → multiply a b r1 c1 c2 result row col ≡ (
          if ltb row r1 && ltb col c2
          then sum_from c1 0 (λ k. a row k * b k col)
          else result row col)
  unfolding multiply
  multiply-sum r1 c1 c2 result row col = ground (
    arith,
    multiply_rows_cell r1 c1 c2 0 (clear_rows r1 c2 0 result) row col,
    clear_rows_cell r1 c2 0 result row col,
  )
