-- ===== src/Product.antt =====
-- New_socket_proj/program.c: a program to submit, which prints the product of two matrices. A matrix is
-- a function of its row and column. The numbers are small: no int of the program overflows.
pub mod Cells
pub mod Tests
use socket_project.Prelude.{ℕ, zero, suc, ◌+◌, ◌*◌, ◌&&◌, List, [], ◌∷◌, ◌++◌, ◌==◌, if◌then◌else◌}
use socket_project.Wire.{Bytes}
use socket_project.Startup.Arguments.{decimal}

abbrev pub Matrix : Type 0
Matrix = ℕ → ℕ → ℕ

-- `m[i][j] = v`
unfoldable pub set_cell : ℕ → ℕ → ℕ → Matrix → Matrix
set_cell i j v m row col = if row == i && col == j then v else m row col

-- `for (j = ...; j < c2; j++) result[i][j] = 0`, with so many rounds left.
unfoldable pub clear_columns : ℕ → ℕ → ℕ → Matrix → Matrix
clear_columns zero i j result = result
clear_columns (suc rounds) i j result = clear_columns rounds i (suc j) (set_cell i j 0 result)

unfoldable pub clear_rows : ℕ → ℕ → ℕ → Matrix → Matrix
clear_rows zero c2 i result = result
clear_rows (suc rounds) c2 i result = clear_rows rounds c2 (suc i) (clear_columns c2 i 0 result)

module _ (a b : Matrix) where
  -- `for (k = ...; k < c1; k++) result[i][j] += A[i][k] * B[k][j]`
  unfoldable pub add_products : ℕ → ℕ → ℕ → ℕ → Matrix → Matrix
  add_products zero i j k result = result
  add_products (suc rounds) i j k result =
      add_products rounds i j (suc k) (set_cell i j (result i j + a i k * b k j) result)

  unfoldable pub multiply_columns : ℕ → ℕ → ℕ → ℕ → Matrix → Matrix
  multiply_columns zero c1 i j result = result
  multiply_columns (suc rounds) c1 i j result =
      multiply_columns rounds c1 i (suc j) (add_products c1 i j 0 result)

  unfoldable pub multiply_rows : ℕ → ℕ → ℕ → ℕ → Matrix → Matrix
  multiply_rows zero c1 c2 i result = result
  multiply_rows (suc rounds) c1 c2 i result =
      multiply_rows rounds c1 c2 (suc i) (multiply_columns c2 c1 i 0 result)

  -- Both nests of loops, over whatever `result` held.
  unfoldable pub multiply : ℕ → ℕ → ℕ → Matrix → Matrix
  multiply r1 c1 c2 result = multiply_rows r1 c1 c2 0 (clear_rows r1 c2 0 result)

-- `"%d "` for each column, and the end of the line.
unfoldable pub print_columns : ℕ → ℕ → ℕ → Matrix → Bytes
print_columns zero i j m = 10 ∷ []
print_columns (suc rounds) i j m = decimal (m i j) ++ (b' ' ∷ print_columns rounds i (suc j) m)

unfoldable pub print_rows : ℕ → ℕ → ℕ → Matrix → Bytes
print_rows zero c i m = []
print_rows (suc rounds) c i m = print_columns c i 0 m ++ print_rows rounds c (suc i) m

-- An array initialiser, row by row.
unfoldable pub entry : List ℕ → ℕ → ℕ
entry [] j = 0
entry (v ∷ row) zero = v
entry (v ∷ row) (suc j) = entry row j

unfoldable pub of_rows : List (List ℕ) → Matrix
of_rows [] i j = 0
of_rows (row ∷ rows) zero j = entry row j
of_rows (row ∷ rows) (suc i) j = of_rows rows i j

unfoldable pub left : Matrix
left = of_rows ((1 ∷ 2 ∷ 3 ∷ []) ∷ (4 ∷ 5 ∷ 6 ∷ []) ∷ [])

unfoldable pub right : Matrix
right = of_rows ((7 ∷ 8 ∷ []) ∷ (9 ∷ 10 ∷ []) ∷ (11 ∷ 12 ∷ []) ∷ [])

-- What `main` prints under its heading, `result` being what the array held before.
unfoldable pub display : Matrix → Bytes
display result = print_rows 2 2 0 (multiply left right 2 3 2 result)
