-- ===== src/Product/Tests.antt =====
-- What program.c prints.
use socket_project.Prelude.{◌≡◌, refl, [], ◌∷◌}
use socket_project.Startup.Arguments.{decimal, decimal_digits}
use socket_project.Product.{
  Matrix, left, right, entry, of_rows, set_cell, clear_columns, clear_rows, add_products,
  multiply_columns, multiply_rows, multiply, print_columns, print_rows, display,
}

-- "58 64 ", "139 154 ", whatever the array held.
display_text :
    (result : Matrix)
    → display result
      ≡ b'5' ∷ b'8' ∷ b' ' ∷ b'6' ∷ b'4' ∷ b' ' ∷ 10 ∷ b'1' ∷ b'3' ∷ b'9' ∷ b' ' ∷ b'1' ∷ b'5'
        ∷ b'4' ∷ b' ' ∷ 10 ∷ []
unfolding display print_rows print_columns multiply multiply_rows multiply_columns add_products
    clear_rows clear_columns set_cell left right of_rows entry decimal decimal_digits
display_text result = refl
