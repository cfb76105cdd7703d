-- ===== src/Span/Tests.antt =====
-- A run of the line and the column on a short text.
use vif.Prelude.{[], ◌∷◌, some, ◌≡◌, arith}
use vif.Lexer.Memx.{plain_memx, plain_memx-IsMemx}
use vif.Span.{line_col, line_col_lem}

-- The offset of the last byte in `a`, a line feed, `bc`.
line_col_lem_example : line_col plain_memx (97 ∷ 10 ∷ 98 ∷ 99 ∷ []) 3 ≡ some (2, 1)
line_col_lem_example =
    line_col_lem plain_memx plain_memx-IsMemx (97 ∷ 10 ∷ 98 ∷ 99 ∷ []) 3 (omega arith)
