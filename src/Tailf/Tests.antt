-- ===== src/Tailf/Tests.antt =====
-- One round of tailf on small files: "a\nbc\n", and "ab".
use csnip.Base.{ℕ, zero, suc, ◌+◌, ◌<◌, ◌≢◌, get_or, ◌≡◌, false, [], ◌∷◌, arith}
use csnip.Machine.Stdio.{InFile, opened}
use csnip.Tailf.{walk_file}
use csnip.Tailf.LastLine.{walk_file-none, walk_file-last_line}

abbrev two_lines : InFile
two_lines = opened (97 ∷ 10 ∷ 98 ∷ 99 ∷ 10 ∷ []) 5

walk_file-last_line_example : walk_file 2 two_lines 1 ≡ (5, false, 98 ∷ 99 ∷ 10 ∷ [])
walk_file-last_line_example =
    walk_file-last_line two_lines (omega arith) 2 1 (omega arith) (omega arith) (omega arith) behind
  where
    behind : (j : ℕ) → 1 < j → j + 1 < 5 → get_or two_lines.bytes j 0 ≢ 10
    behind zero h k = absurd (omega arith)
    behind (suc zero) h k = absurd (omega arith)
    behind (suc (suc zero)) h k = omega arith
    behind (suc (suc (suc zero))) h k = omega arith
    behind (suc (suc (suc (suc j)))) h k = absurd (omega arith)

abbrev one_line : InFile
one_line = opened (97 ∷ 98 ∷ []) 2

walk_file-none_example : walk_file 0 one_line 1 ≡ (2, false, [])
walk_file-none_example = walk_file-none one_line (omega arith) 0 (omega arith) nowhere
  where
    nowhere : (j : ℕ) → j + 1 < 2 → get_or one_line.bytes j 0 ≢ 10
    nowhere zero h = omega arith
    nowhere (suc j) h = absurd (omega arith)
