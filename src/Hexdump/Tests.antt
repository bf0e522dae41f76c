-- ===== src/Hexdump/Tests.antt =====
-- hexdump at a concrete input, with %04x and %02x for values below 256.
use csnip.Base.{ℕ, ◌+◌, ◌/◌, ◌%◌, ◌≡◌, refl, some, List, [], ◌∷◌, ◌++◌, ltb, if◌then◌else◌, arith}
use csnip.Machine.Int.{ℤ, pos}
use csnip.Hexdump.{Printf, hexdump}
use csnip.Hexdump.Rows.{rows, hexdump-rows}

abbrev digit : ℕ → ℕ
digit d = if ltb d 10 then 48 + d else 87 + d

abbrev hex : ℕ → ℕ → List ℕ
hex width v =
    let two = digit (v / 16) ∷ digit (v % 16) ∷ [] in if ltb 2 width then 48 ∷ 48 ∷ two else two

abbrev minus : ℤ → List ℕ
minus n = 45 ∷ []

abbrev printf : Printf
printf = record { hex = hex; int = minus }

abbrev unset : List ℕ
unset = 9 ∷ 9 ∷ 9 ∷ 9 ∷ 9 ∷ 9 ∷ 9 ∷ 9 ∷ 9 ∷ 9 ∷ 9 ∷ 9 ∷ 9 ∷ 9 ∷ 9 ∷ 9 ∷ 9 ∷ []

-- Eighteen bytes, the last two in a row of their own.
abbrev bytes : List ℕ
bytes =
    0 ∷ 65 ∷ 66 ∷ 67 ∷ 68 ∷ 69 ∷ 70 ∷ 71 ∷ 72 ∷ 73 ∷ 74 ∷ 75 ∷ 76 ∷ 77 ∷ 127 ∷ 255 ∷ 97 ∷ 32 ∷ []

hexdump-rows_example :
    hexdump printf unset (some (97 ∷ [])) bytes (pos 18)
    ≡ some ((97 ∷ 10 ∷ []) ++ rows printf 1 0 bytes)
hexdump-rows_example =
    hexdump-rows printf unset (some (97 ∷ [])) bytes 1 refl (omega arith) (omega arith)
      (omega arith)
