-- ===== src/Rb/Search/Tests.antt =====
-- The searches at concrete inputs.
use csnip.Base.{ℕ, true, List, [], ◌∷◌, arith}
use csnip.Rb.State.{Rb, IsValid}
use csnip.Rb.Space.{can_read}
use csnip.Rb.Search.{find_byte, find_byte_sequence}
use csnip.Rb.Search.Byte.{Answers, find_byte-Answers}
use csnip.Rb.Search.Sequence.{find_byte_sequence-Answers}
use csnip.Rb.Samples.{wrapped, wrapped-IsValid, four, holding}

find_byte-Answers_example : Answers wrapped (true, 3) (find_byte wrapped 12)
unfolding can_read
find_byte-Answers_example = find_byte-Answers wrapped 12 wrapped-IsValid

-- 1, 2, 1, 2, 3 are readable.
abbrev text : Rb
text = holding (1 ∷ 2 ∷ 1 ∷ 2 ∷ 3 ∷ 6 ∷ 7 ∷ 8 ∷ []) 5

text-IsValid : IsValid text
text-IsValid = omega arith

abbrev pattern_bytes : List ℕ
pattern_bytes = 9 ∷ 1 ∷ 2 ∷ 3 ∷ []

find_byte_sequence-Answers_example :
    Answers text (true, 2) (find_byte_sequence text pattern_bytes 1 3 four)
unfolding can_read
find_byte_sequence-Answers_example =
    find_byte_sequence-Answers pattern_bytes 1 3 (omega arith) (omega arith) text four text-IsValid
      (omega arith) (omega arith)
