-- ===== src/Rb/Float/Tests.antt =====
-- Floats at concrete inputs.
use csnip.Base.{ℕ, ◌≡◌, ◌>>=◌, refl, false, some, List, [], ◌∷◌, arith}
use csnip.Rb.State.{Rb, IsValid}
use csnip.Rb.Space.{can_read, contents}
use csnip.Rb.Float.{read_float, write_float}
use csnip.Rb.Float.Whole.{read_float-write_float}
use csnip.Rb.Samples.{wrapped, four}

abbrev one_float : List ℕ
one_float = 0 ∷ 0 ∷ 128 ∷ 63 ∷ []

-- Nothing is readable, and the write goes round the end.
abbrev drained : Rb
drained = record wrapped { write_index = 6; last_was_write = false }

drained-IsValid : IsValid drained
drained-IsValid = omega arith

read_float-write_float_example :
    (after : Rb) × ((write_float drained one_float >>= λ (k, rb'). read_float rb' four)
      ≡ some (4, one_float, after))
    × (contents after ≡ [])
unfolding can_read
read_float-write_float_example =
    read_float-write_float drained one_float four drained-IsValid refl (omega arith) refl refl
