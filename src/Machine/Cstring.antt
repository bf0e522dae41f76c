-- ===== src/Machine/Cstring.antt =====
-- Strings of <string.h> in byte arrays.
use csnip.Base.{ℕ, zero, suc, Bool, true, false, List, [], ◌∷◌, ◌==◌, if◌then◌else◌}

-- The string in an array, up to its first NUL.
abbrev pub c_string : List ℕ → List ℕ
c_string [] = []
c_string (c ∷ cs) = if c == 0 then [] else c ∷ c_string cs

-- strncpy(dest, source, n), where the source is the string without its NUL
unfoldable pub strncpy : List ℕ → List ℕ → ℕ → List ℕ
strncpy [] source n = []
strncpy (d ∷ dest) source zero = d ∷ dest
strncpy (d ∷ dest) [] (suc n) = 0 ∷ strncpy dest [] n
strncpy (d ∷ dest) (c ∷ source) (suc n) = c ∷ strncpy dest source n

-- Whether strncmp(a, b, n) is 0, where `b` is the string without its NUL.
unfoldable pub strncmp_same : ℕ → List ℕ → List ℕ → Bool
strncmp_same zero a b = true
strncmp_same (suc n) [] b = false
strncmp_same (suc n) (x ∷ a) [] = x == 0
strncmp_same (suc n) (x ∷ a) (y ∷ b) = if x == y then strncmp_same n a b else false
