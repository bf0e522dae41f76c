-- ===== src/Rb/Search/Occurs.antt =====
-- What rb_find_byte_sequence looks for: the first occurrence of a list in another.
use csnip.Base.{
  ℕ, ◌+◌, ◌<◌, ◌≤◌, ◌≡◌, refl, ap, Bool, true, false, ◌&&◌, List, [], ◌∷◌, arith, if◌then◌else◌,
  ◌==◌, length, get_or, take,
}
use csnip.Rb.Search.{same_bytes}

abbrev pub is_prefix : List ℕ → List ℕ → Bool
is_prefix [] ys = true
is_prefix (x ∷ p) [] = false
is_prefix (x ∷ p) (y ∷ ys) = (x == y) && is_prefix p ys

-- The place of the first occurrence of `p` in a list, counted from `off`.
abbrev pub occurs_from : List ℕ → ℕ → List ℕ → Bool × ℕ
occurs_from p off [] = (false, 0)
occurs_from p off (x ∷ xs) =
    if is_prefix p (x ∷ xs) then (true, off) else occurs_from p (off + 1) xs

pub same_bytes-take :
    (p ys : List ℕ) → length p ≤ length ys → same_bytes p (take (length p) ys) ≡ is_prefix p ys
same_bytes-take [] ys h = refl
same_bytes-take (x ∷ p) [] h = absurd (omega arith)
same_bytes-take (x ∷ p) (y ∷ ys) h = ap (λ b. (x == y) && b) (same_bytes-take p ys (omega arith))

pub too_short : (p ys : List ℕ) → length ys < length p → is_prefix p ys ≡ false
too_short [] ys h = absurd (omega arith)
too_short (x ∷ p) [] h = refl
too_short (x ∷ p) (y ∷ ys) h = ground (arith, too_short p ys)

pub never_occurs :
    (p : List ℕ) (off : ℕ) (xs : List ℕ) → length xs < length p → occurs_from p off xs ≡ (false, 0)
never_occurs p off [] h = refl
never_occurs p off (x ∷ xs) h =
    rw (too_short p (x ∷ xs) h) (never_occurs p (off + 1) xs (omega arith))

pub first_differs :
    (p : List ℕ) (x : ℕ) (xs : List ℕ)
    → 0 < length p
    → (x == get_or p 0 0) ≡ false
    → is_prefix p (x ∷ xs) ≡ false
first_differs [] x xs h e = absurd (omega arith)
first_differs (y ∷ p) x xs h e = ground arith
