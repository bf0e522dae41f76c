-- ===== src/Machine/Array.antt =====
-- Arrays of words: loads and stores by index, which fault out of bounds.
use csnip.Base.{
  ℕ, zero, suc, ◌<◌, ◌≤◌, ◌≡◌, ◌≢◌, refl, ap, Option, none, some, List, [], ◌∷◌, ◌++◌, arith, ltb,
  if◌then◌else◌, length, get_or, take, drop,
}

-- `xs` with `x` at index `i`, if there is one.
abbrev pub put : List ℕ → ℕ → ℕ → List ℕ
put [] i x = []
put (y ∷ ys) zero x = x ∷ ys
put (y ∷ ys) (suc i) x = y ∷ put ys i x

-- a[i]
unfoldable pub load : List ℕ → ℕ → Option ℕ
load a i = if ltb i (length a) then some (get_or a i 0) else none

-- a[i] = x
unfoldable pub store : List ℕ → ℕ → ℕ → Option (List ℕ)
store a i x = if ltb i (length a) then some (put a i x) else none

pub load-eq : (a : List ℕ) (i : ℕ) → i < length a → load a i ≡ some (get_or a i 0)
unfolding load
load-eq a i h = ground arith

pub store-eq : (a : List ℕ) (i x : ℕ) → i < length a → store a i x ≡ some (put a i x)
unfolding store
store-eq a i x h = ground arith

pub store_fault : (a : List ℕ) (i x : ℕ) → length a ≤ i → store a i x ≡ none
unfolding store
store_fault a i x h = ground arith

pub length-put : (a : List ℕ) (i x : ℕ) → length (put a i x) ≡ length a
length-put [] i x = refl
length-put (y ∷ ys) zero x = refl
length-put (y ∷ ys) (suc i) x = ap suc (length-put ys i x)

pub take-put : (a : List ℕ) (n i x : ℕ) → n ≤ i → take n (put a i x) ≡ take n a
take-put a zero i x h = refl
take-put [] (suc n) i x h = refl
take-put (y ∷ ys) (suc n) zero x h = absurd (omega arith)
take-put (y ∷ ys) (suc n) (suc i) x h = ap (λ t. y ∷ t) (take-put ys n i x (omega arith))

pub drop-put : (a : List ℕ) (i x : ℕ) → i < length a → drop i (put a i x) ≡ x ∷ drop (suc i) a
drop-put [] i x h = absurd (omega arith)
drop-put (y ∷ ys) zero x h = refl
drop-put (y ∷ ys) (suc i) x h = drop-put ys i x (omega arith)

-- The first `n` entries go on over a place behind them.
pub take-suc :
    (a : List ℕ) (n : ℕ) → n < length a → take (suc n) a ≡ take n a ++ (get_or a n 0 ∷ [])
take-suc [] n h = absurd (omega arith)
take-suc (y ∷ ys) zero h = refl
take-suc (y ∷ ys) (suc n) h = ap (λ t. y ∷ t) (take-suc ys n (omega arith))

pub put-split : (a : List ℕ) (i x : ℕ) → i < length a → put a i x ≡ take i a ++ (x ∷ drop (suc i) a)
put-split [] i x h = absurd (omega arith)
put-split (y ∷ ys) zero x h = refl
put-split (y ∷ ys) (suc i) x h = ap (λ t. y ∷ t) (put-split ys i x (omega arith))

pub get_or-put : (a : List ℕ) (i x : ℕ) → i < length a → get_or (put a i x) i 0 ≡ x
get_or-put [] i x h = absurd (omega arith)
get_or-put (y ∷ ys) zero x h = refl
get_or-put (y ∷ ys) (suc i) x h = get_or-put ys i x (omega arith)

pub get_or-put_other : (a : List ℕ) (i j x : ℕ) → j ≢ i → get_or (put a i x) j 0 ≡ get_or a j 0
get_or-put_other [] i j x h = refl
get_or-put_other (y ∷ ys) zero zero x h = absurd (h refl)
get_or-put_other (y ∷ ys) zero (suc j) x h = refl
get_or-put_other (y ∷ ys) (suc i) zero x h = refl
get_or-put_other (y ∷ ys) (suc i) (suc j) x h = get_or-put_other ys i j x (λ e. h (ap suc e))
