-- ===== src/Vector/Shift.antt =====
-- The loops of vector_delete, vector_insert and vector_clear.
use csnip.Base.{
  ℕ, zero, suc, ◌+◌, ◌<◌, ◌≤◌, ◌≡◌, refl, sym, ap, ap₂, ◌∙◌, Option, some, List, [], ◌∷◌, ◌++◌,
  ◌>>=◌, length, take, drop, get_or, arith, append_assoc, length-append, length-take, length-drop,
}
use csnip.Machine.Array.{put, load-eq, store-eq, length-put, take-put, drop-put, take-suc}
use csnip.Vector.{shift_down, shift_up, clear_items}

-- A block with the entry at `i` taken out and the `n` behind it moved, NULL at their end.
abbrev pub removed : ℕ → ℕ → List ℕ → List ℕ
removed n zero [] = []
removed n (suc i) [] = []
removed n zero (x ∷ xs) = take n xs ++ (0 ∷ drop n xs)
removed n (suc i) (x ∷ xs) = x ∷ removed n i xs

-- vector_delete's store and loop on a block of words.
pub shift_down_cons :
    (n i x : ℕ) (xs : List ℕ)
    → i + n < length xs
    → shift_down n (suc i) (x ∷ xs) ≡ (shift_down n i xs >>= λ b. some (x ∷ b))
unfolding shift_down
shift_down_cons zero i x xs h = refl
shift_down_cons (suc n) i x xs h =
    let y : ℕ = get_or xs (suc i) 0 in
    let long : length (put (put xs i y) (suc i) 0) ≡ length xs =
      length-put (put xs i y) (suc i) 0 ∙ length-put xs i y in
    let same : length (put xs i y) ≡ length xs = length-put xs i y in
    rw
      (
        load-eq (x ∷ xs) (suc (suc i)) (omega arith),
        load-eq xs (suc i) (omega arith),
        store-eq (x ∷ xs) (suc i) y (omega arith),
        store-eq xs i y (omega arith),
        store-eq (x ∷ put xs i y) (suc (suc i)) 0 (omega (arith, same)),
        store-eq (put xs i y) (suc i) 0 (omega (arith, same)),
      )
      (shift_down_cons n (suc i) x (put (put xs i y) (suc i) 0) (omega (arith, long)))

shift_down_front :
    (n : ℕ) (xs : List ℕ)
    → n ≤ length xs
    → shift_down n 0 (0 ∷ xs) ≡ some (take n xs ++ (0 ∷ drop n xs))
unfolding shift_down
shift_down_front zero xs h = refl
shift_down_front (suc n) [] h = absurd (omega arith)
shift_down_front (suc n) (x ∷ xs) h =
    rw
      (
        load-eq (0 ∷ x ∷ xs) 1 (omega arith),
        store-eq (0 ∷ x ∷ xs) 0 x (omega arith),
        store-eq (x ∷ x ∷ xs) 1 0 (omega arith),
        shift_down_cons n 0 x (0 ∷ xs) (omega arith),
        shift_down_front n xs (omega arith),
      )
      refl

-- The loop of vector_delete behind its store of NULL takes the entry out.
pub shift_down-put :
    (n i : ℕ) (xs : List ℕ)
    → i + n < length xs
    → shift_down n i (put xs i 0) ≡ some (removed n i xs)
shift_down-put n i [] h = absurd (omega arith)
shift_down-put n zero (x ∷ xs) h = shift_down_front n xs (omega arith)
shift_down-put n (suc i) (x ∷ xs) h =
    rw
      (
        shift_down_cons n i x (put xs i 0) (omega (arith, length-put xs i 0)),
        shift_down-put n i xs (omega arith),
      )
      refl

pub length-removed :
    (n i : ℕ) (xs : List ℕ) → i + n < length xs → length (removed n i xs) ≡ length xs
length-removed n i [] h = absurd (omega arith)
length-removed n zero (x ∷ xs) h =
    omega (arith, length-append (take n xs) (0 ∷ drop n xs), length-take n xs, length-drop n xs)
length-removed n (suc i) (x ∷ xs) h = ap suc (length-removed n i xs (omega arith))

-- A list without its entry at `i`.
abbrev pub without : ℕ → List ℕ → List ℕ
without i [] = []
without zero (x ∷ xs) = xs
without (suc i) (x ∷ xs) = x ∷ without i xs

pub take-removed :
    (n i m : ℕ) (xs : List ℕ)
    → m ≡ i + n
    → m < length xs
    → take m (removed n i xs) ≡ without i (take (suc m) xs)
take-removed n i m [] e h = absurd (omega arith)
take-removed n zero m (x ∷ xs) e h =
    ap (λ k. take k (take n xs ++ (0 ∷ drop n xs))) {x = m} {y = n} (omega arith)
    ∙ take_front n xs (omega arith)
    ∙ ap (λ k. take k xs) {x = n} {y = m} (omega arith)
  where
    take_front :
        (k : ℕ) (ys : List ℕ) → k ≤ length ys → take k (take k ys ++ (0 ∷ drop k ys)) ≡ take k ys
    take_front zero ys l = refl
    take_front (suc k) [] l = absurd (omega arith)
    take_front (suc k) (y ∷ ys) l = ap (λ t. y ∷ t) (take_front k ys (omega arith))
take-removed n (suc i) zero (x ∷ xs) e h = absurd (omega arith)
take-removed n (suc i) (suc m) (x ∷ xs) e h =
    ap (λ t. x ∷ t) (take-removed n i m xs (omega arith) (omega arith))

-- A block with the `n` entries from `i` on moved one place on, over the one behind them.
abbrev pub shifted : ℕ → ℕ → List ℕ → List ℕ
shifted n i [] = []
shifted n zero (x ∷ xs) = x ∷ (take n (x ∷ xs) ++ drop n xs)
shifted n (suc i) (x ∷ xs) = x ∷ shifted n i xs

shift_up_cons :
    (n i x : ℕ) (xs : List ℕ)
    → i + n < length xs
    → shift_up n (suc i) (x ∷ xs) ≡ (shift_up n i xs >>= λ b. some (x ∷ b))
unfolding shift_up
shift_up_cons zero i x xs h = refl
shift_up_cons (suc n) i x xs h =
    let y : ℕ = get_or xs (i + n) 0 in
    let e : suc i + n ≡ suc (i + n) = omega arith in
    let f : suc i + suc n ≡ suc (i + suc n) = omega arith in
    rw
      (
        e,
        f,
        load-eq (x ∷ xs) (suc (i + n)) (omega arith),
        load-eq xs (i + n) (omega arith),
        store-eq (x ∷ xs) (suc (i + suc n)) y (omega arith),
        store-eq xs (i + suc n) y (omega arith),
      )
      (shift_up_cons n i x (put xs (i + suc n) y) (omega (arith, length-put xs (i + suc n) y)))

shift_up_front :
    (n x : ℕ) (xs : List ℕ)
    → n ≤ length xs
    → shift_up n 0 (x ∷ xs) ≡ some (x ∷ (take n (x ∷ xs) ++ drop n xs))
unfolding shift_up
shift_up_front zero x xs h = refl
shift_up_front (suc n) x xs h =
    let y : ℕ = get_or (x ∷ xs) n 0 in
    let e : 0 + n ≡ n = omega arith in
    let f : 0 + suc n ≡ suc n = omega arith in
    rw (e, f, load-eq (x ∷ xs) n (omega arith), store-eq (x ∷ xs) (suc n) y (omega arith))
      (shift_up_front n x (put xs n y) (omega (arith, length-put xs n y))
        ∙ ap (λ t. some (x ∷ t)) joined)
  where
    last : ℕ
    last = get_or (x ∷ xs) n 0

    joined :
        take n (x ∷ put xs n last) ++ drop n (put xs n last)
        ≡ take (suc n) (x ∷ xs) ++ drop (suc n) xs
    joined =
        ap₂ ◌++◌ (take-put (x ∷ xs) n (suc n) last (omega arith)) (drop-put xs n last (omega arith))
        ∙ sym (
            ap (λ t. t ++ drop (suc n) xs) (take-suc (x ∷ xs) n (omega arith))
            ∙ append_assoc (take n (x ∷ xs)) (last ∷ []) (drop (suc n) xs))

pub shift_up-shifted :
    (n i : ℕ) (xs : List ℕ) → i + n < length xs → shift_up n i xs ≡ some (shifted n i xs)
shift_up-shifted n i [] h = absurd (omega arith)
shift_up-shifted n zero (x ∷ xs) h = shift_up_front n x xs (omega arith)
shift_up-shifted n (suc i) (x ∷ xs) h =
    rw (shift_up_cons n i x xs (omega arith), shift_up-shifted n i xs (omega arith)) refl

pub length-shifted :
    (n i : ℕ) (xs : List ℕ) → i + n < length xs → length (shifted n i xs) ≡ length xs
length-shifted n i [] h = refl
length-shifted n zero (x ∷ xs) h =
    omega
      (arith, length-append (take n (x ∷ xs)) (drop n xs), length-take n (x ∷ xs), length-drop n xs)
length-shifted n (suc i) (x ∷ xs) h = ap suc (length-shifted n i xs (omega arith))

-- The same block with `item` stored at `i`.
abbrev pub inserted : ℕ → ℕ → ℕ → List ℕ → List ℕ
inserted item n i xs = put (shifted n i xs) i item

pub length-inserted :
    (item n i : ℕ) (xs : List ℕ) → i + n < length xs → length (inserted item n i xs) ≡ length xs
length-inserted item n i xs h = length-put (shifted n i xs) i item ∙ length-shifted n i xs h

-- A list with `item` before its entry at `i`.
abbrev pub with_at : ℕ → ℕ → List ℕ → List ℕ
with_at item zero xs = item ∷ xs
with_at item (suc i) [] = item ∷ []
with_at item (suc i) (x ∷ xs) = x ∷ with_at item i xs

pub take-inserted :
    (item n i m : ℕ) (xs : List ℕ)
    → m ≡ i + n
    → 0 < n
    → m < length xs
    → take (suc m) (inserted item n i xs) ≡ with_at item i (take m xs)
take-inserted item n i m [] e h l = absurd (omega arith)
take-inserted item n zero m (x ∷ xs) e h l =
    ap (λ t. item ∷ t)
      (ap (λ k. take k (take n (x ∷ xs) ++ drop n xs)) {x = m} {y = n} (omega arith)
        ∙ take_front n (x ∷ xs) (drop n xs) (omega arith)
        ∙ ap (λ k. take k (x ∷ xs)) {x = n} {y = m} (omega arith))
  where
    take_front : (k : ℕ) (ys zs : List ℕ) → k ≤ length ys → take k (take k ys ++ zs) ≡ take k ys
    take_front zero ys zs q = refl
    take_front (suc k) [] zs q = absurd (omega arith)
    take_front (suc k) (y ∷ ys) zs q = ap (λ t. y ∷ t) (take_front k ys zs (omega arith))
take-inserted item n (suc i) zero (x ∷ xs) e h l = absurd (omega arith)
take-inserted item n (suc i) (suc m) (x ∷ xs) e h l =
    ap (λ t. x ∷ t) (take-inserted item n i m xs (omega arith) h (omega arith))

-- The loop of vector_clear stays in the block and keeps its size.
pub record Cleared (xs : List ℕ) (out : Option (List ℕ)) : Type 0 where
  pub block : List ℕ
  pub given : out ≡ some block
  pub same_length : length block ≡ length xs

pub clear_items_lem : (n i : ℕ) (xs : List ℕ) → i + n ≤ length xs → Cleared xs (clear_items n i xs)
unfolding clear_items
clear_items_lem zero i xs h = record { block = xs; given = refl; same_length = refl }
clear_items_lem (suc n) i xs h =
    let c = clear_items_lem n (suc i) (put xs i 0) (omega (arith, length-put xs i 0)) in
    rw (store-eq xs i 0 (omega arith))
      (record { block = c.block; given = c.given; same_length = c.same_length ∙ length-put xs i 0 })
