-- ===== src/Base/Lists.antt =====
-- Lists measured and indexed by native numbers, and lists given by their entries.
use Prim.Native.Nat.{ℕ, zero, suc, ◌+◌, ◌-◌, ◌<◌, ◌≤◌, min}
use mathlib.Core.Path.{◌≡◌, refl, ap, ap₂, ◌∙◌}
use mathlib.Core.List.{List, [], ◌∷◌, ◌++◌}
use native.Mathlib.Omega.{arith}
use csnip.Base.Tests.{ltb, if◌then◌else◌}

module _ {ℓ} {A : Type ℓ} where
  abbrev pub length : List A → ℕ
  length [] = 0
  length (x ∷ xs) = suc (length xs)

  abbrev pub get_or : List A → ℕ → A → A
  get_or [] i d = d
  get_or (x ∷ xs) zero d = x
  get_or (x ∷ xs) (suc i) d = get_or xs i d

  abbrev pub take : ℕ → List A → List A
  take zero xs = []
  take (suc n) [] = []
  take (suc n) (x ∷ xs) = x ∷ take n xs

  abbrev pub drop : ℕ → List A → List A
  drop zero xs = xs
  drop (suc n) [] = []
  drop (suc n) (x ∷ xs) = drop n xs

  -- The list of `f 0`, `f 1`, and so on, `n` entries of it.
  abbrev pub tabulate : ℕ → (ℕ → A) → List A
  tabulate zero f = []
  tabulate (suc n) f = f 0 ∷ tabulate n (λ i. f (suc i))

module _ {ℓ} {A : Type ℓ} where
  pub length-append : (xs ys : List A) → length (xs ++ ys) ≡ length xs + length ys
  length-append [] ys = omega arith
  length-append (x ∷ xs) ys = omega (arith, length-append xs ys)

  pub take-drop : (n : ℕ) (xs : List A) → take n xs ++ drop n xs ≡ xs
  take-drop zero xs = refl
  take-drop (suc n) [] = refl
  take-drop (suc n) (x ∷ xs) = ap (λ t. x ∷ t) (take-drop n xs)

  pub length-take : (n : ℕ) (xs : List A) → length (take n xs) ≡ min n (length xs)
  length-take zero xs = omega arith
  length-take (suc n) [] = omega arith
  length-take (suc n) (x ∷ xs) = omega (arith, length-take n xs)

  pub length-drop : (n : ℕ) (xs : List A) → length (drop n xs) ≡ length xs - n
  length-drop zero xs = omega arith
  length-drop (suc n) [] = omega arith
  length-drop (suc n) (x ∷ xs) = omega (arith, length-drop n xs)

  pub length-tabulate : (n : ℕ) (f : ℕ → A) → length (tabulate n f) ≡ n
  length-tabulate zero f = refl
  length-tabulate (suc n) f = ap suc (length-tabulate n (λ i. f (suc i)))

  pub tabulate-cong :
      (n : ℕ) (f g : ℕ → A) → ((i : ℕ) → i < n → f i ≡ g i) → tabulate n f ≡ tabulate n g
  tabulate-cong zero f g h = refl
  tabulate-cong (suc n) f g h =
      ap₂ ◌∷◌ (h 0 (omega arith))
        (tabulate-cong n (λ i. f (suc i)) (λ i. g (suc i)) (λ i b. h (suc i) (omega arith)))

  -- The split of a table, by an equation for its size.
  pub tabulate-add :
      (m n k : ℕ) (f : ℕ → A)
      → k ≡ m + n
      → tabulate k f ≡ tabulate m f ++ tabulate n (λ i. f (m + i))
  tabulate-add zero n k f e =
      let e' : k ≡ n = omega arith in
      ap (λ j. tabulate j f) e' ∙ tabulate-cong n f (λ i. f (0 + i)) (λ i b. ap f (omega arith))
  tabulate-add (suc m) n zero f e = absurd (omega arith)
  tabulate-add (suc m) n (suc k) f e =
      ap (λ t. f 0 ∷ t)
        (tabulate-add m n k (λ i. f (suc i)) (omega arith)
          ∙ ap (λ t. tabulate m (λ i. f (suc i)) ++ t)
              (tabulate-cong n (λ i. f (suc (m + i))) (λ i. f (suc m + i))
                (λ i b. ap f (omega arith))))

  pub take-tabulate : (k n : ℕ) (f : ℕ → A) → take k (tabulate n f) ≡ tabulate (min k n) f
  take-tabulate zero n f = let e : 0 ≡ min 0 n = omega arith in ap (λ j. tabulate j f) e
  take-tabulate (suc k) zero f = let e : 0 ≡ min (suc k) 0 = omega arith in ap (λ j. tabulate j f) e
  take-tabulate (suc k) (suc n) f =
      let e : suc (min k n) ≡ min (suc k) (suc n) = omega arith in
      ap (λ t. f 0 ∷ t) (take-tabulate k n (λ i. f (suc i))) ∙ ap (λ j. tabulate j f) e

  pub drop-tabulate :
      (k n : ℕ) (f : ℕ → A) → drop k (tabulate n f) ≡ tabulate (n - k) (λ i. f (k + i))
  drop-tabulate zero n f =
      tabulate-cong n f (λ i. f (0 + i)) (λ i b. ap f (omega arith))
      ∙ ap (λ j. tabulate j (λ i. f (0 + i))) (omega arith)
  drop-tabulate (suc k) zero f =
      let e : 0 ≡ 0 - suc k = omega arith in ap (λ j. tabulate j (λ i. f (suc k + i))) e
  drop-tabulate (suc k) (suc n) f =
      drop-tabulate k n (λ i. f (suc i))
      ∙ tabulate-cong (n - k) (λ i. f (suc (k + i))) (λ i. f (suc k + i))
          (λ i b. ap f (omega arith))
      ∙ ap (λ j. tabulate j (λ i. f (suc k + i))) (omega arith)

  -- A part of a list is the table of its entries.
  pub take-drop-tabulate :
      (i n : ℕ) (xs : List A) (d : A)
      → i + n ≤ length xs
      → take n (drop i xs) ≡ tabulate n (λ j. get_or xs (i + j) d)
  take-drop-tabulate zero zero xs d h = refl
  take-drop-tabulate zero (suc n) [] d h = absurd (omega arith)
  take-drop-tabulate zero (suc n) (x ∷ xs) d h =
      ap₂ ◌∷◌ (ap (λ j. get_or (x ∷ xs) j d) {x = 0} {y = 0 + 0} (omega arith)) (
        take-drop-tabulate zero n xs d (omega arith)
        ∙ tabulate-cong n (λ j. get_or xs (0 + j) d) (λ j. get_or (x ∷ xs) (0 + suc j) d)
            (λ j b. ap (λ t. get_or (x ∷ xs) t d) {x = suc (0 + j)} {y = 0 + suc j} (omega arith)))
  take-drop-tabulate (suc i) zero xs d h = refl
  take-drop-tabulate (suc i) (suc n) [] d h = absurd (omega arith)
  take-drop-tabulate (suc i) (suc n) (x ∷ xs) d h =
      take-drop-tabulate i (suc n) xs d (omega arith)
      ∙ tabulate-cong (suc n) (λ j. get_or xs (i + j) d) (λ j. get_or (x ∷ xs) (suc i + j) d)
          (λ j b. ap (λ t. get_or (x ∷ xs) t d) {x = suc (i + j)} {y = suc i + j} (omega arith))

  pub get_or-append :
      (xs ys : List A) (j : ℕ) (d : A)
      → get_or (xs ++ ys) j d
        ≡ (if ltb j (length xs) then get_or xs j d else get_or ys (j - length xs) d)
  get_or-append [] ys j d = ground arith
  get_or-append (x ∷ xs) ys zero d = ground arith
  get_or-append (x ∷ xs) ys (suc j) d = ground (arith, get_or-append xs ys j d)

  pub get_or-take :
      (n : ℕ) (xs : List A) (j : ℕ) (d : A) → j < n → get_or (take n xs) j d ≡ get_or xs j d
  get_or-take zero xs j d h = absurd (omega arith)
  get_or-take (suc n) [] j d h = refl
  get_or-take (suc n) (x ∷ xs) zero d h = refl
  get_or-take (suc n) (x ∷ xs) (suc j) d h = get_or-take n xs j d (omega arith)

  pub get_or-drop :
      (n : ℕ) (xs : List A) (j : ℕ) (d : A) → get_or (drop n xs) j d ≡ get_or xs (n + j) d
  get_or-drop zero xs j d = ap (λ t. get_or xs t d) (omega arith)
  get_or-drop (suc n) [] j d = refl
  get_or-drop (suc n) (x ∷ xs) j d =
      get_or-drop n xs j d
      ∙ ap (λ t. get_or (x ∷ xs) t d) {x = suc (n + j)} {y = suc n + j} (omega arith)

  pub get_or-tabulate :
      (n : ℕ) (f : ℕ → A) (j : ℕ) (d : A) → j < n → get_or (tabulate n f) j d ≡ f j
  get_or-tabulate zero f j d h = absurd (omega arith)
  get_or-tabulate (suc n) f zero d h = refl
  get_or-tabulate (suc n) f (suc j) d h = get_or-tabulate n (λ i. f (suc i)) j d (omega arith)

  pub take-all : (xs : List A) → take (length xs) xs ≡ xs
  take-all [] = refl
  take-all (x ∷ xs) = ap (λ t. x ∷ t) (take-all xs)
