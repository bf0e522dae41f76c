-- ===== src/Hexdump/Buff.antt =====
-- buff and the padding loop of hexdump.
use csnip.Base.{
  ℕ, zero, suc, ◌+◌, ◌%◌, ◌^◌, ◌<◌, ◌≡◌, ◌≢◌, refl, sym, ap, ap₂, subst, ◌∙◌, some, List, [], ◌∷◌,
  ◌++◌, map, arith, length, append_assoc, length-append, lt→ltb, ne→==, eq→==,
}
use csnip.Machine.Array.{put}
use csnip.Machine.Cstring.{c_string}
use csnip.Hexdump.{printable, keep, pad_from}

-- buff where it holds the text column of `row`.
pub record Holds (buff row : List ℕ) : Type 0 where
  pub rest : List ℕ
  pub there : buff ≡ map printable row ++ (0 ∷ rest)
  pub whole : length row + length rest ≡ 16

put-append : (xs ys : List ℕ) (i x : ℕ) → put (xs ++ ys) (length xs + i) x ≡ xs ++ put ys i x
put-append [] ys i x = ap (λ k. put ys k x) {x = 0 + i} {y = i} (omega arith)
put-append (z ∷ xs) ys i x =
    ap (λ k. put (z ∷ (xs ++ ys)) k x) {x = suc (length xs) + i} {y = suc (length xs + i)}
      (omega arith)
    ∙ ap (λ t. z ∷ t) (put-append xs ys i x)

length-map : (xs : List ℕ) → length (map printable xs) ≡ length xs
length-map [] = refl
length-map (x ∷ xs) = ap suc (length-map xs)

-- No byte is shown as 0.
c_string-printable :
    (row rest : List ℕ) → c_string (map printable row ++ (0 ∷ rest)) ≡ map printable row
unfolding printable
c_string-printable [] rest = refl
c_string-printable (c ∷ row) rest =
    rw (ne→== (printable c) 0 shown) (ap (λ t. printable c ∷ t) (c_string-printable row rest))
  where
    shown : printable c ≢ 0
    shown = ground arith

map-append : (xs ys : List ℕ) → map printable (xs ++ ys) ≡ map printable xs ++ map printable ys
map-append [] ys = refl
map-append (x ∷ xs) ys = ap (λ t. printable x ∷ t) (map-append xs ys)

kept :
    (row rest : List ℕ) (i c : ℕ)
    → length row + length rest ≡ 16
    → length row < 16
    → i % 16 ≡ length row
    → Holds (keep (map printable row ++ (0 ∷ rest)) i c) (row ++ (c ∷ []))
unfolding keep
kept row [] i c w short e = absurd (omega arith)
kept row (r ∷ rest) i c w short e = record {
  rest = rest;
  there = first ∙ second ∙ sym joined;
  whole = omega (arith, length-append row (c ∷ []));
}
  where
    m : List ℕ
    m = map printable row

    i₀ : i % 16 ≡ length m + 0
    i₀ = omega (arith, length-map row)

    i₁ : i % 16 + 1 ≡ length m + 1
    i₁ = omega (arith, length-map row)

    first :
        put (put (m ++ (0 ∷ r ∷ rest)) (i % 16) (printable c)) (i % 16 + 1) 0
        ≡ put (m ++ (printable c ∷ r ∷ rest)) (length m + 1) 0
    first =
        ap₂ (λ j k. put (put (m ++ (0 ∷ r ∷ rest)) j (printable c)) k 0) i₀ i₁
        ∙ ap (λ t. put t (length m + 1) 0) (put-append m (0 ∷ r ∷ rest) 0 (printable c))

    second : put (m ++ (printable c ∷ r ∷ rest)) (length m + 1) 0 ≡ m ++ (printable c ∷ 0 ∷ rest)
    second = put-append m (printable c ∷ r ∷ rest) 1 0

    joined : map printable (row ++ (c ∷ [])) ++ (0 ∷ rest) ≡ m ++ (printable c ∷ 0 ∷ rest)
    joined =
        ap (λ t. t ++ (0 ∷ rest)) (map-append row (c ∷ []))
        ∙ append_assoc m (printable c ∷ []) (0 ∷ rest)

-- The two stores put a byte behind the row.
pub keep-Holds :
    (buff row : List ℕ) (i c : ℕ)
    → Holds buff row
    → length row < 16
    → i % 16 ≡ length row
    → Holds (keep buff i c) (row ++ (c ∷ []))
keep-Holds buff row i c h short e =
    subst (λ b. Holds (keep b i c) (row ++ (c ∷ []))) (sym h.there)
      (kept row h.rest i c h.whole short e)

-- The first byte of a row, whatever buff held.
pub keep_first :
    (buff : List ℕ) (i c : ℕ) → length buff ≡ 17 → i % 16 ≡ 0 → Holds (keep buff i c) (c ∷ [])
unfolding keep
keep_first [] i c h e = absurd (omega arith)
keep_first (a ∷ []) i c h e = absurd (omega arith)
keep_first (a ∷ b ∷ rest) i c h e = rw e (record { rest = rest; there = refl; whole = omega arith })

pub length-Holds : (buff row : List ℕ) → Holds buff row → length buff ≡ 17
length-Holds buff row h =
    ap length h.there
    ∙ omega (arith, h.whole, length-append (map printable row) (0 ∷ h.rest), length-map row)

pub c_string-Holds : (buff row : List ℕ) → Holds buff row → c_string buff ≡ map printable row
c_string-Holds buff row h = ap c_string h.there ∙ c_string-printable row h.rest

-- `n` times the three spaces.
abbrev pub blanks : ℕ → List ℕ
blanks zero = []
blanks (suc n) = 32 ∷ 32 ∷ 32 ∷ blanks n

pub pad_from-blanks :
    (j i fuel : ℕ)
    → (i + j) % 16 ≡ 0
    → j < 16
    → i + j < 2 ^ 31
    → j < fuel
    → pad_from fuel i ≡ some (blanks j)
unfolding pad_from
pad_from-blanks j i zero e short small h = absurd (omega arith)
pad_from-blanks zero i (suc fuel) e short small h = rw (eq→== (i % 16) 0 (omega arith)) refl
pad_from-blanks (suc j) i (suc fuel) e short small h =
    rw
      (
        ne→== (i % 16) 0 (omega arith),
        lt→ltb (i + 1) (2 ^ 31) (omega arith),
        pad_from-blanks j (i + 1) fuel (omega arith) (omega arith) (omega arith) (omega arith),
      )
      refl
