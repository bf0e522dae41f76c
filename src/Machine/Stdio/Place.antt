-- ===== src/Machine/Stdio/Place.antt =====
-- Reads from a file by what lies before the reader.
use csnip.Base.{
  ℕ, zero, suc, ◌+◌, ◌-◌, ◌<◌, ◌≤◌, ◌≡◌, refl, sym, ap, subst, ◌∙◌, Bool, true, Option, none, some,
  List, [], ◌∷◌, ◌++◌, arith, length, take, drop, length-drop, lt→ltb,
}
use csnip.Machine.Stdio.{InFile, fgetc, fread}

-- The bytes `rest` lie before the reader, and the device gives all bytes.
pub record At (f : InFile) (rest : List ℕ) : Type 0 where
  pub there : drop f.pos f.bytes ≡ rest
  pub sound : length f.bytes ≤ f.limit

drop-nil : (k : ℕ) → drop {A = ℕ} k [] ≡ []
drop-nil zero = refl
drop-nil (suc k) = refl

pub drop-add : (m n : ℕ) (xs : List ℕ) → drop (m + n) xs ≡ drop n (drop m xs)
drop-add zero n xs = ap (λ k. drop k xs) {x = 0 + n} {y = n} (omega arith)
drop-add (suc m) n [] =
    ap (λ k. drop k []) {x = suc m + n} {y = suc (m + n)} (omega arith) ∙ sym (drop-nil n)
drop-add (suc m) n (x ∷ xs) =
    ap (λ k. drop k (x ∷ xs)) {x = suc m + n} {y = suc (m + n)} (omega arith) ∙ drop-add m n xs

pub drop-append : (xs ys : List ℕ) → drop (length xs) (xs ++ ys) ≡ ys
drop-append [] ys = refl
drop-append (x ∷ xs) ys = drop-append xs ys

pub take-append : (xs ys : List ℕ) → take (length xs) (xs ++ ys) ≡ xs
take-append [] ys = refl
take-append (x ∷ xs) ys = ap (λ t. x ∷ t) (take-append xs ys)

pub At-length : (f : InFile) (rest : List ℕ) → At f rest → length f.bytes - f.pos ≡ length rest
At-length f rest a = omega (arith, ap length a.there, length-drop f.pos f.bytes)

-- The reader moved on past the first of the bytes before it, whatever the indicators are.
pub At-on :
    (f : InFile) (xs ys : List ℕ) (e d : Bool)
    → At f (xs ++ ys)
    → At (record f { pos = f.pos + length xs; at_end = e; error = d }) ys
At-on f xs ys e d a = record {
  there = drop-add f.pos (length xs) f.bytes ∙ ap (drop (length xs)) a.there ∙ drop-append xs ys;
  sound = a.sound;
}

pub fgetc-cons :
    (f : InFile) (c : ℕ) (rest : List ℕ)
    → At f (c ∷ rest)
    → (fgetc f ≡ (some c, record f { pos = suc f.pos })) × At (record f { pos = suc f.pos }) rest
unfolding fgetc
fgetc-cons f c rest a =
    let inside : f.pos < f.limit = omega (arith, At-length f (c ∷ rest) a, a.sound) in
    (
      rw (fgetc, a.there, lt→ltb f.pos f.limit inside) refl,
      subst (λ p. At (record f { pos = p }) rest) {x = f.pos + 1} {y = suc f.pos} (omega arith)
          (At-on f (c ∷ []) rest f.at_end f.error a),
    )

pub fgetc-nil : (f : InFile) → At f [] → fgetc f ≡ (none, record f { at_end = true })
unfolding fgetc
fgetc-nil f a = rw (fgetc, a.there) refl

-- A read of bytes that are there fills the buffer with them.
pub fread-At :
    (buffer : List ℕ) (f : InFile) (xs ys : List ℕ)
    → At f (xs ++ ys)
    → length buffer ≡ length xs
    → fread f buffer ≡ (xs, record f { pos = f.pos + length xs })
unfolding fread
fread-At [] f [] ys a e =
    ap (λ p. ([], record f { pos = p })) {x = f.pos} {y = f.pos + 0} (omega arith)
fread-At [] f (x ∷ xs) ys a e = absurd (omega arith)
fread-At (b ∷ buffer) f [] ys a e = absurd (omega arith)
fread-At (b ∷ buffer) f (x ∷ xs) ys a e =
    let (got, on) = fgetc-cons f x (xs ++ ys) a in
    rw
      (
        fread,
        got,
        ap (λ (p : Option ℕ × InFile). p.1) got,
        fread-At buffer (record f { pos = suc f.pos }) xs ys on (omega arith),
      )
      (ap (λ p. (x ∷ xs, record f { pos = p })) {x = suc f.pos + length xs}
        {y = f.pos + suc (length xs)} (omega arith))

-- At the end of the file a read sets feof and nothing else.
pub fread-nil :
    (buffer : List ℕ) (f : InFile)
    → At f []
    → 0 < length buffer
    → fread f buffer ≡ (buffer, record f { at_end = true })
unfolding fread
fread-nil [] f a h = absurd (omega arith)
fread-nil (b ∷ buffer) f a h =
    let got = fgetc-nil f a in rw (fread, got, ap (λ (p : Option ℕ × InFile). p.1) got) refl
