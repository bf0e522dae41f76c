-- ===== src/Rb/Float/Whole.antt =====
-- rb_read_float and rb_write_float against the queue of readable bytes.
use csnip.Base.{
  ℕ, ◌<◌, ◌≤◌, ◌≡◌, ◌⊎◌, inl, inr, refl, ◌∙◌, subst, ap, ap₂, zero, suc, ◌∷◌, some, List, [], ◌++◌,
  arith, leb, Bool-cases, ◌>>=◌, min, length, take, drop, leb→le, append-nil,
}
use csnip.Rb.State.{Rb, IsValid, count_underflow, count_overflow}
use csnip.Rb.Space.{can_read, can_write, contents, length-contents, can_read-add-can_write}
use csnip.Rb.Copy.{read, write}
use csnip.Rb.Copy.Read.{Delivers, read-Delivers}
use csnip.Rb.Copy.Write.{Accepts, write-Accepts}
use csnip.Rb.Float.{float_size, read_float, write_float}

-- rb_read_float on a valid buffer delivers four readable bytes if there are four, and otherwise takes
-- nothing and counts an underflow.
pub read_float-whole :
    (rb : Rb) (dest : List ℕ)
    → IsValid rb
    → float_size ≤ length dest
    → ((float_size ≤ can_read rb)
        × Delivers rb float_size (take float_size (contents rb)) dest (read_float rb dest))
      ⊎ ((can_read rb < float_size) × (read_float rb dest ≡ some (0, dest, count_underflow rb)))
unfolding read_float
read_float-whole rb dest v room = elim (Bool-cases (leb float_size (can_read rb))) [
  | inl e ↦
      let h : float_size ≤ can_read rb = leb→le float_size (can_read rb) e in
      let k : min float_size (can_read rb) ≡ float_size = omega arith in
      inl (
        h,
        rw e (
            subst (λ n. Delivers rb n (take n (contents rb)) dest (read rb dest float_size)) k
              (read-Delivers rb dest float_size v (omega arith))),
      )
  | inr e ↦ inr (ground arith, rw e)
]

-- rb_write_float on a valid buffer appends the four bytes if there is room for four, and otherwise
-- writes nothing and counts an overflow.
pub write_float-whole :
    (rb : Rb) (source : List ℕ)
    → IsValid rb
    → float_size ≤ length source
    → ((float_size ≤ can_write rb) × Accepts rb float_size source (write_float rb source))
      ⊎ ((can_write rb < float_size) × (write_float rb source ≡ some (0, count_overflow rb)))
unfolding write_float
write_float-whole rb source v room = elim (Bool-cases (leb float_size (can_write rb))) [
  | inl e ↦
      let h : float_size ≤ can_write rb = leb→le float_size (can_write rb) e in
      let k : min float_size (can_write rb) ≡ float_size = omega arith in
      inl (
        h,
        rw e (
            subst (λ n. Accepts rb n source (write rb source float_size)) k
              (write-Accepts rb source float_size v (omega arith))),
      )
  | inr e ↦ inr (ground arith, rw e)
]

take-all : (n : ℕ) (xs : List ℕ) → length xs ≤ n → take n xs ≡ xs
take-all zero [] h = refl
take-all zero (x ∷ xs) h = absurd (omega arith)
take-all (suc n) [] h = refl
take-all (suc n) (x ∷ xs) h = ap (λ t. x ∷ t) (take-all n xs (omega arith))

drop-all : (n : ℕ) (xs : List ℕ) → length xs ≤ n → drop n xs ≡ []
drop-all zero [] h = refl
drop-all zero (x ∷ xs) h = absurd (omega arith)
drop-all (suc n) [] h = refl
drop-all (suc n) (x ∷ xs) h = drop-all n xs (omega arith)

-- A buffer whose readable bytes are one float delivers it and is empty then.
read_float_only :
    (rb : Rb) (source dest : List ℕ)
    → IsValid rb
    → contents rb ≡ source
    → length source ≡ float_size
    → length dest ≡ float_size
    → (after : Rb) × (read_float rb dest ≡ some (float_size, source, after)) × (contents after ≡ [])
read_float_only rb source dest v held one room =
    let four : can_read rb ≡ float_size =
      omega (arith, length-contents rb, ap length {x = contents rb} {y = source} held) in
    elim (read_float-whole rb dest v (omega arith)) [
      | inl (h, d) ↦ delivered d
      | inr (h, e) ↦ absurd (omega arith)
    ]
  where
    bytes : take float_size (contents rb) ++ drop float_size dest ≡ source
    bytes =
        ap₂ ◌++◌ (ap (take float_size) held ∙ take-all float_size source (omega arith))
          (drop-all float_size dest (omega arith))
        ∙ append-nil source

    delivered :
        Delivers rb float_size (take float_size (contents rb)) dest (read_float rb dest)
        → (after : Rb) × (read_float rb dest ≡ some (float_size, source, after))
          × (contents after ≡ [])
    delivered d = (
      d.after,
      d.returns ∙ ap (λ xs. some (float_size, xs, d.after)) bytes,
      d.remaining ∙ ap (drop float_size) held ∙ drop-all float_size source (omega arith),
    )

-- A float written to a valid empty buffer of four bytes or more is the float read next, and leaves
-- the buffer empty.
pub read_float-write_float :
    (rb : Rb) (source dest : List ℕ)
    → IsValid rb
    → contents rb ≡ []
    → float_size ≤ rb.size
    → length source ≡ float_size
    → length dest ≡ float_size
    → (after : Rb) × ((write_float rb source >>= λ (k, rb'). read_float rb' dest)
        ≡ some (float_size, source, after))
      × (contents after ≡ [])
read_float-write_float rb source dest v none_there big four_in four_out =
    elim (write_float-whole rb source v (omega arith)) [
      | inl (h, a) ↦ written a
      | inr (h, e) ↦ absurd (
          omega (
            arith,
            length-contents rb,
            ap length {x = contents rb} {y = []} none_there,
            can_read-add-can_write rb v,
          ))
    ]
  where
    written :
        Accepts rb float_size source (write_float rb source)
        → (after : Rb) × ((write_float rb source >>= λ (k, rb'). read_float rb' dest)
            ≡ some (float_size, source, after))
          × (contents after ≡ [])
    written a = rw a.returns (
        read_float_only a.after source dest a.keeps_valid
          (a.appended
            ∙ ap (λ xs. xs ++ take float_size source) none_there
            ∙ take-all float_size source (omega arith))
          four_in four_out)
