-- ===== src/Machine/Stdio/Onwards.antt =====
-- A reader goes on in its file: where fgetc and fread leave it, with errors of the device.
use csnip.Base.{
  ℕ, suc, ◌+◌, ◌<◌, ◌≤◌, ◌≡◌, ◌⊎◌, refl, sym, ap, subst, ◌∙◌, true, false, Option, none, some, List,
  [], ◌∷◌, arith, ltb, length, drop, length-drop, ltb→lt, ltb→le, Bool-cases, inl, inr,
}
use csnip.Machine.Stdio.{InFile, fgetc, fread}

-- The same file, read on to a place not before `p`.
pub record From (f : InFile) (p : ℕ) (g : InFile) : Type 0 where
  pub same_bytes : g.bytes ≡ f.bytes
  pub same_limit : g.limit ≡ f.limit
  pub onwards : p ≤ g.pos

pub true-ne : ¬ (true ≡ false)
true-ne e = cc

pub From-trans : {f g h : InFile} {p : ℕ} → From f p g → From g g.pos h → From f p h
From-trans a b = record {
  same_bytes = b.same_bytes ∙ a.same_bytes;
  same_limit = b.same_limit ∙ a.same_limit;
  onwards = omega (arith, a.onwards, b.onwards);
}

-- What fgetc can do: read the byte that is there, or set an indicator.
pub record Reads (f : InFile) (c : ℕ) (g : InFile) : Type 0 where
  pub moved : g ≡ record f { pos = suc f.pos }
  pub inside : f.pos < length f.bytes
  pub allowed : f.pos < f.limit

pub fgetc-cases :
    (f : InFile)
    → ((c : ℕ) × (g : InFile) × (fgetc f ≡ (some c, g)) × Reads f c g)
      ⊎ (((fgetc f ≡ (none, record f { at_end = true })) × (length f.bytes ≤ f.pos))
          ⊎ ((fgetc f ≡ (none, record f { error = true }))
              × (f.limit ≤ f.pos)
              × (f.pos < length f.bytes)))
unfolding fgetc
fgetc-cases f = byte (drop f.pos f.bytes) refl
  where
    byte :
        (xs : List ℕ)
        → drop f.pos f.bytes ≡ xs
        → ((c : ℕ) × (g : InFile) × (fgetc f ≡ (some c, g)) × Reads f c g)
          ⊎ (((fgetc f ≡ (none, record f { at_end = true })) × (length f.bytes ≤ f.pos))
              ⊎ ((fgetc f ≡ (none, record f { error = true }))
                  × (f.limit ≤ f.pos)
                  × (f.pos < length f.bytes)))
    byte [] e =
        inr (inl (rw (fgetc, e) refl, omega (arith, ap length e, length-drop f.pos f.bytes)))
    byte (c ∷ rest) e = elim (Bool-cases (ltb f.pos f.limit)) [
      | inl l ↦ inl (
        c,
        record f { pos = suc f.pos },
        rw (fgetc, e, l) refl,
        record {
          moved = refl;
          inside = omega (arith, ap length e, length-drop f.pos f.bytes);
          allowed = ltb→lt f.pos f.limit l;
        },
      )
      | inr l ↦ inr (
          inr (
            rw (fgetc, e, l) refl,
            ltb→le f.pos f.limit l,
            omega (arith, ap length e, length-drop f.pos f.bytes),
          ))
    ]

pub fread-cons :
    (f g : InFile) (c d : ℕ) (buffer : List ℕ)
    → fgetc f ≡ (some c, g)
    → fread f (d ∷ buffer) ≡ (c ∷ (fread g buffer).0, (fread g buffer).1)
unfolding fread
fread-cons f g c d buffer e =
    ap
      (λ (p : Option ℕ × InFile). elim p.0 as (λ o. List ℕ × InFile) [
        | none ↦ (d ∷ buffer, p.1)
        | some x ↦ (x ∷ (fread p.1 buffer).0, (fread p.1 buffer).1)
      ])
      e

pub fread-stop :
    (f g : InFile) (d : ℕ) (buffer : List ℕ)
    → fgetc f ≡ (none, g)
    → fread f (d ∷ buffer) ≡ (d ∷ buffer, g)
unfolding fread
fread-stop f g d buffer e =
    ap
      (λ (p : Option ℕ × InFile). elim p.0 as (λ o. List ℕ × InFile) [
        | none ↦ (d ∷ buffer, p.1)
        | some x ↦ (x ∷ (fread p.1 buffer).0, (fread p.1 buffer).1)
      ])
      e

pub fread-From : (f : InFile) (buffer : List ℕ) → From f f.pos (fread f buffer).1
unfolding fread
fread-From f [] = record { same_bytes = refl; same_limit = refl; onwards = omega arith }
fread-From f (d ∷ buffer) = elim (fgetc-cases f) [
  | inl (c, g, e, r) ↦ rw (fread-cons f g c d buffer e) (
      From-trans
        (subst (From f f.pos) (sym r.moved)
          (record { same_bytes = refl; same_limit = refl; onwards = omega arith }))
        (fread-From g buffer))
  | inr (inl (e, l)) ↦
      rw (fread-stop f _ d buffer e)
        (record { same_bytes = refl; same_limit = refl; onwards = omega arith })
  | inr (inr (e, l, m)) ↦
      rw (fread-stop f _ d buffer e)
        (record { same_bytes = refl; same_limit = refl; onwards = omega arith })
]

-- What neither indicator behind a read of a whole buffer tells: all of it was there.
pub record Whole (f : InFile) (n : ℕ) (g : InFile) : Type 0 where
  pub read_to : g.pos ≡ n + f.pos
  pub inside : (0 < n) → f.pos < length f.bytes
  pub allowed : (0 < n) → f.pos < f.limit

pub fread-Whole :
    (f : InFile) (buffer : List ℕ)
    → (fread f buffer).1.at_end ≡ false
    → (fread f buffer).1.error ≡ false
    → Whole f (length buffer) (fread f buffer).1
unfolding fread
fread-Whole f [] = λ a b. record {
  read_to = omega arith;
  inside = λ h. absurd (omega arith);
  allowed = λ h. absurd (omega arith);
}
fread-Whole f (d ∷ buffer) = elim (fgetc-cases f) [
  | inl (c, g, e, r) ↦ rw (fread-cons f g c d buffer e) (λ a b. record {
    read_to = omega (arith, (fread-Whole g buffer a b).read_to, ap (λ (h : InFile). h.pos) r.moved);
    inside = λ h. r.inside;
    allowed = λ h. r.allowed;
  })
  | inr (inl (e, l)) ↦ rw (fread-stop f _ d buffer e) (λ a b. absurd (true-ne a))
  | inr (inr (e, l, m)) ↦ rw (fread-stop f _ d buffer e) (λ a b. absurd (true-ne b))
]

-- A byte that is there moves the place.
pub fread-moves :
    (f : InFile) (d : ℕ) (buffer : List ℕ)
    → f.pos < length f.bytes
    → f.pos < f.limit
    → From f (suc f.pos) (fread f (d ∷ buffer)).1
unfolding fread
fread-moves f d buffer inside allowed = elim (fgetc-cases f) [
  | inl (c, g, e, r) ↦ rw (fread-cons f g c d buffer e) (
      From-trans
        (subst (From f (suc f.pos)) (sym r.moved)
          (record { same_bytes = refl; same_limit = refl; onwards = omega arith }))
        (fread-From g buffer))
  | inr (inl (e, l)) ↦ absurd (omega arith)
  | inr (inr (e, l, m)) ↦ absurd (omega arith)
]

pub fread-moves_some :
    (f : InFile) (buffer : List ℕ)
    → 0 < length buffer
    → f.pos < length f.bytes
    → f.pos < f.limit
    → From f (suc f.pos) (fread f buffer).1
fread-moves_some f [] h inside allowed = absurd (omega arith)
fread-moves_some f (d ∷ buffer) h inside allowed = fread-moves f d buffer inside allowed
