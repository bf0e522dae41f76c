-- ===== src/Wave/Markers/Ends.antt =====
-- The loops over the marker file come to an end where its device gives no errors.
use csnip.Base.{
  ℕ, zero, suc, ◌-◌, ◌^◌, ◌<◌, ◌≤◌, ◌≡◌, refl, sym, subst, ap, ◌∙◌, ◌⊎◌, inl, inr, Bool, true,
  false, not, ◌&&◌, Option, some, List, [], ◌∷◌, ◌++◌, arith, ltb, if◌then◌else◌, length, ◌==◌,
  Bool-cases,
}
use csnip.Machine.Run.{
  Run, ok, fault, Ends, Ends-bind, Ends-if, Ends-weaken, Returns, Returns-bind, Returns-if,
}
use csnip.Machine.Stdio.{InFile, fgetc, ungetc}
use csnip.Machine.Stdio.Onwards.{From, fgetc-cases}
use csnip.Wave.Markers.{
  as_char, is_digit, skip_newline, read_line, value_from, add_location, read_markers,
}

-- The same file behind a line: at its end, or further on.
record Goes (f g : InFile) : Type 0 where
  same_bytes : g.bytes ≡ f.bytes
  same_limit : g.limit ≡ f.limit
  moved : (g.at_end ≡ true) ⊎ ((f.pos < length f.bytes) × (f.pos < g.pos))

skip_body : Option ℕ × InFile → InFile
skip_body p = if not (as_char p.0 == 255) && not (as_char p.0 == 10) then ungetc p.1 else p.1

skip_newline-From : (f : InFile) → From f f.pos (skip_newline f)
unfolding skip_newline skip_body ungetc
skip_newline-From f = elim (fgetc-cases f) [
  | inl (c, g, e, r) ↦ subst (From f f.pos) (sym (ap skip_body e)) (
      subst (λ h. From f f.pos (skip_body (some c, h))) (sym r.moved)
        (either (not (c == 255) && not (c == 10))))
  | inr (inl (e, l)) ↦
      subst (From f f.pos) (sym (ap skip_body e))
        (record { same_bytes = refl; same_limit = refl; onwards = omega arith })
  | inr (inr (e, l, m)) ↦
      subst (From f f.pos) (sym (ap skip_body e))
        (record { same_bytes = refl; same_limit = refl; onwards = omega arith })
]
  where
    read : InFile
    read = record f { pos = suc f.pos }

    either : (b : Bool) → From f f.pos (if b then ungetc read else read)
    either true = record { same_bytes = refl; same_limit = refl; onwards = omega arith }
    either false = record { same_bytes = refl; same_limit = refl; onwards = omega arith }

line_body : ℕ → List ℕ → Option ℕ × InFile → Run (List ℕ × InFile)
line_body fuel digits p =
    let c = as_char p.0 in
    let room = is_digit c && ltb (length digits) 10 in
    let again = read_line fuel p.1 (if room then digits ++ (c ∷ []) else digits) in
    if p.1.at_end
    then ok (digits, p.1)
    else if c == 13
    then ok (digits, skip_newline p.1)
    else if c == 10
    then ok (digits, p.1)
    else again

read_line-body :
    (fuel : ℕ) (f : InFile) (digits : List ℕ)
    → read_line (suc fuel) f digits ≡ line_body fuel digits (fgetc f)
unfolding read_line line_body
read_line-body fuel f digits = refl

read_line-Ends :
    (fuel : ℕ) (f : InFile) (digits : List ℕ)
    → length f.bytes ≤ f.limit
    → length f.bytes - f.pos < fuel
    → Ends (λ (r : List ℕ × InFile). Goes f r.1) (read_line fuel f digits)
unfolding line_body
read_line-Ends zero f digits sound h = absurd (omega arith)
read_line-Ends (suc fuel) f digits sound h =
    subst (Ends (λ (r : List ℕ × InFile). Goes f r.1)) (sym (read_line-body fuel f digits))
      (elim (fgetc-cases f) [
        | inl (c, g, e, r) ↦
            subst (Ends (λ (r : List ℕ × InFile). Goes f r.1))
              (sym (ap (line_body fuel digits) (e ∙ ap (λ q. (some c, q)) r.moved)))
              (read c r.inside (λ d.
                read_line-Ends fuel (record f { pos = suc f.pos }) d sound
                  (omega (arith, r.inside))))
        | inr (inl (e, l)) ↦
            subst (Ends (λ (r : List ℕ × InFile). Goes f r.1)) (sym (ap (line_body fuel digits) e))
              (record { same_bytes = refl; same_limit = refl; moved = inl refl })
        | inr (inr (e, l, m)) ↦ absurd (omega arith)
      ])
  where
    on : InFile
    on = record f { pos = suc f.pos }

    read :
        (c : ℕ)
        → f.pos < length f.bytes
        → ((d : List ℕ) → Ends (λ (r : List ℕ × InFile). Goes on r.1) (read_line fuel on d))
        → Ends (λ (r : List ℕ × InFile). Goes f r.1) (line_body fuel digits (some c, on))
    read c inside ih = Ends-if P f.at_end (ok (digits, on)) _ one_on (
        Ends-if P (c == 13) (ok (digits, skip_newline on)) _ (behind (skip_newline-From on)) (
          Ends-if P (c == 10) (ok (digits, on)) _ one_on (
            Ends-weaken (λ (r : List ℕ × InFile). Goes on r.1) P _ (ih _)
              (λ r g. record {
                same_bytes = g.same_bytes;
                same_limit = g.same_limit;
                moved = elim g.moved [ inl e ↦ inl e | inr (i, m) ↦ inr (inside, omega arith) ];
              }))))
      where
        P : List ℕ × InFile → Type 0
        P r = Goes f r.1

        one_on : Goes f on
        one_on = record { same_bytes = refl; same_limit = refl; moved = inr (inside, omega arith) }

        behind : {g : InFile} → From on (suc f.pos) g → Goes f g
        behind b = record {
          same_bytes = b.same_bytes;
          same_limit = b.same_limit;
          moved = inr (inside, omega (arith, b.onwards));
        }

add_location-Returns : (locations digits : List ℕ) → Returns (add_location locations digits)
unfolding add_location
add_location-Returns locations digits = Returns-if (length digits == 0) (ok locations) _ tt (
    Returns-if (ltb (value_from 0 digits) (2 ^ 32 - 1)) _ (ok locations)
      (Returns-if (ltb (length locations) 1000) _ fault tt tt) tt)

-- The rounds that are left: none at the end of the file.
abbrev pub left : InFile → ℕ
left f = if f.at_end then 0 else suc (length f.bytes - f.pos)

left-Goes : (f g : InFile) → f.at_end ≡ false → Goes f g → left g < left f
left-Goes f g e goes = elim goes.moved [
  | inl m ↦ rw (e, m) (omega arith)
  | inr (i, m) ↦ rw e (shorter g.at_end (omega (arith, ap length goes.same_bytes)))
]
  where
    shorter :
        (b : Bool)
        → suc (length g.bytes - g.pos) < suc (length f.bytes - f.pos)
        → (if b then 0 else suc (length g.bytes - g.pos)) < suc (length f.bytes - f.pos)
    shorter true h = omega arith
    shorter false h = h

-- The loops over a marker file that its device gives without an error end.
pub read_markers-Returns :
    (fuel : ℕ) (f : InFile) (locations : List ℕ)
    → length f.bytes ≤ f.limit
    → left f < fuel
    → Returns (read_markers fuel f locations)
unfolding read_markers
read_markers-Returns zero f locations sound h = absurd (omega arith)
read_markers-Returns (suc fuel) f locations sound h = elim (Bool-cases f.at_end) [
  | inl e ↦ simp e tt
  | inr e ↦ simp e (
      Ends-bind (λ (r : List ℕ × InFile). Goes f r.1) (λ a. Unit {0})
        (read_line (suc (suc (length f.bytes))) f []) _
        (read_line-Ends (suc (suc (length f.bytes))) f [] sound (omega arith))
        (λ (digits, g) goes.
          Returns-bind (add_location locations digits) (λ more. read_markers fuel g more)
            (add_location-Returns locations digits)
            (λ more.
              read_markers-Returns fuel g more
                (omega (arith, ap length goes.same_bytes, goes.same_limit))
                (omega (arith, left-Goes f g e goes)))))
]
