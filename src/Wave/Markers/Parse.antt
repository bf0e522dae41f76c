-- ===== src/Wave/Markers/Parse.antt =====
-- The loop over the lines of the marker file: the locations of a file of lines, and the files that it
-- does not come to the end of.
use csnip.Base.{
  ◌*◌, ℕ, zero, suc, ◌+◌, ◌-◌, ◌^◌, ◌<◌, ◌≤◌, ◌≡◌, refl, sym, ap, subst, ◌∙◌, Bool, true, false,
  none, List, [], ◌∷◌, ◌++◌, inl, inr, ltb, leb, if◌then◌else◌, length, arith, append_assoc,
  append-nil, length-append, lt→ltb, le→ltb, le→leb, lt→leb, ltb→lt, ltb→le, ne→==, map, Bool-cases,
  drop,
}
use native.Mathlib.Nat.{add-mul, mul_assoc, pow-succ'}
use csnip.Machine.Run.{Run, ok, failed, fault, spinning, ◌>>=◌}
use csnip.Machine.Stdio.{InFile, opened, fgetc}
use csnip.Machine.Stdio.Place.{At, At-length}
use csnip.Wave.Markers.{read_line, value_from, add_location, read_markers}
use csnip.Wave.Markers.Lines.{
  Line, AllLines, text, text-Continues, Behind, awake, read_line-digits, read_line-nil,
  ending_bytes,
}

-- The lines' locations, each added as the loop does.
abbrev add_all : List Line → List ℕ → Run (List ℕ)
add_all [] locations = ok locations
add_all (l ∷ ls) locations = add_location locations l.digits >>= λ more. add_all ls more

Behind-awake :
    (bytes rest : List ℕ) (f : InFile) → Behind bytes rest f → 0 < length rest → awake f ≡ f
Behind-awake bytes rest f b h = ap (λ e. record f { at_end = e }) (sym (b.quiet h))

at_the_end :
    (b : Bool) (fuel : ℕ) (f : InFile) (locations : List ℕ)
    → At (record f { at_end = b }) []
    → read_markers (suc (suc fuel)) (record f { at_end = b }) locations ≡ ok locations
unfolding read_markers add_location
at_the_end true fuel f locations a = refl
at_the_end false fuel f locations a =
    rw (read_markers, read_line-nil (suc (length f.bytes)) f [] a) refl

-- A line and the lines behind it.
one_line :
    (fuel : ℕ) (f : InFile) (digits rest locations : List ℕ) (after : InFile)
    → read_line (suc (suc (length f.bytes))) (awake f) [] ≡ ok (digits, after)
    → read_markers (suc fuel) (awake f) locations
      ≡ (add_location locations digits >>= λ more. read_markers fuel after more)
unfolding read_markers
one_line fuel f digits rest locations after e = rw (read_markers, e) refl

read_markers-add_all :
    (ls : List Line) (fuel : ℕ) (f : InFile) (bytes locations : List ℕ)
    → Behind bytes (text ls) f
    → AllLines ls
    → length ls + 1 < fuel
    → read_markers fuel f locations ≡ add_all ls locations
read_markers-add_all ls zero f bytes locations b all h = absurd (omega arith)
read_markers-add_all ls (suc zero) f bytes locations b all h = absurd (omega arith)
read_markers-add_all [] (suc (suc fuel)) f bytes locations b all h =
    at_the_end f.at_end fuel f locations b.at
read_markers-add_all (l ∷ ls) (suc (suc fuel)) f bytes locations b (one, all) h =
    let some_bytes : 0 < length (text (l ∷ ls)) =
      omega (arith, one.some_digits, length-append l.digits (ending_bytes l.ending ++ text ls)) in
    let e : awake f ≡ f = Behind-awake bytes (text (l ∷ ls)) f b some_bytes in
    let short : length l.digits < suc (suc (length f.bytes)) = omega (
      arith,
      At-length f (text (l ∷ ls)) b.at,
      length-append l.digits (ending_bytes l.ending ++ text ls),
    ) in
    let r =
      read_line-digits l.digits l.ending (suc (suc (length f.bytes))) f [] (text ls)
        (subst (λ g. At g (text (l ∷ ls))) (sym e) b.at) (text-Continues ls all) one.all_digits
        (omega (arith, one.ten_digits)) short in
    ap (λ g. read_markers (suc (suc fuel)) g locations) (sym e)
    ∙ one_line (suc fuel) f l.digits (text ls) locations r.after r.returns
    ∙ after_line (add_location locations l.digits)
        (λ more. read_markers-add_all ls (suc fuel) r.after f.bytes more r.behind all (omega arith))
  where
    after_line :
        {g h : List ℕ → Run (List ℕ)} (m : Run (List ℕ))
        → ((more : List ℕ) → g more ≡ h more)
        → (m >>= λ more. g more) ≡ (m >>= λ more. h more)
    after_line (ok more) e = e more
    after_line failed e = refl
    after_line fault e = refl
    after_line spinning e = refl

-- The number that digits spell, by the places that they stand at.
abbrev pub decimal : List ℕ → ℕ
decimal [] = 0
decimal (c ∷ cs) = (c - b'0') * 10 ^ length cs + decimal cs

value_from-decimal : (n : ℕ) (cs : List ℕ) → value_from n cs ≡ n * 10 ^ length cs + decimal cs
value_from-decimal n [] = omega arith
value_from-decimal n (c ∷ cs) =
    value_from-decimal (n * 10 + (c - b'0')) cs
    ∙ omega (
      arith,
      add-mul (n * 10) (c - b'0') (10 ^ length cs),
      mul_assoc n 10 (10 ^ length cs),
      pow-succ' 10 (length cs),
      ap (λ k. n * k) (pow-succ' 10 (length cs)),
    )

-- The number that a line spells.
abbrev pub location : Line → ℕ
location l = decimal l.digits

value_from-location : (l : Line) → value_from 0 l.digits ≡ location l
value_from-location l = value_from-decimal 0 l.digits ∙ omega arith

-- Every line spells a number below 2^32 - 1.
abbrev pub AllFit : List Line → Type 0
AllFit [] = 0 ≤ 0
AllFit (l ∷ ls) = (location l < 2 ^ 32 - 1) × AllFit ls

add_all_lem :
    (ls : List Line) (locations : List ℕ)
    → AllLines ls
    → AllFit ls
    → length locations ≤ 1000
    → add_all ls locations ≡ (
        if leb (length locations + length ls) 1000
        then ok (locations ++ map location ls)
        else fault)
unfolding add_location
add_all_lem [] locations lines fit h =
    rw (le→leb (length locations + 0) 1000 (omega arith), append-nil locations) refl
add_all_lem (l ∷ ls) locations (one, lines) (small, fit) h =
    rw
      (
        ne→== (length l.digits) 0 (λ e. absurd (omega (arith, e, one.some_digits))),
        value_from-location l,
        lt→ltb (location l) (2 ^ 32 - 1) small,
      )
      (elim (Bool-cases (ltb (length locations) 1000)) [
        | inl e ↦
            let more : List ℕ = locations ++ (location l ∷ []) in
            let long : length more ≡ length locations + 1 =
              length-append locations (location l ∷ []) in
            rw e (
              add_all_lem ls more lines fit (omega (arith, long, ltb→lt (length locations) 1000 e))
              ∙ ap (λ n. if leb n 1000 then ok (more ++ map location ls) else fault)
                  {x = length more + length ls} {y = length locations + suc (length ls)}
                  (omega (arith, long))
              ∙ ap (λ xs. if leb (length locations + suc (length ls)) 1000 then ok xs else fault)
                  (append_assoc locations (location l ∷ []) (map location ls)))
        | inr e ↦
            rw
              (
                e,
                lt→leb (length locations + suc (length ls)) 1000
                    (omega (arith, ltb→le (length locations) 1000 e)),
              )
              refl
      ])

length-text : (ls : List Line) → AllLines ls → length ls ≤ length (text ls)
length-text [] all = omega arith
length-text (l ∷ ls) (one, all) = omega (
  arith,
  length-append l.digits (ending_bytes l.ending ++ text ls),
  length-append (ending_bytes l.ending) (text ls),
  length-text ls all,
  one.some_digits,
)

-- A marker file of lines of 1 to 10 digits, ended in any of the three ways, that spell numbers below
-- 2^32 - 1 gives these numbers in order if there are at most 1000 lines; with more the loop stores
-- behind cueLocations.
pub read_markers-text :
    (ls : List Line) (limit : ℕ)
    → AllLines ls
    → AllFit ls
    → length (text ls) ≤ limit
    → read_markers (suc (suc (length (text ls)))) (opened (text ls) limit) []
      ≡ (if leb (length ls) 1000 then ok (map location ls) else fault)
read_markers-text ls limit lines fit sound =
    read_markers-add_all ls (suc (suc (length (text ls)))) (opened (text ls) limit) (text ls) []
      (record { at = record { there = refl; sound = sound }; quiet = λ h. refl; same = refl }) lines
      (omega (arith, length-text ls lines))
    ∙ add_all_lem ls [] lines fit (omega arith)
    ∙ ap (λ n. if leb n 1000 then ok (map location ls) else fault) {x = 0 + length ls}
        {y = length ls} (omega arith)

fgetc_broken :
    (f : InFile) (e : Bool) (c : ℕ) (rest : List ℕ)
    → drop f.pos f.bytes ≡ c ∷ rest
    → f.limit ≤ f.pos
    → fgetc (record f { at_end = false; error = e })
      ≡ (none, record f { at_end = false; error = true })
unfolding fgetc
fgetc_broken f e c rest there broken = rw (fgetc, there, le→ltb f.pos f.limit broken) refl

-- Where the device gives an error for the next byte of the marker file, the loop over the line goes on
-- for ever, whatever the fuel: fgetc returns EOF, but feof stays false.
pub read_line_never_ends :
    (fuel : ℕ) (f : InFile) (e : Bool) (digits rest : List ℕ) (c : ℕ)
    → drop f.pos f.bytes ≡ c ∷ rest
    → f.limit ≤ f.pos
    → read_line fuel (record f { at_end = false; error = e }) digits ≡ spinning
unfolding read_line
read_line_never_ends zero f e digits rest c there broken = refl
read_line_never_ends (suc fuel) f e digits rest c there broken =
    rw (read_line, fgetc_broken f e c rest there broken)
      (read_line_never_ends fuel f true digits rest c there broken)
