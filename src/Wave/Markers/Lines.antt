-- ===== src/Wave/Markers/Lines.antt =====
-- The marker file as lines of digits, each with one of the three line endings.
use csnip.Base.{
  ℕ, zero, suc, ◌+◌, ◌-◌, ◌<◌, ◌≤◌, ◌≡◌, refl, sym, ap, subst, ◌∙◌, true, false, ◌&&◌, some, List,
  [], ◌∷◌, ◌++◌, ◌==◌, ltb, length, arith, append_assoc, append-nil, length-append,
}
use csnip.Machine.Run.{Run, ok}
use csnip.Machine.Stdio.{InFile, fgetc, ungetc}
use csnip.Machine.Stdio.Place.{At, fgetc-cons, fgetc-nil}
use csnip.Wave.Markers.{is_digit, skip_newline, read_line}

pub data Ending : Type 0 where
  lf crlf cr : Ending

abbrev pub ending_bytes : Ending → List ℕ
ending_bytes lf = b'\n' ∷ []
ending_bytes crlf = b'\r' ∷ b'\n' ∷ []
ending_bytes cr = b'\r' ∷ []

abbrev pub AllDigits : List ℕ → Type 0
AllDigits [] = 0 ≤ 0
AllDigits (c ∷ cs) = (b'0' ≤ c) × (c ≤ b'9') × AllDigits cs

pub record Line : Type 0 where
  pub digits : List ℕ
  pub ending : Ending

-- A line of 1 to 10 digits.
pub record IsLine (l : Line) : Type 0 where
  pub all_digits : AllDigits l.digits
  pub some_digits : 0 < length l.digits
  pub ten_digits : length l.digits ≤ 10

abbrev pub line_bytes : Line → List ℕ
line_bytes l = l.digits ++ ending_bytes l.ending

abbrev pub text : List Line → List ℕ
text [] = []
text (l ∷ ls) = l.digits ++ (ending_bytes l.ending ++ text ls)

abbrev pub AllLines : List Line → Type 0
AllLines [] = 0 ≤ 0
AllLines (l ∷ ls) = IsLine l × AllLines ls

-- What the first byte behind a line can be: another digit, or the end of the file.
abbrev pub Continues : List ℕ → Type 0
Continues [] = 0 ≤ 0
Continues (c ∷ cs) = (b'0' ≤ c) × (c ≤ b'9')

pub text-Continues : (ls : List Line) → AllLines ls → Continues (text ls)
text-Continues [] a = omega arith
text-Continues (l ∷ ls) (a, b) = first l.digits a.all_digits a.some_digits
  where
    first :
        (ds : List ℕ)
        → AllDigits ds
        → 0 < length ds
        → Continues (ds ++ (ending_bytes l.ending ++ text ls))
    first [] d p = absurd (omega arith)
    first (c ∷ cs) (lo, hi, d) p = (lo, hi)

-- Behind a line: `rest` lies before the reader, and feof says so only if it is empty.
pub record Behind (bytes : List ℕ) (rest : List ℕ) (f : InFile) : Type 0 where
  pub at : At f rest
  pub quiet : 0 < length rest → f.at_end ≡ false
  pub same : f.bytes ≡ bytes

pub record LineRead (f : InFile) (digits rest : List ℕ) (out : Run (List ℕ × InFile)) : Type 0 where
  pub after : InFile
  pub returns : out ≡ ok (digits, after)
  pub behind : Behind f.bytes rest after

-- The file with feof false.
abbrev pub awake : InFile → InFile
awake f = record f { at_end = false }

-- One digit more of a line.
read_line-digit :
    (fuel : ℕ) (f : InFile) (acc rest : List ℕ) (c : ℕ)
    → At (awake f) (c ∷ rest)
    → b'0' ≤ c
    → c ≤ b'9'
    → length acc < 10
    → read_line (suc fuel) (awake f) acc
      ≡ read_line fuel (awake (record f { pos = suc f.pos })) (acc ++ (c ∷ []))
unfolding read_line
read_line-digit fuel f acc rest c a lo hi short =
    let got = (fgetc-cons (awake f) c rest a).0 in
    let cr_test : (c == b'\r') ≡ false = ground arith in
    let lf_test : (c == b'\n') ≡ false = ground arith in
    let keep : is_digit c && ltb (length acc) 10 ≡ true = ground arith in
    rw (read_line, got, cr_test, lf_test, keep) refl

skip_newline-lf :
    (f : InFile) (rest : List ℕ)
    → At f (b'\n' ∷ rest)
    → skip_newline f ≡ record f { pos = suc f.pos }
unfolding skip_newline
skip_newline-lf f rest a = let got = (fgetc-cons f b'\n' rest a).0 in rw got refl

skip_newline-digit :
    (f : InFile) (c : ℕ) (rest : List ℕ)
    → At f (c ∷ rest)
    → b'0' ≤ c
    → c ≤ b'9'
    → skip_newline f ≡ record f { at_end = false }
unfolding skip_newline ungetc
skip_newline-digit f c rest a lo hi =
    let got = (fgetc-cons f c rest a).0 in
    rw got (
      ground
        (arith, ap (λ p. record f { pos = p; at_end = false }) {x = suc f.pos - 1} {y = f.pos}))

skip_newline-nil : (f : InFile) → At f [] → skip_newline f ≡ record f { at_end = true }
unfolding skip_newline
skip_newline-nil f a = let got = fgetc-nil f a in rw got refl

-- A line ending.
read_line-ending :
    (e : Ending) (fuel : ℕ) (f : InFile) (acc rest : List ℕ)
    → At (awake f) (ending_bytes e ++ rest)
    → Continues rest
    → LineRead (awake f) acc rest (read_line (suc fuel) (awake f) acc)
unfolding read_line
read_line-ending lf fuel f acc rest a c = at_lf
  where
    got :
        (fgetc (awake f) ≡ (some b'\n', awake (record f { pos = suc f.pos })))
        × At (awake (record f { pos = suc f.pos })) rest
    got = fgetc-cons (awake f) b'\n' rest a

    at_lf : LineRead (awake f) acc rest (read_line (suc fuel) (awake f) acc)
    at_lf = rw got.0 (record {
      after = awake (record f { pos = suc f.pos });
      returns = refl;
      behind = record { at = got.1; quiet = λ h. refl; same = refl };
    })
read_line-ending crlf fuel f acc rest a c =
    let (got, on) = fgetc-cons (awake f) b'\r' (b'\n' ∷ rest) a in
    let (got', on') = fgetc-cons (awake (record f { pos = suc f.pos })) b'\n' rest on in
    rw (got, skip_newline-lf (awake (record f { pos = suc f.pos })) rest on)
      (record {
        after = awake (record f { pos = suc (suc f.pos) });
        returns = refl;
        behind = record { at = on'; quiet = λ h. refl; same = refl };
      })
read_line-ending cr fuel f acc [] a c =
    let (got, on) = fgetc-cons (awake f) b'\r' [] a in
    rw (got, skip_newline-nil (awake (record f { pos = suc f.pos })) on)
      (record {
        after = record f { pos = suc f.pos; at_end = true };
        returns = refl;
        behind = record {
          at = record { there = on.there; sound = on.sound };
          quiet = λ h. absurd (omega arith);
          same = refl;
        };
      })
read_line-ending cr fuel f acc (d ∷ rest) a (lo, hi) =
    let (got, on) = fgetc-cons (awake f) b'\r' (d ∷ rest) a in
    rw (got, skip_newline-digit (awake (record f { pos = suc f.pos })) d rest on lo hi)
      (record {
        after = record f { pos = suc f.pos; at_end = false };
        returns = refl;
        behind = record {
          at = record { there = on.there; sound = on.sound };
          quiet = λ h. refl;
          same = refl;
        };
      })

-- The digits of a line and its ending, behind the digits `acc`.
pub read_line-digits :
    (ds : List ℕ) (e : Ending) (fuel : ℕ) (f : InFile) (acc rest : List ℕ)
    → At (awake f) (ds ++ (ending_bytes e ++ rest))
    → Continues rest
    → AllDigits ds
    → length acc + length ds ≤ 10
    → length ds < fuel
    → LineRead (awake f) (acc ++ ds) rest (read_line fuel (awake f) acc)
read_line-digits ds e zero f acc rest a c all ten enough = absurd (omega arith)
read_line-digits [] e (suc fuel) f acc rest a c all ten enough =
    subst (λ xs. LineRead (awake f) xs rest (read_line (suc fuel) (awake f) acc))
      (sym (append-nil acc)) (read_line-ending e fuel f acc rest a c)
read_line-digits (d ∷ ds) e (suc fuel) f acc rest a c (lo, hi, all) ten enough =
    let on = (fgetc-cons (awake f) d (ds ++ (ending_bytes e ++ rest)) a).1 in
    let again =
      read_line-digits ds e fuel (record f { pos = suc f.pos }) (acc ++ (d ∷ [])) rest on c all
        (omega (arith, length-append acc (d ∷ []))) (omega arith) in
    rw (read_line-digit fuel f acc (ds ++ (ending_bytes e ++ rest)) d a lo hi (omega arith))
      (record {
        after = again.after;
        returns = again.returns ∙ ap (λ xs. ok (xs, again.after)) (append_assoc acc (d ∷ []) ds);
        behind = again.behind;
      })

-- The end of the file where a line could begin.
pub read_line-nil :
    (fuel : ℕ) (f : InFile) (acc : List ℕ)
    → At (awake f) []
    → read_line (suc fuel) (awake f) acc ≡ ok (acc, record f { at_end = true })
unfolding read_line
read_line-nil fuel f acc a = rw (read_line, fgetc-nil (awake f) a) refl
