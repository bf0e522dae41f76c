-- ===== src/Hexdump/Rows.antt =====
-- The dump as rows of sixteen bytes.
use csnip.Base.{
  take-all, ℕ, zero, suc, ◌+◌, ◌-◌, ◌*◌, ◌%◌, ◌^◌, ◌<◌, ◌≤◌, ◌≡◌, ◌≢◌, refl, sym, ap, ap₂, subst,
  ◌∙◌, Option, none, some, ◌&&◌, leb, List, [], ◌∷◌, ◌++◌, map, arith, if◌then◌else◌, ◌==◌, length,
  take, drop, take-drop, append_assoc, append-nil, length-append, length-take, length-drop, le→leb,
  ne→==, eq→==,
}
use csnip.Machine.Cstring.{c_string}
use csnip.Hexdump.{
  Printf, two_spaces, printable, keep, line_start, dump_bytes, dump_all, described, hexdump,
}
use csnip.Machine.Int.{pos}
use csnip.Hexdump.Buff.{
  Holds, keep-Holds, keep_first, length-Holds, c_string-Holds, blanks, pad_from-blanks,
}

-- The bytes of ASCII that print stand for themselves, the others for a dot.
abbrev pub as_text : ℕ → ℕ
as_text c = if leb b' ' c && leb c b'~' then c else b'.'

printable-as_text : (row : List ℕ) → map printable row ≡ map as_text row
unfolding printable
printable-as_text [] = refl
printable-as_text (c ∷ row) = ap₂ ◌∷◌ byte (printable-as_text row)
  where
    byte : printable c ≡ as_text c
    byte = ground arith

-- The description on a line of its own, if there is one.
abbrev pub heading : Option (List ℕ) → List ℕ
heading none = []
heading (some desc) = desc ++ (10 ∷ [])

described-heading : (desc : Option (List ℕ)) → described desc ≡ heading desc
described-heading none = refl
described-heading (some desc) = refl

-- A text in front of another.
abbrev prepend : List ℕ → List ℕ × List ℕ → List ℕ × List ℕ
prepend t d = (t ++ d.0, d.1)

prepend-prepend :
    (s t : List ℕ) (d : List ℕ × List ℕ) → prepend s (prepend t d) ≡ prepend (s ++ t) d
prepend-prepend s t (u, v) = ap {B = List ℕ × List ℕ} (λ x. (x, v)) (sym (append_assoc s t u))

module _ (printf : Printf) where
  abbrev pub hexes : List ℕ → List ℕ
  hexes [] = []
  hexes (c ∷ cs) = (32 ∷ printf.hex 2 c) ++ hexes cs

  -- What is printed from byte `i` on, where the bytes of the row are printed before the rest.
  record Prints (i : ℕ) (row ys zs buff : List ℕ) : Type 0 where
    buff' : List ℕ
    held : Holds buff' row
    text :
        dump_bytes printf i (ys ++ zs) buff
        ≡ prepend (hexes ys) (dump_bytes printf (i + length ys) zs buff')

  -- A byte in front of what is printed, not the first of its row.
  glue :
      (y : ℕ) (ys : List ℕ) (i : ℕ) (buff : List ℕ)
      → i % 16 ≢ 0
      → (printed rest : List ℕ × List ℕ) → printed ≡ prepend (hexes ys) rest
      → prepend (line_start printf i buff) (prepend (32 ∷ printf.hex 2 y) printed)
        ≡ prepend (hexes (y ∷ ys)) rest
  unfolding line_start
  glue y ys i buff middle printed rest e =
      rw (ne→== (i % 16) 0 middle) (
        ap (prepend (32 ∷ printf.hex 2 y)) e
        ∙ prepend-prepend (32 ∷ printf.hex 2 y) (hexes ys) rest)

  inside_row :
      (ys zs done buff : List ℕ) (base i : ℕ)
      → Holds buff done
      → base % 16 ≡ 0
      → i ≡ base + length done
      → 0 < length done
      → length done + length ys ≤ 16
      → Prints i (done ++ ys) ys zs buff
  unfolding dump_bytes line_start
  inside_row [] zs done buff base i h b e begun fits = record {
    buff' = buff;
    held = subst (Holds buff) (sym (append-nil done)) h;
    text = ap (λ k. dump_bytes printf k zs buff) {x = i} {y = i + 0} (omega arith);
  }
  inside_row (y ∷ ys) zs done buff base i h b e begun fits =
      let next =
        inside_row ys zs (done ++ (y ∷ [])) (keep buff i y) base (i + 1)
          (keep-Holds buff done i y h (omega arith) (omega arith)) b
          (omega (arith, length-append done (y ∷ []))) (omega (arith, length-append done (y ∷ [])))
          (omega (arith, length-append done (y ∷ []))) in
      record {
        buff' = next.buff';
        held = subst (Holds next.buff') (append_assoc done (y ∷ []) ys) next.held;
        text = glue y ys i buff (omega (arith, e, b, begun, fits)) _ _ (
            next.text
            ∙ ap (λ k. prepend (hexes ys) (dump_bytes printf k zs next.buff'))
                {x = i + 1 + length ys} {y = i + length (y ∷ ys)} (omega arith));
      }

  -- The text of a row, its offset in front.
  abbrev pub line : ℕ → List ℕ → List ℕ
  line offset row = ((32 ∷ 32 ∷ []) ++ (printf.hex 4 offset ++ (32 ∷ []))) ++ hexes row

  abbrev pub shown : List ℕ → List ℕ
  shown row = 32 ∷ 32 ∷ (map as_text row ++ (10 ∷ []))

  -- The dump of `xs` from an offset on: `n` rows of sixteen bytes, and the last row, padded.
  abbrev pub rows : ℕ → ℕ → List ℕ → List ℕ
  rows zero offset xs = line offset xs ++ (blanks (16 - length xs) ++ shown xs)
  rows (suc n) offset xs =
      line offset (take 16 xs) ++ (shown (take 16 xs) ++ rows n (offset + 16) (drop 16 xs))

  -- The text from byte `i` on, with `k` blanks in the last row.
  abbrev ended : ℕ → List ℕ × List ℕ → List ℕ
  ended k d = d.0 ++ (blanks k ++ (two_spaces ++ (c_string d.1 ++ (10 ∷ []))))

  abbrev before : ℕ → List ℕ → List ℕ
  before offset buff = if offset == 0 then [] else two_spaces ++ (c_string buff ++ (10 ∷ []))

  ended-prepend :
      (k : ℕ) (t : List ℕ) (d : List ℕ × List ℕ) → ended k (prepend t d) ≡ t ++ ended k d
  ended-prepend k t (u, v) =
      append_assoc t u (blanks k ++ (two_spaces ++ (c_string v ++ (10 ∷ []))))

  -- A row and what follows it.
  record PrintsRow (offset : ℕ) (row zs bytes buff : List ℕ) : Type 0 where
    buff' : List ℕ
    held : Holds buff' row
    text :
        dump_bytes printf offset bytes buff
        ≡ prepend
            (before offset buff ++ line offset row)
            (dump_bytes printf (offset + length row) zs buff')

  row_printed :
      (c : ℕ) (ys zs buff : List ℕ) (offset : ℕ)
      → length buff ≡ 17
      → offset % 16 ≡ 0
      → 1 + length ys ≤ 16
      → PrintsRow offset (c ∷ ys) zs (c ∷ (ys ++ zs)) buff
  unfolding dump_bytes line_start
  row_printed c ys zs buff offset h e fits = first (
      inside_row ys zs (c ∷ []) (keep buff offset c) offset (offset + 1)
        (keep_first buff offset c h e) e refl (omega arith) fits)
    where
      first :
          Prints (offset + 1) ((c ∷ []) ++ ys) ys zs (keep buff offset c)
          → PrintsRow offset (c ∷ ys) zs (c ∷ (ys ++ zs)) buff
      first r = record {
        buff' = r.buff';
        held = r.held;
        text = rw (eq→== (offset % 16) 0 e) (
            ap (prepend (before offset buff ++ (two_spaces ++ (printf.hex 4 offset ++ (32 ∷ [])))))
              (ap (prepend (32 ∷ printf.hex 2 c)) (
                  r.text
                  ∙ ap (λ k. prepend (hexes ys) (dump_bytes printf k zs r.buff'))
                      {x = offset + 1 + length ys} {y = offset + suc (length ys)} (omega arith))
                ∙ prepend-prepend (32 ∷ printf.hex 2 c) (hexes ys) _)
            ∙ prepend-prepend _ (hexes (c ∷ ys)) _
            ∙ ap (λ t. prepend t (dump_bytes printf (offset + suc (length ys)) zs r.buff'))
                (append_assoc (before offset buff)
                  (two_spaces ++ (printf.hex 4 offset ++ (32 ∷ []))) (hexes (c ∷ ys))));
      }

  last_row :
      (c : ℕ) (cs buff : List ℕ) (offset k : ℕ)
      → k ≡ 16 - suc (length cs)
      → PrintsRow offset (c ∷ cs) [] (c ∷ cs) buff
      → ended k (dump_bytes printf offset (c ∷ cs) buff)
        ≡ before offset buff ++ rows 0 offset (c ∷ cs)
  unfolding dump_bytes
  last_row c cs buff offset k e p =
      ap (ended k) p.text
      ∙ ended-prepend k (before offset buff ++ line offset (c ∷ cs)) ([], p.buff')
      ∙ append_assoc (before offset buff) (line offset (c ∷ cs)) (ended k ([], p.buff'))
      ∙ ap₂
          (λ j t.
            before offset buff
            ++ (line offset (c ∷ cs) ++ (blanks j ++ (two_spaces ++ (t ++ (10 ∷ []))))))
          e (c_string-Holds p.buff' (c ∷ cs) p.held ∙ printable-as_text (c ∷ cs))

  full_row :
      (n c : ℕ) (ys zs bytes buff : List ℕ) (offset k : ℕ)
      → length ys ≡ 15
      → ((b : List ℕ)
          → length b ≡ 17
          → ended k (dump_bytes printf (offset + 16) zs b)
            ≡ before (offset + 16) b ++ rows n (offset + 16) zs)
      → PrintsRow offset (c ∷ ys) zs bytes buff
      → ended k (dump_bytes printf offset bytes buff)
        ≡ before offset buff
          ++ (line offset (c ∷ ys) ++ (shown (c ∷ ys) ++ rows n (offset + 16) zs))
  full_row n c ys zs bytes buff offset k e ih p =
      ap (ended k) p.text
      ∙ ended-prepend k (before offset buff ++ line offset (c ∷ ys))
          (dump_bytes printf (offset + suc (length ys)) zs p.buff')
      ∙ append_assoc (before offset buff) (line offset (c ∷ ys)) _
      ∙ ap (λ t. before offset buff ++ (line offset (c ∷ ys) ++ t))
          (ap (λ j. ended k (dump_bytes printf (offset + j) zs p.buff')) {x = suc (length ys)}
              {y = 16} (omega arith)
            ∙ ih p.buff' (length-Holds p.buff' (c ∷ ys) p.held)
            ∙ ap (λ t. t ++ rows n (offset + 16) zs) shown_before)
    where
      shown_before : before (offset + 16) p.buff' ≡ shown (c ∷ ys)
      shown_before =
          rw (ne→== (offset + 16) 0 (omega arith), c_string-Holds p.buff' (c ∷ ys) p.held)
            (ap (λ t. 32 ∷ 32 ∷ (t ++ (10 ∷ []))) (printable-as_text (c ∷ ys)))

  rows_printed :
      (n offset : ℕ) (xs buff : List ℕ)
      → length buff ≡ 17
      → offset % 16 ≡ 0
      → 16 * n < length xs
      → length xs ≤ 16 * n + 16
      → ended (16 * n + 16 - length xs) (dump_bytes printf offset xs buff)
        ≡ before offset buff ++ rows n offset xs
  rows_printed n offset [] buff h e more most = absurd (omega arith)
  rows_printed zero offset (c ∷ cs) buff h e more most =
      last_row c cs buff offset (16 * 0 + 16 - suc (length cs)) (omega arith) (
        subst (λ t. PrintsRow offset (c ∷ cs) [] (c ∷ t) buff) (append-nil cs)
          (row_printed c cs [] buff offset h e (omega arith)))
  rows_printed (suc n) offset (c ∷ cs) buff h e more most =
      full_row n c (take 15 cs) (drop 15 cs) (c ∷ cs) buff offset
        (16 * suc n + 16 - suc (length cs)) (omega (arith, length-take 15 cs))
        (λ b hb.
          ap (λ k. ended k (dump_bytes printf (offset + 16) (drop 15 cs) b))
            {x = 16 * suc n + 16 - suc (length cs)} {y = 16 * n + 16 - length (drop 15 cs)}
            (omega (arith, length-drop 15 cs))
          ∙ rows_printed n (offset + 16) (drop 15 cs) b hb (omega arith)
              (omega (arith, length-drop 15 cs)) (omega (arith, length-drop 15 cs)))
        (subst (λ t. PrintsRow offset (c ∷ take 15 cs) (drop 15 cs) (c ∷ t) buff) (take-drop 15 cs)
          (row_printed c (take 15 cs) (drop 15 cs) buff offset h e
            (omega (arith, length-take 15 cs))))

-- hexdump prints, behind the description, a row for every sixteen bytes and the last row padded: its
-- offset, its bytes, and its text column, in which what does not print is a dot. There are `n` full rows before the last, buff has its 17
-- bytes, whatever they are, and the length leaves 15 to the largest `int`.
pub hexdump-rows :
    (printf : Printf) (unset : List ℕ) (desc : Option (List ℕ)) (bytes : List ℕ) (n : ℕ)
    → length unset ≡ 17
    → 16 * n < length bytes
    → length bytes ≤ 16 * n + 16
    → 16 * n + 16 < 2 ^ 31
    → hexdump printf unset desc bytes (pos (length bytes))
      ≡ some (heading desc ++ rows printf n 0 bytes)
unfolding hexdump dump_all
hexdump-rows printf unset desc bytes n h more most small =
    rw
      (
        ne→== (length bytes) 0 (omega arith),
        le→leb (length bytes) (length bytes) (omega arith),
        take-all bytes,
        pad_from-blanks (16 * n + 16 - length bytes) (length bytes) 16 (omega arith) (omega arith)
            (omega arith) (omega arith),
      )
      (ap₂ (λ d t. some (d ++ t)) (described-heading desc)
        (rows_printed printf n 0 bytes unset h refl more most))
