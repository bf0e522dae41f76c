-- ===== src/Tailf/LastLine.antt =====
-- What one round prints: the last line of the file.
use csnip.Base.{
  ℕ, zero, suc, ◌+◌, ◌-◌, ◌<◌, ◌≤◌, ◌≡◌, ◌≢◌, refl, sym, ap, ap₂, ◌∙◌, Bool, true, false, ◌&&◌,
  none, some, List, [], ◌∷◌, arith, ◌==◌, ltb, length, get_or, take, drop, length-drop, take-drop,
  lt→ltb, ltb→lt, ltb→le, ne→==, eq→==, Bool-cases, inl, inr, ==→eq, ==→ne,
}
use csnip.Machine.Stdio.{InFile, fgetc, fseek_set}
use csnip.Tailf.{read_lines, print_line, is_newline, walk_loop, walk_file}

read_lines-whole : (fuel : ℕ) (left : List ℕ) → length left < fuel → read_lines fuel left ≡ left
unfolding read_lines
read_lines-whole zero left h = absurd (omega arith)
read_lines-whole (suc fuel) [] h = refl
read_lines-whole (suc fuel) (x ∷ left) h =
    rw
      (
        ne→== (suc (length left)) 0 (omega arith),
        read_lines-whole fuel (drop 4095 left) (omega (arith, length-drop 4095 left)),
        take-drop 4095 left,
      )
      refl

drop-get_or : (n : ℕ) (xs : List ℕ) → n < length xs → drop n xs ≡ get_or xs n 0 ∷ drop (suc n) xs
drop-get_or n [] h = absurd (omega arith)
drop-get_or zero (x ∷ xs) h = refl
drop-get_or (suc n) (x ∷ xs) h = drop-get_or n xs (omega arith)

take-all : (n : ℕ) (xs : List ℕ) → length xs ≤ n → take n xs ≡ xs
take-all zero [] h = refl
take-all zero (x ∷ xs) h = absurd (omega arith)
take-all (suc n) [] h = refl
take-all (suc n) (x ∷ xs) h = ap (λ t. x ∷ t) (take-all n xs (omega arith))

drop-past : (n : ℕ) (xs : List ℕ) → length xs ≤ n → drop n xs ≡ []
drop-past zero [] h = refl
drop-past zero (x ∷ xs) h = absurd (omega arith)
drop-past (suc n) [] h = refl
drop-past (suc n) (x ∷ xs) h = drop-past n xs (omega arith)

and_false : (b : Bool) → (b && false) ≡ false
and_false true = refl
and_false false = refl

module _ (f : InFile) (sound : length f.bytes ≤ f.limit) where
  -- The file at a place, whatever its indicators.
  abbrev At : InFile → ℕ → Type 0
  At g p = (g.bytes ≡ f.bytes) × (g.limit ≡ f.limit) × (g.pos ≡ p)

  fgetc-inside :
      (g : InFile) (p : ℕ)
      → At g p
      → p < length f.bytes
      → fgetc g ≡ (some (get_or f.bytes p 0), record g { pos = suc g.pos })
  unfolding fgetc
  fgetc-inside g p (same, limit, pos) h =
      rw
        (
          fgetc,
          ap₂ drop pos same ∙ drop-get_or p f.bytes h,
          lt→ltb g.pos g.limit (omega (arith, pos, limit)),
        )
        refl

  fgetc-end : (g : InFile) → At g (length f.bytes) → fgetc g ≡ (none, record g { at_end = true })
  unfolding fgetc
  fgetc-end g (same, limit, pos) =
      rw (fgetc, ap₂ drop pos same ∙ drop-past (length f.bytes) f.bytes (omega arith)) refl

  -- Nothing that counts from a place on: a newline there is the last byte.
  abbrev NoneBehind : ℕ → Type 0
  NoneBehind i = (j : ℕ) → i ≤ j → j + 1 < length f.bytes → get_or f.bytes j 0 ≢ 10

  -- Whether the byte at place `i`, where the loop is, is a newline that counts.
  abbrev counts : InFile → ℕ → Bool
  counts g i = is_newline (fgetc g).0 && ltb 1 (length f.bytes - i)

  uncounted : (g : InFile) (i : ℕ) → At g i → i ≤ length f.bytes → NoneBehind i → counts g i ≡ false
  uncounted g i at inside none_behind = elim (Bool-cases (ltb 1 (length f.bytes - i))) [
    | inl e ↦
        let before : i + 1 < length f.bytes = omega (arith, ltb→lt 1 (length f.bytes - i) e) in
        rw
          (
            e,
            fgetc-inside g i at (omega arith),
            ne→== (get_or f.bytes i 0) 10 (none_behind i (omega arith) before),
          )
          refl
    | inr e ↦ rw e (and_false (is_newline (fgetc g).0))
  ]

  counted :
      (g : InFile) (i : ℕ)
      → At g i
      → i + 1 < length f.bytes
      → get_or f.bytes i 0 ≡ 10
      → counts g i ≡ true
  counted g i at before newline =
      rw
        (
          fgetc-inside g i at (omega arith),
          eq→== (get_or f.bytes i 0) 10 newline,
          lt→ltb 1 (length f.bytes - i) (omega arith),
        )
        refl

  At-next : (g : InFile) (i j : ℕ) → At g i → i ≤ length f.bytes → At (fseek_set (fgetc g).1 j) j
  unfolding fseek_set
  At-next g i j at inside = elim (Bool-cases (ltb i (length f.bytes))) [
    | inl e ↦ rw (fgetc-inside g i at (ltb→lt i (length f.bytes) e)) (at.0, at.1, refl)
    | inr e ↦ rw (fgetc-end g (at.0, at.1, at.2 ∙ at_length e)) (at.0, at.1, refl)
  ]
    where
      at_length : ltb i (length f.bytes) ≡ false → i ≡ length f.bytes
      at_length e = omega (arith, ltb→le i (length f.bytes) e)

  -- With no newline that counts the loop counts none.
  walk_none :
      (g : InFile) (i : ℕ)
      → At g i
      → i ≤ length f.bytes
      → NoneBehind 0
      → (walk_loop i g (length f.bytes) 1 0).0 ≡ 0
  unfolding walk_loop
  walk_none g zero at inside none_behind = rw (uncounted g 0 at inside none_behind) refl
  walk_none g (suc i) at inside none_behind =
      rw (uncounted g (suc i) at inside (λ j h. none_behind j (omega arith))) (
        walk_none (fseek_set (fgetc g).1 i) i (At-next g (suc i) i at inside) (omega arith)
          none_behind)

  -- The loop stops at the last newline that counts.
  walk_found :
      (lo : ℕ)
      → lo + 1 < length f.bytes
      → get_or f.bytes lo 0 ≡ 10
      → NoneBehind (suc lo)
      → (g : InFile) (i : ℕ) → At g i
      → lo ≤ i
      → i ≤ length f.bytes
      → walk_loop i g (length f.bytes) 1 0 ≡ (1, suc lo)
  unfolding walk_loop
  walk_found zero before newline none_behind g zero at below inside =
      rw (counted g 0 at before newline) refl
  walk_found (suc lo) before newline none_behind g zero at below inside = absurd (omega arith)
  walk_found lo before newline none_behind g (suc i) at below inside =
      elim (Bool-cases (lo == suc i)) [
        | inl e ↦
            let same : lo ≡ suc i = ==→eq lo (suc i) e in
            rw
              (counted g (suc i) at (omega (arith, same))
                (ap (λ k. get_or f.bytes k 0) (sym same) ∙ newline))
              (ap (λ k. (1, suc k)) (sym same))
        | inr e ↦
            let further : lo < suc i = omega (arith, ==→ne lo (suc i) e) in
            rw (uncounted g (suc i) at inside (λ j h. none_behind j (omega arith))) (
              walk_found lo before newline none_behind (fseek_set (fgetc g).1 i) i
                (At-next g (suc i) i at inside) (omega arith) (omega arith))
      ]

  -- Where the file has changed its length, and no byte but the last is a newline, a round prints
  -- nothing; so a file of a single line is never printed.
  pub walk_file-none :
      (prev_end : ℕ)
      → length f.bytes ≢ prev_end
      → ((j : ℕ) → j + 1 < length f.bytes → get_or f.bytes j 0 ≢ 10)
      → walk_file prev_end f 1 ≡ (length f.bytes, ltb (length f.bytes) prev_end, [])
  unfolding walk_file fseek_set
  walk_file-none prev_end changed no_newline =
      rw
        (
          ne→== (length f.bytes) prev_end changed,
          walk_none (fseek_set f (length f.bytes)) (length f.bytes) (refl, refl, refl) (omega arith)
              (λ j h. no_newline j),
        )
        refl

  -- Where the file has changed its length and `lo` is the last place before the last byte that has a
  -- newline, a round prints the bytes behind it, the last line, and keeps the length.
  pub walk_file-last_line :
      (prev_end lo : ℕ)
      → length f.bytes ≢ prev_end
      → lo + 1 < length f.bytes
      → get_or f.bytes lo 0 ≡ 10
      → ((j : ℕ) → lo < j → j + 1 < length f.bytes → get_or f.bytes j 0 ≢ 10)
      → walk_file prev_end f 1
        ≡ (length f.bytes, ltb (length f.bytes) prev_end, drop (suc lo) f.bytes)
  unfolding walk_file print_line fseek_set
  walk_file-last_line prev_end lo changed before newline none_behind =
      rw
        (
          ne→== (length f.bytes) prev_end changed,
          walk_found lo before newline none_behind (fseek_set f (length f.bytes)) (length f.bytes)
              (refl, refl, refl) (omega arith) (omega arith),
          take-all f.limit f.bytes sound,
          read_lines-whole (suc (length f.bytes)) (drop (suc lo) f.bytes)
              (omega (arith, length-drop (suc lo) f.bytes)),
        )
        refl
