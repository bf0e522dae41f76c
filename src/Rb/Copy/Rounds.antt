-- ===== src/Rb/Copy/Rounds.antt =====
-- The two-part copies: the bytes of both parts, one behind the other, and their bounds.
use csnip.Base.{
  ℕ, zero, suc, ◌+◌, ◌-◌, ◌<◌, ◌≤◌, ◌^◌, ◌≡◌, refl, ◌⊎◌, ◌∙◌, sym, ap, ap₂, some, List, [], ◌∷◌,
  ◌++◌, arith, ltb, if◌then◌else◌, ◌==◌, Bool-cases, inl, inr, length, get_or, take, drop, tabulate,
  length-append, length-take, length-drop, tabulate-cong, tabulate-add, take-drop-tabulate,
  get_or-take, get_or-drop, append_assoc,
}
use csnip.Machine.Word.{slot, rem-slot}
use csnip.Machine.Memory.{memcpy, memcpy-eq-blit, blit, length-segment, length-blit, get_or-blit}
use csnip.Rb.Copy.{copy_count_1, copy_count_2, copy_out, copy_in, next_index}

pub take-append_self : (n : ℕ) (xs ys : List ℕ) → n ≡ length xs → take n (xs ++ ys) ≡ xs
take-append_self zero [] ys e = refl
take-append_self zero (x ∷ xs) ys e = absurd (omega arith)
take-append_self (suc n) [] ys e = absurd (omega arith)
take-append_self (suc n) (x ∷ xs) ys e = ap (λ t. x ∷ t) (take-append_self n xs ys (omega arith))

drop-append_self : (n k : ℕ) (xs ys : List ℕ) → n ≡ length xs + k → drop n (xs ++ ys) ≡ drop k ys
drop-append_self n k [] ys e = let e' : n ≡ k = omega arith in ap (λ t. drop t ys) e'
drop-append_self zero k (x ∷ xs) ys e = absurd (omega arith)
drop-append_self (suc n) k (x ∷ xs) ys e = drop-append_self n k xs ys (omega arith)

drop-nil : (n : ℕ) → drop {A = ℕ} n [] ≡ []
drop-nil zero = refl
drop-nil (suc n) = refl

pub drop-drop : (i j : ℕ) (xs : List ℕ) → drop j (drop i xs) ≡ drop (i + j) xs
drop-drop zero j xs = let e : j ≡ 0 + j = omega arith in ap (λ t. drop t xs) e
drop-drop (suc i) j [] = drop-nil j ∙ sym (drop-nil (suc i + j))
drop-drop (suc i) j (x ∷ xs) =
    drop-drop i j xs ∙ ap (λ t. drop t (x ∷ xs)) {x = suc (i + j)} {y = suc i + j} (omega arith)

-- A copy to the front of `dst`.
pub memcpy_front :
    (dst src : List ℕ) (s n : ℕ)
    → n ≤ length dst
    → s + n ≤ length src
    → memcpy dst 0 src s n ≡ some (take n (drop s src) ++ drop n dst)
memcpy_front dst src s n h k =
    memcpy-eq-blit dst 0 src s n (omega arith) k
    ∙ ap (λ t. some (take n (drop s src) ++ drop t dst)) (omega (arith, length-segment s n src k))

-- What a copy in two parts leaves in the destination.
copy_out_parts :
    (dest buf : List ℕ) (i c1 c2 : ℕ)
    → i + c1 ≤ length buf
    → c2 ≤ length buf
    → c1 + c2 ≤ length dest
    → copy_out dest buf i c1 c2
      ≡ some (take c1 (drop i buf) ++ (take c2 buf ++ drop (c1 + c2) dest))
unfolding copy_out
copy_out_parts dest buf i c1 c2 h1 h2 h3 = elim (Bool-cases (c2 == 0)) [
  | inl e ↦ ground (arith, memcpy_front dest buf i c1 (omega arith) h1)
  | inr e ↦ rw (memcpy_front dest buf i c1 (omega arith) h1, e) second
]
  where
    seg : List ℕ
    seg = take c1 (drop i buf)

    first : List ℕ
    first = seg ++ drop c1 dest

    size_first : length first ≡ length dest
    size_first =
        omega
          (arith, length-append seg (drop c1 dest), length-segment i c1 buf h1, length-drop c1 dest)

    second : memcpy first c1 buf 0 c2 ≡ some (seg ++ (take c2 buf ++ drop (c1 + c2) dest))
    second =
        memcpy-eq-blit first c1 buf 0 c2 (omega (arith, size_first)) (omega arith)
        ∙ ap₂ (λ s t. some (s ++ (take c2 buf ++ t)))
            (take-append_self c1 seg (drop c1 dest) (omega (arith, length-segment i c1 buf h1)))
            (drop-append_self (c1 + length (take c2 buf)) c2 seg (drop c1 dest)
                (omega (arith, length-segment i c1 buf h1, length-take c2 buf))
              ∙ drop-drop c1 c2 dest)

-- A copy of two parts of `c1` and `c2` bytes that meet at the end of the buffer.
module _ (size i c1 c2 : ℕ) (buf : List ℕ) (stored : length buf ≡ size) (first_in : i + c1 ≤ size)
    (second_in : c2 ≤ i) (meet : (c2 ≡ 0) ⊎ (i + c1 ≡ size)) where
  pub parts_tabulate :
      (n : ℕ)
      → c1 + c2 ≡ n
      → take c1 (drop i buf) ++ take c2 buf ≡ tabulate n (λ j. get_or buf (slot size (i + j)) 0)
  parts_tabulate n e =
      ap₂ ◌++◌
        (take-drop-tabulate i c1 buf 0 (omega arith)
          ∙ tabulate-cong c1 (λ j. get_or buf (i + j) 0) at (λ j b. early j b))
        (take-drop-tabulate 0 c2 buf 0 (omega arith)
          ∙ tabulate-cong c2 (λ j. get_or buf (0 + j) 0) (λ j. at (c1 + j)) (λ j b. late j b))
      ∙ sym (tabulate-add c1 c2 n at (sym e))
    where
      at : ℕ → ℕ
      at j = get_or buf (slot size (i + j)) 0

      early : (j : ℕ) → j < c1 → get_or buf (i + j) 0 ≡ at j
      early j b = ground arith

      late : (j : ℕ) → j < c2 → get_or buf (0 + j) 0 ≡ at (c1 + j)
      late j b = ap (λ t. get_or buf t 0) {x = 0 + j} {y = slot size (i + (c1 + j))} (ground arith)

  pub parts_out :
      (n : ℕ) (dest : List ℕ)
      → c1 + c2 ≡ n
      → n ≤ length dest
      → copy_out dest buf i c1 c2
        ≡ some (tabulate n (λ j. get_or buf (slot size (i + j)) 0) ++ drop n dest)
  parts_out n dest e room =
      copy_out_parts dest buf i c1 c2 (omega arith) (omega arith) (omega arith)
      ∙ ap some (
          sym (append_assoc (take c1 (drop i buf)) (take c2 buf) (drop (c1 + c2) dest))
          ∙ ap₂ (λ s t. s ++ drop t dest) (parts_tabulate n e) e)

  parts_in :
      (n : ℕ) (source : List ℕ)
      → c1 + c2 ≡ n
      → n ≤ length source
      → (b : List ℕ) × (copy_in buf source i c1 c2 ≡ some b)
        × (length b ≡ size)
        × ((k : ℕ)
            → k < size
            → get_or b (slot size (i + k)) 0
              ≡ (if ltb k n then get_or source k 0 else get_or buf (slot size (i + k)) 0))
  unfolding copy_in
  parts_in n source e room = elim (Bool-cases (c2 == 0)) [
    | inl z ↦ (
      first,
      rw (write_first, z),
      size_first,
      λ k b. ground (arith, at_first (slot size (i + k))),
    )
    | inr z ↦ (
      both,
      rw (write_first, z) write_second,
      omega (arith, size_first, length-blit 0 rest first (omega (arith, size_first, size_rest))),
      λ k b. ground (
        arith,
        at_first (slot size (i + k)),
        at_both (slot size (i + k)),
        ap (λ t. get_or source t 0) {x = c1 + slot size (i + k)} {y = k},
      ),
    )
  ]
    where
      first : List ℕ
      first = blit i (take c1 source) buf

      rest : List ℕ
      rest = take c2 (drop c1 source)

      both : List ℕ
      both = blit 0 rest first

      size_seg : length (take c1 source) ≡ c1
      size_seg = omega (arith, length-take c1 source)

      size_rest : length rest ≡ c2
      size_rest = length-segment c1 c2 source (omega arith)

      size_first : length first ≡ size
      size_first =
          omega (arith, size_seg, length-blit i (take c1 source) buf (omega (arith, size_seg)))

      write_first : memcpy buf i source 0 c1 ≡ some first
      write_first = memcpy-eq-blit buf i source 0 c1 (omega arith) (omega arith)

      write_second : memcpy first 0 source c1 c2 ≡ some both
      write_second = memcpy-eq-blit first 0 source c1 c2 (omega (arith, size_first)) (omega arith)

      at_first :
          (p : ℕ)
          → get_or first p 0 ≡ (
              if ltb p i
              then get_or buf p 0
              else if ltb p (i + c1)
              then get_or source (p - i) 0
              else get_or buf p 0)
      at_first p =
          ground (
            arith,
            size_seg,
            get_or-blit i (take c1 source) buf p 0,
            get_or-take c1 source (p - i) 0,
          )

      at_both :
          (p : ℕ)
          → get_or both p 0 ≡ (if ltb p c2 then get_or source (c1 + p) 0 else get_or first p 0)
      at_both p = ground (
        arith,
        size_first,
        size_rest,
        get_or-blit 0 rest first p 0,
        get_or-take c2 (drop c1 source) p 0,
        get_or-drop c1 source p 0,
        ap (λ t. get_or rest t 0) {x = p - 0} {y = p},
      )

-- The two counts of a copy of `n` bytes add up to `n`, stay inside the buffer, and use the second
-- part only where the first reaches the end; behind them stands the slot `n` places on.
module _ (size i n : ℕ) (small : size ≤ 2 ^ 63) (inside : i < size) (fits : n ≤ size) where
  pub counts_sum : copy_count_1 size i n + copy_count_2 size i n ≡ n
  unfolding copy_count_1 copy_count_2
  counts_sum = ground arith

  pub count_1_inside : i + copy_count_1 size i n ≤ size
  unfolding copy_count_1
  count_1_inside = ground arith

  pub count_2_inside : copy_count_2 size i n ≤ i
  unfolding copy_count_2
  count_2_inside = ground arith

  pub count_2_starts : (copy_count_2 size i n ≡ 0) ⊎ (i + copy_count_1 size i n ≡ size)
  unfolding copy_count_1 copy_count_2
  count_2_starts = ground arith

  pub next_index_lem :
      next_index size i (copy_count_1 size i n) (copy_count_2 size i n) ≡ some (slot size (i + n))
  unfolding next_index copy_count_1 copy_count_2
  next_index_lem = ground (arith, rem-slot (i + n) size, rem-slot (i + n - size) size)

  module _ (buf : List ℕ) (stored : length buf ≡ size) where
    -- A copy out delivers the `n` bytes from `i` on, going round.
    pub ring_out :
        (dest : List ℕ)
        → n ≤ length dest
        → copy_out dest buf i (copy_count_1 size i n) (copy_count_2 size i n)
          ≡ some (tabulate n (λ j. get_or buf (slot size (i + j)) 0) ++ drop n dest)
    ring_out dest room =
        parts_out size i (copy_count_1 size i n) (copy_count_2 size i n) buf stored count_1_inside
          count_2_inside count_2_starts n dest counts_sum room

    -- A copy in puts the first `n` bytes of the source there, and leaves the rest of the buffer.
    pub ring_in :
        (source : List ℕ)
        → n ≤ length source
        → (b : List ℕ) × (copy_in buf source i (copy_count_1 size i n) (copy_count_2 size i n)
            ≡ some b)
          × (length b ≡ size)
          × ((k : ℕ)
              → k < size
              → get_or b (slot size (i + k)) 0
                ≡ (if ltb k n then get_or source k 0 else get_or buf (slot size (i + k)) 0))
    ring_in source room =
        parts_in size i (copy_count_1 size i n) (copy_count_2 size i n) buf stored count_1_inside
          count_2_inside count_2_starts n source counts_sum room
