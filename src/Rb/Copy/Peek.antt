-- ===== src/Rb/Copy/Peek.antt =====
-- rb_peek, rb_peek_at and rb_peek_byte_at against the queue of readable bytes.
use csnip.Base.{
  ℕ, ◌+◌, ◌-◌, ◌<◌, ◌≤◌, ◌≡◌, ◌⊎◌, inl, inr, refl, ◌∙◌, subst, ap, true, false, Option, some, List,
  [], ◌∷◌, ◌++◌, arith, ltb, leb, if◌then◌else◌, ◌==◌, Bool-cases, ==→eq, ==→ne, leb→le, min,
  length, get_or, take, drop, tabulate, tabulate-cong, take-tabulate, drop-tabulate,
  take-drop-tabulate,
}
use csnip.Machine.Word.{slot, add64, sub64, rem-slot}
use csnip.Rb.State.{Rb, IsValid, count_peek, count_underflow}
use csnip.Rb.Space.{can_read, byte_at, contents, can_read-le-size}
use csnip.Rb.Copy.{
  peek_count, peek_count_1, peek_count_2, peek_index, after_peek, peek_some, peek_at, peek,
  peek_byte_at,
}
use csnip.Rb.Copy.Rounds.{parts_out, memcpy_front}

-- The bytes wanted, from `offset` bytes behind the read index on, do not pass the end of the buffer,
-- or begin behind it, or nothing is skipped.
abbrev pub Unsplit : Rb → ℕ → ℕ → Type 0
Unsplit rb n offset =
    (rb.read_index + offset + n ≤ rb.size) ⊎ ((rb.size ≤ rb.read_index + offset) ⊎ (offset ≡ 0))

module _ (rb : Rb) (offset n : ℕ) (v : IsValid rb) (within : offset + n ≤ can_read rb) (pos : 0 < n)
    (unsplit : Unsplit rb n offset) where
  index : ℕ
  index = add64 rb.read_index offset

  place : ℕ
  place = slot rb.size (rb.read_index + offset)

  index-eq : index ≡ rb.read_index + offset
  unfolding index
  index-eq = omega (arith, can_read-le-size rb v)

  c1 : ℕ
  c1 = peek_count_1 rb.size index n

  c2 : ℕ
  c2 = peek_count_2 rb.size index n offset

  place_found : peek_index rb.size index n ≡ some place
  unfolding peek_index place
  place_found = ground (arith, index-eq, can_read-le-size rb v, rem-slot index rb.size)

  parts_sum : c1 + c2 ≡ n
  unfolding peek_count_1 peek_count_2 c1 c2
  parts_sum = ground (arith, index-eq, can_read-le-size rb v)

  first_inside : place + c1 ≤ rb.size
  unfolding peek_count_1 c1 place
  first_inside = ground (arith, index-eq, can_read-le-size rb v)

  second_inside : c2 ≤ place
  unfolding peek_count_2 c2 place
  second_inside = ground (arith, index-eq, can_read-le-size rb v)

  parts_meet : (c2 ≡ 0) ⊎ (place + c1 ≡ rb.size)
  unfolding peek_count_1 peek_count_2 c1 c2 place
  parts_meet = ground (arith, index-eq, can_read-le-size rb v)

  same_place :
      (j : ℕ) → j < n → slot rb.size (place + j) ≡ slot rb.size (rb.read_index + (offset + j))
  unfolding place
  same_place j b = ground (arith, can_read-le-size rb v)

  -- `peek_some` delivers the `n` bytes behind the first `offset` where the copy is not split.
  peek_some_lem :
      (dest : List ℕ) (count : ℕ)
      → n ≤ length dest
      → peek_some rb dest count offset n
        ≡ some (n, tabulate n (λ j. byte_at rb (offset + j)) ++ drop n dest, after_peek rb n count)
  unfolding peek_some index c1 c2
  peek_some_lem dest count room =
      rw
        (
          place_found,
          parts_out rb.size place c1 c2 rb.buf v.stored first_inside second_inside parts_meet n dest
              parts_sum room,
        )
        (ap (λ t. some (n, t ++ drop n dest, after_peek rb n count)) same_bytes)
    where
      same_bytes :
          tabulate n (λ j. get_or rb.buf (slot rb.size (place + j)) 0)
          ≡ tabulate n (λ j. byte_at rb (offset + j))
      same_bytes = tabulate-cong n _ _ (λ j b.
          ap (λ t. get_or rb.buf t 0) {x = slot rb.size (place + j)}
            {y = slot rb.size (rb.read_index + (offset + j))} (same_place j b))

-- rb_peek_byte_at delivers the byte behind the first `offset` readable ones, if there is one, and
-- changes nothing but the counters.
pub peek_byte_at_lem :
    (rb : Rb) (dest : List ℕ) (offset : ℕ)
    → IsValid rb
    → 0 < length dest
    → peek_byte_at rb dest offset ≡ (
        if ltb offset (can_read rb)
        then some (1, byte_at rb offset ∷ drop 1 dest, count_peek rb 1)
        else some (0, dest, count_underflow rb))
unfolding peek_byte_at
peek_byte_at_lem rb dest offset v room = elim (Bool-cases (leb (can_read rb) offset)) [
  | inl e ↦ let t : ltb offset (can_read rb) ≡ false = ground arith in rw (e, t)
  | inr e ↦
      let t : ltb offset (can_read rb) ≡ true = ground arith in
      rw (e, t, place_eq e, memcpy_front dest rb.buf place 1 room (inside e))
        (ap (λ x. some (1, x ++ drop 1 dest, count_peek rb 1)) (one_byte e))
]
  where
    place : ℕ
    place = slot rb.size (rb.read_index + offset)

    place_eq :
        leb (can_read rb) offset ≡ false
        → (if leb rb.size (add64 rb.read_index offset)
            then sub64 (add64 rb.read_index offset) rb.size
            else add64 rb.read_index offset)
          ≡ place
    place_eq e = ground (arith, can_read-le-size rb v)

    inside : leb (can_read rb) offset ≡ false → place + 1 ≤ length rb.buf
    inside e = ground (arith, can_read-le-size rb v)

    one_byte :
        leb (can_read rb) offset ≡ false → take 1 (drop place rb.buf) ≡ byte_at rb offset ∷ []
    one_byte e =
        take-drop-tabulate place 1 rb.buf 0 (inside e)
        ∙ ap (λ t. get_or rb.buf t 0 ∷ []) {x = place + 0} {y = place} (omega arith)

-- What a look at the queue returns: the count, the bytes over the start of the destination, and the
-- buffer with nothing changed but its counters.
pub record Shows (rb : Rb) (k : ℕ) (bytes dest : List ℕ) (out : Option (ℕ × List ℕ × Rb))
    : Type 0 where
  pub after : Rb
  pub returns : out ≡ some (k, bytes ++ drop k dest, after)
  pub unchanged : record after { stats = rb.stats } ≡ rb

-- How many bytes a look of `count` bytes behind the first `offset` can show.
abbrev pub visible : Rb → ℕ → ℕ → ℕ
visible rb count offset = min count (can_read rb - offset)

pub segment :
    (rb : Rb) (n offset : ℕ)
    → offset + n ≤ can_read rb
    → take n (drop offset (contents rb)) ≡ tabulate n (λ j. byte_at rb (offset + j))
segment rb n offset h =
    ap (take n) (drop-tabulate offset (can_read rb) (byte_at rb))
    ∙ take-tabulate n (can_read rb - offset) (λ j. byte_at rb (offset + j))
    ∙ ap (λ t. tabulate t (λ j. byte_at rb (offset + j))) {x = min n (can_read rb - offset)} {y = n}
        (omega arith)

pub peek_count-eq :
    (rb : Rb) (count offset : ℕ)
    → IsValid rb
    → offset < can_read rb
    → peek_count rb count offset ≡ visible rb count offset
unfolding peek_count
peek_count-eq rb count offset v h = ground (arith, can_read-le-size rb v)

after_peek-stats :
    (rb : Rb) (n count : ℕ) → record (after_peek rb n count) { stats = rb.stats } ≡ rb
unfolding after_peek
after_peek-stats rb n count = ground arith

nothing_shown :
    (rb after : Rb) (dest : List ℕ) (k offset : ℕ)
    → k ≡ 0
    → record after { stats = rb.stats } ≡ rb
    → Shows rb k (take k (drop offset (contents rb))) dest (some (0, dest, after))
nothing_shown rb after dest k offset e u = record { after = after; returns = rw e; unchanged = u }

-- rb_peek_at shows the `min count (rb_can_read - offset)` bytes behind the first `offset`, where the
-- copy is not split.
pub peek_at-Shows :
    (rb : Rb) (dest : List ℕ) (count offset : ℕ)
    → IsValid rb
    → visible rb count offset ≤ length dest
    → Unsplit rb (visible rb count offset) offset
    → Shows rb
        (visible rb count offset)
        (take (visible rb count offset) (drop offset (contents rb)))
        dest
        (peek_at rb dest count offset)
unfolding peek_at count_underflow
peek_at-Shows rb dest count offset v room unsplit = elim (Bool-cases (count == 0)) [
  | inl z ↦ rw z (nothing_shown rb rb dest k offset (omega (arith, ==→eq count 0 z)) refl)
  | inr z ↦ elim (Bool-cases (leb (can_read rb) offset)) [
    | inl e ↦
        rw (z, e)
          (nothing_shown rb (count_underflow rb) dest k offset
            (omega (arith, leb→le (can_read rb) offset e)) refl)
    | inr e ↦
        let inside : offset < can_read rb = ground arith in
        let within : offset + k ≤ can_read rb = omega (arith, inside) in
        rw (z, e, peek_count-eq rb count offset v inside, segment rb k offset within)
          (record {
            after = after_peek rb k count;
            returns =
                peek_some_lem rb offset k v within (omega (arith, inside, ==→ne count 0 z)) unsplit
                  dest count room;
            unchanged = after_peek-stats rb k count;
          })
  ]
]
  where
    k : ℕ
    k = visible rb count offset

-- rb_peek shows the first `min count (rb_can_read)` bytes of the queue, split or not.
pub peek-Shows :
    (rb : Rb) (dest : List ℕ) (count : ℕ)
    → IsValid rb
    → min count (can_read rb) ≤ length dest
    → Shows rb
        (min count (can_read rb))
        (take (min count (can_read rb)) (contents rb))
        dest
        (peek rb dest count)
unfolding peek
peek-Shows rb dest count v room =
    let e : visible rb count 0 ≡ min count (can_read rb) = omega arith in
    subst (λ k. Shows rb k (take k (contents rb)) dest (peek_at rb dest count 0)) e
      (peek_at-Shows rb dest count 0 v (omega arith) (inr (inr refl)))
