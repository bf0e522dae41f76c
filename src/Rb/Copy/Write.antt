-- ===== src/Rb/Copy/Write.antt =====
-- rb_write against the queue of readable bytes.
use csnip.Base.{
  ℕ, ◌+◌, ◌-◌, ◌<◌, ◌≤◌, ◌≡◌, refl, ◌∙◌, sym, ap₂, inl, inr, true, false, Option, some, List, ◌++◌,
  append-nil, arith, ltb, ◌==◌, Bool-cases, ==→eq, ==→ne, min, length, get_or, take, tabulate-cong,
  tabulate-add, take-drop-tabulate,
}
use csnip.Machine.Word.{slot}
use csnip.Rb.State.{Rb, IsValid}
use csnip.Rb.Space.{
  can_read, can_write, byte_at, contents, can_read-le-size, can_read-add-can_write,
  write_index-eq-slot,
}
use csnip.Rb.Copy.{write_count, after_write, write_some, write}
use csnip.Rb.Copy.Rounds.{ring_in, next_index_lem}

-- What a write returns: the count, and a valid buffer whose queue has the first `k` bytes of the
-- source behind the bytes that it had.
pub record Accepts (rb : Rb) (k : ℕ) (source : List ℕ) (out : Option (ℕ × Rb)) : Type 0 where
  pub after : Rb
  pub returns : out ≡ some (k, after)
  pub keeps_valid : IsValid after
  pub appended : contents after ≡ contents rb ++ take k source
  pub same_size : after.size ≡ rb.size
  pub same_read_index : after.read_index ≡ rb.read_index
  pub same_header : after.header ≡ rb.header

-- A buffer whose storage has `n` bytes of the source behind the write index, and is as it was
-- elsewhere, holds the longer queue once the write index has moved.
module _ (rb : Rb) (n count : ℕ) (source b : List ℕ) (v : IsValid rb) (pos : 0 < n)
    (fits : n ≤ can_write rb) (supplied : n ≤ length source) (stored : length b ≡ rb.size)
    (written : (k : ℕ) → k < n → get_or b (slot rb.size (rb.write_index + k)) 0 ≡ get_or source k 0)
    (kept : (k : ℕ)
      → can_write rb ≤ k
      → k < rb.size
      → get_or b (slot rb.size (rb.write_index + k)) 0
        ≡ get_or rb.buf (slot rb.size (rb.write_index + k)) 0) where
  unfoldable pub extended : Rb
  extended = after_write rb n count b (slot rb.size (rb.write_index + n))

  pub extended-IsValid : IsValid extended
  unfolding extended after_write
  extended-IsValid = ground (arith, can_read-add-can_write rb v)

  can_read-extended : can_read extended ≡ can_read rb + n
  unfolding extended after_write can_read can_write
  can_read-extended = ground arith

  pub contents-extended : contents extended ≡ contents rb ++ take n source
  unfolding extended after_write
  contents-extended =
      tabulate-add m n (can_read extended) (byte_at extended) can_read-extended
      ∙ ap₂ ◌++◌ (tabulate-cong m (byte_at extended) (byte_at rb) old) (
          tabulate-cong n (λ j. byte_at extended (m + j)) (λ j. get_or source (0 + j) 0) new
          ∙ sym (take-drop-tabulate 0 n source 0 (omega arith)))
    where
      m : ℕ
      m = can_read rb

      place : ℕ → ℕ
      place x = slot rb.size x

      old : (i : ℕ) → i < m → byte_at extended i ≡ byte_at rb i
      old i h =
          let k = rb.size - m + i in
          let e : place (rb.write_index + k) ≡ place (rb.read_index + i) =
            ground (arith, write_index-eq-slot rb v, can_read-le-size rb v) in
          let late : can_write rb ≤ k = omega (arith, can_read-add-can_write rb v) in
          ground (arith, e, kept k late (omega (arith, can_read-le-size rb v)))

      new : (j : ℕ) → j < n → byte_at extended (m + j) ≡ get_or source (0 + j) 0
      new j h =
          let e : place (rb.write_index + j) ≡ place (rb.read_index + (m + j)) =
            ground (arith, write_index-eq-slot rb v, can_read-add-can_write rb v) in
          let z : 0 + j ≡ j = omega arith in ground (arith, e, z, written j h)

-- The write of `n` bytes, some of them, for which there is room.
pub some_write :
    (rb : Rb) (source : List ℕ) (count n : ℕ)
    → IsValid rb
    → 0 < n
    → n ≤ can_write rb
    → n ≤ length source
    → Accepts rb n source (write_some rb source count n)
unfolding write_some extended after_write
some_write rb source count n v pos fits supplied = record {
  after = extended rb n count source b v pos fits supplied stored written kept;
  returns = rw (copied, next_index_lem rb.size rb.write_index n v.small v.write_in inside);
  keeps_valid = extended-IsValid rb n count source b v pos fits supplied stored written kept;
  appended = contents-extended rb n count source b v pos fits supplied stored written kept;
  same_size = refl;
  same_read_index = refl;
  same_header = refl;
}
  where
    inside : n ≤ rb.size
    inside = omega (arith, can_read-add-can_write rb v)

    open ring_in rb.size rb.write_index n v.small v.write_in inside rb.buf v.stored source
        supplied use {0 as b, 1 as copied, 2 as stored, 3 as bytes}

    written : (k : ℕ) → k < n → get_or b (slot rb.size (rb.write_index + k)) 0 ≡ get_or source k 0
    written k h =
        let early : ltb k n ≡ true = ground arith in rw early at (bytes k (omega (arith, inside)))

    kept :
        (k : ℕ)
        → can_write rb ≤ k
        → k < rb.size
        → get_or b (slot rb.size (rb.write_index + k)) 0
          ≡ get_or rb.buf (slot rb.size (rb.write_index + k)) 0
    kept k h b = let late : ltb k n ≡ false = ground arith in rw late at (bytes k b)

pub write_count-eq-min : (rb : Rb) (count : ℕ) → write_count rb count ≡ min count (can_write rb)
unfolding write_count
write_count-eq-min rb count = ground arith

no_write :
    (rb : Rb) (source : List ℕ) (k : ℕ) → IsValid rb → k ≡ 0 → Accepts rb k source (some (0, rb))
no_write rb source k v e = record {
  after = rb;
  returns = rw e;
  keeps_valid = v;
  appended = rw e (sym (append-nil (contents rb)));
  same_size = refl;
  same_read_index = refl;
  same_header = refl;
}

-- rb_write takes the first `min count (rb_can_write)` bytes of the source, which needs to hold just
-- those, and appends them to the queue in order.
pub write-Accepts :
    (rb : Rb) (source : List ℕ) (count : ℕ)
    → IsValid rb
    → min count (can_write rb) ≤ length source
    → Accepts rb (min count (can_write rb)) source (write rb source count)
unfolding write
write-Accepts rb source count v supplied = elim (Bool-cases (count == 0)) [
  | inl z ↦ rw z (no_write rb source k v (omega (arith, ==→eq count 0 z)))
  | inr z ↦ elim (Bool-cases (can_write rb == 0)) [
    | inl e ↦ rw (z, e) (no_write rb source k v (omega (arith, ==→eq (can_write rb) 0 e)))
    | inr e ↦
        rw (z, e, write_count-eq-min rb count)
          (some_write rb source count k v (omega (arith, ==→ne count 0 z, ==→ne (can_write rb) 0 e))
            (omega arith) supplied)
  ]
]
  where
    k : ℕ
    k = min count (can_write rb)
