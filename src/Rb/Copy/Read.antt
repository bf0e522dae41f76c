-- ===== src/Rb/Copy/Read.antt =====
-- rb_read and rb_overread against the queue of readable bytes.
use csnip.Base.{
  ℕ, ◌+◌, ◌-◌, ◌<◌, ◌≤◌, ◌≡◌, ◌⊎◌, inl, inr, refl, ◌∙◌, sym, ap, Bool, true, false, Option, some,
  List, [], ◌++◌, arith, ◌==◌, Bool-cases, ==→eq, ==→ne, min, length, get_or, take, drop, tabulate,
  tabulate-cong, drop-tabulate, take-tabulate,
}
use csnip.Machine.Word.{slot}
use csnip.Rb.State.{Rb, IsValid}
use csnip.Rb.Space.{can_read, byte_at, contents, can_read-le-size}
use csnip.Rb.Copy.{read_count, after_read, read_some, generic_read, read, overread}
use csnip.Rb.Copy.Rounds.{ring_out, next_index_lem}

-- A read of `n` bytes delivers those at the read index, and moves it behind them.
pub read_some_lem :
    (rb : Rb) (dest : List ℕ) (count : ℕ) (over : Bool) (n : ℕ)
    → IsValid rb
    → n ≤ rb.size
    → n ≤ length dest
    → read_some rb dest count over n
      ≡ some (
        n,
        tabulate n (byte_at rb) ++ drop n dest,
        after_read rb n count over (slot rb.size (rb.read_index + n)),
      )
unfolding read_some
read_some_lem rb dest count over n v fits room = rw (
  ring_out rb.size rb.read_index n v.small v.read_in fits rb.buf v.stored dest room,
  next_index_lem rb.size rb.read_index n v.small v.read_in fits,
)

module _ (rb : Rb) (n count : ℕ) (over : Bool) (v : IsValid rb) (some_bytes : 0 < n)
    (fits : n ≤ rb.size) (within : (over ≡ true) ⊎ (n ≤ can_read rb)) where
  pub after_read-IsValid : IsValid (after_read rb n count over (slot rb.size (rb.read_index + n)))
  unfolding after_read
  after_read-IsValid = ground arith

  pub can_read-after_read :
      can_read (after_read rb n count over (slot rb.size (rb.read_index + n))) ≡ can_read rb - n
  unfolding after_read can_read
  can_read-after_read = ground arith

  -- What stays readable is the queue without its first `n` bytes.
  pub contents-after_read :
      contents (after_read rb n count over (slot rb.size (rb.read_index + n)))
      ≡ drop n (contents rb)
  unfolding after_read
  contents-after_read =
      ap (λ k. tabulate k (byte_at advanced)) can_read-after_read
      ∙ tabulate-cong (can_read rb - n) (byte_at advanced) (λ i. byte_at rb (n + i)) shift
      ∙ sym (drop-tabulate n (can_read rb) (byte_at rb))
    where
      advanced : Rb
      advanced = after_read rb n count over (slot rb.size (rb.read_index + n))

      shift : (i : ℕ) → i < can_read rb - n → byte_at advanced i ≡ byte_at rb (n + i)
      shift i b =
          ap (λ t. get_or rb.buf t 0) {x = slot rb.size (slot rb.size (rb.read_index + n) + i)}
            {y = slot rb.size (rb.read_index + (n + i))} (ground (arith, can_read-le-size rb v))

-- The first `k` readable bytes, as a read delivers them.
take-contents : (rb : Rb) (k : ℕ) → k ≤ can_read rb → take k (contents rb) ≡ tabulate k (byte_at rb)
take-contents rb k h =
    take-tabulate k (can_read rb) (byte_at rb)
    ∙ ap (λ t. tabulate t (byte_at rb)) {x = min k (can_read rb)} {y = k} (omega arith)

-- What a read returns: the count, the bytes delivered over the start of the destination, and a
-- valid buffer whose queue has lost its first `k` bytes and whose storage is as it was.
pub record Delivers (rb : Rb) (k : ℕ) (bytes dest : List ℕ) (out : Option (ℕ × List ℕ × Rb))
    : Type 0 where
  pub after : Rb
  pub returns : out ≡ some (k, bytes ++ drop k dest, after)
  pub keeps_valid : IsValid after
  pub remaining : contents after ≡ drop k (contents rb)
  pub same_size : after.size ≡ rb.size
  pub same_buf : after.buf ≡ rb.buf
  pub same_header : after.header ≡ rb.header

pub read_count-false : (rb : Rb) (count : ℕ) → read_count rb count false ≡ min count (can_read rb)
unfolding read_count
read_count-false rb count = ground arith

pub read_count-true : (rb : Rb) (count : ℕ) → read_count rb count true ≡ min count rb.size
unfolding read_count
read_count-true rb count = ground arith

some_read :
    (rb : Rb) (dest : List ℕ) (count : ℕ) (over : Bool) (n : ℕ)
    → IsValid rb
    → 0 < n
    → n ≤ rb.size
    → n ≤ length dest
    → (over ≡ true) ⊎ (n ≤ can_read rb)
    → Delivers rb n (tabulate n (byte_at rb)) dest (read_some rb dest count over n)
unfolding after_read
some_read rb dest count over n v pos fits room within = record {
  after = after_read rb n count over (slot rb.size (rb.read_index + n));
  returns = read_some_lem rb dest count over n v fits room;
  keeps_valid = after_read-IsValid rb n count over v pos fits within;
  remaining = contents-after_read rb n count over v pos fits within;
  same_size = refl;
  same_buf = refl;
  same_header = refl;
}

no_read :
    (rb : Rb) (dest bytes : List ℕ) (k : ℕ)
    → IsValid rb
    → k ≡ 0
    → bytes ≡ []
    → Delivers rb k bytes dest (some (0, dest, rb))
no_read rb dest bytes k v e f = record {
  after = rb;
  returns = rw (e, f);
  keeps_valid = v;
  remaining = rw e;
  same_size = refl;
  same_buf = refl;
  same_header = refl;
}

-- rb_read takes `min count (rb_can_read)` bytes off the front of the queue, in order, to the start
-- of the destination, which needs room for just those.
pub read-Delivers :
    (rb : Rb) (dest : List ℕ) (count : ℕ)
    → IsValid rb
    → min count (can_read rb) ≤ length dest
    → Delivers rb
        (min count (can_read rb))
        (take (min count (can_read rb)) (contents rb))
        dest
        (read rb dest count)
unfolding read generic_read
read-Delivers rb dest count v room = elim (Bool-cases (count == 0)) [
  | inl z ↦ rw z (
      no_read rb dest _ k v (omega (arith, ==→eq count 0 z))
        (bytes_of_none (omega (arith, ==→eq count 0 z))))
  | inr z ↦ elim (Bool-cases (can_read rb == 0)) [
    | inl e ↦
        rw (z, e)
          (no_read rb dest _ k v (omega (arith, ==→eq (can_read rb) 0 e))
            (bytes_of_none (omega (arith, ==→eq (can_read rb) 0 e))))
    | inr e ↦
        rw (z, e, read_count-false rb count, take-contents rb k (omega arith))
          (some_read rb dest count false k v
            (omega (arith, ==→ne count 0 z, ==→ne (can_read rb) 0 e))
            (omega (arith, can_read-le-size rb v)) room (inr (omega arith)))
  ]
]
  where
    k : ℕ
    k = min count (can_read rb)

    bytes_of_none : k ≡ 0 → take k (contents rb) ≡ []
    bytes_of_none e = ap (λ t. take t (contents rb)) e

-- rb_overread takes `min count size` bytes from the read index on, whether readable or not, and
-- leaves of the queue what lies behind them.
pub overread-Delivers :
    (rb : Rb) (dest : List ℕ) (count : ℕ)
    → IsValid rb
    → min count rb.size ≤ length dest
    → Delivers rb
        (min count rb.size)
        (tabulate (min count rb.size) (byte_at rb))
        dest
        (overread rb dest count)
unfolding overread generic_read
overread-Delivers rb dest count v room = elim (Bool-cases (count == 0)) [
  | inl z ↦ rw z (
      no_read rb dest _ k v (omega (arith, ==→eq count 0 z))
        (ap (λ t. tabulate t (byte_at rb)) {x = k} {y = 0} (omega (arith, ==→eq count 0 z))))
  | inr z ↦
      rw (z, read_count-true rb count)
        (some_read rb dest count true k v (omega (arith, v, ==→ne count 0 z)) (omega arith) room
          (inl refl))
]
  where
    k : ℕ
    k = min count rb.size
