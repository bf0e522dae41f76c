-- ===== src/Rb/Advance/Moves.antt =====
-- The index moves against the queue of readable bytes.
use csnip.Base.{
  ℕ, ◌+◌, ◌-◌, ◌<◌, ◌≤◌, ◌^◌, ◌≡◌, ◌⊎◌, inl, inr, refl, ◌∙◌, sym, ap, Bool, true, false, some, List,
  [], ◌++◌, append-nil, arith, ◌==◌, ◌>>=◌, Bool-cases, ==→eq, ==→ne, min, length, get_or, drop,
  tabulate, length-tabulate, get_or-tabulate, drop-tabulate, take-tabulate,
}
use csnip.Machine.Word.{slot, rem-slot}
use csnip.Rb.State.{Rb, IsValid, count_underflow, count_overflow}
use csnip.Rb.Space.{
  can_read, can_write, byte_at, contents, can_read-le-size, can_read-add-can_write, length-contents,
}
use csnip.Rb.Copy.{after_read, after_write}
use csnip.Rb.Copy.Read.{after_read-IsValid, contents-after_read, read_count-false, read_count-true}
use csnip.Rb.Copy.Write.{extended, extended-IsValid, contents-extended, write_count-eq-min}
use csnip.Rb.Advance.{
  advance, generic_advance_read_index, advance_read_index, overadvance_read_index, drop_all,
  advance_write_index, Moved,
}

pub advance_lem :
    (size i n : ℕ)
    → size ≤ 2 ^ 63
    → i < size
    → n ≤ size
    → advance size i n ≡ some (slot size (i + n))
unfolding advance
advance_lem size i n h b f = ground (arith, rem-slot (i + n) size, rem-slot (i + n - size) size)

-- What a move of the read index returns: the count, and a valid buffer whose queue has lost its
-- first `k` bytes and whose storage is as it was.
pub record Skips (rb : Rb) (k : ℕ) (out : Moved) : Type 0 where
  pub after : Rb
  pub returns : out ≡ some (k, after)
  pub keeps_valid : IsValid after
  pub remaining : contents after ≡ drop k (contents rb)
  pub same_size : after.size ≡ rb.size
  pub same_buf : after.buf ≡ rb.buf
  pub same_header : after.header ≡ rb.header

no_skip : (rb : Rb) (k : ℕ) → IsValid rb → k ≡ 0 → Skips rb k (some (0, rb))
no_skip rb k v e = record {
  after = rb;
  returns = rw e;
  keeps_valid = v;
  remaining = rw e;
  same_size = refl;
  same_buf = refl;
  same_header = refl;
}

underflow_skip : (rb : Rb) (k : ℕ) → IsValid rb → k ≡ 0 → Skips rb k (some (0, count_underflow rb))
unfolding count_underflow can_read
underflow_skip rb k v e = record {
  after = count_underflow rb;
  returns = rw e;
  keeps_valid = omega arith;
  remaining = rw e;
  same_size = refl;
  same_buf = refl;
  same_header = refl;
}

some_skip :
    (rb : Rb) (n count : ℕ) (over : Bool)
    → IsValid rb
    → 0 < n
    → n ≤ rb.size
    → (over ≡ true) ⊎ (n ≤ can_read rb)
    → Skips rb n (advance rb.size rb.read_index n >>= λ r. some (n, after_read rb n count over r))
unfolding after_read
some_skip rb n count over v pos fits within = record {
  after = after_read rb n count over (slot rb.size (rb.read_index + n));
  returns = rw (advance_lem rb.size rb.read_index n v.small v.read_in fits);
  keeps_valid = after_read-IsValid rb n count over v pos fits within;
  remaining = contents-after_read rb n count over v pos fits within;
  same_size = refl;
  same_buf = refl;
  same_header = refl;
}

-- rb_advance_read_index takes `min count (rb_can_read)` bytes off the front of the queue.
pub advance_read_index-Skips :
    (rb : Rb) (count : ℕ)
    → IsValid rb
    → Skips rb (min count (can_read rb)) (advance_read_index rb count)
unfolding advance_read_index generic_advance_read_index
advance_read_index-Skips rb count v = elim (Bool-cases (count == 0)) [
  | inl z ↦ rw z (no_skip rb k v (omega (arith, ==→eq count 0 z)))
  | inr z ↦ elim (Bool-cases (can_read rb == 0)) [
    | inl e ↦ rw (z, e) (underflow_skip rb k v (omega (arith, ==→eq (can_read rb) 0 e)))
    | inr e ↦
        rw (z, e, read_count-false rb count)
          (some_skip rb k count false v (omega (arith, ==→ne count 0 z, ==→ne (can_read rb) 0 e))
            (omega (arith, can_read-le-size rb v)) (inr (omega arith)))
  ]
]
  where
    k : ℕ
    k = min count (can_read rb)

-- rb_overadvance_read_index moves the read index by `min count size` bytes, readable or not; the
-- queue keeps what lies behind them.
pub overadvance_read_index-Skips :
    (rb : Rb) (count : ℕ)
    → IsValid rb
    → Skips rb (min count rb.size) (overadvance_read_index rb count)
unfolding overadvance_read_index generic_advance_read_index
overadvance_read_index-Skips rb count v = elim (Bool-cases (count == 0)) [
  | inl z ↦ rw z (no_skip rb k v (omega (arith, ==→eq count 0 z)))
  | inr z ↦
      rw (z, read_count-true rb count)
        (some_skip rb k count true v (omega (arith, v, ==→ne count 0 z)) (omega arith) (inl refl))
]
  where
    k : ℕ
    k = min count rb.size

-- rb_drop takes all readable bytes off the queue, and returns how many there were.
pub drop_all-empties :
    (rb : Rb)
    → IsValid rb
    → (after : Rb) × (drop_all rb ≡ some (can_read rb, after))
      × IsValid after
      × (contents after ≡ [])
      × (can_write after ≡ rb.size)
      × (after.size ≡ rb.size)
unfolding drop_all
drop_all-empties rb v =
    let s = advance_read_index-Skips rb (can_read rb) v in
    let e : min (can_read rb) (can_read rb) ≡ can_read rb = omega arith in
    let none_left : contents s.after ≡ [] = s.remaining ∙ all_dropped in
    (
      s.after,
      s.returns ∙ ap (λ k. some (k, s.after)) e,
      s.keeps_valid,
      none_left,
      omega (
        arith,
        ap length none_left,
        length-contents s.after,
        can_read-add-can_write s.after s.keeps_valid,
        s.same_size,
      ),
      s.same_size,
    )
  where
    all_dropped : drop (min (can_read rb) (can_read rb)) (contents rb) ≡ []
    all_dropped =
        drop-tabulate (min (can_read rb) (can_read rb)) (can_read rb) (byte_at rb)
        ∙ ap (λ t. tabulate t (λ i. byte_at rb (min (can_read rb) (can_read rb) + i)))
            {x = can_read rb - min (can_read rb) (can_read rb)} {y = 0} (omega arith)

-- The bytes that are stored behind the write index, `k` of them.
abbrev pub stored_behind : Rb → ℕ → List ℕ
stored_behind rb k = tabulate k (λ j. get_or rb.buf (slot rb.size (rb.write_index + j)) 0)

-- What a move of the write index returns: the count, and a valid buffer whose queue has the `k`
-- bytes stored behind the write index at its end, and whose storage is as it was.
pub record Appends (rb : Rb) (k : ℕ) (out : Moved) : Type 0 where
  pub after : Rb
  pub returns : out ≡ some (k, after)
  pub keeps_valid : IsValid after
  pub appended : contents after ≡ contents rb ++ stored_behind rb k
  pub same_size : after.size ≡ rb.size
  pub same_buf : after.buf ≡ rb.buf
  pub same_header : after.header ≡ rb.header

overflow_append :
    (rb : Rb) (k : ℕ) → IsValid rb → k ≡ 0 → Appends rb k (some (0, count_overflow rb))
unfolding count_overflow can_read
overflow_append rb k v e = record {
  after = count_overflow rb;
  returns = rw e;
  keeps_valid = omega arith;
  appended = rw e (sym (append-nil (contents rb)));
  same_size = refl;
  same_buf = refl;
  same_header = refl;
}

no_append : (rb : Rb) (k : ℕ) → IsValid rb → k ≡ 0 → Appends rb k (some (0, rb))
no_append rb k v e = record {
  after = rb;
  returns = rw e;
  keeps_valid = v;
  appended = rw e (sym (append-nil (contents rb)));
  same_size = refl;
  same_buf = refl;
  same_header = refl;
}

some_append :
    (rb : Rb) (n count : ℕ)
    → IsValid rb
    → 0 < n
    → n ≤ can_write rb
    → Appends rb n
        (advance rb.size rb.write_index n >>= λ w. some (n, after_write rb n count rb.buf w))
unfolding extended after_write
some_append rb n count v pos fits = record {
  after = extended rb n count bytes rb.buf v pos fits supplied v.stored as_stored (λ k h b. refl);
  returns = rw (advance_lem rb.size rb.write_index n v.small v.write_in inside);
  keeps_valid =
      extended-IsValid rb n count bytes rb.buf v pos fits supplied v.stored as_stored
        (λ k h b. refl);
  appended =
      contents-extended rb n count bytes rb.buf v pos fits supplied v.stored as_stored
        (λ k h b. refl)
      ∙ ap (λ t. contents rb ++ t)
          (take-tabulate n n (λ j. get_or rb.buf (slot rb.size (rb.write_index + j)) 0)
            ∙ ap (stored_behind rb) {x = min n n} {y = n} (omega arith));
  same_size = refl;
  same_buf = refl;
  same_header = refl;
}
  where
    bytes : List ℕ
    bytes = stored_behind rb n

    inside : n ≤ rb.size
    inside = omega (arith, can_read-add-can_write rb v)

    supplied : n ≤ length bytes
    supplied =
        omega (arith, length-tabulate n (λ j. get_or rb.buf (slot rb.size (rb.write_index + j)) 0))

    as_stored :
        (k : ℕ) → k < n → get_or rb.buf (slot rb.size (rb.write_index + k)) 0 ≡ get_or bytes k 0
    as_stored k h =
        sym (get_or-tabulate n (λ j. get_or rb.buf (slot rb.size (rb.write_index + j)) 0) k 0 h)

-- rb_advance_write_index appends to the queue the `min count (rb_can_write)` bytes that are stored
-- behind the write index, and leaves the storage as it was.
pub advance_write_index-Appends :
    (rb : Rb) (count : ℕ)
    → IsValid rb
    → Appends rb (min count (can_write rb)) (advance_write_index rb count)
unfolding advance_write_index
advance_write_index-Appends rb count v = elim (Bool-cases (count == 0)) [
  | inl z ↦ rw z (no_append rb k v (omega (arith, ==→eq count 0 z)))
  | inr z ↦ elim (Bool-cases (can_write rb == 0)) [
    | inl e ↦ rw (z, e) (overflow_append rb k v (omega (arith, ==→eq (can_write rb) 0 e)))
    | inr e ↦
        rw (z, e, write_count-eq-min rb count)
          (some_append rb k count v (omega (arith, ==→ne count 0 z, ==→ne (can_write rb) 0 e))
            (omega arith))
  ]
]
  where
    k : ℕ
    k = min count (can_write rb)
