-- ===== src/Rb/Space.antt =====
-- rb/rb.h: rb_can_read, rb_can_write, and the bytes that a reader has before it.
use csnip.Base.{
  ℕ, ◌+◌, ◌≤◌, ◌≡◌, sym, subst, ap, List, [], arith, ◌==◌, ltb, if◌then◌else◌, get_or, tabulate,
  length, length-tabulate,
}
use csnip.Machine.Word.{add64, sub64, slot}
use csnip.Rb.State.{Rb, IsValid, reset}

unfoldable pub can_read : Rb → ℕ
can_read rb =
    if r == w
    then (if rb.last_was_write then rb.size else 0)
    else if ltb r w
    then sub64 w r
    else sub64 (add64 w rb.size) r
  where
    r : ℕ
    r = rb.read_index

    w : ℕ
    w = rb.write_index

unfoldable pub can_write : Rb → ℕ
can_write rb =
    if r == w
    then (if rb.last_was_write then 0 else rb.size)
    else if ltb r w
    then add64 (sub64 rb.size w) r
    else sub64 r w
  where
    r : ℕ
    r = rb.read_index

    w : ℕ
    w = rb.write_index

-- The byte `i` places behind the read index, going round at the end of the buffer.
abbrev pub byte_at : Rb → ℕ → ℕ
byte_at rb i = get_or rb.buf (slot rb.size (rb.read_index + i)) 0

-- The readable bytes, oldest first: the queue that the buffer stands for.
abbrev pub contents : Rb → List ℕ
contents rb = tabulate (can_read rb) (byte_at rb)

pub length-contents : (rb : Rb) → length (contents rb) ≡ can_read rb
length-contents rb = length-tabulate (can_read rb) (byte_at rb)

-- The readable and the writable space make up the buffer, so that no sum in either function wraps.
pub can_read-add-can_write : (rb : Rb) → IsValid rb → can_read rb + can_write rb ≡ rb.size
unfolding can_read can_write
can_read-add-can_write rb v = ground arith

pub can_read-le-size : (rb : Rb) → IsValid rb → can_read rb ≤ rb.size
can_read-le-size rb v = omega (arith, can_read-add-can_write rb v)

-- The write index stands `can_read` places behind the read index.
pub write_index-eq-slot :
    (rb : Rb) → IsValid rb → rb.write_index ≡ slot rb.size (rb.read_index + can_read rb)
unfolding can_read
write_index-eq-slot rb v = ground arith

-- A reset buffer has nothing to read and all of its space to write.
pub reset_empties :
    (rb : Rb)
    → IsValid rb
    → IsValid (reset rb) × (contents (reset rb) ≡ []) × (can_write (reset rb) ≡ rb.size)
unfolding can_read can_write reset
reset_empties rb v = ground arith

-- A buffer that differs in its counters alone is as valid and holds the same queue.
pub stats-same :
    (rb after : Rb)
    → record after { stats = rb.stats } ≡ rb
    → IsValid rb
    → IsValid after × (contents after ≡ contents rb) × (after.size ≡ rb.size)
unfolding can_read
stats-same rb after e v =
    let w : IsValid (record after { stats = rb.stats }) = subst IsValid (sym e) v in
    (
      record {
        nonempty = w.nonempty;
        small = w.small;
        stored = w.stored;
        read_in = w.read_in;
        write_in = w.write_in;
      },
      ap contents e,
      ap (λ (r : Rb). r.size) e,
    )
