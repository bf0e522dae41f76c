-- ===== src/Rb/Copy/Split.antt =====
-- rb_peek_at for a copy behind a positive offset that goes round the end of the buffer, where the
-- source subtracts the offset from a count that is without it already.
use csnip.Base.{
  ℕ, ◌+◌, ◌-◌, ◌<◌, ◌≤◌, ◌≡◌, ◌∙◌, inr, sym, ap, none, some, List, ◌++◌, arith, length, get_or,
  take, drop, tabulate, tabulate-cong,
}
use csnip.Machine.Word.{slot, add64}
use csnip.Machine.Memory.{memcpy}
use csnip.Rb.State.{Rb, IsValid}
use csnip.Rb.Space.{byte_at, contents, can_read-le-size}
use csnip.Rb.Copy.{copy_out, peek_count_1, peek_count_2, peek_index, after_peek, peek_some, peek_at}
use csnip.Rb.Copy.Rounds.{parts_out}
use csnip.Rb.Copy.Peek.{visible, peek_count-eq, segment}

copy_out_fault :
    (dest buf : List ℕ) (i c1 c2 : ℕ) → length buf < c2 → copy_out dest buf i c1 c2 ≡ none
unfolding copy_out memcpy
copy_out_fault dest buf i c1 c2 h = ground arith

-- The copies that rb_peek_at splits behind a positive offset.
module _ (rb : Rb) (dest : List ℕ) (count offset : ℕ) (v : IsValid rb)
    (room : visible rb count offset ≤ length dest) (skips : 0 < offset)
    (begins : rb.read_index + offset < rb.size)
    (passes : rb.size < rb.read_index + offset + visible rb count offset) where
  split_starts :
      peek_at rb dest count offset ≡ peek_some rb dest count offset (visible rb count offset)
  unfolding peek_at
  split_starts = ground (arith, peek_count-eq rb count offset v)

  split_place :
      peek_index rb.size (add64 rb.read_index offset) (visible rb count offset)
      ≡ some (rb.read_index + offset)
  unfolding peek_index
  split_place = ground (arith, can_read-le-size rb v)

  split_count_1 :
      peek_count_1 rb.size (add64 rb.read_index offset) (visible rb count offset)
      ≡ rb.size - (rb.read_index + offset)
  unfolding peek_count_1
  split_count_1 = ground (arith, can_read-le-size rb v)

  split_count_2_wraps :
      rb.read_index + visible rb count offset < rb.size
      → length rb.buf
        < peek_count_2 rb.size (add64 rb.read_index offset) (visible rb count offset) offset
  unfolding peek_count_2
  split_count_2_wraps short = ground (arith, can_read-le-size rb v)

  split_count_2 :
      rb.size ≤ rb.read_index + visible rb count offset
      → peek_count_2 rb.size (add64 rb.read_index offset) (visible rb count offset) offset
        ≡ rb.read_index + visible rb count offset - rb.size
  unfolding peek_count_2
  split_count_2 long = ground (arith, can_read-le-size rb v)

  -- If the part that goes round is shorter than the offset, the count of the second copy wraps, and
  -- rb_peek_at reads far outside the buffer.
  pub peek_at_split_fault :
      rb.read_index + visible rb count offset < rb.size → peek_at rb dest count offset ≡ none
  unfolding peek_some
  peek_at_split_fault short =
      let far : length rb.buf
          < peek_count_2 rb.size (add64 rb.read_index offset) (visible rb count offset) offset =
        split_count_2_wraps short in
      rw (split_starts, peek_some, split_place, copy_out_fault dest rb.buf _ _ _ far)

  -- If it is not, rb_peek_at reports all the bytes, and delivers `offset` fewer: the end of the
  -- destination is as it was.
  pub peek_at_split_short :
      rb.size ≤ rb.read_index + visible rb count offset
      → peek_at rb dest count offset
        ≡ some (
          visible rb count offset,
          take (visible rb count offset - offset) (drop offset (contents rb))
              ++ drop (visible rb count offset - offset) dest,
          after_peek rb (visible rb count offset) count,
        )
  unfolding peek_some
  peek_at_split_short long =
      rw (split_starts, peek_some, split_place, split_count_1, split_count_2 long)
        (rw
          (parts_out rb.size place (rb.size - place) (rb.read_index + k - rb.size) rb.buf v.stored
            (omega arith) (omega (arith, can_read-le-size rb v)) (inr (omega arith)) (k - offset)
            dest (omega arith) (omega arith))
          (ap (λ t. some (k, t ++ drop (k - offset) dest, after_peek rb k count)) same_bytes))
    where
      k : ℕ
      k = visible rb count offset

      place : ℕ
      place = rb.read_index + offset

      same_bytes :
          tabulate (k - offset) (λ j. get_or rb.buf (slot rb.size (place + j)) 0)
          ≡ take (k - offset) (drop offset (contents rb))
      same_bytes =
          tabulate-cong (k - offset) _ (λ j. byte_at rb (offset + j))
            (λ j b. ap (λ t. get_or rb.buf (slot rb.size t) 0) (omega arith))
          ∙ sym (segment rb (k - offset) offset (omega arith))
