-- ===== src/Rb/Threads/Race.antt =====
-- An order of steps in which the reader stores `last_was_write` after the writer, over what the writer
-- stored there.
use csnip.Base.{ℕ, ◌+◌, ◌<◌, ◌≤◌, ◌≡◌, refl, ap, some, List, arith, length}
use csnip.Machine.Word.{slot}
use csnip.Rb.State.{Rb, IsValid}
use csnip.Rb.Space.{can_read, can_write, can_read-add-can_write, can_read-le-size}
use csnip.Rb.Copy.{copy_count_1, copy_count_2, copy_in}
use csnip.Rb.Copy.Rounds.{ring_in, next_index_lem}
use csnip.Rb.Copy.Read.{read_count-false}
use csnip.Rb.Copy.Write.{write_count-eq-min}
use csnip.Rb.Threads.{
  idle, planned, moved, Shared, read_begin, read_move, write_begin, write_move, Reach, here, next,
  write_flag_stored,
}

abbrev pub at_rest : Rb → Shared
at_rest rb = record { rb = rb; reader = idle; writer = idle }

-- A reader takes `n` bytes, fewer than there are; a writer then has room for `n` more than before.
module _ (rb : Rb) (n : ℕ) (source : List ℕ) (v : IsValid rb) (some_read : 0 < n)
    (some_left : n < can_read rb) (filling : length source ≡ can_write rb + n) where
  r : ℕ
  r = slot rb.size (rb.read_index + n)

  after_index : Rb
  after_index = record rb { read_index = r }

  room : can_write after_index ≡ length source
  unfolding after_index r can_read can_write
  room = ground arith

  fits : length source ≤ rb.size
  fits = omega (arith, can_read-add-can_write rb v)

  w : ℕ
  w = slot rb.size (rb.write_index + length source)

  count : ℕ
  count = length source

  stored :
      (b : List ℕ) × (copy_in rb.buf source rb.write_index
          (copy_count_1 rb.size rb.write_index count)
          (copy_count_2 rb.size rb.write_index count)
        ≡ some b)
  unfolding count
  stored =
      let (b, e, _, _) =
        ring_in rb.size rb.write_index count v.small v.write_in fits rb.buf v.stored source
          (omega arith) in
      (b, e)

  read_moved : Shared
  read_moved = record { rb = after_index; reader = moved n n; writer = idle }

  reading : Reach (at_rest rb) read_moved
  unfolding read_moved after_index r
  reading =
      next
        (next here (
          read_begin n refl (omega arith) (omega arith) (
            ap (λ k. record (at_rest rb) { reader = planned n k }) {x = n}
              (omega (arith, read_count-false rb n)))))
        (read_move n n r refl (next_index_lem rb.size rb.read_index n v.small v.read_in inside)
          refl)
    where
      inside : n ≤ rb.size
      inside = omega (arith, can_read-le-size rb v)

  written : Rb
  written = record after_index { buf = stored.0; write_index = w }

  write_moved : Shared
  write_moved = record { rb = written; reader = moved n n; writer = moved count count }

  writing : Reach (at_rest rb) write_moved
  unfolding write_moved written read_moved after_index r w count
  writing =
      next
        (next reading (
          write_begin count refl (omega arith) (omega (arith, room)) (
            ap (λ k. record read_moved { writer = planned count k }) {x = count}
              (omega (arith, room, write_count-eq-min after_index count)))))
        (write_move count count w source stored.0 refl stored.1
          (next_index_lem rb.size rb.write_index count v.small v.write_in fits) refl)

  -- The writer's call is over, and the reader's waits for its last store.
  full : Rb
  full = write_flag_stored written count count

  write_over : Shared
  write_over = record { rb = full; reader = moved n n; writer = idle }
