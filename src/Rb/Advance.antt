-- ===== src/Rb/Advance.antt =====
-- rb/rb.h: the operations that move an index and copy nothing: rb_advance_read_index,
-- rb_overadvance_read_index, rb_advance_write_index, rb_drop, rb_skip_byte and the aliases rb_skip,
-- rb_skip_all and rb_overskip.
pub mod Moves
use csnip.Base.{ℕ, Bool, true, false, not, ◌&&◌, Option, some, ◌==◌, ltb, if◌then◌else◌, ◌>>=◌}
use csnip.Machine.Word.{add64, sub64, rem}
use csnip.Rb.State.{Rb, count_underflow, count_overflow}
use csnip.Rb.Space.{can_read, can_write}
use csnip.Rb.Copy.{read_count, after_read, write_count, after_write}

abbrev pub Moved : Type 0
Moved = Option (ℕ × Rb)

-- The index `n` places behind `index`.
unfoldable pub advance : ℕ → ℕ → ℕ → Option ℕ
advance size index n =
    rem (if ltb size (add64 index n) then sub64 (add64 index n) size else add64 index n) size

unfoldable pub generic_advance_read_index : Rb → ℕ → Bool → Moved
generic_advance_read_index rb count over =
    if count == 0
    then some (0, rb)
    else if not over && (can_read rb == 0)
    then some (0, count_underflow rb)
    else let n = read_count rb count over in
      do r ← advance rb.size rb.read_index n; some (n, after_read rb n count over r)

unfoldable pub advance_read_index : Rb → ℕ → Moved
advance_read_index rb count = generic_advance_read_index rb count false

unfoldable pub overadvance_read_index : Rb → ℕ → Moved
overadvance_read_index rb count = generic_advance_read_index rb count true

unfoldable pub drop_all : Rb → Moved
drop_all rb = advance_read_index rb (can_read rb)

unfoldable pub skip_byte : Rb → Moved
skip_byte rb = advance_read_index rb 1

unfoldable pub skip : Rb → ℕ → Moved
skip rb count = advance_read_index rb count

unfoldable pub skip_all : Rb → Moved
skip_all rb = drop_all rb

unfoldable pub overskip : Rb → ℕ → Moved
overskip rb count = overadvance_read_index rb count

unfoldable pub advance_write_index : Rb → ℕ → Moved
advance_write_index rb count =
    if count == 0
    then some (0, rb)
    else if can_write rb == 0
    then some (0, count_overflow rb)
    else let n = write_count rb count in
      do w ← advance rb.size rb.write_index n; some (n, after_write rb n count rb.buf w)
