-- ===== src/Rb/Float.antt =====
-- rb/rb_float.h: floats as groups of sizeof(float) bytes, moved whole or not at all.
pub mod Whole
mod Tests
use csnip.Base.{ℕ, Option, some, List, leb, ltb, if◌then◌else◌}
use csnip.Machine.Word.{add64}
use csnip.Rb.State.{Rb, count_underflow, count_overflow}
use csnip.Rb.Space.{can_read, can_write}
use csnip.Rb.Copy.{Copied, read, peek, peek_at, write}
use csnip.Rb.Advance.{Moved, advance_read_index}

-- sizeof(float)
abbrev pub float_size : ℕ
float_size = 4

unfoldable pub read_float : Rb → List ℕ → Copied
read_float rb dest =
    if leb float_size (can_read rb)
    then read rb dest float_size
    else some (0, dest, count_underflow rb)

unfoldable pub peek_float : Rb → List ℕ → Copied
peek_float rb dest =
    if leb float_size (can_read rb)
    then peek rb dest float_size
    else some (0, dest, count_underflow rb)

unfoldable pub peek_float_at : Rb → List ℕ → ℕ → Copied
peek_float_at rb dest offset =
    if ltb (can_read rb) (add64 offset float_size)
    then some (0, dest, count_underflow rb)
    else peek_at rb dest float_size offset

unfoldable pub skip_float : Rb → Moved
skip_float rb =
    if leb float_size (can_read rb)
    then advance_read_index rb float_size
    else some (0, count_underflow rb)

unfoldable pub write_float : Rb → List ℕ → Moved
write_float rb source =
    if leb float_size (can_write rb)
    then write rb source float_size
    else some (0, count_overflow rb)
