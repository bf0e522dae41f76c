-- ===== src/Rb/Region.antt =====
-- rb/rb.h: rb_region_t and the four functions that describe the readable and the writable space
-- without copying. A pointer into the buffer is its index there.
pub mod Bytes
pub mod Fill
use csnip.Base.{ℕ, ◌+◌, ltb, if◌then◌else◌}
use csnip.Machine.Word.{add64, sub64}
use csnip.Rb.State.{Rb}
use csnip.Rb.Space.{can_read, can_write}

pub record Region : Type 0 where
  pub buffer : ℕ
  pub size : ℕ

-- The second element keeps its pointer where there is one stretch only: `old` is what it held.
unfoldable pub get_read_regions : Rb → Region → Region × Region
get_read_regions rb old =
    let linear_end = add64 rb.read_index (can_read rb) in
    if ltb rb.size linear_end
    then (
      record { buffer = rb.read_index; size = sub64 rb.size rb.read_index },
      record { buffer = 0; size = sub64 linear_end rb.size },
    )
    else (record { buffer = rb.read_index; size = can_read rb }, record old { size = 0 })

unfoldable pub get_write_regions : Rb → Region → Region × Region
get_write_regions rb old =
    let linear_end = add64 rb.write_index (can_write rb) in
    if ltb rb.size linear_end
    then (
      record { buffer = rb.write_index; size = sub64 rb.size rb.write_index },
      record { buffer = 0; size = sub64 linear_end rb.size },
    )
    else (record { buffer = rb.write_index; size = can_write rb }, record old { size = 0 })

unfoldable pub get_next_read_region : Rb → Region
get_next_read_region rb =
    let linear_end = add64 rb.read_index (can_read rb) in
    if ltb rb.size linear_end
    then record { buffer = rb.read_index; size = sub64 rb.size rb.read_index }
    else record { buffer = rb.read_index; size = can_read rb }

unfoldable pub get_next_write_region : Rb → Region
get_next_write_region rb =
    let linear_end = add64 rb.write_index (can_write rb) in
    if ltb rb.size linear_end
    then record { buffer = rb.write_index; size = sub64 rb.size rb.write_index }
    else record { buffer = rb.write_index; size = can_write rb }
