-- ===== src/Machine/Int.antt =====
-- The `int` of the C code: its sign, and the doubling that may overflow.
use csnip.Base.{ℕ, ◌*◌, ◌^◌, Option, none, some, leb, if◌then◌else◌}

-- `pos n` is n, `negsuc n` is -n - 1.
pub data ℤ : Type 0 where
  pos negsuc : ℕ → ℤ

-- i * 2 for an `int` that is not negative; an overflow faults.
unfoldable pub double : ℕ → Option ℕ
double i = if leb (2 ^ 31) (i * 2) then none else some (i * 2)
