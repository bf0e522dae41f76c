-- ===== src/Machine/Word.antt =====
-- `uint64_t` arithmetic: sums, differences and products taken mod 2^64, and the remainder, which
-- faults at 0.
use native.Mathlib.Nat.{mod-eq_of_lt, mod-eq-sub-mod}
use csnip.Base.{
  ℕ, ◌+◌, ◌-◌, ◌*◌, ◌%◌, ◌^◌, ◌<◌, ◌≡◌, Option, none, some, arith, ◌==◌, ltb, if◌then◌else◌,
  Bool-cases, inl, inr, ltb→lt, ltb→le,
}

abbrev pub word : ℕ
word = 2 ^ 64

abbrev pub add64 : ℕ → ℕ → ℕ
add64 a b = (a + b) % word

abbrev pub sub64 : ℕ → ℕ → ℕ
sub64 a b = (a + word - b) % word

abbrev pub mul64 : ℕ → ℕ → ℕ
mul64 a b = a * b % word

-- a % b
unfoldable pub rem : ℕ → ℕ → Option ℕ
rem a b = if b == 0 then none else some (a % b)

-- The place of position `x` in a ring of `n` places, for `x` in the first or the second round.
abbrev pub slot : ℕ → ℕ → ℕ
slot n x = if ltb x n then x else x - n

pub mod-slot : (n x : ℕ) → x < n + n → x % n ≡ slot n x
mod-slot n x h = elim (Bool-cases (ltb x n)) [
  | inl e ↦ ground (arith, mod-eq_of_lt {n = x} {m = n} (ltb→lt x n e))
  | inr e ↦ ground (
    arith,
    mod-eq-sub-mod {n = x} {m = n} (ltb→le x n e),
    mod-eq_of_lt {n = x - n} {m = n} (omega (arith, ltb→le x n e)),
  )
]

pub rem-slot : (x n : ℕ) → x < n + n → rem x n ≡ some (slot n x)
unfolding rem
rem-slot x n h = ground (arith, mod-slot n x h)
