-- ===== src/Rb/Search.antt =====
-- rb/rb.h: rb_find_byte and rb_find_byte_sequence. The loops take fuel, one round more than there are
-- readable bytes; `none` is a fault or fuel that ran out. A result is the value returned, the offset
-- stored for the caller and the new `rb_t`.
pub mod Byte
pub mod Occurs
pub mod Sequence
mod Tests
use csnip.Base.{
  ℕ, zero, suc, ◌+◌, Bool, true, false, ◌&&◌, Option, none, some, List, [], ◌∷◌, ◌==◌, ltb, leb,
  if◌then◌else◌, ◌>>=◌, length, get_or, take, drop,
}
use csnip.Machine.Array.{load}
use csnip.Machine.Word.{add64}
use csnip.Rb.State.{Rb}
use csnip.Rb.Space.{can_read}
use csnip.Rb.Copy.{peek_at, peek_byte_at}

abbrev pub Found : Type 0
Found = Option (Bool × ℕ × Rb)

-- `c` is the content of the variable that each byte is copied to.
unfoldable pub find_byte_loop : ℕ → Rb → ℕ → ℕ → List ℕ → Found
find_byte_loop zero rb byte off c = none
find_byte_loop (suc fuel) rb byte off c = peek_byte_at rb c off >>= λ (got, c', rb').
    let rest = find_byte_loop fuel rb' byte (add64 off 1) c' in
    if got == 0
    then some (false, 0, rb')
    else if get_or c' 0 0 == byte
    then some (true, off, rb')
    else rest

unfoldable pub find_byte : Rb → ℕ → Found
find_byte rb byte = find_byte_loop (suc (can_read rb)) rb byte 0 (0 ∷ [])

abbrev pub same_bytes : List ℕ → List ℕ → Bool
same_bytes [] [] = true
same_bytes [] (y ∷ ys) = false
same_bytes (x ∷ xs) [] = false
same_bytes (x ∷ xs) (y ∷ ys) = (x == y) && same_bytes xs ys

-- !memcmp(a + i, b, n)
unfoldable pub memcmp_equal : List ℕ → ℕ → List ℕ → ℕ → Option Bool
memcmp_equal a i b n =
    if leb (i + n) (length a) && leb n (length b)
    then some (same_bytes (take n (drop i a)) (take n b))
    else none

-- What a comparison at one offset tells the loop: found, fewer than `count` bytes left (the jump to
-- `_not_found`), or go on.
pub data Outcome : Type 0 where
  matched missing differs : Outcome

-- The inner block, entered where the first byte fits. `compare` is the content of the compare
-- buffer, which keeps what a round leaves in it.
unfoldable pub compare_at : Rb → List ℕ → ℕ → ℕ → ℕ → List ℕ → Option (Outcome × List ℕ × Rb)
compare_at rb pattern pattern_offset count off compare =
    peek_at rb compare count off >>= λ (k, compare', rb').
    let test = memcmp_equal pattern pattern_offset compare' count >>= λ same.
    some ((if same then matched else differs), compare', rb') in
    if k == count then test else some (missing, compare', rb')

unfoldable pub find_sequence_loop : ℕ → Rb → List ℕ → ℕ → ℕ → ℕ → List ℕ → List ℕ → Found
find_sequence_loop zero rb pattern pattern_offset count off c compare = none
find_sequence_loop (suc fuel) rb pattern pattern_offset count off c compare =
    peek_byte_at rb c off >>= λ (got, c', rb').
    let skip = find_sequence_loop fuel rb' pattern pattern_offset count (add64 off 1) c' compare in
    let inner = compare_at rb' pattern pattern_offset count off compare >>= λ (o, compare', rb'').
    elim o [
      | matched ↦ some (true, off, rb'')
      | missing ↦ some (false, 0, rb'')
      | differs ↦
          find_sequence_loop fuel rb'' pattern pattern_offset count (add64 off 1) c' compare'
    ] in
    let test =
      load pattern pattern_offset >>= λ first. if get_or c' 0 0 == first then inner else skip in
    if got == 0 then some (false, 0, rb') else test

-- `garbage` is what the compare buffer holds before it is first written.
unfoldable pub find_byte_sequence : Rb → List ℕ → ℕ → ℕ → List ℕ → Found
find_byte_sequence rb pattern pattern_offset count garbage =
    find_sequence_loop (suc (can_read rb)) rb pattern pattern_offset count 0 (0 ∷ []) garbage
