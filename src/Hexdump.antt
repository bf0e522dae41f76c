-- ===== src/Hexdump.antt =====
-- hexdump/hexdump.h: hexdump, by the text that it prints. The conversions %04x and %02x of printf are
-- an argument, as functions of the width and the value, and so is %i of a negative number. A text is
-- the list of its bytes.
pub mod Rows
pub mod Buff
mod Tests
use csnip.Base.{
  ℕ, zero, suc, ◌+◌, ◌%◌, ◌^◌, Option, none, some, List, [], ◌∷◌, ◌++◌, ◌||◌, ◌==◌, ltb, leb,
  if◌then◌else◌, ◌>>=◌, length, take,
}
use csnip.Machine.Int.{ℤ, pos, negsuc}
use csnip.Machine.Array.{put}
use csnip.Machine.Cstring.{c_string}

-- The conversions of printf.
pub record Printf : Type 0 where
  pub hex : ℕ → ℕ → List ℕ
  pub int : ℤ → List ℕ

abbrev pub two_spaces : List ℕ
two_spaces = 32 ∷ 32 ∷ []

-- A byte as the text column shows it.
unfoldable pub printable : ℕ → ℕ
printable c = if ltb c 0x20 || ltb 0x7e c then 46 else c

-- The two stores into buff.
unfoldable pub keep : List ℕ → ℕ → ℕ → List ℕ
keep buff i c = put (put buff (i % 16) (printable c)) (i % 16 + 1) 0

-- The loop that pads; `none` is an `int` that overflows.
unfoldable pub pad_from : ℕ → ℕ → Option (List ℕ)
pad_from zero i = none
pad_from (suc fuel) i =
    let rest = pad_from fuel (i + 1) in
    let more =
      if ltb (i + 1) (2 ^ 31) then (rest >>= λ text. some (32 ∷ 32 ∷ 32 ∷ text)) else none in
    if i % 16 == 0 then some [] else more

abbrev zero_length : List ℕ
zero_length = 32 ∷ 32 ∷ 90 ∷ 69 ∷ 82 ∷ 79 ∷ 32 ∷ 76 ∷ 69 ∷ 78 ∷ 71 ∷ 84 ∷ 72 ∷ 10 ∷ []

abbrev negative_length : List ℕ
negative_length =
    32 ∷ 32 ∷ 78 ∷ 69 ∷ 71 ∷ 65 ∷ 84 ∷ 73 ∷ 86 ∷ 69 ∷ 32 ∷ 76 ∷ 69 ∷ 78 ∷ 71 ∷ 84 ∷ 72 ∷ 58 ∷ 32
    ∷ []

abbrev pub described : Option (List ℕ) → List ℕ
described none = []
described (some desc) = desc ++ (10 ∷ [])

module _ (printf : Printf) where
  -- What is printed in front of byte `i`.
  unfoldable pub line_start : ℕ → List ℕ → List ℕ
  line_start i buff =
      let ended = if i == 0 then [] else two_spaces ++ (c_string buff ++ (10 ∷ [])) in
      if i % 16 == 0 then ended ++ (two_spaces ++ (printf.hex 4 i ++ (32 ∷ []))) else []

  -- The loop from byte `i` on: the text, and buff at its end.
  unfoldable pub dump_bytes : ℕ → List ℕ → List ℕ → List ℕ × List ℕ
  dump_bytes i [] buff = ([], buff)
  dump_bytes i (c ∷ cs) buff =
      let (text, last) = dump_bytes (i + 1) cs (keep buff i c) in
      (line_start i buff ++ ((32 ∷ printf.hex 2 c) ++ text), last)

  unfoldable pub dump_all : List ℕ → List ℕ → Option (List ℕ)
  dump_all unset bytes =
      let (text, buff) = dump_bytes 0 bytes unset in
      pad_from 16 (length bytes) >>= λ padding.
      some (text ++ (padding ++ (two_spaces ++ (c_string buff ++ (10 ∷ [])))))

  -- `unset` is what buff holds at first; `none` is also a load behind the end of `bytes`.
  unfoldable pub hexdump : List ℕ → Option (List ℕ) → List ℕ → ℤ → Option (List ℕ)
  hexdump unset desc bytes (negsuc n) =
      some (described desc ++ (negative_length ++ (printf.int (negsuc n) ++ (10 ∷ []))))
  hexdump unset desc bytes (pos n) =
      let dumped = dump_all unset (take n bytes) >>= λ text. some (described desc ++ text) in
      let some_length = if leb n (length bytes) then dumped else none in
      if n == 0 then some (described desc ++ zero_length) else some_length
