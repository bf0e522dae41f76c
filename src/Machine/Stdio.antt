-- ===== src/Machine/Stdio.antt =====
-- Files as <stdio.h> shows them. An input file is its bytes, the position, and the two indicators;
-- the device gives the bytes before `limit` and an error for one behind it. An output file is what was
-- written, on a device with room for so many bytes more.
pub mod Place
pub mod Onwards
use csnip.Base.{
  ℕ, zero, suc, ◌+◌, ◌-◌, ◌<◌, ◌≤◌, ◌≡◌, refl, ap, subst, Bool, true, false, Option, none, some,
  List, [], ◌∷◌, ◌++◌, arith, ltb, leb, if◌then◌else◌, length, take, drop, append_assoc, lt→ltb,
  le→leb, length-append,
}

pub record InFile : Type 0 where
  pub bytes : List ℕ
  pub limit : ℕ
  pub pos : ℕ
  pub at_end : Bool
  pub error : Bool

pub record OutFile : Type 0 where
  pub written : List ℕ
  pub room : ℕ

-- A file just opened.
abbrev pub opened : List ℕ → ℕ → InFile
opened bytes limit = record { bytes = bytes; limit = limit; pos = 0; at_end = false; error = false }

-- `none` is EOF.
unfoldable pub fgetc : InFile → Option ℕ × InFile
fgetc f = elim (drop f.pos f.bytes) [
  | [] ↦ (none, record f { at_end = true })
  | c ∷ rest ↦
      if ltb f.pos f.limit
      then (some c, record f { pos = suc f.pos })
      else (none, record f { error = true })
]

-- ungetc of the byte read last
unfoldable pub ungetc : InFile → InFile
ungetc f = record f { pos = f.pos - 1; at_end = false }

-- fread into the whole of a buffer, by calls of fgetc up to the first EOF
unfoldable pub fread : InFile → List ℕ → List ℕ × InFile
fread f [] = ([], f)
fread f (d ∷ buffer) =
    let (got, f') = fgetc f in
    elim got [
      | none ↦ (d ∷ buffer, f')
      | some c ↦ let (rest, f'') = fread f' buffer in (c ∷ rest, f'')
    ]

-- fseek to a place, and by a number of bytes onwards
unfoldable pub fseek_set : InFile → ℕ → InFile
fseek_set f place = record f { pos = place; at_end = false }

unfoldable pub fseek_on : InFile → ℕ → InFile
fseek_on f n = record f { pos = f.pos + n; at_end = false }

-- fseek back, which fails before the start
unfoldable pub fseek_back : InFile → ℕ → InFile
fseek_back f n = if leb n f.pos then record f { pos = f.pos - n; at_end = false } else f

-- fwrite, and whether all of it was written
unfoldable pub fwrite : OutFile → List ℕ → Bool × OutFile
fwrite out xs =
    if leb (length xs) out.room
    then (true, record { written = out.written ++ xs; room = out.room - length xs })
    else (false, record { written = out.written ++ take out.room xs; room = 0 })
