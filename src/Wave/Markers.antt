-- ===== src/Wave/Markers.antt =====
-- wavecuepoint/wavecuepoint.c: the loops of addMarkersToWaveFile that read the marker file, one
-- location a line. A `char` is signed, so that the byte 255 is EOF as a char. The loops take fuel.
pub mod Lines
pub mod Parse
pub mod Ends
use csnip.Base.{
  ℕ, zero, suc, ◌+◌, ◌-◌, ◌*◌, ◌^◌, ◌<◌, ◌≤◌, Bool, true, false, not, ◌&&◌, ◌||◌, Option, none,
  some, List, [], ◌∷◌, ◌++◌, ◌==◌, ltb, leb, if◌then◌else◌, length,
}
use csnip.Machine.Run.{Run, ok, failed, fault, spinning, ◌>>=◌}
use csnip.Machine.Stdio.{InFile, fgetc, ungetc}

-- The char that an `int` of fgetc is stored in.
abbrev pub as_char : Option ℕ → ℕ
as_char none = 255
as_char (some c) = c

-- The tests of a char against each of '0' to '9'.
abbrev pub is_digit : ℕ → Bool
is_digit c = leb b'0' c && leb c b'9'

-- After '\r': the byte behind it is taken too if it is '\n' (or EOF as a char).
unfoldable pub skip_newline : InFile → InFile
skip_newline f =
    let (p, f') = fgetc f in
    if not (as_char p == 255) && not (as_char p == b'\n') then ungetc f' else f'

-- The loop over a line; `digits` is cueLocationString up to charIndex.
unfoldable pub read_line : ℕ → InFile → List ℕ → Run (List ℕ × InFile)
read_line zero f digits = spinning
read_line (suc fuel) f digits =
    let (got, f') = fgetc f in
    let c = as_char got in
    let room = is_digit c && ltb (length digits) 10 in
    let again = read_line fuel f' (if room then digits ++ (c ∷ []) else digits) in
    if f'.at_end
    then ok (digits, f')
    else if c == b'\r'
    then ok (digits, skip_newline f')
    else if c == b'\n'
    then ok (digits, f')
    else again

-- strtol(digits, NULL, 10)
abbrev pub value_from : ℕ → List ℕ → ℕ
value_from n [] = n
value_from n (c ∷ cs) = value_from (n * 10 + (c - b'0')) cs

-- What a line adds to cueLocations[1000].
unfoldable pub add_location : List ℕ → List ℕ → Run (List ℕ)
add_location locations digits =
    if length digits == 0
    then ok locations
    else if ltb (value_from 0 digits) (2 ^ 32 - 1)
    then (if ltb (length locations) 1000
        then ok (locations ++ (value_from 0 digits ∷ []))
        else fault)
    else ok locations

unfoldable pub read_markers : ℕ → InFile → List ℕ → Run (List ℕ)
read_markers zero f locations = spinning
read_markers (suc fuel) f locations =
    let line = read_line (suc (suc (length f.bytes))) f [] >>= λ (digits, f').
    add_location locations digits >>= λ more. read_markers fuel f' more in
    if f.at_end then ok locations else line
