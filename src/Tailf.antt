-- ===== src/Tailf.antt =====
-- tailf/tailf.c: walkFile and printLine, one round of the loop of main. The file is one of
-- Machine/Stdio that stays as it is during the round; printed is what write is given.
pub mod LastLine
mod Tests
use csnip.Base.{
  ℕ, zero, suc, ◌+◌, ◌-◌, Bool, true, false, ◌&&◌, Option, none, some, List, [], ◌++◌, ◌==◌, ltb,
  if◌then◌else◌, length, take, drop,
}
use csnip.Machine.Stdio.{InFile, fgetc, fseek_set}

abbrev pub buff_size : ℕ
buff_size = 4096

-- The reads of printLine from a place on, up to the one that gives nothing; `limit` is where the device
-- begins to fail. It runs on fuel.
unfoldable pub read_lines : ℕ → List ℕ → List ℕ
read_lines zero left = []
read_lines (suc fuel) left =
    let rest = read_lines fuel (drop buff_size left) in
    if length left == 0 then [] else take buff_size left ++ rest

unfoldable pub print_line : InFile → ℕ → List ℕ
print_line f start = read_lines (suc (length f.bytes)) (drop start (take f.limit f.bytes))

abbrev pub is_newline : Option ℕ → Bool
is_newline none = false
is_newline (some c) = c == 10

-- The loop of walkFile at `index`, which fposition equals: both are counted down together. It gives
-- countlines and the place behind fposition, and the seek to -1 fails.
unfoldable pub walk_loop : ℕ → InFile → ℕ → ℕ → ℕ → ℕ × ℕ
walk_loop zero f end nlines countlines =
    let (c, f') = fgetc f in
    let found = is_newline c && ltb 1 (end - 0) in
    let last : ℕ × ℕ = (if found then suc countlines else countlines, 0) in
    if found && (suc countlines == nlines) then (suc countlines, 1) else last
walk_loop (suc index) f end nlines countlines =
    let (c, f') = fgetc f in
    let found = is_newline c && ltb 1 (end - suc index) in
    let rest =
      walk_loop index (fseek_set f' index) end nlines
        (if found then suc countlines else countlines) in
    if found && (suc countlines == nlines) then (suc countlines, suc (suc index)) else rest

-- walkFile, with prev_end: its new value, whether it tells of a truncated file, and what is printed.
unfoldable pub walk_file : ℕ → InFile → ℕ → ℕ × Bool × List ℕ
walk_file prev_end f nlines =
    let end = length f.bytes in
    let (countlines, start) = walk_loop end (fseek_set f end) end nlines 0 in
    let printed = if ltb countlines 1 then [] else print_line f start in
    let walked : ℕ × Bool × List ℕ = (end, ltb end prev_end, printed) in
    if end == prev_end then (prev_end, false, []) else walked
