-- ===== src/Wave/Output.antt =====
-- wavecuepoint/wavecuepoint.c: the cue points that addMarkersToWaveFile makes, the file that it
-- writes, and the copying of chunks. The loop over 1024 bytes takes fuel.
pub mod Copy
pub mod Marks
pub mod Image
pub mod Ends
pub mod Sizes
use csnip.Base.{
  ℕ, zero, suc, ◌+◌, ◌-◌, ◌*◌, ◌%◌, ◌^◌, ◌<◌, ◌≤◌, ◌≡◌, Bool, true, false, not, ◌&&◌, Option, none,
  some, List, [], ◌∷◌, ◌++◌, ◌==◌, ltb, leb, if◌then◌else◌, length, get_or, take, drop,
}
use csnip.Machine.Run.{Run, ok, failed, fault, spinning, ◌>>=◌}
use csnip.Machine.Stdio.{InFile, OutFile, opened, fseek_set, fwrite}
use csnip.Wave.Endian.{Host, uint32_to_bytes, bytes_to_uint32}
use csnip.Wave.Markers.{read_markers}
use csnip.Wave.Chunks.{Env, Location, Scan, data_id, cue, read_new, read_wave}

unfoldable pub cue_point : Host → ℕ → ℕ → List ℕ
cue_point host i location =
    uint32_to_bytes host (i + 1)
    ++ (uint32_to_bytes host 0
        ++ (data_id
            ++ (uint32_to_bytes host 0
                ++ (uint32_to_bytes host 0 ++ uint32_to_bytes host location))))

-- The cue points of the locations, the first of them the one with index `i`.
unfoldable pub cue_points : Host → ℕ → List ℕ → List (List ℕ)
cue_points host i [] = []
cue_points host i (location ∷ locations) =
    cue_point host i location ∷ cue_points host (suc i) locations

-- The bytes of cueChunk before its cue points.
unfoldable pub cue_header : Host → ℕ → List ℕ
cue_header host count = cue ++ (uint32_to_bytes host (4 + 24 * count) ++ uint32_to_bytes host count)

-- x + y on uint32_t
abbrev pub add32 : ℕ → ℕ → ℕ
add32 x y = (x + y) % 2 ^ 32

-- fileDataSize with a chunk of `size` bytes more and its padding
unfoldable pub add_padded : ℕ → ℕ → ℕ
add_padded total size = if size % 2 == 0 then add32 total size else add32 (add32 total size) 1

unfoldable pub add_others : ℕ → List Location → ℕ
add_others total [] = total
add_others total (l ∷ ls) = add_others (add_padded total l.size) ls

unfoldable pub file_data_size : Scan → ℕ → ℕ
file_data_size s count =
    let with_format = add_padded (add32 (add32 0 4) 24) s.extra.size in
    let with_chunks = add_others (add_padded with_format s.samples.size) s.others in
    add32 (add32 (add32 (add32 with_chunks 4) 4) 4) (24 * count)

-- A write, with the exit if not all was written.
unfoldable pub put_bytes : OutFile → List ℕ → Run OutFile
put_bytes out xs = let (all, out') = fwrite out xs in if all then ok out' else failed

unfoldable pub put_padding : OutFile → ℕ → Run OutFile
put_padding out size = if size % 2 == 0 then ok out else put_bytes out (0 ∷ [])

-- The loop over the cue points, of which `n` are still to be written; a load behind the last is a fault.
unfoldable pub put_points : ℕ → OutFile → List (List ℕ) → Run OutFile
put_points zero out ps = ok out
put_points (suc n) out [] = fault
put_points (suc n) out (p ∷ ps) = put_bytes out p >>= λ out'. put_points n out' ps

module _ (env : Env) where
  -- The loop of writeChunkLocationFromInputFileToOutputFile, and its rest below 1024 bytes.
  unfoldable pub copy_bytes : ℕ → ℕ → InFile → OutFile → Run (InFile × OutFile)
  copy_bytes zero remaining f out = spinning
  copy_bytes (suc fuel) remaining f out =
      let piece = read_new env f 1024 >>= λ (buffer, f').
      put_bytes out buffer >>= λ out'. copy_bytes fuel (remaining - 1024) f' out' in
      let rest = read_new env f remaining >>= λ (buffer, f').
      put_bytes out buffer >>= λ out'. ok (f', out') in
      if leb 1024 remaining then piece else if ltb 0 remaining then rest else ok (f, out)

  unfoldable pub copy_chunk : Location → InFile → OutFile → Run (InFile × OutFile)
  copy_chunk l f out = copy_bytes (suc l.size) l.size (fseek_set f l.start) out

  -- A chunk and its padding.
  unfoldable pub copy_padded : Location → InFile → OutFile → Run (InFile × OutFile)
  copy_padded l f out =
      copy_chunk l f out >>= λ (f', out'). put_padding out' l.size >>= λ out''. ok (f', out'')

  unfoldable pub copy_others : List Location → InFile → OutFile → Run (InFile × OutFile)
  copy_others [] f out = ok (f, out)
  copy_others (l ∷ ls) f out = copy_padded l f out >>= λ (f', out'). copy_others ls f' out'

  unfoldable pub copy_extra : Location → InFile → OutFile → Run (InFile × OutFile)
  copy_extra l f out = if ltb 0 l.size then copy_padded l f out else ok (f, out)

  -- The header with its dataSize set.
  unfoldable pub new_header : List ℕ → ℕ → List ℕ
  new_header header size = take 4 header ++ (uint32_to_bytes env.host size ++ drop 8 header)

  -- The writes, with the input file as the loop over the chunks left it.
  unfoldable pub write_from : InFile → List ℕ → List ℕ → Scan → List ℕ → OutFile → Run OutFile
  write_from f header chunk s locations out =
      let count = length locations in
      put_bytes out (new_header header (file_data_size s count)) >>= λ o1.
      put_bytes o1 chunk >>= λ o2. copy_extra s.extra f o2 >>= λ (f1, o3).
      put_bytes o3 (cue_header env.host count) >>= λ o4.
      put_points (bytes_to_uint32 env.host (uint32_to_bytes env.host count)) o4
        (cue_points env.host 0 locations)
      >>= λ o5. copy_others s.others f1 o5 >>= λ (f2, o6).
          copy_padded s.samples f2 o6 >>= λ (f3, o7). ok o7

  unfoldable pub write_output : List ℕ → List ℕ → Scan → List ℕ → OutFile → Run OutFile
  write_output header chunk s locations out = write_from s.input header chunk s locations out

  -- A file that cannot be opened is `none`.
  unfoldable pub write_opened : Option OutFile → List ℕ → List ℕ → Scan → List ℕ → Run OutFile
  write_opened none header chunk s locations = failed
  write_opened (some out) header chunk s locations = write_output header chunk s locations out

  -- What follows the test for the format chunk, which is the last argument.
  unfoldable pub mark_chunks :
      InFile → Option OutFile → List ℕ → Scan → Option (List ℕ) → Run OutFile
  mark_chunks markers output header s none = failed
  mark_chunks markers output header s (some chunk) =
      read_markers (suc (suc (length markers.bytes))) markers [] >>= λ locations.
      let made =
        if env.given (24 * length locations)
        then write_opened output header chunk s locations
        else failed in
      if ltb (length locations) 1 then failed else made

  unfoldable pub add_markers : Option InFile → Option InFile → Option OutFile → Run OutFile
  add_markers none markers output = failed
  add_markers (some f) none output = failed
  add_markers (some f) (some markers) output =
      read_wave env f >>= λ (header, s). mark_chunks markers output header s s.format
