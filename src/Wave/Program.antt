-- ===== src/Wave/Program.antt =====
-- addMarkersToWaveFile as a whole, on a wave file made of chunks and a marker file made of lines.
use csnip.Base.{
  ℕ, suc, ◌+◌, ◌*◌, ◌^◌, ◌<◌, ◌≤◌, ◌≡◌, ◌≢◌, refl, ap, ◌∙◌, true, false, some, List, [], ◌∷◌,
  if◌then◌else◌, length, arith, take, drop, map, length-append, le→leb, le→ltb,
}
use mathlib.Core.Option.{none-ne-some}
use csnip.Machine.Run.{ok, fault}
use csnip.Machine.Stdio.{InFile, OutFile, opened}
use csnip.Wave.Endian.{little_endian, bytes_to_uint32}
use csnip.Wave.Markers.Lines.{Line, AllLines, text}
use csnip.Wave.Markers.Parse.{location, AllFit, read_markers-text}
use csnip.Wave.Chunks.{Env, Scan}
use csnip.Wave.Chunks.Layout.{Part, parts_bytes, AllParts, count_others, found}
use csnip.Wave.Chunks.Whole.{
  wave_bytes, header_bytes, length-header_bytes, started, read_wave-parts, IsInside, found-IsInside,
  found-format,
}
use csnip.Wave.Markers.{read_markers}
use csnip.Wave.Output.{add_markers, mark_chunks, write_opened, write_output}
use csnip.Wave.Output.Copy.{wrote, at}
use csnip.Wave.Output.Image.{image, write_output-image}
use csnip.Wave.Output.Sizes.{data_size}

length-map : (ls : List Line) → length (map location ls) ≡ length ls
length-map [] = refl
length-map (l ∷ ls) = ap suc (length-map ls)

-- A wave file of chunks, and what the loop over its chunks finds.
abbrev pub wave_file : List Part → ℕ → InFile
wave_file ps limit = opened (wave_bytes ps) limit

abbrev pub scan_of : List Part → ℕ → Scan
scan_of ps limit = record (found ps 12 (started (at (wave_file ps limit) false 12))) {
  input = at (wave_file ps limit) true (12 + length (parts_bytes ps));
}

abbrev pub output_of : Env → List Part → List Line → List ℕ → ℕ → List ℕ
output_of env ps ls chunk limit =
    image env (wave_file ps limit) (header_bytes (4 + length (parts_bytes ps))) chunk
      (scan_of ps limit) (map location ls)

marked :
    (env : Env) (s : Scan) (header chunk : List ℕ) (m : InFile) (out : OutFile) (locations : List ℕ)
    → read_markers (suc (suc (length m.bytes))) m [] ≡ ok locations
    → 0 < length locations
    → env.given (24 * length locations) ≡ true
    → mark_chunks env m (some out) header s (some chunk)
      ≡ write_output env header chunk s locations out
unfolding mark_chunks write_opened
marked env s header chunk m out locations e h given =
    rw (mark_chunks, e, le→ltb (length locations) 1 (omega arith), given) refl

-- On a little endian host with memory, addMarkersToWaveFile takes a wave file of chunks, among them a
-- PCM format chunk without extra bytes, samples and at most 256 others, and a marker file of 1 to 1000
-- lines that spell numbers below 2^32 - 1, and writes, if the output device has room and the size of
-- the rest of the file is below 2^32, exactly: the header, the format chunk, a cue chunk with a cue
-- point for each line, the other chunks in order, and the samples, where the size in the header is the
-- number of bytes behind it.
pub add_markers-image :
    (env : Env) (ps : List Part) (ls : List Line) (chunk : List ℕ) (limit marker_limit : ℕ)
    (out : OutFile)
    → env.host ≡ little_endian
    → ((n : ℕ) → env.given n ≡ true)
    → AllParts ps
    → 0 < length ps
    → count_others ps ≤ 256
    → 4 + length (parts_bytes ps) < 2 ^ 32
    → (scan_of ps limit).format ≡ some chunk
    → (scan_of ps limit).samples.size ≢ 0
    → AllLines ls
    → AllFit ls
    → 0 < length ls
    → length ls ≤ 1000
    → length (wave_bytes ps) ≤ limit
    → length (text ls) ≤ marker_limit
    → 9 + data_size (scan_of ps limit) (length ls) ≤ out.room
    → data_size (scan_of ps limit) (length ls) < 2 ^ 32
    → (add_markers env (some (wave_file ps limit)) (some (opened (text ls) marker_limit)) (some out)
        ≡ ok (wrote out (output_of env ps ls chunk limit)))
      × (length (output_of env ps ls chunk limit) ≡ 8 + data_size (scan_of ps limit) (length ls))
      × (bytes_to_uint32 env.host (take 4 (drop 4 (output_of env ps ls chunk limit)))
          ≡ data_size (scan_of ps limit) (length ls))
unfolding add_markers
add_markers-image env ps ls chunk limit marker_limit out little given all one others small
      has_format has_samples lines fit some_line few sound marker_sound room fits =
    let f : InFile = wave_file ps limit in
    let header : List ℕ = header_bytes (4 + length (parts_bytes ps)) in
    let inside : IsInside f (found ps 12 (started (at f false 12))) =
      found-IsInside f ps 12 (started (at f false 12))
        (omega (
          arith,
          length-append header (parts_bytes ps),
          length-header_bytes (4 + length (parts_bytes ps)),
        ))
        all
        (record { in_extra = omega arith; in_samples = omega arith; in_others = omega arith }) in
    let count : length (map location ls) ≡ length ls = length-map ls in
    let (written, long, field) =
      write_output-image env f header chunk (scan_of ps limit) (map location ls) true
        (12 + length (parts_bytes ps)) out refl sound
        (length-header_bytes (4 + length (parts_bytes ps)))
        (found-format ps 12 (started (at f false 12)) chunk all (λ c q. absurd (none-ne-some c q))
          has_format)
        inside.in_extra inside.in_samples inside.in_others (omega (arith, count))
        (omega (arith, count)) in
    (
      rw
          (read_wave-parts env f sound little (given 12) (given 24) ps chunk refl all one others
            small has_format has_samples)
          (ap (mark_chunks env (opened (text ls) marker_limit) (some out) header (scan_of ps limit))
              has_format
            ∙ marked env (scan_of ps limit) header chunk (opened (text ls) marker_limit) out
                (map location ls)
                (read_markers-text ls marker_limit lines fit marker_sound
                  ∙ ap (λ b. if b then ok (map location ls) else fault)
                      (le→leb (length ls) 1000 few))
                (omega (arith, count)) (given (24 * length (map location ls)))
            ∙ written),
      long ∙ ap (λ n. 8 + data_size (scan_of ps limit) n) count,
      field ∙ ap (data_size (scan_of ps limit)) count,
    )
