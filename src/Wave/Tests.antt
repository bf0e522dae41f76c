-- ===== src/Wave/Tests.antt =====
-- addMarkersToWaveFile and its parts at concrete inputs: a wave file with an odd chunk between the
-- format chunk and the samples, and a marker file with the line endings of Unix and of Windows.
use csnip.Base.{
  ◌≢◌, none, ℕ, ◌≡◌, ◌⊎◌, refl, true, false, some, List, [], ◌∷◌, arith, length, tabulate,
  length-tabulate, take, drop,
}
use csnip.Machine.Run.{ok, spinning}
use csnip.Machine.Stdio.{InFile, OutFile, opened}
use csnip.Wave.Endian.{
  little_endian, big_endian, bytes_to_uint32, uint32_to_bytes, bytes_to_uint16,
  bytes_to_uint32-uint32_to_bytes, bytes_to_uint16_lem, get_host_endianness,
}
use csnip.Wave.Markers.{read_line, read_markers}
use csnip.Wave.Markers.Lines.{lf, crlf, Line, text}
use csnip.Wave.Markers.Parse.{read_markers-text, read_line_never_ends}
use csnip.Wave.Chunks.{Env, strncmp_equal}
use csnip.Wave.Chunks.Layout.{
  Part, format_part, samples_part, other_part, part_bytes, AllParts, IsOther,
}
use csnip.Wave.Output.{add_markers}
use csnip.Wave.Output.Copy.{wrote}
use csnip.Wave.Ends.{add_markers_ends}
use csnip.Wave.Program.{wave_file, output_of, add_markers-image}

zeros : ℕ → List ℕ
zeros n = tabulate n (λ i. 0)

abbrev env : Env
env = record {
  host = little_endian;
  half = (7, 9);
  unset = λ n. tabulate n (λ i. 0);
  given = λ n. true;
  length-unset = λ n. length-tabulate n (λ i. 0);
}

abbrev list_id : List ℕ
list_id = b'L' ∷ b'I' ∷ b'S' ∷ b'T' ∷ []

abbrev parts : List Part
parts =
    format_part (1 ∷ 0 ∷ 68 ∷ 172 ∷ 0 ∷ 0 ∷ 136 ∷ 88 ∷ 1 ∷ 0 ∷ 2 ∷ 0 ∷ 16 ∷ 0 ∷ [])
    ∷ other_part list_id (1 ∷ 2 ∷ 3 ∷ [])
    ∷ samples_part (9 ∷ 8 ∷ 7 ∷ 6 ∷ [])
    ∷ []

abbrev lines : List Line
lines =
    record { digits = b'1' ∷ b'2' ∷ []; ending = lf }
    ∷ record { digits = b'0' ∷ b'3' ∷ b'0' ∷ []; ending = crlf }
    ∷ []

abbrev chunk : List ℕ
chunk = part_bytes (format_part (1 ∷ 0 ∷ 68 ∷ 172 ∷ 0 ∷ 0 ∷ 136 ∷ 88 ∷ 1 ∷ 0 ∷ 2 ∷ 0 ∷ 16 ∷ 0 ∷ []))

abbrev output : OutFile
output = record { written = []; room = 1000 }

list_id-IsOther : IsOther list_id
unfolding strncmp_equal
list_id-IsOther = record { four = refl; not_fmt = refl; not_data = refl; not_cue = refl }

parts-AllParts : AllParts parts
parts-AllParts = (refl, ((list_id-IsOther, omega arith), (omega arith, omega arith)))

bytes_to_uint32-uint32_to_bytes_example :
    bytes_to_uint32 big_endian (uint32_to_bytes big_endian 44100) ≡ 44100
bytes_to_uint32-uint32_to_bytes_example =
    bytes_to_uint32-uint32_to_bytes big_endian 44100 (omega arith)

bytes_to_uint16_lem_example :
    ((big_endian ≡ little_endian) × (bytes_to_uint16 big_endian 7 9 (1 ∷ 0 ∷ []) ≡ 1))
    ⊎ ((big_endian ≡ big_endian) × (bytes_to_uint16 big_endian 7 9 (1 ∷ 0 ∷ []) ≡ 1801))
bytes_to_uint16_lem_example =
    bytes_to_uint16_lem big_endian 1 0 7 9 (omega arith) (omega arith) (omega arith) (omega arith)

read_markers-text_example : read_markers 10 (opened (text lines) 100) [] ≡ ok (12 ∷ 30 ∷ [])
read_markers-text_example = read_markers-text lines 100 (omega arith) (omega arith) (omega arith)

read_line_never_ends_example :
    read_line 50 (record (opened (b'1' ∷ b'2' ∷ []) 1) { pos = 1 }) (b'1' ∷ []) ≡ spinning
read_line_never_ends_example =
    read_line_never_ends 50 (record (opened (b'1' ∷ b'2' ∷ []) 1) { pos = 1 }) false (b'1' ∷ []) []
      b'2' refl (omega arith)

add_markers-image_example :
    (add_markers env (some (wave_file parts 1000)) (some (opened (text lines) 100)) (some output)
      ≡ ok (wrote output (output_of env parts lines chunk 1000)))
    × (length (output_of env parts lines chunk 1000) ≡ 120)
    × (bytes_to_uint32 little_endian (take 4 (drop 4 (output_of env parts lines chunk 1000))) ≡ 112)
unfolding uint32_to_bytes get_host_endianness
add_markers-image_example =
    add_markers-image env parts lines chunk 1000 100 output refl (λ n. refl) parts-AllParts
      (omega arith) (omega arith) (omega arith) refl (omega arith) (omega arith) (omega arith)
      (omega arith) (omega arith) (omega arith) (omega arith) (omega arith) (omega arith)

-- The first 40 bytes of the wave file, the device of which gives the first 30.
abbrev broken : InFile
broken = opened (take 40 (wave_file parts 1000).bytes) 30

add_markers_ends_example :
    add_markers env (some broken) (some (opened (text lines) 100)) none ≢ spinning
add_markers_ends_example =
    add_markers_ends env (some broken) (opened (text lines) 100) none (omega arith)
