-- ===== src/Wave/Chunks.antt =====
-- wavecuepoint/wavecuepoint.c: the part of addMarkersToWaveFile that reads the wave file, its header
-- and then one chunk after another. A struct of char arrays is the list of its bytes. The loop over
-- the chunks takes fuel.
pub mod Parts
pub mod Layout
pub mod Whole
pub mod Ends
use csnip.Base.{
  ℕ, zero, suc, ◌+◌, ◌-◌, ◌*◌, ◌%◌, ◌^◌, ◌<◌, ◌≤◌, ◌≡◌, Bool, true, false, not, ◌&&◌, Option, none,
  some, List, [], ◌∷◌, ◌++◌, ◌==◌, ltb, leb, if◌then◌else◌, length, get_or, take, drop,
}
use csnip.Machine.Run.{Run, ok, failed, fault, spinning, ◌>>=◌}
use csnip.Machine.Stdio.{InFile, fread, fseek_on, fseek_back}
use csnip.Wave.Endian.{Host, bytes_to_uint32, bytes_to_uint16}

-- What the program finds on its machine: the byte order, what variables and blocks hold before they
-- are set (`half` is the unset half of the variable of littleEndianBytesToUInt16), and for which sizes
-- malloc gives a block.
pub record Env : Type 0 where
  pub host : Host
  pub half : ℕ × ℕ
  pub unset : ℕ → List ℕ
  pub given : ℕ → Bool
  pub length-unset : (n : ℕ) → length (unset n) ≡ n

-- ChunkLocation
pub record Location : Type 0 where
  pub start : ℕ
  pub size : ℕ

-- What the loop over the chunks has found; `existing` is existingCueChunk.cuePoints.
pub record Scan : Type 0 where
  pub input : InFile
  pub format : Option (List ℕ)
  pub extra : Location
  pub existing : Option (List (List ℕ))
  pub samples : Location
  pub others : List Location

-- !strncmp(a, b, n)
unfoldable pub strncmp_equal : ℕ → List ℕ → List ℕ → Bool
strncmp_equal zero a b = true
strncmp_equal (suc n) a b =
    (get_or a 0 0 == get_or b 0 0)
    && (if get_or a 0 0 == 0 then true else strncmp_equal n (drop 1 a) (drop 1 b))

abbrev pub riff : List ℕ
riff = b'R' ∷ b'I' ∷ b'F' ∷ b'F' ∷ []

abbrev pub wave : List ℕ
wave = b'W' ∷ b'A' ∷ b'V' ∷ b'E' ∷ []

abbrev pub fmt : List ℕ
fmt = b'f' ∷ b'm' ∷ b't' ∷ b' ' ∷ []

abbrev pub data_id : List ℕ
data_id = b'd' ∷ b'a' ∷ b't' ∷ b'a' ∷ []

abbrev pub cue : List ℕ
cue = b'c' ∷ b'u' ∷ b'e' ∷ b' ' ∷ []

-- x - y on uint32_t
abbrev pub sub32 : ℕ → ℕ → ℕ
sub32 x y = (x + 2 ^ 32 - y) % 2 ^ 32

-- The seeks to the end of a chunk of `size` bytes, padding included.
unfoldable pub skip_chunk : InFile → ℕ → InFile
skip_chunk f size = let f' = fseek_on f size in if size % 2 == 0 then f' else fseek_on f' 1

module _ (env : Env) where
  -- A read of `n` bytes into a variable that is not set before.
  unfoldable pub read_new : InFile → ℕ → Run (List ℕ × InFile)
  read_new f n =
      let (bytes, f') = fread f (env.unset n) in if f'.error then failed else ok (bytes, f')

  unfoldable pub read_size : InFile → Run (ℕ × InFile)
  read_size f = read_new f 4 >>= λ (bytes, f'). ok (bytes_to_uint32 env.host bytes, f')

  unfoldable pub read_header : InFile → Run (List ℕ × InFile)
  read_header f =
      let checked = read_new f 12 >>= λ (header, f').
      if not (strncmp_equal 4 header riff)
      then failed
      else if not (strncmp_equal 4 (drop 8 header) wave)
      then failed
      else if sub32 (bytes_to_uint32 env.host (take 4 (drop 4 header))) 4 == 0
      then failed
      else ok (header, f') in
      if env.given 12 then checked else failed

  unfoldable pub on_format : Scan → Run Scan
  on_format s =
      let read = read_new (fseek_back s.input 4) 24 >>= λ (chunk, f').
      let size = bytes_to_uint32 env.host (take 4 (drop 4 chunk)) in
      let code = bytes_to_uint16 env.host env.half.0 env.half.1 (take 2 (drop 8 chunk)) in
      let extra = sub32 size 16 in
      let found = record s { input = f'; format = some chunk } in
      if not (code == 1)
      then failed
      else if ltb 0 extra
      then ok (record found {
        input = skip_chunk f' extra;
        extra = record { start = f'.pos; size = extra };
      })
      else ok found in
      if env.given 24 then read else failed

  unfoldable pub on_data : Scan → Run Scan
  on_data s = read_size s.input >>= λ (size, f'). ok (record s {
    input = skip_chunk f' size;
    samples = record { start = s.input.pos - 4; size = 8 + size };
  })

  -- The loop over the existing cue points.
  unfoldable pub read_cue_points : ℕ → InFile → Run (List (List ℕ) × InFile)
  read_cue_points zero f = ok ([], f)
  read_cue_points (suc n) f = read_new f 24 >>= λ (point, f').
      read_cue_points n f' >>= λ (points, f''). ok (point ∷ points, f'')

  -- A block that malloc did not give faults at the first cue point.
  unfoldable pub on_cue : Scan → Run Scan
  on_cue s = read_size s.input >>= λ (size, f'). read_new f' 4 >>= λ (bytes, f'').
      let count = bytes_to_uint16 env.host env.half.0 env.half.1 bytes in
      let read = read_cue_points count f'' >>= λ (points, f'''). ok (record s {
        input = f''';
        existing = if env.given (24 * count) then some points else none;
      }) in
      if env.given (24 * count) then read else if count == 0 then read else fault

  unfoldable pub on_other : Scan → Run Scan
  on_other s =
      let noted = read_size s.input >>= λ (size, f'). ok (record s {
        input = skip_chunk f' size;
        others = s.others ++ (record { start = s.input.pos - 4; size = 8 + size } ∷ []);
      }) in
      if leb 256 (length s.others) then failed else noted

  unfoldable pub on_chunk : List ℕ → Scan → Run Scan
  on_chunk id s =
      if strncmp_equal 4 id fmt
      then on_format s
      else if strncmp_equal 4 id data_id
      then on_data s
      else if strncmp_equal 4 id cue
      then on_cue s
      else on_other s

  unfoldable pub read_chunks : ℕ → Scan → Run Scan
  read_chunks zero s = spinning
  read_chunks (suc fuel) s =
      let (id, f') = fread s.input (env.unset 4) in
      let s' = record s { input = f' } in
      let next = on_chunk id s' >>= λ t. read_chunks fuel t in
      if f'.at_end then ok s' else if f'.error then failed else next

  -- The loop from its start behind the header, and the test behind it.
  unfoldable pub read_wave : InFile → Run (List ℕ × Scan)
  read_wave f = read_header f >>= λ (header, f').
      read_chunks (suc (length f.bytes)) (record {
        input = f';
        format = none;
        extra = record { start = 0; size = 0 };
        existing = none;
        samples = record { start = 0; size = 0 };
        others = [];
      })
      >>= λ s.
          let enough = if s.samples.size == 0 then failed else ok (header, s) in
          elim s.format [ none ↦ failed | some chunk ↦ enough ]
