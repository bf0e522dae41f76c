-- ===== src/Wave/Chunks/Layout.antt =====
-- Wave files that are made of chunks: a format chunk for PCM with no extra bytes, sample data, and
-- others; and what the loop over the chunks keeps of each.
use csnip.Base.{ℕ, suc, ◌+◌, ◌^◌, ◌<◌, ◌≤◌, ◌≡◌, false, some, List, [], ◌∷◌, ◌++◌, length}
use csnip.Wave.Chunks.{Scan, strncmp_equal, fmt, data_id, cue}
use csnip.Wave.Output.Copy.{padded}
use csnip.Wave.Output.Marks.{little}

-- A chunk: the 14 bytes of a format chunk behind its compression code, the bytes of the samples, or the
-- identifier and the bytes of another chunk.
pub data Part : Type 0 where
  format_part samples_part : List ℕ → Part
  other_part : List ℕ → List ℕ → Part

abbrev pub size_bytes : ℕ → List ℕ
size_bytes n = little n

abbrev pub part_bytes : Part → List ℕ
part_bytes (format_part tail) =
    (b'f' ∷ b'm' ∷ b't' ∷ b' ' ∷ []) ++ (size_bytes 16 ++ (1 ∷ 0 ∷ tail))
part_bytes (samples_part body) =
    (b'd' ∷ b'a' ∷ b't' ∷ b'a' ∷ []) ++ (size_bytes (length body) ++ padded body)
part_bytes (other_part id body) = id ++ (size_bytes (length body) ++ padded body)

abbrev pub parts_bytes : List Part → List ℕ
parts_bytes [] = []
parts_bytes (p ∷ ps) = part_bytes p ++ parts_bytes ps

-- An identifier that the loop does not know.
pub record IsOther (id : List ℕ) : Type 0 where
  pub four : length id ≡ 4
  pub not_fmt : strncmp_equal 4 id fmt ≡ false
  pub not_data : strncmp_equal 4 id data_id ≡ false
  pub not_cue : strncmp_equal 4 id cue ≡ false

abbrev pub IsPart : Part → Type 0
IsPart (format_part tail) = length tail ≡ 14
IsPart (samples_part body) = length body < 2 ^ 32
IsPart (other_part id body) = IsOther id × (length body < 2 ^ 32)

abbrev pub AllParts : List Part → Type 0
AllParts [] = 0 ≤ 0
AllParts (p ∷ ps) = IsPart p × AllParts ps

-- What the loop keeps of a chunk that starts at `pos`.
abbrev pub note : Part → ℕ → Scan → Scan
note (format_part tail) pos s = record s { format = some (part_bytes (format_part tail)) }
note (samples_part body) pos s = record s {
  samples = record { start = pos; size = 8 + length body };
}
note (other_part id body) pos s = record s {
  others = s.others ++ (record { start = pos; size = 8 + length body } ∷ []);
}

abbrev pub found : List Part → ℕ → Scan → Scan
found [] pos s = s
found (p ∷ ps) pos s = found ps (pos + length (part_bytes p)) (note p pos s)

abbrev pub count_others : List Part → ℕ
count_others [] = 0
count_others (format_part tail ∷ ps) = count_others ps
count_others (samples_part body ∷ ps) = count_others ps
count_others (other_part id body ∷ ps) = suc (count_others ps)
