-- ===== src/Wave/Chunks/Whole.antt =====
-- A whole wave file: its header and its chunks.
use csnip.Base.{
  ℕ, suc, ◌+◌, ◌-◌, ◌%◌, ◌^◌, ◌<◌, ◌≤◌, ◌≡◌, ◌≢◌, refl, sym, ap, ◌∙◌, true, false, none, some, List,
  [], ◌∷◌, ◌++◌, length, arith, length-append, take, drop, ne→==,
}
use mathlib.Core.Option.{some-injective}
use csnip.Machine.Run.{ok}
use csnip.Machine.Stdio.{InFile}
use csnip.Wave.Endian.{
  little_endian, uint32_to_bytes_lem, bytes_to_uint32, bytes_to_uint32-uint32_to_bytes,
}
use csnip.Wave.Chunks.{
  Env, Location, Scan, strncmp_equal, riff, wave, data_id, read_header, read_wave,
}
use csnip.Wave.Chunks.Parts.{length-format, read_chunks-parts, behind}
use csnip.Wave.Chunks.Layout.{
  Part, format_part, samples_part, other_part, size_bytes, part_bytes, parts_bytes, AllParts, note,
  found, count_others,
}
use csnip.Wave.Output.Copy.{padded, length-padded, at, read_new-at, Inside, AllInside}

abbrev pub header_bytes : ℕ → List ℕ
header_bytes n =
    (b'R' ∷ b'I' ∷ b'F' ∷ b'F' ∷ []) ++ (size_bytes n ++ (b'W' ∷ b'A' ∷ b'V' ∷ b'E' ∷ []))

-- A wave file of chunks.
abbrev pub wave_bytes : List Part → List ℕ
wave_bytes ps = header_bytes (4 + length (parts_bytes ps)) ++ parts_bytes ps

-- The scan before the first chunk.
abbrev pub started : InFile → Scan
started f = record {
  input = f;
  format = none;
  extra = record { start = 0; size = 0 };
  existing = none;
  samples = record { start = 0; size = 0 };
  others = [];
}

length-parts : (ps : List Part) → length ps ≤ length (parts_bytes ps)
length-parts [] = omega arith
length-parts (format_part tail ∷ ps) =
    omega (arith, length-append (part_bytes (format_part tail)) (parts_bytes ps), length-parts ps)
length-parts (samples_part body ∷ ps) =
    omega (arith, length-append (part_bytes (samples_part body)) (parts_bytes ps), length-parts ps)
length-parts (other_part id body ∷ ps) = omega (
  arith,
  length-append (part_bytes (other_part id body)) (parts_bytes ps),
  length-append id (size_bytes (length body) ++ padded body),
  length-append (size_bytes (length body)) (padded body),
  length-parts ps,
)

-- The size field of a header.
header_size :
    (n : ℕ) → n < 2 ^ 32 → bytes_to_uint32 little_endian (take 4 (drop 4 (header_bytes n))) ≡ n
header_size n h =
    ap (bytes_to_uint32 little_endian) (sym (uint32_to_bytes_lem little_endian n))
    ∙ bytes_to_uint32-uint32_to_bytes little_endian n h

is_riff : (n : ℕ) → strncmp_equal 4 (header_bytes n) riff ≡ true
unfolding strncmp_equal
is_riff n = refl

is_wave : (n : ℕ) → strncmp_equal 4 (drop 8 (header_bytes n)) wave ≡ true
unfolding strncmp_equal
is_wave n = refl

pub length-header_bytes : (n : ℕ) → length (header_bytes n) ≡ 12
length-header_bytes n = refl

AllInside-append :
    (f : InFile) (ls : List Location) (l : Location)
    → AllInside f ls
    → Inside f l
    → AllInside f (ls ++ (l ∷ []))
AllInside-append f [] l all h = (h, omega arith)
AllInside-append f (k ∷ ls) l (a, all) h = (a, AllInside-append f ls l all h)

-- The places that a scan has found lie inside the file, and its format chunk has its length.
pub record IsInside (f : InFile) (s : Scan) : Type 0 where
  pub in_extra : Inside f s.extra
  pub in_samples : Inside f s.samples
  pub in_others : AllInside f s.others

length-sized :
    (id body : List ℕ)
    → length (id ++ (size_bytes (length body) ++ padded body))
      ≡ length id + 4 + length body + length body % 2
length-sized id body = omega (
  arith,
  length-append id (size_bytes (length body) ++ padded body),
  length-append (size_bytes (length body)) (padded body),
  length-padded body,
)

pub found-IsInside :
    (f : InFile) (ps : List Part) (p : ℕ) (s : Scan)
    → p + length (parts_bytes ps) ≤ length f.bytes
    → AllParts ps
    → IsInside f s
    → IsInside f (found ps p s)
found-IsInside f [] p s h all i = i
found-IsInside f (format_part tail ∷ ps) p s h (one, all) i =
    found-IsInside f ps (p + length (part_bytes (format_part tail))) (note (format_part tail) p s)
      (omega (arith, length-append (part_bytes (format_part tail)) (parts_bytes ps))) all
      (record { in_extra = i.in_extra; in_samples = i.in_samples; in_others = i.in_others })
found-IsInside f (samples_part body ∷ ps) p s h (one, all) i =
    let long : length (part_bytes (samples_part body)) ≡ 8 + length body + length body % 2 =
      omega (arith, length-sized data_id body) in
    let tail : p + length (part_bytes (samples_part body)) + length (parts_bytes ps)
        ≤ length f.bytes =
      omega (arith, length-append (part_bytes (samples_part body)) (parts_bytes ps)) in
    found-IsInside f ps (p + length (part_bytes (samples_part body))) (note (samples_part body) p s)
      tail all
      (record {
        in_extra = i.in_extra;
        in_samples = omega (arith, long, tail);
        in_others = i.in_others;
      })
found-IsInside f (other_part id body ∷ ps) p s h ((o, one), all) i =
    let long : length (part_bytes (other_part id body)) ≡ 8 + length body + length body % 2 =
      omega (arith, length-sized id body, o.four) in
    let tail : p + length (part_bytes (other_part id body)) + length (parts_bytes ps)
        ≤ length f.bytes =
      omega (arith, length-append (part_bytes (other_part id body)) (parts_bytes ps)) in
    found-IsInside f ps (p + length (part_bytes (other_part id body)))
      (note (other_part id body) p s) tail all
      (record {
        in_extra = i.in_extra;
        in_samples = i.in_samples;
        in_others =
            AllInside-append f s.others (record { start = p; size = 8 + length body }) i.in_others
              (omega (arith, long, tail));
      })

-- A format chunk that was found has 24 bytes.
pub found-format :
    (ps : List Part) (p : ℕ) (s : Scan) (chunk : List ℕ)
    → AllParts ps
    → ((c : List ℕ) → s.format ≡ some c → length c ≡ 24)
    → (found ps p s).format ≡ some chunk
    → length chunk ≡ 24
found-format [] p s chunk all h e = h chunk e
found-format (format_part tail ∷ ps) p s chunk (one, all) h e =
    found-format ps (p + length (part_bytes (format_part tail))) (note (format_part tail) p s) chunk
      all
      (λ c q.
        ap length (sym (some-injective (part_bytes (format_part tail)) c q))
        ∙ length-format tail one)
      e
found-format (samples_part body ∷ ps) p s chunk (one, all) h e =
    found-format ps (p + length (part_bytes (samples_part body))) (note (samples_part body) p s)
      chunk all h e
found-format (other_part id body ∷ ps) p s chunk ((o, one), all) h e =
    found-format ps (p + length (part_bytes (other_part id body))) (note (other_part id body) p s)
      chunk all h e

module _ (env : Env) (f : InFile) (sound : length f.bytes ≤ f.limit)
    (little : env.host ≡ little_endian) (given12 : env.given 12 ≡ true)
    (given24 : env.given 24 ≡ true) where
  read_header-at :
      (n : ℕ) (ys : List ℕ)
      → f.bytes ≡ header_bytes n ++ ys
      → 4 < n
      → n < 2 ^ 32
      → read_header env (at f false 0) ≡ ok (header_bytes n, at f false 12)
  unfolding read_header
  read_header-at n ys e big small =
      rw
        (
          read_header,
          given12,
          read_new-at env f sound 0 12 (header_bytes n) ys e (length-header_bytes n),
          is_riff n,
          is_wave n,
          little,
          header_size n small,
          ne→== ((n + 2 ^ 32 - 4) % 2 ^ 32) 0 (λ z. absurd (omega (arith, z))),
        )
        refl

  -- What the loop over the chunks of such a file finds.
  abbrev pub all_found : List Part → Scan
  all_found ps = found ps 12 (started (at f false 12))

  -- A little endian host reads a wave file of one or more chunks, among them a format chunk and
  -- samples, and of at most 256 others: its header, the format chunk, and the places of the samples and
  -- of the other chunks.
  pub read_wave-parts :
      (ps : List Part) (chunk : List ℕ)
      → f.bytes ≡ wave_bytes ps
      → AllParts ps
      → 0 < length ps
      → count_others ps ≤ 256
      → 4 + length (parts_bytes ps) < 2 ^ 32
      → (all_found ps).format ≡ some chunk
      → (all_found ps).samples.size ≢ 0
      → read_wave env (at f false 0)
        ≡ ok (
          header_bytes (4 + length (parts_bytes ps)),
          record (all_found ps) { input = at f true (12 + length (parts_bytes ps)) },
        )
  unfolding read_wave
  read_wave-parts ps chunk e all one others small has_format has_samples =
      let n : ℕ = 4 + length (parts_bytes ps) in
      rw
        (
          read_wave,
          read_header-at n (parts_bytes ps) e (omega (arith, length-parts ps)) small,
          read_chunks-parts env f sound little given24 ps (suc (length f.bytes))
              (started (at f false 12)) 12
              (behind env f sound little given24 0 12 (header_bytes n) (parts_bytes ps) e
                (length-header_bytes n))
              all (omega arith)
              (omega (
                arith,
                length-parts ps,
                ap length e,
                length-append (header_bytes n) (parts_bytes ps),
              )),
          has_format,
          ne→== (all_found ps).samples.size 0 has_samples,
        )
        refl
