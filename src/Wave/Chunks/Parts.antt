-- ===== src/Wave/Chunks/Parts.antt =====
-- The loop over the chunks on a wave file that is made of chunks: a format chunk for PCM with no extra
-- bytes, sample data, and others.
use csnip.Base.{
  ℕ, zero, suc, ◌+◌, ◌-◌, ◌%◌, ◌^◌, ◌<◌, ◌≤◌, ◌≡◌, refl, sym, ap, ap₂, ◌∙◌, true, false, List, [],
  ◌∷◌, ◌++◌, inl, inr, ◌==◌, length, arith, append_assoc, length-append, take, drop, Bool-cases,
  ==→eq, ==→ne, lt→leb, le→leb,
}
use csnip.Machine.Run.{ok}
use csnip.Machine.Stdio.{InFile, fread, fseek_on, fseek_back}
use csnip.Machine.Stdio.Place.{fread-At, fread-nil, drop-add, drop-append}
use csnip.Wave.Endian.{
  little_endian, uint32_to_bytes, uint32_to_bytes_lem, bytes_to_uint32, bytes_to_uint16,
  bytes_to_uint32-uint32_to_bytes, get_host_endianness,
}
use csnip.Wave.Chunks.{
  Env, Scan, strncmp_equal, fmt, data_id, skip_chunk, read_size, on_format, on_data, on_other,
  on_chunk, read_chunks,
}
use csnip.Wave.Output.Copy.{padded, length-padded, at, read_new-at}
use csnip.Wave.Chunks.Layout.{
  Part, format_part, samples_part, other_part, size_bytes, part_bytes, parts_bytes, IsOther,
  AllParts, note, found, count_others,
}

-- The fields of such a format chunk.
format_size :
    (tail : List ℕ)
    → bytes_to_uint32 little_endian (take 4 (drop 4 (part_bytes (format_part tail)))) ≡ 16
unfolding uint32_to_bytes bytes_to_uint32 get_host_endianness
format_size tail = refl

format_code :
    (tail : List ℕ) (c d : ℕ)
    → bytes_to_uint16 little_endian c d (take 2 (drop 8 (part_bytes (format_part tail)))) ≡ 1
unfolding uint32_to_bytes bytes_to_uint16 get_host_endianness
format_code tail c d = omega arith

pub length-format : (tail : List ℕ) → length tail ≡ 14 → length (part_bytes (format_part tail)) ≡ 24
length-format tail h = omega (arith, length-append (size_bytes 16) (1 ∷ 0 ∷ tail))

total :
    (part : Part) (ps : List Part) (p : ℕ)
    → p + length (part_bytes part) + length (parts_bytes ps) ≡ p + length (parts_bytes (part ∷ ps))
total part ps p = omega (arith, length-append (part_bytes part) (parts_bytes ps))

module _ (env : Env) (f : InFile) (sound : length f.bytes ≤ f.limit)
    (little : env.host ≡ little_endian) (given : env.given 24 ≡ true) where
  -- The scan with its input at a place.
  abbrev pub there : Scan → ℕ → Scan
  there s p = record s { input = at f false p }

  read_size-at :
      (p n : ℕ) (ys : List ℕ)
      → drop p f.bytes ≡ size_bytes n ++ ys
      → n < 2 ^ 32
      → read_size env (at f false p) ≡ ok (n, at f false (p + 4))
  unfolding read_size
  read_size-at p n ys e h =
      rw (read_size, read_new-at env f sound p 4 (size_bytes n) ys e refl, little)
        (ap (λ v. ok (v, at f false (p + 4)))
          (ap (bytes_to_uint32 little_endian) (sym (uint32_to_bytes_lem little_endian n))
            ∙ bytes_to_uint32-uint32_to_bytes little_endian n h))

  skip_chunk-at : (p n : ℕ) → skip_chunk (at f false p) n ≡ at f false (p + n + n % 2)
  unfolding skip_chunk fseek_on
  skip_chunk-at p n = elim (Bool-cases (n % 2 == 0)) [
    | inl e ↦
        rw e (ap (at f false) {x = p + n} {y = p + n + n % 2} (omega (arith, ==→eq (n % 2) 0 e)))
    | inr e ↦
        rw e
          (ap (at f false) {x = p + n + 1} {y = p + n + n % 2} (omega (arith, ==→ne (n % 2) 0 e)))
  ]

  -- The bytes behind a part of the file.
  pub behind :
      (p n : ℕ) (xs ys : List ℕ)
      → drop p f.bytes ≡ xs ++ ys
      → length xs ≡ n
      → drop (p + n) f.bytes ≡ ys
  behind p n xs ys e h =
      drop-add p n f.bytes ∙ ap (drop n) e ∙ ap (λ k. drop k (xs ++ ys)) (sym h) ∙ drop-append xs ys

  on_data-at :
      (s : Scan) (p : ℕ) (body ys : List ℕ)
      → drop (p + 4) f.bytes ≡ size_bytes (length body) ++ ys
      → length body < 2 ^ 32
      → on_data env (there s (p + 4))
        ≡ ok (there (note (samples_part body) p s) (p + 8 + length body + length body % 2))
  unfolding on_data
  on_data-at s p body ys e h =
      rw
        (
          on_data,
          read_size-at (p + 4) (length body) ys e h,
          skip_chunk-at (p + 4 + 4) (length body),
        )
        (ap₂
          (λ a b. ok (record s {
            input = at f false a;
            samples = record { start = b; size = 8 + length body };
          }))
          {x = p + 4 + 4 + length body + length body % 2}
          {y = p + 8 + length body + length body % 2} (omega arith) (omega arith))

  on_other-at :
      (s : Scan) (p : ℕ) (id body ys : List ℕ)
      → drop (p + 4) f.bytes ≡ size_bytes (length body) ++ ys
      → length body < 2 ^ 32
      → length s.others < 256
      → on_other env (there s (p + 4))
        ≡ ok (there (note (other_part id body) p s) (p + 8 + length body + length body % 2))
  unfolding on_other
  on_other-at s p id body ys e h room =
      rw
        (
          on_other,
          lt→leb 256 (length s.others) room,
          read_size-at (p + 4) (length body) ys e h,
          skip_chunk-at (p + 4 + 4) (length body),
        )
        (ap₂
          (λ a b. ok (record s {
            input = at f false a;
            others = s.others ++ (record { start = b; size = 8 + length body } ∷ []);
          }))
          {x = p + 4 + 4 + length body + length body % 2}
          {y = p + 8 + length body + length body % 2} (omega arith) (omega arith))

  on_format-at :
      (s : Scan) (p : ℕ) (tail ys : List ℕ)
      → drop p f.bytes ≡ part_bytes (format_part tail) ++ ys
      → length tail ≡ 14
      → on_format env (there s (p + 4)) ≡ ok (there (note (format_part tail) p s) (p + 24))
  unfolding on_format fseek_back
  on_format-at s p tail ys e h =
      let back : p + 4 - 4 ≡ p = omega arith in
      rw
        (
          on_format,
          given,
          le→leb 4 (p + 4) (omega arith),
          back,
          read_new-at env f sound p 24 (part_bytes (format_part tail)) ys e (length-format tail h),
          little,
          format_size tail,
          format_code tail env.half.0 env.half.1,
        )
        refl

  -- The identifier of the next chunk.
  read_id-at :
      (p : ℕ) (id ys : List ℕ)
      → drop p f.bytes ≡ id ++ ys
      → length id ≡ 4
      → fread (at f false p) (env.unset 4) ≡ (id, at f false (p + 4))
  read_id-at p id ys e h =
      fread-At (env.unset 4) (at f false p) id ys (record { there = e; sound = sound })
        (env.length-unset 4 ∙ sym h)
      ∙ ap (λ n. (id, at f false (p + n))) h

  -- A size and a body behind an identifier: what lies there, and where the next chunk is.
  sized :
      (p : ℕ) (id body ys : List ℕ)
      → drop p f.bytes ≡ (id ++ (size_bytes (length body) ++ padded body)) ++ ys
      → length id ≡ 4
      → (drop p f.bytes ≡ id ++ ((size_bytes (length body) ++ padded body) ++ ys))
        × (drop (p + 4) f.bytes ≡ size_bytes (length body) ++ (padded body ++ ys))
        × (p + 8 + length body + length body % 2
            ≡ p + length (id ++ (size_bytes (length body) ++ padded body)))
  sized p id body ys e h =
      let front = e ∙ append_assoc id (size_bytes (length body) ++ padded body) ys in
      (
        front,
        behind p 4 id ((size_bytes (length body) ++ padded body) ++ ys) front h
            ∙ append_assoc (size_bytes (length body)) (padded body) ys,
        omega (
          arith,
          h,
          length-append id (size_bytes (length body) ++ padded body),
          length-append (size_bytes (length body)) (padded body),
          length-padded body,
        ),
      )

  read_chunks-samples :
      (fuel : ℕ) (s : Scan) (p : ℕ) (body ys : List ℕ)
      → drop p f.bytes ≡ part_bytes (samples_part body) ++ ys
      → length body < 2 ^ 32
      → read_chunks env (suc fuel) (there s p)
        ≡ read_chunks env fuel
            (there (note (samples_part body) p s) (p + length (part_bytes (samples_part body))))
  unfolding read_chunks on_chunk strncmp_equal
  read_chunks-samples fuel s p body ys e h =
      let (front, size, on) = sized p data_id body ys e refl in
      rw
        (
          read_chunks,
          read_id-at p data_id _ front refl,
          on_data-at s p body (padded body ++ ys) size h,
        )
        (ap (λ q. read_chunks env fuel (there (note (samples_part body) p s) q)) on)

  read_chunks-other :
      (fuel : ℕ) (s : Scan) (p : ℕ) (id body ys : List ℕ)
      → drop p f.bytes ≡ part_bytes (other_part id body) ++ ys
      → IsOther id
      → length body < 2 ^ 32
      → length s.others < 256
      → read_chunks env (suc fuel) (there s p)
        ≡ read_chunks env fuel
            (there (note (other_part id body) p s) (p + length (part_bytes (other_part id body))))
  unfolding read_chunks on_chunk
  read_chunks-other fuel s p id body ys e other h room =
      let (front, size, on) = sized p id body ys e other.four in
      rw
        (
          read_chunks,
          read_id-at p id _ front other.four,
          other.not_fmt,
          other.not_data,
          other.not_cue,
          on_other-at s p id body (padded body ++ ys) size h room,
        )
        (ap (λ q. read_chunks env fuel (there (note (other_part id body) p s) q)) on)

  read_chunks-format :
      (fuel : ℕ) (s : Scan) (p : ℕ) (tail ys : List ℕ)
      → drop p f.bytes ≡ part_bytes (format_part tail) ++ ys
      → length tail ≡ 14
      → read_chunks env (suc fuel) (there s p)
        ≡ read_chunks env fuel
            (there (note (format_part tail) p s) (p + length (part_bytes (format_part tail))))
  unfolding read_chunks on_chunk strncmp_equal
  read_chunks-format fuel s p tail ys e h =
      rw
        (
          read_chunks,
          read_id-at p fmt _ (e ∙ append_assoc fmt (size_bytes 16 ++ (1 ∷ 0 ∷ tail)) ys) refl,
          on_format-at s p tail ys e h,
          length-format tail h,
        )
        refl

  -- The end of the file where a chunk could begin.
  read_chunks-end :
      (fuel : ℕ) (s : Scan) (p : ℕ)
      → drop p f.bytes ≡ []
      → read_chunks env (suc fuel) (there s p) ≡ ok (record s { input = at f true p })
  unfolding read_chunks
  read_chunks-end fuel s p e =
      rw
        (
          read_chunks,
          fread-nil (env.unset 4) (at f false p) (record { there = e; sound = sound })
              (omega (arith, env.length-unset 4)),
        )
        refl

  -- The loop over the chunks of the file from a place on.
  pub read_chunks-parts :
      (ps : List Part) (fuel : ℕ) (s : Scan) (p : ℕ)
      → drop p f.bytes ≡ parts_bytes ps
      → AllParts ps
      → length s.others + count_others ps ≤ 256
      → length ps < fuel
      → read_chunks env fuel (there s p)
        ≡ ok (record (found ps p s) { input = at f true (p + length (parts_bytes ps)) })
  read_chunks-parts ps zero s p e all room h = absurd (omega arith)
  read_chunks-parts [] (suc fuel) s p e all room h =
      read_chunks-end fuel s p e
      ∙ ap (λ q. ok (record s { input = at f true q })) {x = p} {y = p + 0} (omega arith)
  read_chunks-parts (format_part tail ∷ ps) (suc fuel) s p e (one, all) room h =
      read_chunks-format fuel s p tail (parts_bytes ps) e one
      ∙ read_chunks-parts ps fuel (note (format_part tail) p s)
          (p + length (part_bytes (format_part tail)))
          (behind p _ (part_bytes (format_part tail)) (parts_bytes ps) e refl) all room
          (omega arith)
      ∙ ap (λ q. ok (record (found (format_part tail ∷ ps) p s) { input = at f true q }))
          (total (format_part tail) ps p)
  read_chunks-parts (samples_part body ∷ ps) (suc fuel) s p e (one, all) room h =
      read_chunks-samples fuel s p body (parts_bytes ps) e one
      ∙ read_chunks-parts ps fuel (note (samples_part body) p s)
          (p + length (part_bytes (samples_part body)))
          (behind p _ (part_bytes (samples_part body)) (parts_bytes ps) e refl) all room
          (omega arith)
      ∙ ap (λ q. ok (record (found (samples_part body ∷ ps) p s) { input = at f true q }))
          (total (samples_part body) ps p)
  read_chunks-parts (other_part id body ∷ ps) (suc fuel) s p e ((o, one), all) room h =
      let more : length (note (other_part id body) p s).others ≡ length s.others + 1 =
        length-append s.others (record { start = p; size = 8 + length body } ∷ []) in
      read_chunks-other fuel s p id body (parts_bytes ps) e o one (omega arith)
      ∙ read_chunks-parts ps fuel (note (other_part id body) p s)
          (p + length (part_bytes (other_part id body)))
          (behind p _ (part_bytes (other_part id body)) (parts_bytes ps) e refl) all
          (omega (arith, more)) (omega arith)
      ∙ ap (λ q. ok (record (found (other_part id body ∷ ps) p s) { input = at f true q }))
          (total (other_part id body) ps p)
