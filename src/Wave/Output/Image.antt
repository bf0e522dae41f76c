-- ===== src/Wave/Output/Image.antt =====
-- The file that addMarkersToWaveFile writes, as one list of bytes, and the size in its header.
use csnip.Base.{
  ℕ, ◌+◌, ◌-◌, ◌*◌, ◌%◌, ◌^◌, ◌<◌, ◌≤◌, ◌≡◌, refl, sym, ap, ◌∙◌, Bool, List, [], ◌∷◌, ◌++◌, length,
  arith, append_assoc, append-nil, length-append, length-take, length-drop, take, drop,
}
use csnip.Machine.Run.{ok}
use csnip.Machine.Stdio.{InFile, OutFile}
use csnip.Machine.Stdio.Place.{drop-append, take-append}
use csnip.Wave.Endian.{
  Host, uint32_to_bytes, uint32_to_bytes_lem, bytes_to_uint32, bytes_to_uint32-uint32_to_bytes,
}
use csnip.Wave.Chunks.{Env, Scan}
use csnip.Wave.Output.{cue_points, put_points, new_header, write_from, write_output}
use csnip.Wave.Output.Copy.{
  wrote, wrote-wrote, put_bytes-wrote, padded, length-padded, at, slice, length-slice, Inside,
  AllInside, others_bytes, others_size, length-others_bytes, copy_padded-at, copy_others-at,
  copy_extra-at,
}
use csnip.Wave.Output.Marks.{
  joined, little, marks, marks_header, cue_points-marks, cue_header-marks_header, length-cue_points,
  length-marks,
}
use csnip.Wave.Output.Sizes.{data_size, file_data_size_lem}

pub length-uint32_to_bytes : (host : Host) (v : ℕ) → length (uint32_to_bytes host v) ≡ 4
length-uint32_to_bytes host v = ap length (uint32_to_bytes_lem host v)

put_points-wrote :
    (ps : List (List ℕ)) (out : OutFile)
    → length (joined ps) ≤ out.room
    → put_points (length ps) out ps ≡ ok (wrote out (joined ps))
unfolding put_points
put_points-wrote [] out h = ap ok (
    ap (λ t. record { written = t; room = out.room }) (sym (append-nil out.written))
    ∙ ap (λ n. record { written = out.written ++ []; room = n }) {x = out.room} {y = out.room - 0}
        (omega arith))
put_points-wrote (p ∷ ps) out h =
    rw
      (
        put_bytes-wrote out p (omega (arith, length-append p (joined ps))),
        put_points-wrote ps (wrote out p) (omega (arith, length-append p (joined ps))),
      )
      (ap ok (wrote-wrote out p (joined ps)))

-- The loop over all the cue points, whose count comes back from its bytes in the cue chunk.
all_points-wrote :
    (host : Host) (ls : List ℕ) (out : OutFile)
    → length ls < 2 ^ 32
    → 24 * length ls ≤ out.room
    → put_points
        (bytes_to_uint32 host (uint32_to_bytes host (length ls)))
        out
        (cue_points host 0 ls)
      ≡ ok (wrote out (marks 1 ls))
all_points-wrote host ls out small room =
    ap (λ n. put_points n out (cue_points host 0 ls))
      (bytes_to_uint32-uint32_to_bytes host (length ls) small ∙ sym (length-cue_points host 0 ls))
    ∙ put_points-wrote (cue_points host 0 ls) out
        (omega (arith, ap length (cue_points-marks host 0 ls), length-marks 1 ls))
    ∙ ap (λ t. ok (wrote out t)) (cue_points-marks host 0 ls)

-- The second four bytes of a list.
second_four :
    (a u h r : List ℕ) → length a ≡ 4 → length u ≡ 4 → take 4 (drop 4 ((a ++ (u ++ h)) ++ r)) ≡ u
second_four a u h r la lu =
    ap (λ xs. take 4 (drop 4 xs))
      (append_assoc a (u ++ h) r ∙ ap (λ t. a ++ t) (append_assoc u h r))
    ∙ ap (λ k. take 4 (drop k (a ++ (u ++ (h ++ r))))) (sym la)
    ∙ ap (take 4) (drop-append a (u ++ (h ++ r)))
    ∙ ap (λ k. take k (u ++ (h ++ r))) (sym lu)
    ∙ take-append u (h ++ r)

-- A header with `size` as its size of the rest.
abbrev pub new_data_size : List ℕ → ℕ → List ℕ
new_data_size header size = take 4 header ++ (little size ++ drop 8 header)

new_header-new_data_size :
    (env : Env) (header : List ℕ) (size : ℕ)
    → new_header env header size ≡ new_data_size header size
unfolding new_header
new_header-new_data_size env header size =
    ap (λ t. take 4 header ++ (t ++ drop 8 header)) (uint32_to_bytes_lem env.host size)

module _ (env : Env) (f : InFile) (header chunk : List ℕ) (s : Scan) (locations : List ℕ) where
  -- The bytes of the output file.
  pub image : List ℕ
  image =
      new_data_size header (data_size s (length locations))
      ++ (chunk
          ++ (padded (slice f s.extra)
              ++ (marks_header (length locations)
                  ++ (marks 1 locations
                      ++ (others_bytes f s.others ++ padded (slice f s.samples))))))

  length-image :
      length header ≡ 12
      → length chunk ≡ 24
      → Inside f s.extra
      → Inside f s.samples
      → AllInside f s.others
      → length image ≡ 8 + data_size s (length locations)
  unfolding image
  length-image lh lc he hs ho = omega (arith, parts)
    where
      n : ℕ
      n = length locations

      w : ℕ
      w = data_size s n

      last : List ℕ
      last = others_bytes f s.others ++ padded (slice f s.samples)

      parts :
          length image
          ≡ 12
            + (24
                + (s.extra.size
                    + s.extra.size % 2
                    + (12
                        + (24 * n
                            + (others_size s.others + (s.samples.size + s.samples.size % 2))))))
      parts = omega (
        arith,
        lh,
        lc,
        length-append (new_data_size header w) (
            chunk ++ (padded (slice f s.extra) ++ (marks_header n ++ (marks 1 locations ++ last)))),
        length-append (take 4 header) (little w ++ drop 8 header),
        length-take 4 header,
        length-drop 8 header,
        length-append chunk
            (padded (slice f s.extra) ++ (marks_header n ++ (marks 1 locations ++ last))),
        length-append (padded (slice f s.extra)) (marks_header n ++ (marks 1 locations ++ last)),
        length-padded (slice f s.extra),
        length-slice f s.extra he,
        length-append (marks 1 locations) last,
        length-marks 1 locations,
        length-append (others_bytes f s.others) (padded (slice f s.samples)),
        length-others_bytes f s.others ho,
        length-padded (slice f s.samples),
        length-slice f s.samples hs,
      )

  length-new_data_size : (w : ℕ) → length header ≡ 12 → length (new_data_size header w) ≡ 12
  length-new_data_size w lh = omega (
    arith,
    length-append (take 4 header) (little w ++ drop 8 header),
    length-take 4 header,
    length-drop 8 header,
  )

  -- All writes succeed where the chunks lie inside the input file and the output device has room.
  write_from-image :
      (ended : Bool) (p : ℕ) (out : OutFile)
      → length f.bytes ≤ f.limit
      → length header ≡ 12
      → length chunk ≡ 24
      → Inside f s.extra
      → Inside f s.samples
      → AllInside f s.others
      → 9 + data_size s (length locations) ≤ out.room
      → data_size s (length locations) < 2 ^ 32
      → write_from env (at f ended p) header chunk s locations out ≡ ok (wrote out image)
  unfolding write_from image
  write_from-image ended p out sound lh lc he hs ho room small =
      let n : ℕ = length locations in
      let a : List ℕ = new_data_size header (data_size s n) in
      let la : length a ≡ 12 = length-new_data_size (data_size s n) lh in
      let b : List ℕ = padded (slice f s.extra) in
      let lb : length b ≡ s.extra.size + s.extra.size % 2 =
        omega (arith, length-padded (slice f s.extra), length-slice f s.extra he) in
      let c : List ℕ = marks_header n in
      let d : List ℕ = marks 1 locations in
      let le : length d ≡ 24 * n = length-marks 1 locations in
      let e : List ℕ = others_bytes f s.others in
      let lo : length e ≡ others_size s.others = length-others_bytes f s.others ho in
      let g : List ℕ = padded (slice f s.samples) in
      let o2 : OutFile = wrote (wrote out a) chunk in
      let extra = copy_extra-at env f sound s.extra ended p o2 he (omega arith) in
      let o5 : OutFile = wrote (wrote (wrote o2 b) c) d in
      let others =
        copy_others-at env f sound s.others extra.ended extra.place o5 ho (omega arith) in
      rw
        (
          write_from,
          file_data_size_lem s n small,
          new_header-new_data_size env header (data_size s n),
          cue_header-marks_header env.host n,
          put_bytes-wrote out a (omega arith),
          put_bytes-wrote (wrote out a) chunk (omega arith),
          extra.returns,
          put_bytes-wrote (wrote o2 b) c (omega arith),
          all_points-wrote env.host locations (wrote (wrote o2 b) c) (omega arith) (omega arith),
          others.returns,
          copy_padded-at env f sound s.samples others.ended others.place (wrote o5 e) hs
              (omega arith),
        )
        (ap ok (
          wrote-wrote o5 e g
          ∙ wrote-wrote (wrote (wrote o2 b) c) d (e ++ g)
          ∙ wrote-wrote (wrote o2 b) c (d ++ (e ++ g))
          ∙ wrote-wrote o2 b (c ++ (d ++ (e ++ g)))
          ∙ wrote-wrote (wrote out a) chunk (b ++ (c ++ (d ++ (e ++ g))))
          ∙ wrote-wrote out a (chunk ++ (b ++ (c ++ (d ++ (e ++ g)))))))

  -- The size in the header of the image.
  size_field :
      length header ≡ 12
      → data_size s (length locations) < 2 ^ 32
      → bytes_to_uint32 env.host (take 4 (drop 4 image)) ≡ data_size s (length locations)
  unfolding image
  size_field lh small =
      let n : ℕ = length locations in
      let w : ℕ = data_size s n in
      ap (bytes_to_uint32 env.host) (
        second_four (take 4 header) (little w) (drop 8 header) _
          (omega (arith, length-take 4 header)) refl
        ∙ sym (uint32_to_bytes_lem env.host w))
      ∙ bytes_to_uint32-uint32_to_bytes env.host w small

  -- addMarkersToWaveFile writes, where the chunks it found lie inside the input file and the output
  -- device has room: the header with the size of the rest of the file in it, if that is below 2^32,
  -- the format chunk, its extra bytes, the cue chunk, the other chunks and the sample data, each
  -- padded to an even size.
  pub write_output-image :
      (ended : Bool) (p : ℕ) (out : OutFile)
      → s.input ≡ at f ended p
      → length f.bytes ≤ f.limit
      → length header ≡ 12
      → length chunk ≡ 24
      → Inside f s.extra
      → Inside f s.samples
      → AllInside f s.others
      → 9 + data_size s (length locations) ≤ out.room
      → data_size s (length locations) < 2 ^ 32
      → (write_output env header chunk s locations out ≡ ok (wrote out image))
        × (length image ≡ 8 + data_size s (length locations))
        × (bytes_to_uint32 env.host (take 4 (drop 4 image)) ≡ data_size s (length locations))
  unfolding write_output
  write_output-image ended p out e sound lh lc he hs ho room small = (
    ap (λ g. write_from env g header chunk s locations out) e
        ∙ write_from-image ended p out sound lh lc he hs ho room small,
    length-image lh lc he hs ho,
    size_field lh small,
  )
