-- ===== src/Wave/Chunks/Ends.antt =====
-- The loop over the chunks comes to an end on every file.
use csnip.Base.{
  ℕ, zero, suc, ◌+◌, ◌-◌, ◌*◌, ◌%◌, ◌<◌, ◌≤◌, ◌≡◌, refl, sym, ap, subst, ◌∙◌, Bool, true, false,
  not, Option, none, some, List, arith, ltb, if◌then◌else◌, length, take, drop, le→leb, Bool-cases,
  inl, inr, ◌==◌, leb,
}
use csnip.Machine.Run.{Run, ok, failed, fault, ◌>>=◌, Ends, Ends-bind, Ends-if}
use csnip.Machine.Stdio.{InFile, fread, fseek_on, fseek_back}
use csnip.Wave.Chunks.{
  Env, Scan, skip_chunk, read_new, read_size, read_header, on_format, on_data, read_cue_points,
  on_cue, on_other, on_chunk, read_chunks, read_wave, sub32, strncmp_equal, fmt, data_id, cue, riff,
  wave,
}
use csnip.Wave.Endian.{bytes_to_uint16, bytes_to_uint32}
use csnip.Machine.Stdio.Onwards.{From, From-trans, fread-From, Whole, fread-Whole, fread-moves_some}

module _ (env : Env) where
  -- A read from `p` on, that goes to `q` at least, ends so.
  read_new-Ends :
      (f g : InFile) (p n : ℕ)
      → From f p g
      → Ends (λ (r : List ℕ × InFile). From f p r.1) (read_new env g n)
  unfolding read_new
  read_new-Ends f g p n from =
      Ends-if (λ (r : List ℕ × InFile). From f p r.1) (fread g (env.unset n)).1.error failed
        (ok (fread g (env.unset n))) tt (From-trans from (fread-From g (env.unset n)))

  read_size-Ends :
      (f g : InFile) (p : ℕ)
      → From f p g
      → Ends (λ (r : ℕ × InFile). From f p r.1) (read_size env g)
  unfolding read_size
  read_size-Ends f g p from =
      Ends-bind (λ (r : List ℕ × InFile). From f p r.1) (λ (r : ℕ × InFile). From f p r.1)
        (read_new env g 4) _ (read_new-Ends f g p 4 from) (λ r h. h)

  skip_chunk-From : (f g : InFile) (p size : ℕ) → From f p g → From f p (skip_chunk g size)
  unfolding skip_chunk fseek_on
  skip_chunk-From f g p size from = elim (Bool-cases (size % 2 == 0)) [
    | inl e ↦ rw e (further (g.pos + size) (omega arith))
    | inr e ↦ rw e (further (g.pos + size + 1) (omega arith))
  ]
    where
      further : (q : ℕ) → g.pos ≤ q → From f p (record g { pos = q; at_end = false })
      further q h = record {
        same_bytes = from.same_bytes;
        same_limit = from.same_limit;
        onwards = omega (arith, from.onwards);
      }

  -- What a chunk leaves of the scan goes on from `p`.
  abbrev Onwards : InFile → ℕ → Scan → Type 0
  Onwards f p s = From f p s.input

  on_data-Ends :
      (f : InFile) (p : ℕ) (s : Scan) → Onwards f p s → Ends (Onwards f p) (on_data env s)
  unfolding on_data
  on_data-Ends f p s from =
      Ends-bind (λ (r : ℕ × InFile). From f p r.1) (Onwards f p) (read_size env s.input) _
        (read_size-Ends f s.input p from) (λ (size, g) h. skip_chunk-From f g p size h)

  read_cue_points-Ends :
      (f g : InFile) (p n : ℕ)
      → From f p g
      → Ends (λ (r : List (List ℕ) × InFile). From f p r.1) (read_cue_points env n g)
  unfolding read_cue_points
  read_cue_points-Ends f g p zero from = from
  read_cue_points-Ends f g p (suc n) from =
      Ends-bind (λ (r : List ℕ × InFile). From f p r.1)
        (λ (r : List (List ℕ) × InFile). From f p r.1) (read_new env g 24) _
        (read_new-Ends f g p 24 from)
        (λ (point, h) onwards.
          Ends-bind (λ (r : List (List ℕ) × InFile). From f p r.1)
            (λ (r : List (List ℕ) × InFile). From f p r.1) (read_cue_points env n h) _
            (read_cue_points-Ends f h p n onwards) (λ r k. k))

  on_other-Ends :
      (f : InFile) (p : ℕ) (s : Scan) → Onwards f p s → Ends (Onwards f p) (on_other env s)
  unfolding on_other
  on_other-Ends f p s from = Ends-if (Onwards f p) (leb 256 (length s.others)) failed _ tt (
      Ends-bind (λ (r : ℕ × InFile). From f p r.1) (Onwards f p) (read_size env s.input) _
        (read_size-Ends f s.input p from) (λ (size, g) h. skip_chunk-From f g p size h))

  on_cue-Ends : (f : InFile) (p : ℕ) (s : Scan) → Onwards f p s → Ends (Onwards f p) (on_cue env s)
  unfolding on_cue
  on_cue-Ends f p s from =
      Ends-bind (λ (r : ℕ × InFile). From f p r.1) (Onwards f p) (read_size env s.input) _
        (read_size-Ends f s.input p from)
        (λ (size, g) h.
          Ends-bind (λ (r : List ℕ × InFile). From f p r.1) (Onwards f p) (read_new env g 4) _
            (read_new-Ends f g p 4 h) (λ (bytes, k) on. points bytes k on))
    where
      points :
          (bytes : List ℕ) (k : InFile)
          → From f p k
          → Ends (Onwards f p) (
              let count = bytes_to_uint16 env.host env.half.0 env.half.1 bytes in
              let read = read_cue_points env count k >>= λ (points, h). ok (record s {
                input = h;
                existing = if env.given (24 * count) then some points else none;
              }) in
              if env.given (24 * count) then read else if count == 0 then read else fault)
      points bytes k on =
          let count = bytes_to_uint16 env.host env.half.0 env.half.1 bytes in
          let read =
            Ends-bind (λ (r : List (List ℕ) × InFile). From f p r.1) (Onwards f p)
              (read_cue_points env count k) _ (read_cue_points-Ends f k p count on) (λ r h. h) in
          Ends-if (Onwards f p) (env.given (24 * count)) _ _ read
            (Ends-if (Onwards f p) (count == 0) _ fault read tt)

  fseek_back_four :
      (g : InFile) (p : ℕ) → g.pos ≡ 4 + p → fseek_back g 4 ≡ record g { pos = p; at_end = false }
  unfolding fseek_back
  fseek_back_four g p at =
      rw (le→leb 4 g.pos (omega (arith, at)))
        (ap (λ q. record g { pos = q; at_end = false }) {x = g.pos - 4} {y = p} (omega (arith, at)))

  read_first :
      (f g : InFile) (p : ℕ)
      → g.bytes ≡ f.bytes
      → g.limit ≡ f.limit
      → g.pos ≡ p
      → p < length f.bytes
      → p < f.limit
      → Ends (λ (r : List ℕ × InFile). From f (suc p) r.1) (read_new env g 24)
  unfolding read_new
  read_first f g p same_bytes same_limit at inside allowed =
      Ends-if (λ (r : List ℕ × InFile). From f (suc p) r.1) (fread g (env.unset 24)).1.error failed
        (ok (fread g (env.unset 24))) tt
        (record {
          same_bytes = moved.same_bytes ∙ same_bytes;
          same_limit = moved.same_limit ∙ same_limit;
          onwards = omega (arith, moved.onwards, at);
        })
    where
      moved : From g (suc g.pos) (fread g (env.unset 24)).1
      moved =
          fread-moves_some g (env.unset 24) (omega (arith, env.length-unset 24))
            (omega (arith, at, ap length same_bytes)) (omega (arith, at, same_limit))

  -- A format chunk is read again from its identifier at `p` on, a byte of which is there.
  on_format-Ends :
      (f : InFile) (p : ℕ) (s : Scan)
      → Onwards f (4 + p) s
      → s.input.pos ≡ 4 + p
      → p < length f.bytes
      → p < f.limit
      → Ends (Onwards f (suc p)) (on_format env s)
  unfolding on_format
  on_format-Ends f p s from at inside allowed =
      Ends-if (Onwards f (suc p)) (env.given 24) _ failed
        (Ends-bind (λ (r : List ℕ × InFile). From f (suc p) r.1) (Onwards f (suc p))
          (read_new env (fseek_back s.input 4) 24) _ again (λ (chunk, g) h. found chunk g h))
        tt
    where
      again :
          Ends
            (λ (r : List ℕ × InFile). From f (suc p) r.1)
            (read_new env (fseek_back s.input 4) 24)
      again =
          subst (λ g. Ends (λ (r : List ℕ × InFile). From f (suc p) r.1) (read_new env g 24))
            (sym (fseek_back_four s.input p at))
            (read_first f (record s.input { pos = p; at_end = false }) p from.same_bytes
              from.same_limit refl inside allowed)

      found :
          (chunk : List ℕ) (g : InFile)
          → From f (suc p) g
          → Ends (Onwards f (suc p)) (
              let size = bytes_to_uint32 env.host (take 4 (drop 4 chunk)) in
              let code = bytes_to_uint16 env.host env.half.0 env.half.1 (take 2 (drop 8 chunk)) in
              let extra = sub32 size 16 in
              let found : Scan = record s { input = g; format = some chunk } in
              if not (code == 1)
              then failed
              else if ltb 0 extra
              then ok (record found {
                input = skip_chunk g extra;
                extra = record { start = g.pos; size = extra };
              })
              else ok found)
      found chunk g h =
          let extra = sub32 (bytes_to_uint32 env.host (take 4 (drop 4 chunk))) 16 in
          Ends-if (Onwards f (suc p)) _ failed _ tt
            (Ends-if (Onwards f (suc p)) (ltb 0 extra) _ _ (skip_chunk-From f g (suc p) extra h) h)

  on_chunk-Ends :
      (f : InFile) (id : List ℕ) (s : Scan)
      → From f f.pos s.input
      → Whole f 4 s.input
      → Ends (Onwards f (suc f.pos)) (on_chunk env id s)
  unfolding on_chunk
  on_chunk-Ends f id s from whole =
      Ends-if (Onwards f (suc f.pos)) (strncmp_equal 4 id fmt) _ _
        (on_format-Ends f f.pos s (past (4 + f.pos) (omega arith)) whole.read_to
          (whole.inside (omega arith)) (whole.allowed (omega arith)))
        (Ends-if (Onwards f (suc f.pos)) (strncmp_equal 4 id data_id) _ _
          (on_data-Ends f (suc f.pos) s (past (suc f.pos) (omega arith)))
          (Ends-if (Onwards f (suc f.pos)) (strncmp_equal 4 id cue) _ _
            (on_cue-Ends f (suc f.pos) s (past (suc f.pos) (omega arith)))
            (on_other-Ends f (suc f.pos) s (past (suc f.pos) (omega arith)))))
    where
      past : (k : ℕ) → k ≤ 4 + f.pos → From f k s.input
      past k h = record {
        same_bytes = from.same_bytes;
        same_limit = from.same_limit;
        onwards = omega (arith, whole.read_to);
      }

  -- The loop ends, with more fuel than bytes behind its place.
  read_chunks-Ends :
      (fuel : ℕ) (s : Scan)
      → length s.input.bytes - s.input.pos < fuel
      → Ends (λ t. Unit {0}) (read_chunks env fuel s)
  unfolding read_chunks
  read_chunks-Ends zero s h = absurd (omega arith)
  read_chunks-Ends (suc fuel) s h = elim (Bool-cases (fread s.input (env.unset 4)).1.at_end) [
    | inl e ↦ rw e tt
    | inr e ↦ elim (Bool-cases (fread s.input (env.unset 4)).1.error) [
      | inl r ↦ rw (e, r) tt
      | inr r ↦
          rw (e, r) (next (fread-Whole s.input (env.unset 4) e r) (λ t. read_chunks-Ends fuel t))
    ]
  ]
    where
      f : InFile
      f = s.input

      s' : Scan
      s' = record s { input = (fread f (env.unset 4)).1 }

      next :
          Whole f (length (env.unset 4)) s'.input
          → ((t : Scan)
              → length t.input.bytes - t.input.pos < fuel
              → Ends (λ u. Unit {0}) (read_chunks env fuel t))
          → Ends
              (λ t. Unit {0})
              (on_chunk env (fread f (env.unset 4)).0 s' >>= λ t. read_chunks env fuel t)
      next whole ih =
          let four : Whole f 4 s'.input =
            subst (λ n. Whole f n s'.input) (env.length-unset 4) whole in
          Ends-bind (Onwards f (suc f.pos)) (λ t. Unit {0}) _ (λ t. read_chunks env fuel t)
            (on_chunk-Ends f (fread f (env.unset 4)).0 s' (fread-From f (env.unset 4)) four)
            (λ t on.
              ih t (omega (arith, on.onwards, ap length on.same_bytes, four.inside (omega arith))))

  read_header-Ends : (f : InFile) → Ends (λ (r : List ℕ × InFile). From f 0 r.1) (read_header env f)
  unfolding read_header
  read_header-Ends f =
      Ends-if P (env.given 12) _ failed
        (Ends-bind P P (read_new env f 12) _
          (read_new-Ends f f 0 12
            (record { same_bytes = refl; same_limit = refl; onwards = omega arith }))
          (λ (header, g) h. refused (not (strncmp_equal 4 header riff)) _ (
            refused (not (strncmp_equal 4 (drop 8 header) wave)) _ (
              refused (sub32 (bytes_to_uint32 env.host (take 4 (drop 4 header))) 4 == 0)
                (ok (header, g)) h))))
        tt
    where
      P : List ℕ × InFile → Type 0
      P r = From f 0 r.1

      refused : (b : Bool) (r : Run (List ℕ × InFile)) → Ends P r → Ends P (if b then failed else r)
      refused true r h = tt
      refused false r h = h

  -- Whatever the wave file holds, and wherever its device gives errors, the reading of it comes to an end.
  pub read_wave-Ends : (f : InFile) → Ends (λ (r : List ℕ × Scan). Unit {0}) (read_wave env f)
  unfolding read_wave
  read_wave-Ends f =
      Ends-bind (λ (r : List ℕ × InFile). From f 0 r.1) (λ (r : List ℕ × Scan). Unit {0})
        (read_header env f) _ (read_header-Ends f)
        (λ (header, g) h.
          Ends-bind (λ (t : Scan). Unit {0}) (λ (r : List ℕ × Scan). Unit {0}) _ _
            (read_chunks-Ends (suc (length f.bytes)) _ (omega (arith, ap length h.same_bytes)))
            (λ s u. tested s header s.format))
    where
      tested :
          (s : Scan) (header : List ℕ) (o : Option (List ℕ))
          → Ends
              (λ (r : List ℕ × Scan). Unit {0})
              (let enough = if s.samples.size == 0 then failed else ok (header, s) in
                elim o [ none ↦ failed | some chunk ↦ enough ])
      tested s header none = tt
      tested s header (some chunk) =
          Ends-if (λ (r : List ℕ × Scan). Unit {0}) (s.samples.size == 0) failed (ok (header, s)) tt
            tt
