-- ===== src/Wave/Output/Ends.antt =====
-- The writing of the output file comes to an end, whatever was found in the input file.
use csnip.Base.{
  ℕ, zero, suc, ◌-◌, ◌<◌, Option, none, some, List, [], ◌∷◌, arith, ltb, leb, length, leb→le, ◌==◌,
  ◌%◌, Bool-cases, inl, inr,
}
use csnip.Machine.Run.{ok, failed, Returns, Returns-bind, Returns-if}
use csnip.Machine.Stdio.{InFile, OutFile, fseek_set, fread, fwrite}
use csnip.Wave.Chunks.{Env, Location, Scan, read_new}
use csnip.Wave.Output.{
  put_bytes, put_padding, put_points, copy_bytes, copy_chunk, copy_padded, copy_others, copy_extra,
  new_header, file_data_size, cue_header, cue_points, write_from, write_output, write_opened,
}

put_bytes-Returns : (out : OutFile) (xs : List ℕ) → Returns (put_bytes out xs)
unfolding put_bytes
put_bytes-Returns out xs = Returns-if (fwrite out xs).0 (ok (fwrite out xs).1) failed tt tt

put_padding-Returns : (out : OutFile) (size : ℕ) → Returns (put_padding out size)
unfolding put_padding
put_padding-Returns out size =
    Returns-if (size % 2 == 0) (ok out) (put_bytes out (0 ∷ [])) tt (put_bytes-Returns out (0 ∷ []))

put_points-Returns :
    (n : ℕ) (out : OutFile) (points : List (List ℕ)) → Returns (put_points n out points)
unfolding put_points
put_points-Returns zero out ps = tt
put_points-Returns (suc n) out [] = tt
put_points-Returns (suc n) out (p ∷ ps) =
    Returns-bind (put_bytes out p) _ (put_bytes-Returns out p)
      (λ out'. put_points-Returns n out' ps)

module _ (env : Env) where
  read_new-Returns : (f : InFile) (n : ℕ) → Returns (read_new env f n)
  unfolding read_new
  read_new-Returns f n =
      Returns-if (fread f (env.unset n)).1.error failed (ok (fread f (env.unset n))) tt tt

  copy_bytes-Returns :
      (fuel remaining : ℕ) (f : InFile) (out : OutFile)
      → remaining < fuel
      → Returns (copy_bytes env fuel remaining f out)
  unfolding copy_bytes
  copy_bytes-Returns zero remaining f out h = absurd (omega arith)
  copy_bytes-Returns (suc fuel) remaining f out h = elim (Bool-cases (leb 1024 remaining)) [
    | inl e ↦ rw e (
        Returns-bind (read_new env f 1024) _ (read_new-Returns f 1024) (λ (buffer, f').
          Returns-bind (put_bytes out buffer) _ (put_bytes-Returns out buffer) (λ out'.
            copy_bytes-Returns fuel (remaining - 1024) f' out'
              (omega (arith, leb→le 1024 remaining e)))))
    | inr e ↦ rw e (
        Returns-if (ltb 0 remaining) _ (ok (f, out))
          (Returns-bind (read_new env f remaining) _ (read_new-Returns f remaining) (λ (buffer, f').
            Returns-bind (put_bytes out buffer) _ (put_bytes-Returns out buffer) (λ out'. tt)))
          tt)
  ]

  copy_padded-Returns :
      (l : Location) (f : InFile) (out : OutFile) → Returns (copy_padded env l f out)
  unfolding copy_padded copy_chunk
  copy_padded-Returns l f out =
      Returns-bind (copy_bytes env (suc l.size) l.size (fseek_set f l.start) out) _
        (copy_bytes-Returns (suc l.size) l.size (fseek_set f l.start) out (omega arith))
        (λ (f', out').
          Returns-bind (put_padding out' l.size) _ (put_padding-Returns out' l.size) (λ o. tt))

  copy_others-Returns :
      (ls : List Location) (f : InFile) (out : OutFile) → Returns (copy_others env ls f out)
  unfolding copy_others
  copy_others-Returns [] f out = tt
  copy_others-Returns (l ∷ ls) f out =
      Returns-bind (copy_padded env l f out) _ (copy_padded-Returns l f out)
        (λ (f', out'). copy_others-Returns ls f' out')

  copy_extra-Returns :
      (l : Location) (f : InFile) (out : OutFile) → Returns (copy_extra env l f out)
  unfolding copy_extra
  copy_extra-Returns l f out =
      Returns-if (ltb 0 l.size) (copy_padded env l f out) (ok (f, out))
        (copy_padded-Returns l f out) tt

  pub write_opened-Returns :
      (output : Option OutFile) (header chunk : List ℕ) (s : Scan) (locations : List ℕ)
      → Returns (write_opened env output header chunk s locations)
  unfolding write_opened write_output write_from
  write_opened-Returns none header chunk s locations = tt
  write_opened-Returns (some out) header chunk s locations =
      Returns-bind (put_bytes out (new_header env header (file_data_size s (length locations)))) _
        (put_bytes-Returns out _)
        (λ o1. Returns-bind (put_bytes o1 chunk) _ (put_bytes-Returns o1 chunk) (λ o2.
          Returns-bind (copy_extra env s.extra s.input o2) _ (copy_extra-Returns s.extra s.input o2)
            (λ (f1, o3).
              Returns-bind (put_bytes o3 (cue_header env.host (length locations))) _
                (put_bytes-Returns o3 _)
                (λ o4.
                  Returns-bind (put_points _ o4 (cue_points env.host 0 locations)) _
                    (put_points-Returns _ o4 _)
                    (λ o5.
                      Returns-bind (copy_others env s.others f1 o5) _
                        (copy_others-Returns s.others f1 o5)
                        (λ (f2, o6).
                          Returns-bind (copy_padded env s.samples f2 o6) _
                            (copy_padded-Returns s.samples f2 o6) (λ (f3, o7). tt)))))))
