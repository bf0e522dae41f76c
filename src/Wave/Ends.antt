-- ===== src/Wave/Ends.antt =====
-- addMarkersToWaveFile comes to an end.
use csnip.Base.{ℕ, suc, ◌*◌, ◌≤◌, ◌≢◌, Option, none, some, List, [], arith, ltb, length}
use csnip.Machine.Run.{failed, spinning, Returns, Returns-bind, Returns-if, Returns-spinning}
use csnip.Machine.Stdio.{InFile, OutFile}
use csnip.Wave.Chunks.{Env, Scan, read_wave}
use csnip.Wave.Chunks.Ends.{read_wave-Ends}
use csnip.Wave.Markers.{read_markers}
use csnip.Wave.Markers.Ends.{read_markers-Returns}
use csnip.Wave.Output.{mark_chunks, add_markers}
use csnip.Wave.Output.Ends.{write_opened-Returns}

module _ (env : Env) where
  mark_chunks-Returns :
      (markers : InFile) (output : Option OutFile) (header : List ℕ) (s : Scan)
      (format : Option (List ℕ))
      → length markers.bytes ≤ markers.limit
      → Returns (mark_chunks env markers output header s format)
  unfolding mark_chunks
  mark_chunks-Returns markers output header s none sound = tt
  mark_chunks-Returns markers output header s (some chunk) sound =
      Returns-bind (read_markers (suc (suc (length markers.bytes))) markers []) _
        (read_markers-Returns (suc (suc (length markers.bytes))) markers [] sound (ground arith))
        (λ locations. Returns-if (ltb (length locations) 1) failed _ tt (
          Returns-if (env.given (24 * length locations)) _ failed
            (write_opened-Returns env output header chunk s locations) tt))

  -- Where the device of the marker file gives no errors, addMarkersToWaveFile comes to an end: whatever
  -- the two files hold, wherever the device of the wave file gives errors, and however little the
  -- output device and malloc give.
  pub add_markers_ends :
      (f : Option InFile) (markers : InFile) (output : Option OutFile)
      → length markers.bytes ≤ markers.limit
      → add_markers env f (some markers) output ≢ spinning
  unfolding add_markers
  add_markers_ends none markers output sound = Returns-spinning failed tt
  add_markers_ends (some f) markers output sound =
      Returns-spinning (add_markers env (some f) (some markers) output) (
        Returns-bind (read_wave env f) _ (read_wave-Ends env f)
          (λ (header, s). mark_chunks-Returns markers output header s s.format sound))
