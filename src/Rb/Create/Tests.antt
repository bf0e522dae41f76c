-- ===== src/Rb/Create/Tests.antt =====
-- A new buffer at a concrete input.
use csnip.Base.{
  ℕ, ◌-◌, ◌≡◌, refl, sym, ◌∙◌, ap, true, some, List, [], ◌∷◌, arith, length, tabulate,
  length-tabulate,
}
use mathlib.Core.Option.{some-injective}
use csnip.Rb.State.{Rb}
use csnip.Rb.Queue
use csnip.Rb.Queue.{Call}
use csnip.Rb.Client.{run}
use csnip.Rb.Client.Refine.{Runs}
use csnip.Rb.Create.{Build, Heap, new_audio}
use csnip.Rb.Create.Fresh.{new_audio-run}
use csnip.Rb.Samples.{wrapped}

abbrev build : Build
build = record { mlock = true; mutex = true; shm = true }

-- Blocks with an old struct in them and NULs behind it.
abbrev block : ℕ → Rb
block n = record wrapped { buf = tabulate (n - 700) (λ i. 0) }

abbrev heap : Heap
heap = record {
  sizeof_rb = 700;
  malloc = λ n. some (block n);
  sizeof_small = omega arith;
  malloc_size = λ n rb e.
      ap (λ (r : Rb). length r.buf) (sym (some-injective (block n) rb e))
      ∙ length-tabulate (n - 700) (λ i. 0);
}

abbrev calls : List Call
calls = Call.write (1 ∷ 2 ∷ 3 ∷ []) ∷ Call.read 2 ∷ []

new_audio-run_example :
    (rb : Rb) × (new_audio build heap 6 [] 48000 2 4 ≡ some rb)
    × Runs rb (Queue.run 6 [] calls) (run rb calls)
new_audio-run_example =
    new_audio-run build heap 6 [] 48000 2 4 (block 706) calls (omega arith) (omega arith) refl
