-- ===== src/Rb/Audio/Tests.antt =====
-- Frames of two samples at concrete inputs.
use csnip.Base.{◌≡◌, inl, [], ◌∷◌, arith}
use csnip.Rb.State.{Rb, IsValid}
use csnip.Rb.Space.{can_read}
use csnip.Machine.Run.{spinning}
use csnip.Rb.Audio.{deinterleave_items}
use csnip.Rb.Audio.Deinterleave.{Delivers, deinterleave_items-Shows}
use csnip.Rb.Audio.Frames.{deinterleave_items_never_ends}
use csnip.Rb.Samples.{four, holding}

-- Three frames of two channels, a byte for each.
abbrev frames : Rb
frames = holding (11 ∷ 21 ∷ 12 ∷ 22 ∷ 13 ∷ 23 ∷ 7 ∷ 8 ∷ []) 6

frames-IsValid : IsValid frames
frames-IsValid = omega arith

deinterleave_items-Shows_example :
    Delivers frames 3 (21 ∷ 22 ∷ 23 ∷ []) four (deinterleave_items 4 frames four 3 1 1 2)
unfolding can_read
deinterleave_items-Shows_example =
    deinterleave_items-Shows 4 frames four 2 1 1 2 frames-IsValid (omega arith) (omega arith)
      (omega arith) (omega arith) (omega arith) (omega arith) (omega arith)

-- Three items are wanted, and five rounds are run.
deinterleave_items_never_ends_example :
    deinterleave_items 5 frames (0 ∷ 0 ∷ 0 ∷ 0 ∷ 0 ∷ 0 ∷ []) 3 1 1 0 ≡ spinning
unfolding can_read
deinterleave_items_never_ends_example =
    deinterleave_items_never_ends 5 frames (0 ∷ 0 ∷ 0 ∷ 0 ∷ 0 ∷ 0 ∷ []) 3 1 1 frames-IsValid
      (omega arith) (omega arith) (inl (omega arith)) (omega arith)
