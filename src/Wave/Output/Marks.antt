-- ===== src/Wave/Output/Marks.antt =====
-- The cue chunk as bytes, with the numbers in little endian order whatever the host.
use csnip.Base.{ℕ, suc, ◌+◌, ◌*◌, ◌/◌, ◌%◌, ◌≡◌, refl, ap, ap₂, List, [], ◌∷◌, ◌++◌, length, arith}
use csnip.Wave.Endian.{Host, uint32_to_bytes_lem}
use csnip.Wave.Output.{cue_point, cue_points, cue_header}

abbrev pub joined : List (List ℕ) → List ℕ
joined [] = []
joined (p ∷ ps) = p ++ joined ps

abbrev pub little : ℕ → List ℕ
little v = (v % 256) ∷ (v / 256 % 256) ∷ (v / 65536 % 256) ∷ (v / 16777216 % 256) ∷ []

-- A cue point with the number `n`: the number, a play order of 0, the identifier of the samples' chunk, a
-- chunk and a block that start at 0, and the frame.
abbrev pub mark : ℕ → ℕ → List ℕ
mark n location =
    little n
    ++ (0 ∷ 0 ∷ 0 ∷ 0 ∷ b'd' ∷ b'a' ∷ b't' ∷ b'a' ∷ 0 ∷ 0 ∷ 0 ∷ 0 ∷ 0 ∷ 0 ∷ 0 ∷ 0 ∷ little location)

-- The cue points of the locations, numbered from `n` on.
abbrev pub marks : ℕ → List ℕ → List ℕ
marks n [] = []
marks n (l ∷ ls) = mark n l ++ marks (suc n) ls

-- The cue chunk in front of its points.
abbrev pub marks_header : ℕ → List ℕ
marks_header count = b'c' ∷ b'u' ∷ b'e' ∷ b' ' ∷ (little (4 + 24 * count) ++ little count)

cue_point-mark : (host : Host) (i location : ℕ) → cue_point host i location ≡ mark (suc i) location
unfolding cue_point
cue_point-mark host i location =
    rw
      (
        uint32_to_bytes_lem host (i + 1),
        uint32_to_bytes_lem host 0,
        uint32_to_bytes_lem host location,
      )
      (ap (λ k. mark k location) {x = i + 1} {y = suc i} (omega arith))

pub cue_points-marks :
    (host : Host) (i : ℕ) (ls : List ℕ) → joined (cue_points host i ls) ≡ marks (suc i) ls
unfolding cue_points
cue_points-marks host i [] = refl
cue_points-marks host i (l ∷ ls) =
    ap₂ ◌++◌ (cue_point-mark host i l) (cue_points-marks host (suc i) ls)

pub cue_header-marks_header : (host : Host) (n : ℕ) → cue_header host n ≡ marks_header n
unfolding cue_header
cue_header-marks_header host n =
    rw (uint32_to_bytes_lem host (4 + 24 * n), uint32_to_bytes_lem host n) refl

pub length-cue_points :
    (host : Host) (i : ℕ) (ls : List ℕ) → length (cue_points host i ls) ≡ length ls
unfolding cue_points
length-cue_points host i [] = refl
length-cue_points host i (l ∷ ls) = ap suc (length-cue_points host (suc i) ls)

pub length-marks : (n : ℕ) (ls : List ℕ) → length (marks n ls) ≡ 24 * length ls
length-marks n [] = refl
length-marks n (l ∷ ls) = omega (arith, length-marks (suc n) ls)
