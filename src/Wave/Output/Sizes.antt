-- ===== src/Wave/Output/Sizes.antt =====
-- How many bytes addMarkersToWaveFile puts into the header, and its sum without a bound.
use csnip.Base.{
  ℕ, ◌+◌, ◌*◌, ◌%◌, ◌^◌, ◌<◌, ◌≡◌, ◌∙◌, List, [], ◌∷◌, inl, inr, ◌==◌, arith, Bool-cases, ==→eq,
  ==→ne,
}
use csnip.Wave.Chunks.{Location, Scan}
use csnip.Wave.Output.{add_padded, add_others, file_data_size}
use csnip.Wave.Output.Copy.{others_size}

-- The sum of the padded sizes, with no bound.
abbrev pub data_size : Scan → ℕ → ℕ
data_size s count =
    28
    + (s.extra.size + s.extra.size % 2)
    + (s.samples.size + s.samples.size % 2)
    + others_size s.others
    + 12
    + 24 * count

add_padded_lem : (t n : ℕ) → t + n + n % 2 < 2 ^ 32 → add_padded t n ≡ t + n + n % 2
unfolding add_padded
add_padded_lem t n h = elim (Bool-cases (n % 2 == 0)) [
  | inl e ↦ rw e (omega (arith, ==→eq (n % 2) 0 e))
  | inr e ↦ rw e (omega (arith, ==→ne (n % 2) 0 e))
]

add_others_lem :
    (ls : List Location) (t : ℕ)
    → t + others_size ls < 2 ^ 32
    → add_others t ls ≡ t + others_size ls
unfolding add_others
add_others_lem [] t h = omega arith
add_others_lem (l ∷ ls) t h =
    rw (add_padded_lem t l.size (omega arith))
      (add_others_lem ls (t + l.size + l.size % 2) (omega arith) ∙ omega arith)

-- fileDataSize is the sum, where that is below 2^32.
pub file_data_size_lem :
    (s : Scan) (count : ℕ) → data_size s count < 2 ^ 32 → file_data_size s count ≡ data_size s count
unfolding file_data_size
file_data_size_lem s count h =
    let a : add_padded 28 s.extra.size ≡ 28 + s.extra.size + s.extra.size % 2 =
      add_padded_lem 28 s.extra.size (omega arith) in
    let b = add_padded_lem (28 + s.extra.size + s.extra.size % 2) s.samples.size (omega arith) in
    let c =
      add_others_lem s.others
        (28 + s.extra.size + s.extra.size % 2 + s.samples.size + s.samples.size % 2)
        (omega arith) in
    rw (a, b, c) (omega arith)
