-- ===== src/Rb/Region/Bytes.antt =====
-- The regions against the queue: what a client finds in the readable ones, and what becomes of the
-- bytes that it stores in the writable ones.
use csnip.Base.{
  ℕ, ◌+◌, ◌<◌, ◌≤◌, ◌^◌, ◌≡◌, ◌⊎◌, inl, inr, ◌∙◌, sym, ap, ap₂, List, ◌++◌, arith, length, get_or,
  take, drop, tabulate,
}
use csnip.Machine.Word.{slot}
use csnip.Rb.State.{Rb, IsValid}
use csnip.Rb.Space.{can_read, can_write, contents, can_read-le-size, can_read-add-can_write}
use csnip.Rb.Copy.{copy_count_1, copy_count_2}
use csnip.Rb.Copy.Rounds.{
  parts_tabulate, counts_sum, count_1_inside, count_2_inside, count_2_starts,
}
use csnip.Rb.Region.{
  Region, get_read_regions, get_write_regions, get_next_read_region, get_next_write_region,
}

-- The bytes that a region spans.
abbrev pub region_bytes : List ℕ → Region → List ℕ
region_bytes buf region = take region.size (drop region.buffer buf)

-- The regions have the sizes of the parts of a copy of all the space.
module _ (size i n : ℕ) (small : size ≤ 2 ^ 63) (inside : i < size) (fits : n ≤ size) (buf : List ℕ)
    (stored : length buf ≡ size) (old : Region) where
  regions_bytes :
      (a b : Region)
      → a.buffer ≡ i
      → a.size ≡ copy_count_1 size i n
      → b.size ≡ copy_count_2 size i n
      → (b.size ≡ 0) ⊎ (b.buffer ≡ 0)
      → region_bytes buf a ++ region_bytes buf b
        ≡ tabulate n (λ j. get_or buf (slot size (i + j)) 0)
  regions_bytes a b ea sa sb eb =
      ap₂ ◌++◌ (ap₂ (λ s t. take s (drop t buf)) sa ea) (second eb)
      ∙ parts_tabulate size i (copy_count_1 size i n) (copy_count_2 size i n) buf stored
          (count_1_inside size i n small inside fits) (count_2_inside size i n small inside fits)
          (count_2_starts size i n small inside fits) n (counts_sum size i n small inside fits)
    where
      second : (b.size ≡ 0) ⊎ (b.buffer ≡ 0) → region_bytes buf b ≡ take (copy_count_2 size i n) buf
      second (inl z) = ap (λ t. take t (drop b.buffer buf)) z ∙ ap (λ t. take t buf) (sym z ∙ sb)
      second (inr z) = ap₂ (λ s t. take s (drop t buf)) sb z

-- The two read regions, one behind the other, hold the queue; the next read region is the first.
pub read_regions-contents :
    (rb : Rb) (old : Region)
    → IsValid rb
    → (region_bytes rb.buf (get_read_regions rb old).0
          ++ region_bytes rb.buf (get_read_regions rb old).1
        ≡ contents rb)
      × (get_next_read_region rb ≡ (get_read_regions rb old).0)
unfolding get_read_regions get_next_read_region copy_count_1 copy_count_2
read_regions-contents rb old v = (
  regions_bytes rb.size rb.read_index (can_read rb) v.small v.read_in (can_read-le-size rb v) rb.buf
      v.stored old (get_read_regions rb old).0 (get_read_regions rb old).1 (ground arith)
      (ground arith) (ground arith) (ground arith),
  ground arith,
)

-- The two write regions lie inside the buffer and span the writable space, from the write index on;
-- the next write region is the first.
pub write_regions-space :
    (rb : Rb) (old : Region)
    → IsValid rb
    → let (a, b) = get_write_regions rb old in
      (a.buffer ≡ rb.write_index)
      × (a.size + b.size ≡ can_write rb)
      × (a.buffer + a.size ≤ length rb.buf)
      × ((b.size ≡ 0)
          ⊎ ((b.buffer ≡ 0) × (a.buffer + a.size ≡ rb.size) × (b.size ≤ rb.write_index)))
      × (get_next_write_region rb ≡ a)
unfolding get_write_regions get_next_write_region
write_regions-space rb old v = ground (arith, can_read-add-can_write rb v)
