-- ===== src/Rb/Region/Fill.antt =====
-- Writing without a copy by the library: a client stores its bytes in the two write regions and
-- then moves the write index.
use csnip.Base.{
  ℕ, ◌+◌, ◌<◌, ◌≤◌, ◌≡◌, refl, ◌∙◌, true, false, Option, some, List, arith, ltb, if◌then◌else◌,
  ◌==◌, ◌>>=◌, length, get_or, ne→==,
}
use csnip.Machine.Word.{slot}
use csnip.Machine.Memory.{memcpy}
use csnip.Rb.State.{Rb, IsValid}
use csnip.Rb.Space.{can_write, can_read-add-can_write}
use csnip.Rb.Copy.{copy_in, copy_count_1, copy_count_2, write_count, after_write}
use csnip.Rb.Copy.Rounds.{ring_in}
use csnip.Rb.Copy.Write.{Accepts, extended, extended-IsValid, contents-extended, write_count-eq-min}
use csnip.Rb.Advance.{advance_write_index}
use csnip.Rb.Advance.Moves.{advance_lem}
use csnip.Rb.Region.{Region, get_write_regions}

-- The client's copies into the regions, the second only if that has room.
unfoldable pub store_in : List ℕ → Region → Region → List ℕ → Option (List ℕ)
store_in buf a b source = do
  m ← memcpy buf a.buffer source 0 a.size
  if b.size == 0 then some m else memcpy m b.buffer source a.size b.size

store_in-eq-copy_in :
    (rb : Rb) (old : Region) (source : List ℕ)
    → IsValid rb
    → store_in rb.buf (get_write_regions rb old).0 (get_write_regions rb old).1 source
      ≡ copy_in rb.buf source rb.write_index
          (copy_count_1 rb.size rb.write_index (can_write rb))
          (copy_count_2 rb.size rb.write_index (can_write rb))
unfolding store_in get_write_regions copy_in copy_count_1 copy_count_2
store_in-eq-copy_in rb old source v = ground arith

can_write-buf : (rb : Rb) (m : List ℕ) → can_write (record rb { buf = m }) ≡ can_write rb
unfolding can_write
can_write-buf rb m = refl

-- Once the storage behind the write index holds the source, moving the index appends it.
advance_filled :
    (rb : Rb) (m source : List ℕ) (count : ℕ)
    → IsValid rb
    → 0 < count
    → count ≤ can_write rb
    → count ≤ length source
    → length m ≡ rb.size
    → ((k : ℕ) → k < count → get_or m (slot rb.size (rb.write_index + k)) 0 ≡ get_or source k 0)
    → ((k : ℕ)
        → can_write rb ≤ k
        → k < rb.size
        → get_or m (slot rb.size (rb.write_index + k)) 0
          ≡ get_or rb.buf (slot rb.size (rb.write_index + k)) 0)
    → Accepts rb count source (advance_write_index (record rb { buf = m }) count)
unfolding advance_write_index extended after_write
advance_filled rb m source count v pos fits supplied stored written kept =
    rw (asked, room, counted, advance_lem rb.size rb.write_index count v.small v.write_in inside)
      (record {
        after = extended rb count count source m v pos fits supplied stored written kept;
        returns = refl;
        keeps_valid =
            extended-IsValid rb count count source m v pos fits supplied stored written kept;
        appended =
            contents-extended rb count count source m v pos fits supplied stored written kept;
        same_size = refl;
        same_read_index = refl;
        same_header = refl;
      })
  where
    inside : count ≤ rb.size
    inside = omega (arith, can_read-add-can_write rb v)

    asked : (count == 0) ≡ false
    asked = ne→== count 0 (omega arith)

    room : (can_write (record rb { buf = m }) == 0) ≡ false
    room = ne→== (can_write (record rb { buf = m })) 0 (omega (arith, can_write-buf rb m))

    counted : write_count (record rb { buf = m }) count ≡ count
    counted = omega (arith, can_write-buf rb m, write_count-eq-min (record rb { buf = m }) count)

-- Where a client fills the write regions from a source and then advances the write index by `count`
-- bytes, no more than the regions hold, the first `count` bytes of the source are appended to the
-- queue.
pub fill_then_advance :
    (rb : Rb) (old : Region) (source : List ℕ) (count : ℕ)
    → IsValid rb
    → can_write rb ≤ length source
    → 0 < count
    → count ≤ can_write rb
    → (m : List ℕ) × (store_in rb.buf
          (get_write_regions rb old).0
          (get_write_regions rb old).1
          source
        ≡ some m)
      × Accepts rb count source (advance_write_index (record rb { buf = m }) count)
fill_then_advance rb old source count v supplied pos fits = (
  m,
  store_in-eq-copy_in rb old source v ∙ stores,
  advance_filled rb m source count v pos fits (omega arith) stored written kept,
)
  where
    inside : can_write rb ≤ rb.size
    inside = omega (arith, can_read-add-can_write rb v)

    open ring_in rb.size rb.write_index
        (can_write rb)
        v.small
        v.write_in
        inside
        rb.buf
        v.stored
        source
        supplied use {0 as m, 1 as stores, 2 as stored, 3 as bytes}

    written :
        (k : ℕ) → k < count → get_or m (slot rb.size (rb.write_index + k)) 0 ≡ get_or source k 0
    written k h =
        let early : ltb k (can_write rb) ≡ true = ground arith in
        rw early at (bytes k (omega (arith, inside)))

    kept :
        (k : ℕ)
        → can_write rb ≤ k
        → k < rb.size
        → get_or m (slot rb.size (rb.write_index + k)) 0
          ≡ get_or rb.buf (slot rb.size (rb.write_index + k)) 0
    kept k h b = let late : ltb k (can_write rb) ≡ false = ground arith in rw late at (bytes k b)
