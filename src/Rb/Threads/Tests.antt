-- ===== src/Rb/Threads/Tests.antt =====
-- A reader and a writer at concrete inputs.
use csnip.Base.{◌≡◌, ◌++◌, ◌∷◌, [], ◌≢◌, refl, arith}
use csnip.Rb.State.{IsValid}
use csnip.Rb.Space.{can_read, contents}
use csnip.Rb.Copy.{read_count, copy_count_1, copy_count_2, next_index}
use csnip.Rb.Threads.{idle, planned, Shared, read_begin, Reach, here, next}
use csnip.Rb.Threads.Safety.{Reach-IsValid}
use csnip.Rb.Threads.Race.{at_rest}
use csnip.Machine.Word.{rem}
use csnip.Machine.Array.{load}
use csnip.Rb.Threads.Bytes.{
  copy_place, leaving, Traced, begin_read, read_one, store_read_index, SparingReach, at_start,
  behind,
}
use csnip.Rb.Threads.Fifo.{started, handed_over_in_order}
use csnip.Rb.Samples.{wrapped, wrapped-IsValid}

-- A reader has begun a read of two bytes.
abbrev begun : Shared
begun = record { rb = wrapped; reader = planned 2 2; writer = idle }

reaches : Reach (at_rest wrapped) begun
unfolding can_read read_count
reaches = next here (read_begin 2 refl (omega arith) (omega arith) refl)

Reach-IsValid_example : IsValid begun.rb
Reach-IsValid_example = Reach-IsValid (at_rest wrapped) begun reaches wrapped-IsValid

-- The reader has read a byte, up to the store of its index.
abbrev one_read : Traced
one_read = record (started wrapped) {
  rb = record wrapped { read_index = 7 };
  reader = leaving 1 1;
  received = 17 ∷ [];
}

one_read-Reach : SparingReach (started wrapped) one_read
unfolding can_read read_count load copy_place copy_count_1 copy_count_2 next_index rem
one_read-Reach =
    behind
      (behind (behind at_start (begin_read 1 refl (omega arith) (omega arith) refl) (omega arith))
        (read_one 1 1 [] 17 refl (omega arith) refl refl) tt)
      (store_read_index 1 1 (17 ∷ []) 7 refl refl refl refl) tt

handed_over_in_order_example :
    ((17 ∷ []) ++ contents one_read.rb ≡ contents wrapped ++ [])
    × (one_read.rb.read_index ≢ one_read.rb.write_index)
handed_over_in_order_example =
    handed_over_in_order wrapped one_read wrapped-IsValid (omega arith) one_read-Reach
