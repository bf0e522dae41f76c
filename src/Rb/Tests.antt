-- ===== src/Rb/Tests.antt =====
-- The ring buffer at concrete inputs: a buffer of eight bytes whose queue goes round the end.
use csnip.Base.{ℕ, ◌≡◌, refl, inl, inr, none, some, List, [], ◌∷◌, arith}
use csnip.Rb.State.{Rb, IsValid}
use csnip.Rb.Space.{can_read, can_write, contents}
use csnip.Rb.Copy.{read, overread, write, peek_at, after_peek}
use csnip.Rb.Copy.Read.{Delivers, read-Delivers, overread-Delivers}
use csnip.Rb.Copy.Write.{Accepts, write-Accepts}
use csnip.Rb.Copy.Peek.{Shows, peek_at-Shows}
use csnip.Rb.Copy.Split.{peek_at_split_fault, peek_at_split_short}
use csnip.Rb.Advance.{advance_read_index, advance_write_index}
use csnip.Rb.Advance.Moves.{Skips, advance_read_index-Skips, Appends, advance_write_index-Appends}
use csnip.Rb.Region.{Region, get_write_regions}
use csnip.Rb.Region.Fill.{store_in, fill_then_advance}
use csnip.Rb.Samples.{wrapped, wrapped-IsValid, four, eight}
use csnip.Rb.Queue
use csnip.Rb.Queue.{Call}
use csnip.Rb.Client.{run}
use csnip.Rb.Client.Refine.{Runs, run-Runs}

contents-wrapped : contents wrapped ≡ 17 ∷ 18 ∷ 11 ∷ 12 ∷ 13 ∷ []
unfolding can_read
contents-wrapped = refl

read-Delivers_example : Delivers wrapped 3 (17 ∷ 18 ∷ 11 ∷ []) four (read wrapped four 3)
unfolding can_read
read-Delivers_example = read-Delivers wrapped four 3 wrapped-IsValid (omega arith)

overread-Delivers_example :
    Delivers wrapped 7 (17 ∷ 18 ∷ 11 ∷ 12 ∷ 13 ∷ 14 ∷ 15 ∷ []) eight (overread wrapped eight 7)
overread-Delivers_example = overread-Delivers wrapped eight 7 wrapped-IsValid (omega arith)

write-Accepts_example : Accepts wrapped 3 four (write wrapped four 4)
unfolding can_write
write-Accepts_example = write-Accepts wrapped four 4 wrapped-IsValid (omega arith)

peek_at-Shows_example : Shows wrapped 2 (12 ∷ 13 ∷ []) four (peek_at wrapped four 4 3)
unfolding can_read
peek_at-Shows_example =
    peek_at-Shows wrapped four 4 3 wrapped-IsValid (omega arith) (inr (inl (omega arith)))

-- Of the four bytes behind the first, 18 is delivered and then, of 11, 12, 13, the first two.
peek_at_split_short_example :
    peek_at wrapped four 4 1 ≡ some (4, 18 ∷ 11 ∷ 12 ∷ 0 ∷ [], after_peek wrapped 4 4)
unfolding can_read
peek_at_split_short_example =
    peek_at_split_short wrapped four 4 1 wrapped-IsValid (omega arith) (omega arith) (omega arith)
      (omega arith) (omega arith)

-- The same buffer with its read index at 4: 15, 16, 17, 18, 11, 12, 13.
abbrev fuller : Rb
fuller = record wrapped { read_index = 4 }

fuller-IsValid : IsValid fuller
fuller-IsValid = omega arith

peek_at_split_fault_example : peek_at fuller four 3 3 ≡ none
unfolding can_read
peek_at_split_fault_example =
    peek_at_split_fault fuller four 3 3 fuller-IsValid (omega arith) (omega arith) (omega arith)
      (omega arith) (omega arith)

advance_write_index-Appends_example : Appends wrapped 2 (advance_write_index wrapped 2)
unfolding can_write
advance_write_index-Appends_example = advance_write_index-Appends wrapped 2 wrapped-IsValid

abbrev no_region : Region
no_region = record { buffer = 0; size = 0 }

fill_then_advance_example :
    (m : List ℕ) × (store_in wrapped.buf
        (get_write_regions wrapped no_region).0
        (get_write_regions wrapped no_region).1
        eight
      ≡ some m)
    × Accepts wrapped 2 eight (advance_write_index (record wrapped { buf = m }) 2)
unfolding can_write
fill_then_advance_example =
    fill_then_advance wrapped no_region eight 2 wrapped-IsValid (omega arith) (omega arith)
      (omega arith)

abbrev script : List Call
script =
    Call.write (1 ∷ 2 ∷ 3 ∷ 4 ∷ []) ∷ Call.peek 2 ∷ Call.read 6 ∷ Call.skip 1 ∷ Call.drop_all ∷ []

run-Runs_example : Runs wrapped (Queue.run 8 (contents wrapped) script) (run wrapped script)
run-Runs_example = run-Runs script wrapped wrapped-IsValid

advance_read_index-Skips_example : Skips wrapped 5 (advance_read_index wrapped 7)
unfolding can_read
advance_read_index-Skips_example = advance_read_index-Skips wrapped 7 wrapped-IsValid
