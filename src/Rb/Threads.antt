-- ===== src/Rb/Threads.antt =====
-- rb/rb.h used by one reader thread in rb_read and one writer thread in rb_write, without a lock, as
-- its introduction allows. A call is three steps: it takes its count from the indices and the flag;
-- it copies and stores its index; it stores `last_was_write` and counts. Steps of the two threads
-- come in any order. The bytes that a reader copies go to its own memory and are left out.
pub mod Safety
pub mod Race
pub mod Bytes
pub mod Window
pub mod Reader
pub mod Writer
pub mod Fifo
mod Tests
use csnip.Base.{ℕ, ◌≡◌, ◌≢◌, Bool, true, false, some, List}
use csnip.Rb.State.{Rb, Stats}
use csnip.Rb.Space.{can_read, can_write}
use csnip.Rb.Copy.{
  copy_count_1, copy_count_2, copy_in, next_index, read_count, write_count, after_read, after_write,
}

-- Where a thread stands: outside a call, before its copy of `n` of `count` bytes, or behind it.
pub data Phase : Type 0 where
  idle : Phase
  planned moved : ℕ → ℕ → Phase

pub record Shared : Type 0 where
  pub rb : Rb
  pub reader : Phase
  pub writer : Phase

-- The stores of a read and of a write that follow the index.
abbrev pub read_flag_stored : Rb → ℕ → ℕ → Rb
read_flag_stored rb count n = record rb {
  last_was_write = false;
  stats = (after_read rb n count false rb.read_index).stats;
}

abbrev pub write_flag_stored : Rb → ℕ → ℕ → Rb
write_flag_stored rb count n = record rb {
  last_was_write = true;
  stats = (after_write rb n count rb.buf rb.write_index).stats;
}

pub data Step (s t : Shared) : Type 0 where
  read_begin :
      (count : ℕ)
      → s.reader ≡ idle
      → count ≢ 0
      → can_read s.rb ≢ 0
      → t ≡ record s { reader = planned count (read_count s.rb count false) }
      → Step s t
  read_move :
      (count n r : ℕ)
      → s.reader ≡ planned count n
      → next_index s.rb.size s.rb.read_index
          (copy_count_1 s.rb.size s.rb.read_index n)
          (copy_count_2 s.rb.size s.rb.read_index n)
        ≡ some r
      → t ≡ record s { rb = record s.rb { read_index = r }; reader = moved count n }
      → Step s t
  read_flag :
      (count n : ℕ)
      → s.reader ≡ moved count n
      → t ≡ record s { rb = read_flag_stored s.rb count n; reader = idle }
      → Step s t
  write_begin :
      (count : ℕ)
      → s.writer ≡ idle
      → count ≢ 0
      → can_write s.rb ≢ 0
      → t ≡ record s { writer = planned count (write_count s.rb count) }
      → Step s t
  write_move :
      (count n w : ℕ) (source b : List ℕ)
      → s.writer ≡ planned count n
      → copy_in s.rb.buf source s.rb.write_index
          (copy_count_1 s.rb.size s.rb.write_index n)
          (copy_count_2 s.rb.size s.rb.write_index n)
        ≡ some b
      → next_index s.rb.size s.rb.write_index
          (copy_count_1 s.rb.size s.rb.write_index n)
          (copy_count_2 s.rb.size s.rb.write_index n)
        ≡ some w
      → t ≡ record s { rb = record s.rb { buf = b; write_index = w }; writer = moved count n }
      → Step s t
  write_flag :
      (count n : ℕ)
      → s.writer ≡ moved count n
      → t ≡ record s { rb = write_flag_stored s.rb count n; writer = idle }
      → Step s t

pub data Reach (s : Shared) : Shared → Type 0 where
  here : Reach s s
  next : {t u : Shared} → Reach s t → Step t u → Reach s u
