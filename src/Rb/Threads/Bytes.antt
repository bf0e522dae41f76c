-- ===== src/Rb/Threads/Bytes.antt =====
-- The same two threads in finer steps: every byte that a memcpy of rb_read or rb_write moves is a step
-- of its own, and the bytes that a reader copies are kept. `received` is what the calls of rb_read
-- have put into their destinations, `sent` what the calls of rb_write have taken, in order; a call
-- counts from the store of its index on.
use csnip.Base.{
  ℕ, suc, ◌+◌, ◌-◌, ◌<◌, ◌≡◌, ◌≢◌, false, some, List, [], ◌∷◌, ◌++◌, ltb, if◌then◌else◌, length,
  take,
}
use csnip.Machine.Array.{load, store}
use csnip.Rb.State.{Rb}
use csnip.Rb.Space.{can_read, can_write}
use csnip.Rb.Copy.{copy_count_1, copy_count_2, next_index, read_count, write_count}
use csnip.Rb.Threads.{read_flag_stored, write_flag_stored}

-- The place in the buffer of byte `k` of a copy of `n` bytes in two parts.
unfoldable pub copy_place : ℕ → ℕ → ℕ → ℕ → ℕ
copy_place size index n k =
    if ltb k (copy_count_1 size index n) then index + k else k - copy_count_1 size index n

-- A reader outside a call; within its copies, of `n` of `count` bytes, with what it has copied so far;
-- behind the store of the index.
pub data Reader : Type 0 where
  resting : Reader
  copying : ℕ → ℕ → List ℕ → Reader
  leaving : ℕ → ℕ → Reader

-- A writer outside a call; within its copies, of the first `n` bytes of a source, with `k` of them
-- stored; behind the store of the index.
pub data Writer : Type 0 where
  waiting : Writer
  storing : List ℕ → ℕ → ℕ → Writer
  closing : ℕ → ℕ → Writer

pub record Traced : Type 0 where
  pub rb : Rb
  pub reader : Reader
  pub writer : Writer
  pub received : List ℕ
  pub sent : List ℕ

-- The index that a copy of `n` bytes stores.
abbrev pub IsIndexBehind : ℕ → ℕ → ℕ → ℕ → Type 0
IsIndexBehind size index n i =
    next_index size index (copy_count_1 size index n) (copy_count_2 size index n) ≡ some i

pub data ByteStep (s t : Traced) : Type 0 where
  begin_read :
      (count : ℕ)
      → s.reader ≡ resting
      → count ≢ 0
      → can_read s.rb ≢ 0
      → t ≡ record s { reader = copying count (read_count s.rb count false) [] }
      → ByteStep s t
  read_one :
      (count n : ℕ) (got : List ℕ) (x : ℕ)
      → s.reader ≡ copying count n got
      → length got < n
      → load s.rb.buf (copy_place s.rb.size s.rb.read_index n (length got)) ≡ some x
      → t ≡ record s { reader = copying count n (got ++ (x ∷ [])) }
      → ByteStep s t
  store_read_index :
      (count n : ℕ) (got : List ℕ) (r : ℕ)
      → s.reader ≡ copying count n got
      → length got ≡ n
      → IsIndexBehind s.rb.size s.rb.read_index n r
      → t ≡ record s {
        rb = record s.rb { read_index = r };
        reader = leaving count n;
        received = s.received ++ got;
      }
      → ByteStep s t
  end_read :
      (count n : ℕ)
      → s.reader ≡ leaving count n
      → t ≡ record s { rb = read_flag_stored s.rb count n; reader = resting }
      → ByteStep s t
  begin_write :
      (source : List ℕ)
      → s.writer ≡ waiting
      → length source ≢ 0
      → can_write s.rb ≢ 0
      → t ≡ record s { writer = storing source (write_count s.rb (length source)) 0 }
      → ByteStep s t
  write_one :
      (source : List ℕ) (n k x : ℕ) (b : List ℕ)
      → s.writer ≡ storing source n k
      → k < n
      → load source k ≡ some x
      → store s.rb.buf (copy_place s.rb.size s.rb.write_index n k) x ≡ some b
      → t ≡ record s { rb = record s.rb { buf = b }; writer = storing source n (suc k) }
      → ByteStep s t
  store_write_index :
      (source : List ℕ) (n w : ℕ)
      → s.writer ≡ storing source n n
      → IsIndexBehind s.rb.size s.rb.write_index n w
      → t ≡ record s {
        rb = record s.rb { write_index = w };
        writer = closing (length source) n;
        sent = s.sent ++ take n source;
      }
      → ByteStep s t
  end_write :
      (count n : ℕ)
      → s.writer ≡ closing count n
      → t ≡ record s { rb = write_flag_stored s.rb count n; writer = waiting }
      → ByteStep s t

-- A reader that asks for less than it sees, and a writer that offers less than it sees room for.
abbrev pub IsSparing : (s t : Traced) → ByteStep s t → Type 0
IsSparing s t (begin_read count i h k e) = count < can_read s.rb
IsSparing s t (begin_write source i h k e) = length source < can_write s.rb
IsSparing s t (read_one count n got x i h l e) = Unit {0}
IsSparing s t (store_read_index count n got r i h l e) = Unit {0}
IsSparing s t (end_read count n i e) = Unit {0}
IsSparing s t (write_one source n k x b i h l m e) = Unit {0}
IsSparing s t (store_write_index source n w i h e) = Unit {0}
IsSparing s t (end_write count n i e) = Unit {0}

pub data SparingReach (s : Traced) : Traced → Type 0 where
  at_start : SparingReach s s
  behind :
      {t u : Traced} → SparingReach s t → (m : ByteStep t u) → IsSparing t u m → SparingReach s u
