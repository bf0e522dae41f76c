-- ===== src/Rb/Threads/Window.antt =====
-- The stores of a reader and a writer in the fine steps of Threads/Bytes, each against the queue, while
-- the indices differ.
use csnip.Base.{
  ℕ, zero, suc, ◌+◌, ◌<◌, ◌≤◌, ◌≡◌, ◌≢◌, ◌^◌, refl, sym, ap, ◌∙◌, Bool, true, false, some, List, [],
  ◌∷◌, ◌++◌, inr, arith, length, get_or, take, drop, tabulate, tabulate-cong,
}
use csnip.Machine.Word.{slot}
use csnip.Machine.Array.{put, length-put, get_or-put, get_or-put_other}
use csnip.Rb.State.{Rb, Stats, IsValid}
use csnip.Rb.Space.{
  can_read, can_write, byte_at, contents, length-contents, can_read-le-size, can_read-add-can_write,
}
use csnip.Rb.Copy.{after_read, after_write, copy_count_1}
use csnip.Rb.Copy.Read.{contents-after_read}
use csnip.Rb.Copy.Write.{extended, contents-extended}
use csnip.Rb.Threads.Bytes.{
  copy_place, Reader, resting, copying, leaving, Writer, waiting, storing, closing,
}

pub take-append_le : (n : ℕ) (xs ys : List ℕ) → n ≤ length xs → take n (xs ++ ys) ≡ take n xs
take-append_le zero xs ys h = refl
take-append_le (suc n) [] ys h = absurd (omega arith)
take-append_le (suc n) (x ∷ xs) ys h = ap (λ t. x ∷ t) (take-append_le n xs ys (omega arith))

pub some_eq : {A : Type 0} {a b : A} → some a ≡ some b → a ≡ b
some_eq e = cc

-- The flag and the counters do not matter while the indices differ.
pub unflagged :
    (rb : Rb) (flag : Bool) (stats : Stats)
    → rb.read_index ≢ rb.write_index
    → (can_read (record rb { last_was_write = flag; stats = stats }) ≡ can_read rb)
      × (can_write (record rb { last_was_write = flag; stats = stats }) ≡ can_write rb)
unfolding can_read can_write
unflagged rb flag stats h = ground arith

pub copy_place-slot :
    (size i n k : ℕ)
    → size ≤ 2 ^ 63
    → i < size
    → n ≤ size
    → k < n
    → copy_place size i n k ≡ slot size (i + k)
unfolding copy_place copy_count_1
copy_place-slot size i n k small inside fits h = ground arith

-- What a reader, and a writer, rely on within a call.
abbrev pub Reads : Rb → Reader → Type 0
Reads rb resting = Unit {0}
Reads rb (copying count n got) =
    (n < can_read rb) × (0 < n) × (length got ≤ n) × (got ≡ take (length got) (contents rb))
Reads rb (leaving count n) = Unit {0}

abbrev pub Writes : Rb → Writer → Type 0
Writes rb waiting = Unit {0}
Writes rb (storing source n k) =
    (n < can_write rb)
    × (0 < n)
    × (n ≤ length source)
    × (k ≤ n)
    × ((j : ℕ) → j < k → get_or rb.buf (slot rb.size (rb.write_index + j)) 0 ≡ get_or source j 0)
Writes rb (closing count n) = Unit {0}

-- A store of the flag and the counters, between calls of the other thread or within one.
module _ (rb : Rb) (flag : Bool) (stats : Stats) (apart : rb.read_index ≢ rb.write_index) where
  abbrev pub flagged : Rb
  flagged = record rb { last_was_write = flag; stats = stats }

  pub contents-flagged : contents flagged ≡ contents rb
  contents-flagged = ap (λ k. tabulate k (byte_at rb)) (unflagged rb flag stats apart).0

  pub Reads-flagged : (p : Reader) → Reads rb p → Reads flagged p
  Reads-flagged resting h = h
  Reads-flagged (copying count n got) (fewer, pos, len, same) = (
    omega (arith, (unflagged rb flag stats apart).0),
    pos,
    len,
    same ∙ ap (take (length got)) (sym contents-flagged),
  )
  Reads-flagged (leaving count n) h = h

  pub Writes-flagged : (p : Writer) → Writes rb p → Writes flagged p
  Writes-flagged waiting h = h
  Writes-flagged (storing source n k) (fewer, pos, len, part, there) =
      (omega (arith, (unflagged rb flag stats apart).1), pos, len, part, there)
  Writes-flagged (closing count n) h = h

-- A move of the read index over `n` bytes, fewer than there are.
module _ (rb : Rb) (n : ℕ) (v : IsValid rb) (pos : 0 < n) (fewer : n < can_read rb) where
  abbrev pub moved : Rb
  moved = record rb { read_index = slot rb.size (rb.read_index + n) }

  pub moved-IsValid : IsValid moved
  moved-IsValid = ground (arith, can_read-le-size rb v)

  pub moved_apart : moved.read_index ≢ moved.write_index
  unfolding can_read
  moved_apart = ground (arith, can_read-le-size rb v)

  pub can_write-moved : can_write moved ≡ can_write rb + n
  unfolding can_read can_write
  can_write-moved = ground arith

  pub contents-moved : contents moved ≡ drop n (contents rb)
  unfolding after_read
  contents-moved =
      ap (λ k. tabulate k (byte_at moved))
        (sym (unflagged moved false (after_read rb n n false moved.read_index).stats moved_apart).0)
      ∙ contents-after_read rb n n false v pos (omega (arith, can_read-le-size rb v))
          (inr (omega arith))

  pub Writes-moved : (p : Writer) → Writes rb p → Writes moved p
  Writes-moved waiting h = h
  Writes-moved (storing source m k) (fewer', pos', len, part, there) =
      (omega (arith, can_write-moved), pos', len, part, there)
  Writes-moved (closing count m) h = h

-- A move of the write index over the `n` bytes of a source that are stored there, fewer than fit.
module _ (rb : Rb) (n : ℕ) (source : List ℕ) (v : IsValid rb) (pos : 0 < n)
    (fewer : n < can_write rb) (supplied : n ≤ length source)
    (stored : (j : ℕ)
      → j < n
      → get_or rb.buf (slot rb.size (rb.write_index + j)) 0 ≡ get_or source j 0) where
  abbrev pub longer : Rb
  longer = record rb { write_index = slot rb.size (rb.write_index + n) }

  pub longer-IsValid : IsValid longer
  longer-IsValid = ground (arith, can_read-add-can_write rb v)

  pub longer_apart : longer.read_index ≢ longer.write_index
  unfolding can_write
  longer_apart = ground (arith, can_read-add-can_write rb v)

  pub can_read-longer : can_read longer ≡ can_read rb + n
  unfolding can_read can_write
  can_read-longer = ground arith

  pub contents-longer : contents longer ≡ contents rb ++ take n source
  unfolding after_write extended
  contents-longer =
      ap (λ k. tabulate k (byte_at longer))
        (sym
          (unflagged longer true (after_write rb n n rb.buf longer.write_index).stats
            longer_apart).0)
      ∙ contents-extended rb n n source rb.buf v pos (omega arith) supplied v.stored stored
          (λ k h b. refl)

  pub Reads-longer : (p : Reader) → Reads rb p → Reads longer p
  Reads-longer resting h = h
  Reads-longer (copying count m got) (fewer', pos', len, same) = (
    omega (arith, can_read-longer),
    pos',
    len,
    same
        ∙ sym (
            take-append_le (length got) (contents rb) (take n source)
              (omega (arith, length-contents rb)))
        ∙ ap (take (length got)) (sym contents-longer),
  )
  Reads-longer (leaving count m) h = h

-- A byte put into the free space.
module _ (rb : Rb) (k x : ℕ) (v : IsValid rb) (free : k < can_write rb) where
  abbrev pub filled : Rb
  filled = record rb { buf = put rb.buf (slot rb.size (rb.write_index + k)) x }

  pub filled-IsValid : IsValid filled
  filled-IsValid = omega (arith, length-put rb.buf (slot rb.size (rb.write_index + k)) x, v)

  pub elsewhere : (j : ℕ) → j < can_read rb → byte_at filled j ≡ byte_at rb j
  unfolding can_read can_write
  elsewhere j h =
      get_or-put_other rb.buf (slot rb.size (rb.write_index + k)) (slot rb.size (rb.read_index + j))
        x (ground (arith, v))

  pub contents-filled : contents filled ≡ contents rb
  unfolding can_read
  contents-filled = tabulate-cong (can_read rb) (byte_at filled) (byte_at rb) elsewhere

  pub filled_here : get_or filled.buf (slot rb.size (rb.write_index + k)) 0 ≡ x
  filled_here =
      get_or-put rb.buf (slot rb.size (rb.write_index + k)) x
        (ground (arith, v, can_read-add-can_write rb v))

  pub filled_before :
      (j : ℕ)
      → j < k
      → get_or filled.buf (slot rb.size (rb.write_index + j)) 0
        ≡ get_or rb.buf (slot rb.size (rb.write_index + j)) 0
  filled_before j h =
      get_or-put_other rb.buf (slot rb.size (rb.write_index + k))
        (slot rb.size (rb.write_index + j)) x (ground (arith, v, can_read-add-can_write rb v))

  pub Reads-filled : (p : Reader) → Reads rb p → Reads filled p
  unfolding can_read
  Reads-filled resting h = h
  Reads-filled (copying count m got) (fewer, pos, len, same) =
      (fewer, pos, len, same ∙ ap (take (length got)) (sym contents-filled))
  Reads-filled (leaving count m) h = h
