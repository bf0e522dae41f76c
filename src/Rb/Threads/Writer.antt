-- ===== src/Rb/Threads/Writer.antt =====
-- The single steps of a writer thread keep what is handed over (Holds).
use csnip.Base.{
  ℕ, suc, ◌+◌, ◌<◌, ◌≤◌, ◌≡◌, ◌≢◌, sym, ap, subst, ◌∙◌, true, some, List, ◌++◌, inl, inr, arith,
  ◌==◌, Bool-cases, ==→eq, ==→ne, le→ltb, length, get_or, take, append_assoc,
}
use csnip.Machine.Word.{slot}
use csnip.Machine.Array.{load, load-eq, store, store-eq}
use csnip.Rb.State.{Stats}
use csnip.Rb.Space.{can_write, contents, can_read-add-can_write}
use csnip.Rb.Copy.{write_count, after_write}
use csnip.Rb.Copy.Rounds.{next_index_lem}
use csnip.Rb.Threads.{write_flag_stored}
use csnip.Rb.Threads.Bytes.{copy_place, waiting, storing, closing, Traced, IsIndexBehind}
use csnip.Rb.Threads.Window.{
  some_eq, copy_place-slot, Writes, contents-flagged, Reads-flagged, longer-IsValid, longer_apart,
  contents-longer, Reads-longer, filled, filled-IsValid, contents-filled, filled_here,
  filled_before, Reads-filled,
}
use csnip.Rb.Threads.Reader.{Holds}

module _ (first : List ℕ) (s : Traced) (h : Holds first s) where
  pub begin_write-Holds :
      (source : List ℕ)
      → length source ≢ 0
      → length source < can_write s.rb
      → Holds first (record s { writer = storing source (write_count s.rb (length source)) 0 })
  unfolding write_count
  begin_write-Holds source some_given fewer = record {
    valid = h.valid;
    apart = h.apart;
    history = h.history;
    reads = h.reads;
    writes =
        rw (le→ltb (can_write s.rb) (length source) (omega (arith, fewer)))
          (fewer, omega (arith, some_given), omega arith, omega arith, λ j b. absurd (omega arith));
  }

  pub write_one-Holds :
      (source : List ℕ) (n k x : ℕ) (b : List ℕ)
      → Writes s.rb (storing source n k)
      → k < n
      → load source k ≡ some x
      → store s.rb.buf (copy_place s.rb.size s.rb.write_index n k) x ≡ some b
      → Holds first (record s { rb = record s.rb { buf = b }; writer = storing source n (suc k) })
  unfolding can_write
  write_one-Holds source n k x b (fewer, pos, len, part, there) more l m =
      subst
        (λ q.
          Holds first
            (record s { rb = record s.rb { buf = q }; writer = storing source n (suc k) }))
        (some_eq (
          sym (store-eq s.rb.buf (slot s.rb.size (s.rb.write_index + k)) x inside)
          ∙ ap (λ p. store s.rb.buf p x) (sym place)
          ∙ m))
        (record {
          valid = filled-IsValid s.rb k x h.valid free;
          apart = h.apart;
          history = ap (λ t. s.received ++ t) (contents-filled s.rb k x h.valid free) ∙ h.history;
          reads = Reads-filled s.rb k x h.valid free s.reader h.reads;
          writes = (fewer, pos, len, omega arith, stored);
        })
    where
      fits : n ≤ s.rb.size
      fits = omega (arith, can_read-add-can_write s.rb h.valid)

      free : k < can_write s.rb
      free = omega (arith, fewer, more)

      loaded : x ≡ get_or source k 0
      loaded = some_eq (sym l ∙ load-eq source k (omega (arith, len)))

      stored :
          (j : ℕ)
          → j < suc k
          → get_or (filled s.rb k x h.valid free).buf (slot s.rb.size (s.rb.write_index + j)) 0
            ≡ get_or source j 0
      stored j below = elim (Bool-cases (j == k)) [
        | inl e ↦
            subst
              (λ i.
                get_or (filled s.rb k x h.valid free).buf (slot s.rb.size (s.rb.write_index + i)) 0
                ≡ get_or source i 0)
              (sym (==→eq j k e)) (filled_here s.rb k x h.valid free ∙ loaded)
        | inr e ↦
            let before : j < k = omega (arith, ==→ne j k e) in
            filled_before s.rb k x h.valid free j before ∙ there j before
      ]

      place : copy_place s.rb.size s.rb.write_index n k ≡ slot s.rb.size (s.rb.write_index + k)
      place =
          copy_place-slot s.rb.size s.rb.write_index n k h.valid.small h.valid.write_in fits more

      inside : slot s.rb.size (s.rb.write_index + k) < length s.rb.buf
      inside = ground (arith, h.valid.stored, h.valid.write_in, fits)

  pub store_write_index-Holds :
      (source : List ℕ) (n w : ℕ)
      → Writes s.rb (storing source n n)
      → IsIndexBehind s.rb.size s.rb.write_index n w
      → Holds first (record s {
        rb = record s.rb { write_index = w };
        writer = closing (length source) n;
        sent = s.sent ++ take n source;
      })
  store_write_index-Holds source n w (fewer, pos, len, part, there) i =
      subst
        (λ q. Holds first (record s {
          rb = record s.rb { write_index = q };
          writer = closing (length source) n;
          sent = s.sent ++ take n source;
        }))
        (some_eq (
          sym (
            next_index_lem s.rb.size s.rb.write_index n h.valid.small h.valid.write_in
              (omega (arith, can_read-add-can_write s.rb h.valid)))
          ∙ i))
        (record {
          valid = longer-IsValid s.rb n source h.valid pos fewer len there;
          apart = longer_apart s.rb n source h.valid pos fewer len there;
          history =
              ap (λ t. s.received ++ t) (contents-longer s.rb n source h.valid pos fewer len there)
              ∙ sym (append_assoc s.received (contents s.rb) (take n source))
              ∙ ap (λ t. t ++ take n source) h.history
              ∙ append_assoc first s.sent (take n source);
          reads = Reads-longer s.rb n source h.valid pos fewer len there s.reader h.reads;
          writes = tt;
        })

  pub end_write-Holds :
      (count n : ℕ)
      → Holds first (record s { rb = write_flag_stored s.rb count n; writer = waiting })
  end_write-Holds count n = record {
    valid = omega (arith, h.valid);
    apart = h.apart;
    history = ap (λ t. s.received ++ t) (contents-flagged s.rb true stored h.apart) ∙ h.history;
    reads = Reads-flagged s.rb true stored h.apart s.reader h.reads;
    writes = tt;
  }
    where
      stored : Stats
      stored = (after_write s.rb n count s.rb.buf s.rb.write_index).stats
