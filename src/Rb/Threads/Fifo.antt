-- ===== src/Rb/Threads/Fifo.antt =====
-- What the two threads of Threads/Bytes hand over, where neither takes or fills all that it sees.
use csnip.Base.{ℕ, ◌≡◌, ◌≢◌, sym, subst, List, [], ◌++◌, append-nil}
use csnip.Rb.State.{Rb, IsValid}
use csnip.Rb.Space.{contents}
use csnip.Rb.Threads.Bytes.{
  resting, waiting, Traced, ByteStep, begin_read, read_one, store_read_index, end_read, begin_write,
  write_one, store_write_index, end_write, IsSparing, SparingReach, at_start, behind,
}
use csnip.Rb.Threads.Window.{Reads, Writes}
use csnip.Rb.Threads.Reader.{
  Holds, begin_read-Holds, read_one-Holds, store_read_index-Holds, end_read-Holds,
}
use csnip.Rb.Threads.Writer.{
  begin_write-Holds, write_one-Holds, store_write_index-Holds, end_write-Holds,
}

ByteStep-Holds :
    (first : List ℕ) (s t : Traced) (m : ByteStep s t)
    → IsSparing s t m
    → Holds first s
    → Holds first t
ByteStep-Holds first s t (begin_read count i k c e) sparing h =
    subst (Holds first) (sym e) (begin_read-Holds first s h count k sparing)
ByteStep-Holds first s t (read_one count n got x i k l e) sparing h =
    subst (Holds first) (sym e)
      (read_one-Holds first s h count n got x (subst (Reads s.rb) i h.reads) k l)
ByteStep-Holds first s t (store_read_index count n got r i k l e) sparing h =
    subst (Holds first) (sym e)
      (store_read_index-Holds first s h count n got r (subst (Reads s.rb) i h.reads) k l)
ByteStep-Holds first s t (end_read count n i e) sparing h =
    subst (Holds first) (sym e) (end_read-Holds first s h count n)
ByteStep-Holds first s t (begin_write source i k c e) sparing h =
    subst (Holds first) (sym e) (begin_write-Holds first s h source k sparing)
ByteStep-Holds first s t (write_one source n k x b i l m o e) sparing h =
    subst (Holds first) (sym e)
      (write_one-Holds first s h source n k x b (subst (Writes s.rb) i h.writes) l m o)
ByteStep-Holds first s t (store_write_index source n w i k e) sparing h =
    subst (Holds first) (sym e)
      (store_write_index-Holds first s h source n w (subst (Writes s.rb) i h.writes) k)
ByteStep-Holds first s t (end_write count n i e) sparing h =
    subst (Holds first) (sym e) (end_write-Holds first s h count n)

SparingReach-Holds :
    (first : List ℕ) (s t : Traced) → SparingReach s t → Holds first s → Holds first t
SparingReach-Holds first s t at_start h = h
SparingReach-Holds first s t (behind {t = u} r m sparing) h =
    ByteStep-Holds first u t m sparing (SparingReach-Holds first s u r h)

-- Both threads outside their calls, with nothing handed over.
abbrev pub started : Rb → Traced
started rb = record { rb = rb; reader = resting; writer = waiting; received = []; sent = [] }

-- However the single bytes and stores of a reader thread and a writer thread interleave: where the
-- buffer starts with differing indices, no rb_read asks for all the bytes that it sees and no rb_write
-- offers as many as it sees room for, what was received and what is readable are, in order, the first
-- readable bytes and what was sent, and the indices never meet.
pub handed_over_in_order :
    (rb : Rb) (t : Traced)
    → IsValid rb
    → rb.read_index ≢ rb.write_index
    → SparingReach (started rb) t
    → (t.received ++ contents t.rb ≡ contents rb ++ t.sent) × (t.rb.read_index ≢ t.rb.write_index)
handed_over_in_order rb t v apart r =
    let h = SparingReach-Holds (contents rb) (started rb) t r (record {
      valid = v;
      apart = apart;
      history = sym (append-nil (contents rb));
      reads = tt;
      writes = tt;
    }) in
    (h.history, h.apart)
