-- ===== src/Rb/Threads/Reader.antt =====
-- The single steps of a reader thread keep what is handed over (Holds).
use csnip.Base.{
  ℕ, suc, ◌+◌, ◌<◌, ◌≤◌, ◌≡◌, ◌≢◌, sym, ap, ap₂, subst, ◌∙◌, false, some, List, [], ◌∷◌, ◌++◌,
  arith, length, get_or-tabulate, take, append_assoc, length-append, take-drop,
}
use csnip.Machine.Word.{slot}
use csnip.Machine.Array.{load, load-eq, take-suc}
use csnip.Rb.State.{Stats, IsValid}
use csnip.Rb.Space.{can_read, byte_at, contents, length-contents, can_read-le-size}
use csnip.Rb.Copy.{read_count, after_read}
use csnip.Rb.Copy.Rounds.{next_index_lem}
use csnip.Rb.Threads.{read_flag_stored}
use csnip.Rb.Threads.Bytes.{copy_place, resting, copying, leaving, Traced, IsIndexBehind}
use csnip.Rb.Threads.Window.{
  some_eq, copy_place-slot, Reads, Writes, contents-flagged, Writes-flagged, moved-IsValid,
  moved_apart, contents-moved, Writes-moved,
}

-- The bytes handed over and the bytes in between are the first ones and those sent.
pub record Holds (first : List ℕ) (s : Traced) : Type 0 where
  pub valid : IsValid s.rb
  pub apart : s.rb.read_index ≢ s.rb.write_index
  pub history : s.received ++ contents s.rb ≡ first ++ s.sent
  pub reads : Reads s.rb s.reader
  pub writes : Writes s.rb s.writer

module _ (first : List ℕ) (s : Traced) (h : Holds first s) where
  pub begin_read-Holds :
      (count : ℕ)
      → count ≢ 0
      → count < can_read s.rb
      → Holds first (record s { reader = copying count (read_count s.rb count false) [] })
  unfolding read_count
  begin_read-Holds count some_asked fewer = record {
    valid = h.valid;
    apart = h.apart;
    history = h.history;
    reads = ground (arith, fewer, some_asked);
    writes = h.writes;
  }

  pub read_one-Holds :
      (count n : ℕ) (got : List ℕ) (x : ℕ)
      → Reads s.rb (copying count n got)
      → length got < n
      → load s.rb.buf (copy_place s.rb.size s.rb.read_index n (length got)) ≡ some x
      → Holds first (record s { reader = copying count n (got ++ (x ∷ [])) })
  read_one-Holds count n got x (fewer, pos, len, same) more l = record {
    valid = h.valid;
    apart = h.apart;
    history = h.history;
    reads = (fewer, pos, omega (arith, length-append got (x ∷ [])), got_more);
    writes = h.writes;
  }
    where
      k : ℕ
      k = length got

      fits : n ≤ s.rb.size
      fits = omega (arith, can_read-le-size s.rb h.valid)

      place : copy_place s.rb.size s.rb.read_index n k ≡ slot s.rb.size (s.rb.read_index + k)
      place = copy_place-slot s.rb.size s.rb.read_index n k h.valid.small h.valid.read_in fits more

      loaded : byte_at s.rb k ≡ x
      loaded = some_eq (
          sym (
            load-eq s.rb.buf (slot s.rb.size (s.rb.read_index + k))
              (ground (arith, h.valid.stored, h.valid.read_in, fits)))
          ∙ ap (load s.rb.buf) (sym place)
          ∙ l)

      got_more : got ++ (x ∷ []) ≡ take (length (got ++ (x ∷ []))) (contents s.rb)
      got_more =
          ap₂ (λ t y. t ++ (y ∷ [])) same
            (sym loaded ∙ sym (get_or-tabulate (can_read s.rb) (byte_at s.rb) k 0 (omega arith)))
          ∙ sym (take-suc (contents s.rb) k (omega (arith, length-contents s.rb)))
          ∙ ap (λ j. take j (contents s.rb)) {x = suc k} {y = length (got ++ (x ∷ []))}
              (omega (arith, length-append got (x ∷ [])))

  pub store_read_index-Holds :
      (count n : ℕ) (got : List ℕ) (r : ℕ)
      → Reads s.rb (copying count n got)
      → length got ≡ n
      → IsIndexBehind s.rb.size s.rb.read_index n r
      → Holds first (record s {
        rb = record s.rb { read_index = r };
        reader = leaving count n;
        received = s.received ++ got;
      })
  store_read_index-Holds count n got r (fewer, pos, len, same) all i =
      subst
        (λ q. Holds first (record s {
          rb = record s.rb { read_index = q };
          reader = leaving count n;
          received = s.received ++ got;
        }))
        (some_eq (
          sym (
            next_index_lem s.rb.size s.rb.read_index n h.valid.small h.valid.read_in
              (omega (arith, can_read-le-size s.rb h.valid)))
          ∙ i))
        (record {
          valid = moved-IsValid s.rb n h.valid pos fewer;
          apart = moved_apart s.rb n h.valid pos fewer;
          history =
              append_assoc s.received got _
              ∙ ap (λ t. s.received ++ t)
                  (ap₂ ◌++◌ (same ∙ ap (λ j. take j (contents s.rb)) all)
                      (contents-moved s.rb n h.valid pos fewer)
                    ∙ take-drop n (contents s.rb))
              ∙ h.history;
          reads = tt;
          writes = Writes-moved s.rb n h.valid pos fewer s.writer h.writes;
        })

  pub end_read-Holds :
      (count n : ℕ)
      → Holds first (record s { rb = read_flag_stored s.rb count n; reader = resting })
  end_read-Holds count n = record {
    valid = omega (arith, h.valid);
    apart = h.apart;
    history = ap (λ t. s.received ++ t) (contents-flagged s.rb false stored h.apart) ∙ h.history;
    reads = tt;
    writes = Writes-flagged s.rb false stored h.apart s.writer h.writes;
  }
    where
      stored : Stats
      stored = (after_read s.rb n count false s.rb.read_index).stats
