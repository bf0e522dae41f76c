-- ===== src/Rb/Client/Refine.antt =====
-- The calls of a client on the ring buffer against the same calls on the queue.
use csnip.Base.{
  ℕ, zero, suc, ◌≤◌, ◌≡◌, refl, ◌∙◌, sym, ap, ap₂, Option, some, List, [], ◌∷◌, ◌++◌, arith, ◌>>=◌,
  min, length, take, drop, length-take,
}
use csnip.Rb.State.{Rb, IsValid, reset}
use csnip.Rb.Space.{
  stats-same, can_read, can_write, contents, length-contents, can_read-add-can_write, reset_empties,
}
use csnip.Rb.Copy.Rounds.{take-append_self}
use csnip.Rb.Copy.Read.{Delivers, read-Delivers}
use csnip.Rb.Copy.Write.{Accepts, write-Accepts}
use csnip.Rb.Copy.Peek.{Shows, peek-Shows}
use csnip.Rb.Advance.{skip}
use csnip.Rb.Advance.Moves.{Skips, advance_read_index-Skips, drop_all-empties}
use csnip.Rb.Queue
use csnip.Rb.Queue.{Call, Reply}
use csnip.Rb.Client.{zeros, step, run}

-- What one call does: it replies as the queue does, leaves a valid buffer of the same size, and its
-- queue is the queue's.
pub record Steps (rb : Rb) (spec : Reply × List ℕ) (out : Option (Reply × Rb)) : Type 0 where
  pub after : Rb
  pub returns : out ≡ some (spec.0, after)
  pub keeps_valid : IsValid after
  pub same_queue : contents after ≡ spec.1
  pub same_size : after.size ≡ rb.size

length-zeros : (n : ℕ) → length (zeros n) ≡ n
length-zeros zero = refl
length-zeros (suc n) = ap suc (length-zeros n)

take-bytes :
    (k : ℕ) (rb : Rb) (rest : List ℕ)
    → k ≤ can_read rb
    → take k (take k (contents rb) ++ rest) ≡ take k (contents rb)
take-bytes k rb rest h =
    take-append_self k (take k (contents rb)) rest
      (omega (arith, length-take k (contents rb), length-contents rb))

Accepts-Steps :
    (rb : Rb) (source : List ℕ) (k j : ℕ) (out : Option (ℕ × Rb))
    → Accepts rb k source out
    → k ≡ j
    → Steps rb ((j, []), contents rb ++ take j source) (out >>= λ (k, rb'). some ((k, []), rb'))
Accepts-Steps rb source k j out a e = record {
  after = a.after;
  returns =
      ap (λ o. o >>= λ (k, rb'). some ((k, []), rb')) a.returns
      ∙ ap (λ t. some ((t, []), a.after)) e;
  keeps_valid = a.keeps_valid;
  same_queue = a.appended ∙ ap (λ t. contents rb ++ take t source) e;
  same_size = a.same_size;
}

Delivers-Steps :
    (rb : Rb) (dest : List ℕ) (k j : ℕ) (out : Option (ℕ × List ℕ × Rb))
    → k ≤ can_read rb
    → Delivers rb k (take k (contents rb)) dest out
    → k ≡ j
    → Steps rb
        ((j, take j (contents rb)), drop j (contents rb))
        (out >>= λ (k, dest, rb'). some ((k, take k dest), rb'))
Delivers-Steps rb dest k j out h d e = record {
  after = d.after;
  returns =
      ap (λ o. o >>= λ (k, dest, rb'). some ((k, take k dest), rb')) d.returns
      ∙ ap (λ t. some ((k, t), d.after)) (take-bytes k rb (drop k dest) h)
      ∙ ap (λ t. some ((t, take t (contents rb)), d.after)) e;
  keeps_valid = d.keeps_valid;
  same_queue = d.remaining ∙ ap (λ t. drop t (contents rb)) e;
  same_size = d.same_size;
}

Skips-Steps :
    (rb : Rb) (k j : ℕ) (out : Option (ℕ × Rb))
    → Skips rb k out
    → k ≡ j
    → Steps rb ((j, []), drop j (contents rb)) (out >>= λ (k, rb'). some ((k, []), rb'))
Skips-Steps rb k j out s e = record {
  after = s.after;
  returns =
      ap (λ o. o >>= λ (k, rb'). some ((k, []), rb')) s.returns
      ∙ ap (λ t. some ((t, []), s.after)) e;
  keeps_valid = s.keeps_valid;
  same_queue = s.remaining ∙ ap (λ t. drop t (contents rb)) e;
  same_size = s.same_size;
}

reset-size : (rb : Rb) → (reset rb).size ≡ rb.size
unfolding reset
reset-size rb = refl

Shows-Steps :
    (rb : Rb) (dest : List ℕ) (k j : ℕ) (out : Option (ℕ × List ℕ × Rb))
    → IsValid rb
    → k ≤ can_read rb
    → Shows rb k (take k (contents rb)) dest out
    → k ≡ j
    → Steps rb
        ((j, take j (contents rb)), contents rb)
        (out >>= λ (k, dest, rb'). some ((k, take k dest), rb'))
Shows-Steps rb dest k j out v h s e = record {
  after = s.after;
  returns =
      ap (λ o. o >>= λ (k, dest, rb'). some ((k, take k dest), rb')) s.returns
      ∙ ap (λ t. some ((k, t), s.after)) (take-bytes k rb (drop k dest) h)
      ∙ ap (λ t. some ((t, take t (contents rb)), s.after)) e;
  keeps_valid = (stats-same rb s.after s.unchanged v).0;
  same_queue = (stats-same rb s.after s.unchanged v).1;
  same_size = (stats-same rb s.after s.unchanged v).2;
}

-- Each call does what the queue does.
pub step-Steps :
    (rb : Rb) (c : Call) → IsValid rb → Steps rb (Queue.step rb.size (contents rb) c) (step rb c)
unfolding step skip
step-Steps rb (Call.write source) v =
    Accepts-Steps rb source (min (length source) (can_write rb)) _ _
      (write-Accepts rb source (length source) v (omega arith))
      (omega (arith, can_read-add-can_write rb v, length-contents rb))
step-Steps rb (Call.read n) v =
    Delivers-Steps rb (zeros n) (min n (can_read rb)) _ _ (omega arith)
      (read-Delivers rb (zeros n) n v (omega (arith, length-zeros n)))
      (omega (arith, length-contents rb))
step-Steps rb (Call.peek n) v =
    Shows-Steps rb (zeros n) (min n (can_read rb)) _ _ v (omega arith)
      (peek-Shows rb (zeros n) n v (omega (arith, length-zeros n)))
      (omega (arith, length-contents rb))
step-Steps rb (Call.skip n) v =
    Skips-Steps rb (min n (can_read rb)) _ _ (advance_read_index-Skips rb n v)
      (omega (arith, length-contents rb))
step-Steps rb Call.drop_all v =
    let (after, returns, valid, none_left, room, size) = drop_all-empties rb v in
    record {
      after = after;
      returns =
          ap (λ o. o >>= λ (k, rb'). some ((k, []), rb')) returns
          ∙ ap (λ t. some ((t, []), after)) (sym (length-contents rb));
      keeps_valid = valid;
      same_queue = none_left;
      same_size = size;
    }
step-Steps rb Call.reset v = record {
  after = reset rb;
  returns = refl;
  keeps_valid = (reset_empties rb v).0;
  same_queue = (reset_empties rb v).1;
  same_size = reset-size rb;
}

-- What a sequence of calls does: the replies and the final queue of the bounded queue.
pub record Runs (rb : Rb) (spec : List Reply × List ℕ) (out : Option (List Reply × Rb))
    : Type 0 where
  pub after : Rb
  pub returns : out ≡ some (spec.0, after)
  pub keeps_valid : IsValid after
  pub same_queue : contents after ≡ spec.1

-- A client's calls on a valid ring buffer, whatever they are, end with no fault, and have the replies
-- and leave the queue that the bounded queue of the same size has, started with the readable bytes.
pub run-Runs :
    (cs : List Call) (rb : Rb)
    → IsValid rb
    → Runs rb (Queue.run rb.size (contents rb) cs) (run rb cs)
unfolding run
run-Runs [] rb v = record { after = rb; returns = refl; keeps_valid = v; same_queue = refl }
run-Runs (c ∷ cs) rb v = let s = step-Steps rb c v in later s (run-Runs cs s.after s.keeps_valid)
  where
    later :
        (s : Steps rb (Queue.step rb.size (contents rb) c) (step rb c))
        → Runs s.after (Queue.run s.after.size (contents s.after) cs) (run s.after cs)
        → Runs rb (Queue.run rb.size (contents rb) (c ∷ cs)) (run rb (c ∷ cs))
    later s r = record {
      after = r.after;
      returns =
          rw (s.returns, r.returns)
            (ap (λ t. some ((Queue.step rb.size (contents rb) c).0 ∷ t.0, r.after)) same);
      keeps_valid = r.keeps_valid;
      same_queue = r.same_queue ∙ ap (λ t. t.1) same;
    }
      where
        same :
            Queue.run s.after.size (contents s.after) cs
            ≡ Queue.run rb.size (Queue.step rb.size (contents rb) c).1 cs
        same = ap₂ (λ n q. Queue.run n q cs) s.same_size s.same_queue
