-- ===== src/Rb/Search/Byte.antt =====
-- rb_find_byte against the first occurrence in the queue.
use csnip.Base.{
  ℕ, zero, suc, ◌+◌, ◌<◌, ◌≡◌, refl, sym, subst, ap, ap₂, Bool, true, false, some, List, [], ◌∷◌,
  arith, if◌then◌else◌, ◌==◌, Bool-cases, inl, inr, length, drop, tabulate, lt→ltb, le→ltb,
  tabulate-cong,
}
use csnip.Machine.Word.{add64}
use csnip.Rb.State.{Rb, IsValid, count_peek, count_underflow}
use csnip.Rb.Space.{can_read, byte_at, contents, can_read-le-size}
use csnip.Rb.Copy.Peek.{peek_byte_at_lem}
use csnip.Rb.Search.{Found, find_byte_loop, find_byte}

-- The place of the first `byte` in a list, counted from `off`: what the loop has to answer.
abbrev pub first_from : ℕ → ℕ → List ℕ → Bool × ℕ
first_from byte off [] = (false, 0)
first_from byte off (x ∷ xs) = if x == byte then (true, off) else first_from byte (off + 1) xs

-- A search answers `answer`, and changes nothing but the counters.
pub record Answers (rb : Rb) (answer : Bool × ℕ) (out : Found) : Type 0 where
  pub after : Rb
  pub returns : out ≡ some (answer.0, answer.1, after)
  pub unchanged : record after { stats = rb.stats } ≡ rb

pub can_read-count_peek : (rb : Rb) (n : ℕ) → can_read (count_peek rb n) ≡ can_read rb
unfolding can_read count_peek
can_read-count_peek rb n = refl

pub count_peek-IsValid : (rb : Rb) (n : ℕ) → IsValid rb → IsValid (count_peek rb n)
unfolding count_peek
count_peek-IsValid rb n v = omega arith

pub count_peek-stats : (rb : Rb) → record (count_peek rb 1) { stats = rb.stats } ≡ rb
unfolding count_peek
count_peek-stats rb = refl

pub count_underflow-stats : (rb : Rb) → record (count_underflow rb) { stats = rb.stats } ≡ rb
unfolding count_underflow
count_underflow-stats rb = refl

-- The bytes behind the first `off`, the first of them taken off.
pub bytes_left :
    (rb : Rb) (off m : ℕ)
    → tabulate (suc m) (λ j. byte_at rb (off + j))
      ≡ byte_at rb off ∷ tabulate m (λ j. byte_at rb (off + 1 + j))
bytes_left rb off m = ap₂ ◌∷◌ (ap (byte_at rb) {x = off + 0} {y = off} (omega arith)) (
    tabulate-cong m (λ j. byte_at rb (off + suc j)) (λ j. byte_at rb (off + 1 + j))
      (λ j b. ap (byte_at rb) {x = off + suc j} {y = off + 1 + j} (omega arith)))

-- An answer from the buffer with its counters moved is one from the buffer.
Answers-count :
    (rb : Rb) (answer : Bool × ℕ) (out : Found)
    → Answers (count_peek rb 1) answer out
    → Answers rb answer out
unfolding count_peek
Answers-count rb answer out a = record {
  after = a.after;
  returns = a.returns;
  unchanged = ap restore a.unchanged;
}
  where
    restore : Rb → Rb
    restore r = record r { stats = rb.stats }

-- `m` bytes are left behind the first `off`.
find_byte_loop-Answers :
    (m fuel : ℕ) (rb : Rb) (byte off : ℕ) (c : List ℕ)
    → IsValid rb
    → off + m ≡ can_read rb
    → m < fuel
    → 0 < length c
    → Answers rb
        (first_from byte off (tabulate m (λ j. byte_at rb (off + j))))
        (find_byte_loop fuel rb byte off c)
unfolding find_byte_loop count_peek
find_byte_loop-Answers m zero rb byte off c v e f room = absurd (omega arith)
find_byte_loop-Answers zero (suc fuel) rb byte off c v e f room =
    rw (peek_byte_at_lem rb c off v room, le→ltb off (can_read rb) (omega arith))
      (record { after = count_underflow rb; returns = refl; unchanged = count_underflow-stats rb })
find_byte_loop-Answers (suc m) (suc fuel) rb byte off c v e f room =
    subst (λ xs. Answers rb (first_from byte off xs) (find_byte_loop (suc fuel) rb byte off c))
      (sym (bytes_left rb off m))
      (rw (peek_byte_at_lem rb c off v room, lt→ltb off (can_read rb) (omega arith), next)
        (elim (Bool-cases (byte_at rb off == byte)) [
          | inl hit ↦
              rw hit (record {
                after = count_peek rb 1;
                returns = refl;
                unchanged = count_peek-stats rb;
              })
          | inr miss ↦ rw miss (
              Answers-count rb _ _ (
                find_byte_loop-Answers m fuel (count_peek rb 1) byte (off + 1)
                  (byte_at rb off ∷ drop 1 c) (count_peek-IsValid rb 1 v)
                  (omega (arith, can_read-count_peek rb 1)) (omega arith) (omega arith)))
        ]))
  where
    next : add64 off 1 ≡ off + 1
    next = omega (arith, can_read-le-size rb v)

-- rb_find_byte answers whether the byte is readable, and how far behind the read index it stands
-- first (0 if nowhere); it ends, and changes nothing but the counters.
pub find_byte-Answers :
    (rb : Rb) (byte : ℕ)
    → IsValid rb
    → Answers rb (first_from byte 0 (contents rb)) (find_byte rb byte)
unfolding find_byte
find_byte-Answers rb byte v =
    subst (λ xs. Answers rb (first_from byte 0 xs) (find_byte rb byte)) from_start
      (find_byte_loop-Answers (can_read rb) (suc (can_read rb)) rb byte 0 (0 ∷ []) v (omega arith)
        (omega arith) (omega arith))
  where
    from_start : tabulate (can_read rb) (λ j. byte_at rb (0 + j)) ≡ contents rb
    from_start =
        tabulate-cong (can_read rb) (λ j. byte_at rb (0 + j)) (byte_at rb)
          (λ j b. ap (byte_at rb) {x = 0 + j} {y = j} (omega arith))
