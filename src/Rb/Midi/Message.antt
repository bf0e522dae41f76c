-- ===== src/Rb/Midi/Message.antt =====
-- rb_find_next_midi_message against the first command byte in the queue.
use csnip.Base.{
  ℕ, zero, suc, ◌+◌, ◌<◌, ◌≤◌, ◌≡◌, refl, sym, subst, ap, Bool, true, false, Option, none, some,
  List, [], ◌∷◌, arith, if◌then◌else◌, ◌==◌, Bool-cases, inl, inr, length, drop, tabulate, lt→ltb,
  le→ltb, tabulate-cong, leb, ltb, length-tabulate,
}
use csnip.Machine.Word.{add64}
use csnip.Rb.State.{Rb, IsValid, count_peek}
use csnip.Rb.Space.{can_read, byte_at, contents, can_read-le-size}
use csnip.Rb.Copy.Peek.{peek_byte_at_lem}
use csnip.Rb.Search.Byte.{bytes_left, can_read-count_peek, count_peek-IsValid, count_peek-stats}
use csnip.Rb.Midi.{msg_len, Message, find_midi_loop, find_next_midi_message}

-- The length of the message a command byte starts, by the table of the MIDI commands: 0 for data.
abbrev pub command_length : ℕ → ℕ
command_length c =
    if ltb c 128
    then 0
    else if ltb c 192
    then 3
    else if ltb c 224
    then 2
    else if ltb c 240
    then 3
    else 1

-- The first command byte of a list, counted from `off`, with the length of its message, unless the
-- list ends before the message does.
abbrev pub message_from : ℕ → List ℕ → Option (ℕ × ℕ)
message_from off [] = none
message_from off (c ∷ cs) =
    if msg_len c == 0
    then message_from (off + 1) cs
    else if leb (msg_len c) (suc (length cs))
    then some (off, msg_len c)
    else none

-- A search for a message answers `answer`, and changes nothing but the counters.
pub record Finds (rb : Rb) (answer : Option (ℕ × ℕ)) (out : Message) : Type 0 where
  pub after : Rb
  pub returns : out ≡ some (answer, after)
  pub unchanged : record after { stats = rb.stats } ≡ rb

Finds-count :
    (rb : Rb) (answer : Option (ℕ × ℕ)) (out : Message)
    → Finds (count_peek rb 1) answer out
    → Finds rb answer out
unfolding count_peek
Finds-count rb answer out a = record {
  after = a.after;
  returns = a.returns;
  unchanged = ap restore a.unchanged;
}
  where
    restore : Rb → Rb
    restore r = record r { stats = rb.stats }

pub msg_len-le : (c : ℕ) → msg_len c ≤ 3
unfolding msg_len
msg_len-le c = ground arith

complete :
    (rb : Rb) (b : Bool) (place : ℕ × ℕ)
    → Finds rb
        (if b then some place else none)
        (if b then some (some place, count_peek rb 1) else some (none, count_peek rb 1))
complete rb true place = record {
  after = count_peek rb 1;
  returns = refl;
  unchanged = count_peek-stats rb;
}
complete rb false place = record {
  after = count_peek rb 1;
  returns = refl;
  unchanged = count_peek-stats rb;
}

find_midi_loop-Finds :
    (m fuel : ℕ) (rb : Rb) (off : ℕ) (c : List ℕ)
    → IsValid rb
    → off + m ≡ can_read rb
    → m < fuel
    → 0 < length c
    → Finds rb
        (message_from off (tabulate m (λ j. byte_at rb (off + j))))
        (find_midi_loop fuel rb off c)
unfolding find_midi_loop count_peek
find_midi_loop-Finds m zero rb off c v e f room = absurd (omega arith)
find_midi_loop-Finds zero (suc fuel) rb off c v e f room =
    rw (le→ltb off (can_read rb) (omega arith))
      (record { after = rb; returns = refl; unchanged = refl })
find_midi_loop-Finds (suc m) (suc fuel) rb off c v e f room =
    subst (λ xs. Finds rb (message_from off xs) (find_midi_loop (suc fuel) rb off c))
      (sym (bytes_left rb off m))
      (rw (peek_byte_at_lem rb c off v room, lt→ltb off (can_read rb) (omega arith), next)
        (elim (Bool-cases (msg_len (byte_at rb off) == 0)) [
          | inl data_byte ↦ rw data_byte (
              Finds-count rb _ _ (
                find_midi_loop-Finds m fuel (count_peek rb 1) (off + 1) (byte_at rb off ∷ drop 1 c)
                  (count_peek-IsValid rb 1 v) (omega (arith, can_read-count_peek rb 1))
                  (omega arith) (omega arith)))
          | inr command ↦
              rw (command, inside, short)
                (complete rb (leb (off + here) (can_read (count_peek rb 1))) (off, here))
        ]))
  where
    here : ℕ
    here = msg_len (byte_at rb off)

    inside : add64 off here ≡ off + here
    inside = omega (arith, can_read-le-size rb v, msg_len-le (byte_at rb off))

    rest : List ℕ
    rest = tabulate m (λ j. byte_at rb (off + 1 + j))

    short : leb here (suc (length rest)) ≡ leb (off + here) (can_read (count_peek rb 1))
    short =
        ground (arith, length-tabulate m (λ j. byte_at rb (off + 1 + j)), can_read-count_peek rb 1)

    next : add64 off 1 ≡ off + 1
    next = omega (arith, can_read-le-size rb v)

-- rb_find_next_midi_message on a valid buffer ends, answers the offset and the length of the first
-- message if all of it is readable, and changes nothing but the counters.
pub find_next_midi_message-Finds :
    (rb : Rb) → IsValid rb → Finds rb (message_from 0 (contents rb)) (find_next_midi_message rb)
unfolding find_next_midi_message
find_next_midi_message-Finds rb v =
    subst (λ xs. Finds rb (message_from 0 xs) (find_next_midi_message rb)) from_start
      (find_midi_loop-Finds (can_read rb) (suc (can_read rb)) rb 0 (0 ∷ []) v (omega arith)
        (omega arith) (omega arith))
  where
    from_start : tabulate (can_read rb) (λ j. byte_at rb (0 + j)) ≡ contents rb
    from_start =
        tabulate-cong (can_read rb) (λ j. byte_at rb (0 + j)) (byte_at rb)
          (λ j b. ap (byte_at rb) {x = 0 + j} {y = j} (omega arith))
