-- ===== src/Rb/Midi/Deliver.antt =====
-- rb_read_next_midi_message, and the lengths of messages, against the table of MIDI commands.
use csnip.Base.{
  ℕ, zero, suc, ◌+◌, ◌<◌, ◌≤◌, ◌≡◌, refl, subst, ap, ◌∙◌, Bool, true, Option, none, some, List, [],
  ◌∷◌, ◌++◌, ◌&&◌, arith, if◌then◌else◌, ◌==◌, Bool-cases, inl, inr, length, take, drop, leb, ltb,
  min, length-drop, leb→le, ==→eq, ◌>>=◌,
}
use csnip.Rb.State.{Rb, IsValid, count_underflow}
use csnip.Rb.Space.{can_read, contents, length-contents, stats-same}
use csnip.Rb.Copy.{Copied, read}
use csnip.Rb.Copy.Rounds.{drop-drop}
use csnip.Rb.Copy.Read.{Delivers, read-Delivers}
use csnip.Rb.Advance.{skip}
use csnip.Rb.Advance.Moves.{Skips, advance_read_index-Skips}
use csnip.Rb.Midi.{msg_len, read_next_midi_message}
use csnip.Rb.Midi.Message.{msg_len-le, command_length, message_from, find_next_midi_message-Finds}

-- A test holds of every number below a bound.
all_below : (n : ℕ) → (ℕ → Bool) → Bool
all_below zero p = true
all_below (suc n) p = p n && all_below n p

below : (n : ℕ) (p : ℕ → Bool) (k : ℕ) → all_below n p ≡ true → k < n → p k ≡ true
unfolding all_below
below zero p k h lt = absurd (omega arith)
below (suc n) p k h lt = elim (Bool-cases (p n)) [
  | inl this ↦ elim (Bool-cases (k == n)) [
    | inl last ↦ subst (λ i. p i ≡ true) (omega (arith, ==→eq k n last)) this
    | inr other ↦ below n p k (ground (arith, this, h)) (ground arith)
  ]
  | inr not_so ↦ absurd (ground (arith, not_so, h))
]

-- The length rb_find_next_midi_message takes for a message is the one of the table of MIDI commands,
-- for each of the 256 bytes.
pub msg_len-eq-command_length : (c : ℕ) → c < 256 → msg_len c ≡ command_length c
unfolding msg_len all_below
msg_len-eq-command_length c h =
    ==→eq (msg_len c) (command_length c) (below 256 (λ k. msg_len k == command_length k) c refl h)

-- A message that was found is inside the first `total` bytes.
abbrev Fits : ℕ → Option (ℕ × ℕ) → Type 0
Fits total none = 0 ≤ total
Fits total (some (at, n)) = (at + n ≤ total) × (n ≤ 3)

message_from-Fits : (xs : List ℕ) (off : ℕ) → Fits (off + length xs) (message_from off xs)
message_from-Fits [] off = omega arith
message_from-Fits (c ∷ cs) off = elim (Bool-cases (msg_len c == 0)) [
  | inl data_byte ↦ rw data_byte (
      subst (λ t. Fits t (message_from (off + 1) cs)) (omega arith)
        (message_from-Fits cs (off + 1)))
  | inr command ↦ elim (Bool-cases (leb (msg_len c) (suc (length cs)))) [
    | inl whole ↦
        rw (command, whole)
          (omega (arith, leb→le (msg_len c) (suc (length cs)) whole), msg_len-le c)
    | inr cut ↦ rw (command, cut) (omega arith)
  ]
]

-- The message at offset `at`, `n` bytes long, is delivered, and the queue goes on behind it.
pub record Takes (rb : Rb) (at n : ℕ) (dest : List ℕ) (out : Copied) : Type 0 where
  pub after : Rb
  pub returns : out ≡ some (n, take n (drop at (contents rb)) ++ drop n dest, after)
  pub keeps_valid : IsValid after
  pub remaining : contents after ≡ drop (at + n) (contents rb)

-- What rb_read_next_midi_message does with the answer of the search.
abbrev pub Handled : Rb → List ℕ → Option (ℕ × ℕ) → Copied → Type 0
Handled rb dest none out =
    (after : Rb) × (out ≡ some (0, dest, after)) × (record after { stats = rb.stats } ≡ rb)
Handled rb dest (some (at, n)) out = Takes rb at n dest out

read_front :
    (rb after : Rb) (at n : ℕ) (dest : List ℕ)
    → IsValid after
    → contents after ≡ drop at (contents rb)
    → at + n ≤ can_read rb
    → n ≤ length dest
    → Takes rb at n dest (read after dest n)
read_front rb after at n dest w held inside room = delivered (
    subst (λ k. Delivers after k (take k (contents after)) dest (read after dest n)) enough
      (read-Delivers after dest n w (omega arith)))
  where
    enough : min n (can_read after) ≡ n
    enough = omega (
      arith,
      length-contents after,
      length-contents rb,
      ap length {x = contents after} {y = drop at (contents rb)} held,
      length-drop at (contents rb),
    )

    delivered :
        Delivers after n (take n (contents after)) dest (read after dest n)
        → Takes rb at n dest (read after dest n)
    delivered d = record {
      after = d.after;
      returns = d.returns ∙ ap (λ xs. some (n, take n xs ++ drop n dest, d.after)) held;
      keeps_valid = d.keeps_valid;
      remaining = d.remaining ∙ ap (drop n) held ∙ drop-drop at n (contents rb);
    }

read_behind :
    (rb after : Rb) (at n : ℕ) (dest : List ℕ)
    → IsValid after
    → contents after ≡ contents rb
    → at + n ≤ can_read rb
    → n ≤ length dest
    → Takes rb at n dest (skip after at >>= λ (k, rb'). read rb' dest n)
unfolding skip
read_behind rb after at n dest w held inside room =
    skipped
      (subst (λ k. Skips after k (skip after at)) enough (advance_read_index-Skips after at w))
  where
    enough : min at (can_read after) ≡ at
    enough = omega (
      arith,
      length-contents after,
      length-contents rb,
      ap length {x = contents after} {y = contents rb} held,
    )

    skipped :
        Skips after at (skip after at)
        → Takes rb at n dest (skip after at >>= λ (k, rb'). read rb' dest n)
    skipped s = rw s.returns (
        read_front rb s.after at n dest s.keeps_valid (s.remaining ∙ ap (drop at) held) inside room)

take_message :
    (rb after : Rb) (at n : ℕ) (dest : List ℕ)
    → IsValid rb
    → record after { stats = rb.stats } ≡ rb
    → at + n ≤ can_read rb
    → n ≤ length dest
    → Takes rb at n dest
        (if ltb 0 at then (skip after at >>= λ (k, rb'). read rb' dest n) else read after dest n)
take_message rb after at n dest v same inside room =
    let (w, held, size) = stats-same rb after same v in
    elim (Bool-cases (ltb 0 at)) [
      | inl some_skipped ↦ rw some_skipped (read_behind rb after at n dest w held inside room)
      | inr nothing ↦ rw nothing (
          read_front rb after at n dest w
            (subst (λ t. contents after ≡ drop t (contents rb)) {x = 0} {y = at} (ground arith)
              held)
            inside room)
    ]

-- rb_read_next_midi_message on a valid buffer delivers the first message if all of it is readable,
-- and drops it and the bytes before it; otherwise it returns 0 and changes nothing but the counters.
pub read_next_midi_message-Handled :
    (rb : Rb) (dest : List ℕ)
    → IsValid rb
    → 3 ≤ length dest
    → Handled rb dest (message_from 0 (contents rb)) (read_next_midi_message rb dest)
unfolding read_next_midi_message count_underflow
read_next_midi_message-Handled rb dest v room =
    let f = find_next_midi_message-Finds rb v in
    rw f.returns
      (cases (message_from 0 (contents rb)) (message_from-Fits (contents rb) 0) f.after f.unchanged)
  where
    cases :
        (answer : Option (ℕ × ℕ))
        → Fits (0 + length (contents rb)) answer
        → (after : Rb) → record after { stats = rb.stats } ≡ rb
        → Handled rb dest answer (elim answer [
          | none ↦ some (0, dest, count_underflow after)
          | some (offset, count) ↦
              if ltb 0 offset
              then (skip after offset >>= λ (k, rb''). read rb'' dest count)
              else read after dest count
        ])
    cases none fits after same = (count_underflow after, refl, same)
    cases (some (at, n)) (inside, short) after same =
        take_message rb after at n dest v same (omega (arith, length-contents rb)) (omega arith)
