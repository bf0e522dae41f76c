-- ===== src/Rb/Midi.antt =====
-- rb/rb_midi.h: the next MIDI message in the readable bytes. The loop takes fuel, one round more than
-- there are readable bytes.
pub mod Message
pub mod Deliver
mod Tests
use Prim.Native.Nat.{bit_and}
use csnip.Base.{
  ℕ, zero, suc, Option, none, some, List, [], ◌∷◌, ◌||◌, ◌==◌, ltb, leb, if◌then◌else◌, ◌>>=◌,
  get_or,
}
use csnip.Machine.Word.{add64}
use csnip.Rb.State.{Rb, count_underflow}
use csnip.Rb.Space.{can_read}
use csnip.Rb.Copy.{Copied, read, peek_byte_at}
use csnip.Rb.Advance.{skip}

-- The length of the message that starts with the byte `c`, 0 if none does.
unfoldable pub msg_len : ℕ → ℕ
msg_len c =
    let type = bit_and c 0xF0 in
    if type == 0x80 || (type == 0x90 || (type == 0xA0 || (type == 0xB0 || (type == 0xE0))))
    then 3
    else if type == 0xC0 || (type == 0xD0)
    then 2
    else if type == 0xF0
    then 1
    else 0

-- The offset and the count stored for the caller, if a message was found, and the new `rb_t`.
abbrev pub Message : Type 0
Message = Option (Option (ℕ × ℕ) × Rb)

unfoldable pub find_midi_loop : ℕ → Rb → ℕ → List ℕ → Message
find_midi_loop zero rb skip_counter c = none
find_midi_loop (suc fuel) rb skip_counter c =
    let found = peek_byte_at rb c skip_counter >>= λ (got, c', rb').
    let later = find_midi_loop fuel rb' (add64 skip_counter 1) c' in
    let len = msg_len (get_or c' 0 0) in
    if len == 0
    then later
    else if leb (add64 skip_counter len) (can_read rb')
    then some (some (skip_counter, len), rb')
    else some (none, rb') in
    if ltb skip_counter (can_read rb) then found else some (none, rb)

unfoldable pub find_next_midi_message : Rb → Message
find_next_midi_message rb = find_midi_loop (suc (can_read rb)) rb 0 (0 ∷ [])

unfoldable pub read_next_midi_message : Rb → List ℕ → Copied
read_next_midi_message rb dest = find_next_midi_message rb >>= λ (m, rb'). elim m [
  | none ↦ some (0, dest, count_underflow rb')
  | some (offset, count) ↦
      if ltb 0 offset
      then (skip rb' offset >>= λ (k, rb''). read rb'' dest count)
      else read rb' dest count
]
