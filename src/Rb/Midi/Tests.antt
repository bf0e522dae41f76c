-- ===== src/Rb/Midi/Tests.antt =====
-- MIDI messages at concrete inputs.
use csnip.Base.{◌≡◌, some, [], ◌∷◌, arith}
use csnip.Rb.State.{Rb, IsValid}
use csnip.Rb.Space.{can_read}
use csnip.Rb.Midi.{msg_len, find_next_midi_message, read_next_midi_message}
use csnip.Rb.Midi.Message.{Finds, find_next_midi_message-Finds}
use csnip.Rb.Midi.Deliver.{Takes, msg_len-eq-command_length, read_next_midi_message-Handled}
use csnip.Rb.Samples.{four, holding}

-- Two data bytes, then a note-on message on the second channel.
abbrev notes : Rb
notes = holding (5 ∷ 6 ∷ 0x91 ∷ 60 ∷ 100 ∷ 0 ∷ 0 ∷ 0 ∷ []) 6

notes-IsValid : IsValid notes
notes-IsValid = omega arith

msg_len-eq-command_length_example : msg_len 0xD2 ≡ 2
msg_len-eq-command_length_example = msg_len-eq-command_length 0xD2 (omega arith)

find_next_midi_message-Finds_example : Finds notes (some (2, 3)) (find_next_midi_message notes)
unfolding can_read msg_len
find_next_midi_message-Finds_example = find_next_midi_message-Finds notes notes-IsValid

read_next_midi_message-Handled_example : Takes notes 2 3 four (read_next_midi_message notes four)
unfolding can_read msg_len
read_next_midi_message-Handled_example =
    read_next_midi_message-Handled notes four notes-IsValid (omega arith)
