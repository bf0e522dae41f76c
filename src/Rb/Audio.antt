-- ===== src/Rb/Audio.antt =====
-- rb/rb.h: frames of interleaved samples: rb_frame_to_byte_count, rb_byte_to_frame_count,
-- rb_deinterleave_items and rb_deinterleave_audio. The loop takes fuel: a loop that has used it up
-- is `spinning`, and a copy that leaves its array is a `fault`.
pub mod Deinterleave
pub mod Gather
pub mod Frames
mod Tests
use csnip.Base.{
  ℕ, zero, suc, ◌+◌, ◌*◌, ◌/◌, ◌%◌, Option, none, some, List, ◌++◌, ◌==◌, ltb, if◌then◌else◌, take,
  drop,
}
use csnip.Machine.Word.{add64, sub64, mul64}
use csnip.Machine.Run.{Run, ok, spinning, or_fault, ◌>>=◌}
use csnip.Rb.State.{Rb}
use csnip.Rb.Space.{can_read}
use csnip.Rb.Copy.{peek_at}

-- The members are `int32_t`s that are not negative.
unfoldable pub frame_to_byte_count : Rb → ℕ → ℕ
frame_to_byte_count rb count = mul64 (mul64 count rb.channel_count) rb.bytes_per_sample

unfoldable pub byte_to_frame_count : Rb → ℕ → Option ℕ
byte_to_frame_count rb count =
    let frames =
      if rb.bytes_per_sample == 0
      then none
      else some (count / rb.channel_count / rb.bytes_per_sample) in
    if rb.channel_count == 0 then none else frames

-- The loop from `bytepos` on, with destination_ptr `place` bytes behind the destination.
unfoldable pub deinterleave_loop : ℕ → Rb → List ℕ → ℕ → ℕ → ℕ → ℕ → ℕ → ℕ → Run (List ℕ × Rb)
deinterleave_loop zero rb dest place size stride start limit bytepos = spinning
deinterleave_loop (suc fuel) rb dest place size stride start limit bytepos =
    let more =
      or_fault (peek_at rb (drop place dest) size (add64 start bytepos)) >>= λ (k, item, rb').
      deinterleave_loop fuel rb' (take place dest ++ item) (place + size) size stride start limit
        (add64 bytepos stride) in
    if ltb bytepos limit then more else ok (dest, rb)

unfoldable pub deinterleave_items : ℕ → Rb → List ℕ → ℕ → ℕ → ℕ → ℕ → Run (ℕ × List ℕ × Rb)
deinterleave_items fuel rb dest item_count item_size initial_item_offset item_block_size =
    let start = mul64 initial_item_offset item_size in
    let block = add64 (mul64 (mul64 (sub64 item_count 1) item_size) item_block_size) item_size in
    let copied =
      deinterleave_loop fuel rb dest 0 item_size (mul64 item_size item_block_size) start
        (add64 start block) 0
      >>= λ (dest', rb'). ok (mul64 item_count item_size, dest', rb') in
    if ltb (can_read rb) (add64 start block) then ok (0, dest, rb) else copied

unfoldable pub deinterleave_audio : ℕ → Rb → List ℕ → ℕ → ℕ → Run (ℕ × List ℕ × Rb)
deinterleave_audio fuel rb dest frame_count frame_offset =
    deinterleave_items fuel rb dest frame_count rb.bytes_per_sample frame_offset rb.channel_count
