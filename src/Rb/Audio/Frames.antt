-- ===== src/Rb/Audio/Frames.antt =====
-- rb_byte_to_frame_count against rb_frame_to_byte_count, and rb_deinterleave_items with empty blocks.
use csnip.Base.{
  ℕ, zero, suc, ◌+◌, ◌≤◌, ◌*◌, ◌/◌, ◌%◌, ◌^◌, ◌<◌, ◌≡◌, refl, sym, subst, ap, ◌∙◌, length,
  length-append, length-take, length-drop, some, List, ◌++◌, take, drop, arith, lt→ltb, le→ltb,
  ne→==,
}
use native.Mathlib.Nat.{mul-le-mul_left, mul_assoc, div-div-eq-div-mul, mul-div_cancel}
use csnip.Machine.Word.{word, mul64, sub64, add64}
use csnip.Machine.Run.{ok, spinning, ◌>>=◌}
use csnip.Rb.State.{Rb, IsValid}
use csnip.Rb.Audio.{frame_to_byte_count, byte_to_frame_count, deinterleave_loop, deinterleave_items}
use csnip.Rb.Copy.{peek_at}
use csnip.Rb.Copy.Peek.{Shows, Unsplit, peek_at-Shows, visible}
use csnip.Rb.Space.{can_read, contents, stats-same, can_read-le-size, length-contents}

-- The frames of the bytes of `n` frames are `n`, for a buffer with channels and samples whose bytes
-- fit 64 bits.
pub byte_to_frame_count-frame_to_byte_count :
    (rb : Rb) (n : ℕ)
    → 0 < rb.channel_count
    → 0 < rb.bytes_per_sample
    → n * rb.channel_count * rb.bytes_per_sample < 2 ^ 64
    → byte_to_frame_count rb (frame_to_byte_count rb n) ≡ some n
unfolding byte_to_frame_count frame_to_byte_count
byte_to_frame_count-frame_to_byte_count rb n c b small =
    rw
      (
        ne→== rb.channel_count 0 (omega (arith, c)),
        ne→== rb.bytes_per_sample 0 (omega (arith, b)),
        bytes,
      )
      (ap some (
        div-div-eq-div-mul (n * rb.channel_count * rb.bytes_per_sample) rb.channel_count
          rb.bytes_per_sample
        ∙ ap (λ k. k / frame) (mul_assoc n rb.channel_count rb.bytes_per_sample)
        ∙ mul-div_cancel n (
            omega (
              arith,
              mul-le-mul_left {m = 1} {n = rb.bytes_per_sample} rb.channel_count (omega arith),
            ))))
  where
    frame : ℕ
    frame = rb.channel_count * rb.bytes_per_sample

    bytes :
        mul64 (mul64 n rb.channel_count) rb.bytes_per_sample
        ≡ n * rb.channel_count * rb.bytes_per_sample
    bytes =
        ap (λ k. k * rb.bytes_per_sample % word) {x = mul64 n rb.channel_count}
          {y = n * rb.channel_count}
          (omega (
            arith,
            mul-le-mul_left {m = 1} {n = rb.bytes_per_sample} (n * rb.channel_count) (omega arith),
          ))
        ∙ omega arith

-- Where a round moves on by no bytes, and the destination has room for the items, no number of rounds
-- is enough.
loop_stays :
    (fuel : ℕ) (rb : Rb) (dest : List ℕ) (place size start limit : ℕ)
    → IsValid rb
    → 0 < limit
    → start + size ≤ can_read rb
    → Unsplit rb size start
    → place + fuel * size ≤ length dest
    → deinterleave_loop fuel rb dest place size 0 start limit 0 ≡ spinning
unfolding deinterleave_loop
loop_stays zero rb dest place size start limit v h fits unsplit room = refl
loop_stays (suc fuel) rb dest place size start limit v h fits unsplit room =
    rw (lt→ltb 0 limit h, from_start, shown.returns)
      (loop_stays fuel shown.after (take place dest ++ (item ++ drop size (drop place dest)))
        (place + size) size start limit valid h
        (subst (λ k. start + size ≤ k) (sym same_count) fits)
        (subst (λ (r : Rb). Unsplit r size start) (sym shown.unchanged) unsplit)
        (omega (
          arith,
          length-append (take place dest) (item ++ drop size (drop place dest)),
          length-append item (drop size (drop place dest)),
          length-take size (drop start (contents rb)),
          length-drop start (contents rb),
          length-contents rb,
          length-take place dest,
          length-drop size (drop place dest),
          length-drop place dest,
        )))
  where
    item : List ℕ
    item = take size (drop start (contents rb))

    seen : visible rb size start ≡ size
    seen = omega (arith, fits)

    from_start : add64 start 0 ≡ start
    from_start = omega (arith, fits, can_read-le-size rb v)

    shown : Shows rb size item (drop place dest) (peek_at rb (drop place dest) size start)
    shown =
        subst
          (λ k.
            Shows rb k (take k (drop start (contents rb))) (drop place dest)
              (peek_at rb (drop place dest) size start))
          seen
          (peek_at-Shows rb (drop place dest) size start v
            (omega (arith, length-drop place dest, seen))
            (subst (λ k. Unsplit rb k start) (sym seen) unsplit))

    valid : IsValid shown.after
    valid = (stats-same rb shown.after shown.unchanged v).0

    same_count : can_read shown.after ≡ can_read rb
    same_count =
        sym (length-contents shown.after)
        ∙ ap length (stats-same rb shown.after shown.unchanged v).1
        ∙ length-contents rb

-- With blocks of 0 items, where one item is readable in one piece, rb_deinterleave_items does not come
-- to an end within any number of rounds for the items of which its destination has room, however few
-- items are wanted.
pub deinterleave_items_never_ends :
    (fuel : ℕ) (rb : Rb) (dest : List ℕ) (count size offset : ℕ)
    → IsValid rb
    → 0 < size
    → offset * size + size ≤ can_read rb
    → Unsplit rb size (offset * size)
    → fuel * size ≤ length dest
    → deinterleave_items fuel rb dest count size offset 0 ≡ spinning
unfolding deinterleave_items
deinterleave_items_never_ends fuel rb dest count size offset v pos fits unsplit room =
    rw (start, blocks, stride, limit, le→ltb (can_read rb) (offset * size + size) fits)
      (ap (λ o. o >>= λ (dest', rb'). ok (mul64 count size, dest', rb'))
        (loop_stays fuel rb dest 0 size (offset * size) (offset * size + size) v (omega arith) fits
          unsplit (omega arith)))
  where
    blocks : add64 (mul64 (mul64 (sub64 count 1) size) 0) size ≡ size
    blocks = omega (arith, can_read-le-size rb v)

    stride : mul64 size 0 ≡ 0
    stride = omega arith

    start : mul64 offset size ≡ offset * size
    start = omega (arith, can_read-le-size rb v)

    limit : add64 (offset * size) size ≡ offset * size + size
    limit = omega (arith, can_read-le-size rb v)
