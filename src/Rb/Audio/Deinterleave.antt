-- ===== src/Rb/Audio/Deinterleave.antt =====
-- rb_deinterleave_items against the items of the queue.
use csnip.Base.{
  ℕ, zero, suc, ◌+◌, ◌*◌, ◌%◌, ◌^◌, ◌<◌, ◌≤◌, ◌≡◌, ap, ap₂, subst, ◌∙◌, List, ◌++◌, arith, length,
  take, drop, length-append, length-take, length-drop, le→ltb,
}
use csnip.Machine.Word.{word, add64, sub64, mul64}
use native.Mathlib.Nat.{mul-le-mul_left, mul_assoc}
use csnip.Machine.Run.{Run, ok, ◌>>=◌}
use csnip.Rb.State.{Rb, IsValid}
use csnip.Rb.Space.{can_read, contents, can_read-le-size, length-contents}
use csnip.Rb.Audio.{deinterleave_loop, deinterleave_items}
use csnip.Rb.Audio.Gather.{items, Gathers, loop-Gathers}

length-items :
    (n size stride pos : ℕ) (xs : List ℕ)
    → size ≤ stride
    → pos + n * stride + size ≤ length xs + stride
    → length (items n size stride pos xs) ≡ n * size
length-items zero size stride pos xs h fits = omega arith
length-items (suc n) size stride pos xs h fits = omega (
  arith,
  length-append (take size (drop pos xs)) (items n size stride (pos + stride) xs),
  length-take size (drop pos xs),
  length-drop pos xs,
  length-items n size stride (pos + stride) xs h (omega arith),
)

-- What is returned: the count, the bytes over the start of the destination, and the buffer with nothing
-- changed but its counters.
pub record Delivers (rb : Rb) (k : ℕ) (bytes dest : List ℕ) (out : Run (ℕ × List ℕ × Rb))
    : Type 0 where
  pub after : Rb
  pub returns : out ≡ ok (k, bytes ++ drop k dest, after)
  pub unchanged : record after { stats = rb.stats } ≡ rb

-- What the loop gathers from the start of the destination, with the count returned.
Gathers-Delivers :
    (rb : Rb) (xs dest : List ℕ) (k count : ℕ) (out : Run (List ℕ × Rb))
    → Gathers rb xs dest 0 out
    → length xs ≡ k
    → count ≡ k
    → Delivers rb k xs dest (out >>= λ (dest', rb'). ok (count, dest', rb'))
Gathers-Delivers rb xs dest k count out g e c = rw g.returns (record {
  after = g.after;
  returns = ap₂ (λ i j. ok (i, xs ++ drop j dest, g.after)) c same;
  unchanged = g.unchanged;
})
  where
    same : 0 + length xs ≡ k
    same = omega (arith, e)

-- rb_deinterleave_items delivers the items wanted, one behind the other, and changes nothing but the
-- counters; it ends. The readable bytes lie in one piece, at least one item is wanted, an item fits
-- into a block, all the blocks needed are readable, the destination has room, and a block is shorter
-- than 2^63 bytes.
pub deinterleave_items-Shows :
    (fuel : ℕ) (rb : Rb) (dest : List ℕ) (n size offset block : ℕ)
    → IsValid rb
    → rb.read_index + can_read rb ≤ rb.size
    → 0 < size
    → offset * size + size ≤ size * block
    → size * block < 2 ^ 63
    → offset * size + n * (size * block) + size ≤ can_read rb
    → suc n * size ≤ length dest
    → suc n < fuel
    → Delivers rb
        (suc n * size)
        (items (suc n) size (size * block) (offset * size) (contents rb))
        dest
        (deinterleave_items fuel rb dest (suc n) size offset block)
unfolding deinterleave_items
deinterleave_items-Shows fuel rb dest n size offset block v flat pos apart small fits room enough =
    rw (last, start_eq, block_eq, limit_eq, le→ltb (can_read rb) limit (omega arith), stride_eq)
      (Gathers-Delivers rb (items (suc n) size (size * block) (offset * size) (contents rb)) dest
        (suc n * size) (mul64 (suc n) size) _ gathered
        (length-items (suc n) size (size * block) (offset * size) (contents rb) (omega arith)
          (omega (arith, length-contents rb)))
        (omega (arith, can_read-le-size rb v, wide)))
  where
    limit : ℕ
    limit = offset * size + (n * (size * block) + size)

    counts : n * 1 ≤ n * size
    counts = mul-le-mul_left n (omega arith)

    wide : n * size ≤ n * (size * block)
    wide = mul-le-mul_left n (omega arith)

    gathered :
        Gathers rb
          (items (suc n) size (size * block) (offset * size) (contents rb))
          dest
          0
          (deinterleave_loop fuel rb dest 0 size (size * block) (offset * size) limit 0)
    gathered =
        subst
          (λ k.
            Gathers rb (items (suc n) size (size * block) k (contents rb)) dest 0
              (deinterleave_loop fuel rb dest 0 size (size * block) (offset * size) limit 0))
          {x = offset * size + 0} {y = offset * size} (omega arith)
          (loop-Gathers size (size * block) (offset * size) limit pos apart
            (omega (arith, can_read-le-size rb v)) small (suc n) fuel rb dest 0 0 v flat
            (omega arith) (omega arith) enough (omega arith))

    last : sub64 (suc n) 1 ≡ n
    last = omega (arith, can_read-le-size rb v, wide, counts)

    start_eq : mul64 offset size ≡ offset * size
    start_eq = omega (arith, can_read-le-size rb v)

    stride_eq : mul64 size block ≡ size * block
    stride_eq = omega arith

    product : mul64 (mul64 n size) block ≡ n * (size * block)
    product =
        ap (λ k. k * block % word) {x = mul64 n size} {y = n * size}
          (omega (arith, can_read-le-size rb v, wide))
        ∙ ap (λ k. k % word) (mul_assoc n size block)
        ∙ omega (arith, can_read-le-size rb v)

    block_eq : add64 (mul64 (mul64 n size) block) size ≡ n * (size * block) + size
    block_eq = omega (arith, can_read-le-size rb v, wide, mul_assoc n size block, product)

    limit_eq : add64 (offset * size) (n * (size * block) + size) ≡ limit
    limit_eq = omega (arith, can_read-le-size rb v)
