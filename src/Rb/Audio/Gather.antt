-- ===== src/Rb/Audio/Gather.antt =====
-- The loop of rb_deinterleave_items: what it gathers from the queue.
use csnip.Base.{
  ℕ, zero, suc, ◌+◌, ◌*◌, ◌^◌, ◌<◌, ◌≤◌, ◌≡◌, refl, sym, ap, ap₂, subst, ◌∙◌, List, [], ◌++◌, inl,
  arith, length, take-drop, take, drop, length-append, length-take, length-drop, append_assoc,
  lt→ltb, le→ltb,
}
use csnip.Machine.Word.{add64}
use csnip.Machine.Stdio.Place.{drop-add, drop-append, take-append}
use csnip.Machine.Run.{Run, ok, or_fault, ◌>>=◌}
use csnip.Rb.State.{Rb, IsValid}
use csnip.Rb.Space.{can_read, contents, stats-same, can_read-le-size, length-contents}
use csnip.Rb.Copy.{peek_at}
use csnip.Rb.Copy.Peek.{Shows, peek_at-Shows, visible}
use csnip.Rb.Audio.{deinterleave_loop}

-- `n` items of `size` bytes, the first behind `pos` bytes, each `stride` bytes behind the one before.
abbrev pub items : ℕ → ℕ → ℕ → ℕ → List ℕ → List ℕ
items zero size stride pos xs = []
items (suc n) size stride pos xs = take size (drop pos xs) ++ items n size stride (pos + stride) xs

-- Items are delivered behind the first `place` bytes of a destination; only the counters change.
pub record Gathers (rb : Rb) (bytes dest : List ℕ) (place : ℕ) (out : Run (List ℕ × Rb))
    : Type 0 where
  pub after : Rb
  pub returns : out ≡ ok (take place dest ++ (bytes ++ drop (place + length bytes) dest), after)
  pub unchanged : record after { stats = rb.stats } ≡ rb

-- An item put behind the first `place` bytes, and `bytes` behind it.
placed :
    (dest item bytes : List ℕ) (place size : ℕ)
    → length item ≡ size
    → place + size ≤ length dest
    → (d : List ℕ) → d ≡ take place dest ++ (item ++ drop size (drop place dest))
    → take (place + size) d ++ (bytes ++ drop (place + size + length bytes) d)
      ≡ take place dest ++ ((item ++ bytes) ++ drop (place + length (item ++ bytes)) dest)
placed dest item bytes place size li room d e =
    ap (λ t. t ++ (bytes ++ drop (place + size + length bytes) d)) front
    ∙ append_assoc (take place dest) item (bytes ++ drop (place + size + length bytes) d)
    ∙ ap (λ t. take place dest ++ t)
        (sym (append_assoc item bytes (drop (place + size + length bytes) d))
          ∙ ap (λ t. (item ++ bytes) ++ t) back)
  where
    first : List ℕ
    first = take place dest ++ item

    rest : List ℕ
    rest = drop size (drop place dest)

    lf : length first ≡ place + size
    lf = omega (arith, length-append (take place dest) item, length-take place dest)

    whole : d ≡ first ++ rest
    whole = e ∙ sym (append_assoc (take place dest) item rest)

    front : take (place + size) d ≡ first
    front = ap₂ take (sym lf) whole ∙ take-append first rest

    behind : drop (place + size) d ≡ rest
    behind = ap₂ drop (sym lf) whole ∙ drop-append first rest

    back : drop (place + size + length bytes) d ≡ drop (place + length (item ++ bytes)) dest
    back =
        drop-add (place + size) (length bytes) d
        ∙ ap (drop (length bytes)) (behind ∙ sym (drop-add place size dest))
        ∙ sym (drop-add (place + size) (length bytes) dest)
        ∙ ap (λ k. drop k dest) {x = place + size + length bytes}
            {y = place + length (item ++ bytes)} (omega (arith, length-append item bytes))

-- An item in front of what a buffer with other counters gathers.
item_first :
    (rb after : Rb) (dest item bytes : List ℕ) (place size : ℕ) (out : Run (List ℕ × Rb))
    → length item ≡ size
    → place + size ≤ length dest
    → record after { stats = rb.stats } ≡ rb
    → Gathers after bytes
        (take place dest ++ (item ++ drop size (drop place dest)))
        (place + size)
        out
    → Gathers rb (item ++ bytes) dest place out
item_first rb after dest item bytes place size out li room u g = record {
  after = g.after;
  returns =
      g.returns
      ∙ ap (λ t. ok (t, g.after))
          (placed dest item bytes place size li room
            (take place dest ++ (item ++ drop size (drop place dest))) refl);
  unchanged = ap restore g.unchanged ∙ u;
}
  where
    restore : Rb → Rb
    restore r = record r { stats = rb.stats }

module _ (size stride start limit : ℕ) (some_size : 0 < size) (apart : start + size ≤ stride)
    (few : limit ≤ 2 ^ 63) (stride_small : stride < 2 ^ 63) where
  pub loop-Gathers :
      (n fuel : ℕ) (rb : Rb) (dest : List ℕ) (place bytepos : ℕ)
      → IsValid rb
      → rb.read_index + can_read rb ≤ rb.size
      → limit ≤ can_read rb
      → bytepos + n * stride + (start + size) ≡ limit + stride
      → n < fuel
      → place + n * size ≤ length dest
      → Gathers rb
          (items n size stride (start + bytepos) (contents rb))
          dest
          place
          (deinterleave_loop fuel rb dest place size stride start limit bytepos)
  unfolding deinterleave_loop
  loop-Gathers n zero rb dest place bytepos v flat enough at h room = absurd (omega arith)
  loop-Gathers zero (suc fuel) rb dest place bytepos v flat enough at h room =
      rw (le→ltb bytepos limit (omega arith)) (record {
        after = rb;
        returns =
            ap (λ t. ok (t, rb))
              (sym (take-drop place dest)
                ∙ ap (λ k. take place dest ++ drop k dest) {x = place} {y = place + 0}
                    (omega arith));
        unchanged = refl;
      })
  loop-Gathers (suc n) (suc fuel) rb dest place bytepos v flat enough at h room =
      let inside : start + bytepos + size ≤ limit = omega arith in
      let seen : visible rb size (start + bytepos) ≡ size = omega arith in
      let shown : Shows rb size item (drop place dest)
          (peek_at rb (drop place dest) size (start + bytepos)) =
        subst
          (λ k.
            Shows rb k (take k (drop (start + bytepos) (contents rb))) (drop place dest)
              (peek_at rb (drop place dest) size (start + bytepos)))
          seen
          (peek_at-Shows rb (drop place dest) size (start + bytepos) v
            (omega (arith, length-drop place dest, seen)) (inl (omega (arith, seen)))) in
      rw (lt→ltb bytepos limit (omega arith), from_start, next)
        (more (λ rb' d. loop-Gathers n fuel rb' d (place + size) (bytepos + stride)) shown)
    where
      item : List ℕ
      item = take size (drop (start + bytepos) (contents rb))

      from_start : add64 start bytepos ≡ start + bytepos
      from_start = omega (arith, can_read-le-size rb v)

      next : add64 bytepos stride ≡ bytepos + stride
      next = omega (arith, can_read-le-size rb v)

      bytes : List ℕ
      bytes = items n size stride (start + bytepos + stride) (contents rb)

      more :
          ((rb' : Rb) (d : List ℕ)
            → IsValid rb'
            → rb'.read_index + can_read rb' ≤ rb'.size
            → limit ≤ can_read rb'
            → bytepos + stride + n * stride + (start + size) ≡ limit + stride
            → n < fuel
            → place + size + n * size ≤ length d
            → Gathers rb'
                (items n size stride (start + (bytepos + stride)) (contents rb'))
                d
                (place + size)
                (deinterleave_loop fuel rb' d
                  (place + size)
                  size
                  stride
                  start
                  limit
                  (bytepos + stride)))
          → Shows rb size item
              (drop place dest)
              (peek_at rb (drop place dest) size (start + bytepos))
          → Gathers rb (item ++ bytes) dest place (
              or_fault (peek_at rb (drop place dest) size (start + bytepos)) >>= λ (k, found, rb').
              deinterleave_loop fuel rb'
                (take place dest ++ found)
                (place + size)
                size
                stride
                start
                limit
                (bytepos + stride))
      more ih shown =
          let (w, same, same_size) = stats-same rb shown.after shown.unchanged v in
          let same_start : shown.after.read_index ≡ rb.read_index =
            ap (λ (r : Rb). r.read_index) shown.unchanged in
          let same_count : can_read shown.after ≡ can_read rb =
            sym (length-contents shown.after) ∙ ap length same ∙ length-contents rb in
          let li : length item ≡ size = omega (
            arith,
            length-take size (drop (start + bytepos) (contents rb)),
            length-drop (start + bytepos) (contents rb),
            length-contents rb,
          ) in
          let d : List ℕ = take place dest ++ (item ++ drop size (drop place dest)) in
          let rest : Gathers shown.after
              (items n size stride (start + (bytepos + stride)) (contents shown.after)) d
              (place + size)
              (deinterleave_loop fuel shown.after d (place + size) size stride start limit
                (bytepos + stride)) =
            ih shown.after d w (omega (arith, same_start, same_count, same_size))
              (omega (arith, same_count)) (omega arith) (omega arith)
              (omega (
                arith,
                length-append (take place dest) (item ++ drop size (drop place dest)),
                length-append item (drop size (drop place dest)),
                length-take place dest,
                length-drop size (drop place dest),
                length-drop place dest,
              )) in
          rw shown.returns (
            item_first rb shown.after dest item bytes place size _ li (omega arith) shown.unchanged
              (subst
                (λ xs. Gathers shown.after xs d (place + size) (
                  deinterleave_loop fuel shown.after d (place + size) size stride start limit
                    (bytepos + stride)))
                (ap₂ (λ k xs. items n size stride k xs) {x = start + (bytepos + stride)}
                  {y = start + bytepos + stride} (omega arith) same)
                rest))
