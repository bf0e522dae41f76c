-- ===== src/Rb/Search/Sequence.antt =====
-- rb_find_byte_sequence against the first occurrence in the queue, where the queue does not go round
-- the end of the buffer. (Where it does, the search rests on the copies of Copy/Split.)
use csnip.Base.{
  ℕ, zero, suc, ◌+◌, ◌-◌, ◌<◌, ◌≤◌, ◌≡◌, refl, ◌∙◌, sym, subst, ap, ap₂, Bool, true, false, Option,
  some, List, [], ◌∷◌, ◌++◌, arith, ltb, if◌then◌else◌, ◌==◌, ◌>>=◌, Bool-cases, inl, inr, min,
  length, get_or, take, drop, tabulate, lt→ltb, le→ltb, ltb→lt, ltb→le, le→leb, eq→==, ne→==,
  length-append, length-take, length-drop, length-tabulate, drop-tabulate, get_or-drop, get_or-take,
}
use csnip.Machine.Array.{load}
use csnip.Machine.Word.{add64}
use csnip.Rb.State.{Rb, IsValid, count_peek, count_underflow}
use csnip.Rb.Space.{can_read, byte_at, contents, can_read-le-size, stats-same}
use csnip.Rb.Copy.Rounds.{take-append_self}
use csnip.Rb.Copy.Peek.{peek_at-Shows, peek_byte_at_lem, visible}
use csnip.Rb.Search.{
  Found, Outcome, matched, missing, differs, same_bytes, memcmp_equal, compare_at,
  find_sequence_loop, find_byte_sequence,
}
use csnip.Rb.Search.Occurs.{is_prefix, occurs_from, same_bytes-take, never_occurs, first_differs}
use csnip.Rb.Search.Byte.{
  Answers, bytes_left, count_peek-IsValid, can_read-count_peek, count_peek-stats,
  count_underflow-stats,
}

-- The bytes behind the first `off`, of `m` that are left.
left :
    (rb : Rb) (off m : ℕ)
    → off + m ≡ can_read rb
    → drop off (contents rb) ≡ tabulate m (λ j. byte_at rb (off + j))
left rb off m e =
    drop-tabulate off (can_read rb) (byte_at rb)
    ∙ ap (λ t. tabulate t (λ j. byte_at rb (off + j))) {x = can_read rb - off} {y = m} (omega arith)

module _ (pattern : List ℕ) (pattern_offset count : ℕ) (asked : 0 < count)
    (given : pattern_offset + count ≤ length pattern) where
  abbrev wanted : List ℕ
  wanted = take count (drop pattern_offset pattern)

  length-wanted : length wanted ≡ count
  length-wanted =
      omega
        (arith, length-take count (drop pattern_offset pattern), length-drop pattern_offset pattern)

  first-wanted : load pattern pattern_offset ≡ some (get_or wanted 0 0)
  unfolding load
  first-wanted = ground (
    arith,
    get_or-take count (drop pattern_offset pattern) 0 0,
    get_or-drop pattern_offset pattern 0 0,
    ap (λ t. get_or pattern t 0) {x = pattern_offset + 0} {y = pattern_offset},
  )

  -- What the comparison at an offset with `m` bytes left tells.
  abbrev verdict : ℕ → List ℕ → Outcome
  verdict m xs = if ltb m count then missing else if is_prefix wanted xs then matched else differs

  record Compares (rb : Rb) (m : ℕ) (xs compare : List ℕ) (out : Option (Outcome × List ℕ × Rb))
      : Type 0 where
    compare' : List ℕ
    after : Rb
    returns : out ≡ some (verdict m xs, compare', after)
    same_length : length compare' ≡ length compare
    unchanged : record after { stats = rb.stats } ≡ rb

  module _ (rb : Rb) (off m : ℕ) (compare : List ℕ) (room : count ≤ length compare) where
    xs : List ℕ
    xs = tabulate m (λ j. byte_at rb (off + j))

    length-xs : length xs ≡ m
    unfolding xs
    length-xs = length-tabulate m (λ j. byte_at rb (off + j))

    module _ (k : ℕ) (bytes : List ℕ) (size : k ≡ min count m) (shown : bytes ≡ take k xs) where
      filled : List ℕ
      filled = bytes ++ drop k compare

      length-bytes : length bytes ≡ k
      length-bytes = omega (arith, ap length shown, length-take k xs, length-xs)

      length-filled : length filled ≡ length compare
      unfolding filled
      length-filled =
          omega (arith, length-append bytes (drop k compare), length-bytes, length-drop k compare)

      compared :
          count ≤ m → memcmp_equal pattern pattern_offset filled count ≡ some (is_prefix wanted xs)
      unfolding memcmp_equal filled
      compared h =
          rw
            (
              le→leb (pattern_offset + count) (length pattern) given,
              le→leb count (length filled) (omega (arith, length-filled)),
            )
            (ap (λ t. some (same_bytes wanted t)) segment
              ∙ ap some (same_bytes-take wanted xs (omega (arith, length-wanted, length-xs))))
        where
          segment : take count filled ≡ take (length wanted) xs
          segment =
              take-append_self count bytes (drop k compare) (omega (arith, length-bytes))
              ∙ shown
              ∙ ap (λ t. take t xs) (omega (arith, length-wanted))

      decided :
          (after : Rb)
          → (if k == count
              then ◌>>=◌ {B = Outcome × List ℕ × Rb}
                  (memcmp_equal pattern pattern_offset filled count)
                  (λ same. some ((if same then matched else differs), filled, after))
              else some (missing, filled, after))
            ≡ some (verdict m xs, filled, after)
      decided after = elim (Bool-cases (ltb m count)) [
        | inl few ↦ rw (few, ne→== k count (omega (arith, ltb→lt m count few)))
        | inr enough ↦ rw (
          enough,
          eq→== k count (omega (arith, ltb→le m count enough)),
          compared (ltb→le m count enough),
        )
      ]

    compare_at-Compares :
        IsValid rb
        → rb.read_index + can_read rb ≤ rb.size
        → off + m ≡ can_read rb
        → Compares rb m xs compare (compare_at rb pattern pattern_offset count off compare)
    unfolding compare_at filled xs
    compare_at-Compares v flat e =
        let s = peek_at-Shows rb compare count off v (omega arith) (inl (omega arith)) in
        let k = visible rb count off in
        let bytes = take k (drop off (contents rb)) in
        let size : k ≡ min count m = omega arith in
        let shown : bytes ≡ take k xs = ap (take k) (left rb off m e) in
        record {
          compare' = filled k bytes size shown;
          after = s.after;
          returns = rw s.returns (decided k bytes size shown s.after);
          same_length = length-filled k bytes size shown;
          unchanged = s.unchanged;
        }

  -- A search from the buffer with its counters moved is one from the buffer.
  moved_counters :
      (rb rb' : Rb) (answer : Bool × ℕ) (out : Found)
      → record rb' { stats = rb.stats } ≡ rb
      → Answers rb' answer out
      → Answers rb answer out
  moved_counters rb rb' answer out e a = record {
    after = a.after;
    returns = a.returns;
    unchanged = ap restore a.unchanged ∙ e;
  }
    where
      restore : Rb → Rb
      restore r = record r { stats = rb.stats }

  -- A later round sees the same bytes.
  same_view :
      (rb rb' : Rb)
      → record rb' { stats = rb.stats } ≡ rb
      → (can_read rb' ≡ can_read rb)
        × (rb'.read_index ≡ rb.read_index)
        × ((off m : ℕ)
            → tabulate m (λ j. byte_at rb' (off + j)) ≡ tabulate m (λ j. byte_at rb (off + j)))
  unfolding can_read
  same_view rb rb' e = (
    ap can_read e,
    ap (λ (r : Rb). r.read_index) e,
    λ off m. ap (λ (r : Rb). tabulate m (λ j. byte_at r (off + j))) e,
  )

  -- The round in which the first byte fits, by the verdict of the comparison; `go_on` answers for the
  -- rounds behind it.
  on_fit :
      (rb rb' after : Rb) (fuel off x : ℕ) (ys c compare compare' : List ℕ)
      → compare_at rb' pattern pattern_offset count off compare
        ≡ some (verdict (suc (length ys)) (x ∷ ys), compare', after)
      → record after { stats = rb.stats } ≡ rb
      → Answers rb
          (occurs_from wanted (off + 1) ys)
          (find_sequence_loop fuel after pattern pattern_offset count (off + 1) c compare')
      → add64 off 1 ≡ off + 1
      → Answers rb (occurs_from wanted off (x ∷ ys)) (
          ◌>>=◌ {B = Bool × ℕ × Rb}
            (compare_at rb' pattern pattern_offset count off compare)
            (λ (o, compare', rb''). elim o [
              | matched ↦ some (true, off, rb'')
              | missing ↦ some (false, 0, rb'')
              | differs ↦
                  find_sequence_loop fuel rb'' pattern pattern_offset count (add64 off 1) c compare'
            ]))
  on_fit rb rb' after fuel off x ys c compare compare' told same go_on step =
      elim (Bool-cases (ltb (suc (length ys)) count)) [
        | inl few ↦
            let none_there : occurs_from wanted off (x ∷ ys) ≡ (false, 0) =
              never_occurs wanted off (x ∷ ys)
                (omega (arith, length-wanted, ltb→lt (suc (length ys)) count few)) in
            rw (told, few)
              (subst (λ t. Answers rb t (some (false, 0, after))) (sym none_there)
                (record { after = after; returns = refl; unchanged = same }))
        | inr enough ↦ elim (Bool-cases (is_prefix wanted (x ∷ ys))) [
          | inl found ↦
              rw (told, enough, found) (record { after = after; returns = refl; unchanged = same })
          | inr not_here ↦
              rw (told, enough, not_here)
                (subst
                  (λ t.
                    Answers rb (occurs_from wanted (off + 1) ys)
                      (find_sequence_loop fuel after pattern pattern_offset count t c compare'))
                  (sym step) go_on)
        ]
      ]

  sequence_loop-Answers :
      (m fuel : ℕ) (rb : Rb) (off : ℕ) (c compare : List ℕ)
      → IsValid rb
      → rb.read_index + can_read rb ≤ rb.size
      → off + m ≡ can_read rb
      → m < fuel
      → 0 < length c
      → count ≤ length compare
      → Answers rb
          (occurs_from wanted off (tabulate m (λ j. byte_at rb (off + j))))
          (find_sequence_loop fuel rb pattern pattern_offset count off c compare)
  unfolding find_sequence_loop count_peek xs
  sequence_loop-Answers m zero rb off c compare v flat e f room wide = absurd (omega arith)
  sequence_loop-Answers zero (suc fuel) rb off c compare v flat e f room wide =
      rw (peek_byte_at_lem rb c off v room, le→ltb off (can_read rb) (omega arith))
        (record {
          after = count_underflow rb;
          returns = refl;
          unchanged = count_underflow-stats rb;
        })
  sequence_loop-Answers (suc m) (suc fuel) rb off c compare v flat e f room wide =
      let ys = tabulate m (λ j. byte_at rb (off + 1 + j)) in
      let c' = byte_at rb off ∷ drop 1 c in
      let again =
        λ (rb' : Rb) (cmp : List ℕ) (u : record rb' { stats = rb.stats } ≡ rb)
            (w : count ≤ length cmp).
          moved_counters rb rb' (occurs_from wanted (off + 1) ys)
            (find_sequence_loop fuel rb' pattern pattern_offset count (off + 1) c' cmp) u
            (subst
              (λ zs.
                Answers rb' (occurs_from wanted (off + 1) zs)
                  (find_sequence_loop fuel rb' pattern pattern_offset count (off + 1) c' cmp))
              ((same_view rb rb' u).2 (off + 1) m)
              (sequence_loop-Answers m fuel rb' (off + 1) c' cmp (stats-same rb rb' u v).0
                (omega (
                  arith,
                  (stats-same rb rb' u v).2,
                  (same_view rb rb' u).0,
                  (same_view rb rb' u).1,
                ))
                (omega (arith, (same_view rb rb' u).0)) (omega arith) (omega arith) w)) in
      subst
        (λ zs.
          Answers rb (occurs_from wanted off zs)
            (find_sequence_loop (suc fuel) rb pattern pattern_offset count off c compare))
        (sym (bytes_left rb off m))
        (rw
          (
            peek_byte_at_lem rb c off v room,
            lt→ltb off (can_read rb) (omega arith),
            first-wanted,
            next,
          )
          (elim (Bool-cases (byte_at rb off == get_or wanted 0 0)) [
            | inl fit ↦ rw fit (
                on_fit rb (count_peek rb 1) compares.after fuel off (byte_at rb off) ys c' compare
                  compares.compare' told same
                  (again compares.after compares.compare' same
                    (omega (arith, compares.same_length)))
                  next)
            | inr miss ↦
                rw
                  (
                    miss,
                    first_differs wanted (byte_at rb off) ys (omega (arith, length-wanted)) miss,
                  )
                  (again (count_peek rb 1) compare (count_peek-stats rb) wide)
          ]))
    where
      next : add64 off 1 ≡ off + 1
      next = omega (arith, can_read-le-size rb v)

      compares :
          Compares
            (count_peek rb 1)
            (suc m)
            (xs (count_peek rb 1) off (suc m) compare wide)
            compare
            (compare_at (count_peek rb 1) pattern pattern_offset count off compare)
      compares =
          compare_at-Compares (count_peek rb 1) off (suc m) compare wide (count_peek-IsValid rb 1 v)
            (omega (arith, flat, can_read-count_peek rb 1))
            (omega (arith, can_read-count_peek rb 1))

      same : record (compares.after) { stats = rb.stats } ≡ rb
      same = ap restore compares.unchanged ∙ count_peek-stats rb
        where
          restore : Rb → Rb
          restore r = record r { stats = rb.stats }

      told :
          compare_at (count_peek rb 1) pattern pattern_offset count off compare
          ≡ some (
            verdict
                (suc (length (tabulate m (λ j. byte_at rb (off + 1 + j)))))
                (byte_at rb off ∷ tabulate m (λ j. byte_at rb (off + 1 + j))),
            compares.compare',
            compares.after,
          )
      told =
          compares.returns
          ∙ ap₂ (λ n zs. some (verdict (suc n) zs, compares.compare', compares.after))
              (sym (length-tabulate m (λ j. byte_at rb (off + 1 + j)))) (bytes_left rb off m)

  -- Where the queue does not go round the end of the buffer, rb_find_byte_sequence answers whether
  -- the `count` bytes of the pattern, a positive number of them, occur in it, and where first (0 if
  -- nowhere), whatever the compare buffer held; it ends, and changes nothing but the counters.
  pub find_byte_sequence-Answers :
      (rb : Rb) (garbage : List ℕ)
      → IsValid rb
      → rb.read_index + can_read rb ≤ rb.size
      → count ≤ length garbage
      → Answers rb
          (occurs_from (take count (drop pattern_offset pattern)) 0 (contents rb))
          (find_byte_sequence rb pattern pattern_offset count garbage)
  unfolding find_byte_sequence
  find_byte_sequence-Answers rb garbage v flat wide =
      subst
        (λ zs.
          Answers rb (occurs_from wanted 0 zs)
            (find_byte_sequence rb pattern pattern_offset count garbage))
        (sym (left rb 0 (can_read rb) (omega arith)))
        (sequence_loop-Answers (can_read rb) (suc (can_read rb)) rb 0 (0 ∷ []) garbage v flat
          (omega arith) (omega arith) (omega arith) wide)
