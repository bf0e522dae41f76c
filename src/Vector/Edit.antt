-- ===== src/Vector/Edit.antt =====
-- vector_set, vector_get, vector_delete and vector_insert, as changes of a list.
use csnip.Base.{
  ℕ, zero, suc, ◌+◌, ◌-◌, ◌/◌, ◌^◌, ◌<◌, ◌≤◌, ◌≡◌, ◌⊎◌, refl, subst, ap, ◌∙◌, inl, inr, Option,
  some, List, [], ◌∷◌, ◌&&◌, ◌==◌, ltb, ◌>>=◌, length, take, get_or, arith, Bool-cases, length-take,
  ltb→lt, ltb→le, get_or-take,
}
use csnip.Machine.Int.{ℤ, pos, negsuc}
use csnip.Machine.Array.{put, store, load-eq, store-eq, length-put}
use csnip.Vector.{
  Allocator, Vector, IsValid, contents, set, get, delete, insert, clear, shrink, shift_up, resize,
  init, initial_of,
}
use csnip.Vector.Grow.{Leaves, Same, resize-Same, HasRoom, make_room-Roomy}
use csnip.Vector.Shift.{
  removed, inserted, without, with_at, take-removed, take-inserted, length-removed, length-inserted,
  shift_down-put, shifted, shift_up-shifted, length-shifted, clear_items_lem,
}

get_or_beyond : (xs : List ℕ) (j : ℕ) → length xs ≤ j → get_or xs j 0 ≡ 0
get_or_beyond [] j h = refl
get_or_beyond (x ∷ xs) zero h = absurd (omega arith)
get_or_beyond (x ∷ xs) (suc j) h = get_or_beyond xs j (omega arith)

-- vector_get on a valid vector returns the item, and NULL behind the last one.
pub get_lem : (v : Vector) (i : ℕ) → IsValid v → get v (pos i) ≡ some (get_or (contents v) i 0)
unfolding get
get_lem v i ok = elim (Bool-cases (ltb i v.size)) [
  | inl e ↦
      rw
        (
          e,
          load-eq v.items i (omega (arith, ltb→lt i v.size e)),
          get_or-take v.size v.items i 0 (ltb→lt i v.size e),
        )
        refl
  | inr e ↦
      rw
        (
          e,
          get_or_beyond (contents v) i
              (omega (arith, ltb→le i v.size e, length-take v.size v.items)),
        )
        refl
]

put-take : (a : List ℕ) (n i x : ℕ) → take n (put a i x) ≡ put (take n a) i x
put-take a zero i x = refl
put-take [] (suc n) i x = refl
put-take (y ∷ ys) (suc n) zero x = refl
put-take (y ∷ ys) (suc n) (suc i) x = ap (λ t. y ∷ t) (put-take ys n i x)

-- vector_set on a valid vector puts the item at the index within the size, and returns the size;
-- for an index behind it returns -1 and changes nothing.
pub set_lem :
    (v : Vector) (i item : ℕ)
    → IsValid v
    → ((i < v.size) × Leaves (pos v.size) (put (contents v) i item) (set v (pos i) item))
      ⊎ ((v.size ≤ i) × (set v (pos i) item ≡ some (negsuc 0, v)))
unfolding set
set_lem v i item ok = elim (Bool-cases (ltb i v.size)) [
  | inl e ↦
      let h : i < v.size = ltb→lt i v.size e in
      inl (
        h,
        rw (e, store-eq v.items i item (omega arith))
            (record {
              after = record v { items = put v.items i item };
              returns = refl;
              keeps_valid = omega (arith, length-put v.items i item);
              holds = put-take v.items v.size i item;
            }),
      )
  | inr e ↦ inr (ltb→le i v.size e, rw e)
]

initial_of-positive : (capacity : ℤ) → 0 < initial_of capacity
unfolding initial_of
initial_of-positive (pos n) = ground arith
initial_of-positive (negsuc n) = omega arith

module _ (m : Allocator) where
  -- A vector of `xs` that may have been moved to a smaller block.
  shrink-Leaves :
      (v : Vector)
      → IsValid v
      → Leaves (pos v.size) (contents v) (let w = shrink m v in some (pos w.size, w))
  unfolding shrink
  shrink-Leaves v ok = elim (Bool-cases (ltb 0 v.size && (v.size == v.capacity / 4))) [
    | inl e ↦
        let quarter : v.size ≡ v.capacity / 4 = ground (arith, e) in
        let used : 0 < v.size = ground (arith, e) in
        rw e
          (smaller (resize-Same m v (v.capacity / 2) ok (omega arith) (omega arith) (omega arith)))
    | inr e ↦ rw e (record { after = v; returns = refl; keeps_valid = ok; holds = refl })
  ]
    where
      smaller : {w : Vector} → Same m v w → Leaves (pos v.size) (contents v) (some (pos w.size, w))
      smaller {w} s = record {
        after = w;
        returns = ap (λ n. some (pos n, w)) s.same_size;
        keeps_valid = s.still_valid;
        holds = s.same_items;
      }

  -- vector_delete on a valid vector takes out the item at an index within the size and returns the
  -- new size, whether or not realloc moves the block; for an index behind it returns -1.
  pub delete_lem :
      (v : Vector) (i : ℕ)
      → IsValid v
      → ((i < v.size) × Leaves (pos (v.size - 1)) (without i (contents v)) (delete m v (pos i)))
        ⊎ ((v.size ≤ i) × (delete m v (pos i) ≡ some (negsuc 0, v)))
  unfolding delete
  delete_lem v i ok = elim (Bool-cases (ltb i v.size)) [
    | inl e ↦
        let h : i < v.size = ltb→lt i v.size e in
        let n : ℕ = v.size - 1 - i in
        let inside : i + n < length v.items = omega arith in
        inl (
          h,
          rw (e, store-eq v.items i 0 (omega arith), shift_down-put n i v.items inside)
              (subst (λ xs. Leaves (pos (v.size - 1)) xs (finish n)) (list h)
                (shrink-Leaves (smaller n) (omega (arith, length-removed n i v.items inside)))),
        )
    | inr e ↦ inr (ltb→le i v.size e, rw e)
  ]
    where
      smaller : ℕ → Vector
      smaller n = record v { items = removed n i v.items; size = v.size - 1 }

      finish : ℕ → Option (ℤ × Vector)
      finish n = let w = shrink m (smaller n) in some (pos w.size, w)

      list : i < v.size → contents (smaller (v.size - 1 - i)) ≡ without i (contents v)
      list h =
          take-removed (v.size - 1 - i) i (v.size - 1) v.items (omega arith) (omega arith)
          ∙ ap (λ k. without i (take k v.items)) {x = suc (v.size - 1)} {y = v.size} (omega arith)

  -- vector_insert on a valid vector with room puts the item before the one at an index within the
  -- size and returns the new size; for an index behind it returns -1.
  pub insert_lem :
      (v : Vector) (i item : ℕ)
      → IsValid v
      → HasRoom m v
      → ((i < v.size)
          × Leaves (pos (suc v.size)) (with_at item i (contents v)) (insert m v (pos i) item))
        ⊎ ((v.size ≤ i) × (insert m v (pos i) item ≡ some (negsuc 0, v)))
  unfolding insert
  insert_lem v i item ok room = elim (Bool-cases (ltb i v.size)) [
    | inl e ↦
        let r = make_room-Roomy m v ok room in
        inl (ltb→lt i v.size e, rw (e, r.given) (moved r.roomy r.same r.room (ltb→lt i v.size e)))
    | inr e ↦ inr (ltb→le i v.size e, rw e)
  ]
    where
      moved :
          (w : Vector)
          → Same m v w
          → v.size < w.capacity
          → i < v.size
          → Leaves (pos (suc v.size)) (with_at item i (contents v)) (
              shift_up (w.size - i) i w.items >>= λ a. store a i item >>= λ b.
              some (pos (suc w.size), record w { items = b; size = suc w.size }))
      moved w s room h =
          let n : ℕ = w.size - i in
          let in_block : i + n < length w.items = omega (arith, s.still_valid, s.same_size) in
          let long : length (shifted n i w.items) ≡ length w.items =
            length-shifted n i w.items in_block in
          let b : List ℕ = inserted item n i w.items in
          rw
            (
              shift_up-shifted n i w.items in_block,
              store-eq (shifted n i w.items) i item (omega (arith, long)),
            )
            (record {
              after = record w { items = b; size = suc w.size };
              returns =
                  ap (λ k. some (pos (suc k), record w { items = b; size = suc w.size }))
                    s.same_size;
              keeps_valid =
                  omega
                    (arith, length-inserted item n i w.items in_block, s.still_valid, s.same_size);
              holds =
                  take-inserted item n i w.size w.items (omega (arith, s.same_size))
                    (omega (arith, s.same_size)) (omega (arith, s.still_valid, s.same_size))
                  ∙ ap (with_at item i) s.same_items;
            })

  -- vector_clear on a valid vector leaves a valid one without items, whether or not realloc gives it
  -- a block of the initial capacity.
  pub clear_lem : (v : Vector) → IsValid v → (answer : ℤ) × Leaves answer [] (clear m v)
  unfolding clear
  clear_lem v ok =
      let c = clear_items_lem (v.size - 1) 0 v.items (omega arith) in
      rw c.given (emptied c.block (omega (arith, c.same_length)))
    where
      emptied :
          (b : List ℕ)
          → length b ≡ v.capacity
          → (answer : ℤ) × Leaves answer []
              (some (resize m (record v { items = b; size = 0 }) v.initial_capacity))
      emptied b long =
          let w : Vector = record v { items = b; size = 0 } in
          let s =
            resize-Same m w v.initial_capacity (omega (arith, long)) (omega arith) (omega arith)
              (omega arith) in
          (
            (resize m w v.initial_capacity).0,
            record {
              after = (resize m w v.initial_capacity).1;
              returns = refl;
              keeps_valid = s.still_valid;
              holds = s.same_items;
            },
          )

  -- vector_init with malloc's memory for a capacity that fits an int gives a valid vector without
  -- items, and returns its capacity.
  pub init_lem :
      (capacity : ℤ) (b : List ℕ)
      → initial_of capacity < 2 ^ 31
      → m.malloc (initial_of capacity) ≡ some b
      → (v : Vector) × (init m capacity ≡ (pos (initial_of capacity), v))
        × IsValid v
        × (contents v ≡ [])
  unfolding init
  init_lem capacity b small given =
      let n : ℕ = initial_of capacity in
      rw (init, given)
        (
          record { items = b; initial_capacity = n; capacity = n; size = 0 },
          refl,
          omega (arith, m.malloc_size n b given, initial_of-positive capacity),
          refl,
        )
