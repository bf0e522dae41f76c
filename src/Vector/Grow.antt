-- ===== src/Vector/Grow.antt =====
-- Blocks that grow and shrink, and vector_add, vector_set and vector_get.
use csnip.Base.{
  ℕ, suc, ◌*◌, ◌^◌, ◌<◌, ◌≤◌, ◌≡◌, ◌⊎◌, refl, sym, subst, ap, ap₂, lt→leb, ◌∙◌, inl, inr, Option,
  none, some, List, [], ◌∷◌, ◌++◌, ◌==◌, leb, ◌>>=◌, length, arith, Bool-cases, le→ltb, eq→==,
  ne→==, ==→eq, ==→ne,
}
use csnip.Machine.Int.{ℤ, pos, negsuc, double}
use csnip.Machine.Array.{
  put, store, store-eq, store_fault, length-put, take-put, take-suc, get_or-put,
}
use csnip.Vector.{Allocator, Vector, IsValid, contents, resize, resize_to, make_room, add}

-- A call returns `answer` and leaves a valid vector of `xs`.
pub record Leaves (answer : ℤ) (xs : List ℕ) (out : Option (ℤ × Vector)) : Type 0 where
  pub after : Vector
  pub returns : out ≡ some (answer, after)
  pub keeps_valid : IsValid after
  pub holds : contents after ≡ xs

module _ (m : Allocator) where
  -- A resized vector keeps its items, whether or not memory was given.
  pub record Same (v w : Vector) : Type 0 where
    pub still_valid : IsValid w
    pub same_size : w.size ≡ v.size
    pub same_items : contents w ≡ contents v

  moved-Same :
      (v : Vector) (c : ℕ) (b : List ℕ)
      → IsValid v
      → v.size ≤ c
      → 0 < c
      → c < 2 ^ 31
      → m.realloc v.items c ≡ some b
      → Same v (record v { items = b; capacity = c })
  moved-Same v c b ok h k l e =
      let n : length b ≡ c = m.realloc_size v.items c b e in
      record {
        still_valid = omega (arith, n);
        same_size = refl;
        same_items = m.realloc_keeps v.items c v.size b e h (omega arith);
      }

  pub resize-resize_to : (v : Vector) (c : ℕ) → 0 < c → resize m v c ≡ resize_to m v c
  unfolding resize
  resize-resize_to v c h = rw (le→ltb c 1 (omega arith))

  resize_to-Same :
      (v : Vector) (c : ℕ)
      → IsValid v
      → v.size ≤ c
      → 0 < c
      → c < 2 ^ 31
      → Same v (resize_to m v c).1
  unfolding resize_to
  resize_to-Same v c ok h k l = elim (Bool-cases (v.capacity == c)) [
    | inl e ↦ rw e (record { still_valid = ok; same_size = refl; same_items = refl })
    | inr e ↦ rw e (by_answer (m.realloc v.items c) refl)
  ]
    where
      by_answer :
          (o : Option (List ℕ))
          → m.realloc v.items c ≡ o
          → Same v
              (elim o as (λ x. ℤ × Vector) [
                | none ↦ (negsuc 0, v)
                | some b ↦ (pos c, record v { items = b; capacity = c })
              ]).1
      by_answer none e = record { still_valid = ok; same_size = refl; same_items = refl }
      by_answer (some b) e = moved-Same v c b ok h k l e

  pub resize-Same :
      (v : Vector) (c : ℕ) → IsValid v → v.size ≤ c → 0 < c → c < 2 ^ 31 → Same v (resize m v c).1
  resize-Same v c ok h k l =
      subst (λ r. Same v r.1) (sym (resize-resize_to v c k)) (resize_to-Same v c ok h k l)

  -- There is room for one item more: in the block, or in one of twice the size that realloc gives.
  abbrev pub HasRoom : Vector → Type 0
  HasRoom v =
      (v.size < v.capacity)
      ⊎ ((v.capacity * 2 < 2 ^ 31) × (b : List ℕ) × (m.realloc v.items (v.capacity * 2) ≡ some b))

  -- A vector with the items of `v` and room for one more.
  pub record Roomy (v : Vector) (out : Option Vector) : Type 0 where
    pub roomy : Vector
    pub given : out ≡ some roomy
    pub same : Same v roomy
    pub room : v.size < roomy.capacity

  in_block : (v : Vector) → IsValid v → v.size < v.capacity → Roomy v (make_room m v)
  unfolding make_room
  in_block v ok h = rw (ne→== v.capacity v.size (λ e. absurd (omega (arith, e)))) (record {
    roomy = v;
    given = refl;
    same = record { still_valid = ok; same_size = refl; same_items = refl };
    room = h;
  })

  in_twice :
      (v : Vector) (b : List ℕ)
      → IsValid v
      → v.capacity ≡ v.size
      → v.capacity * 2 < 2 ^ 31
      → m.realloc v.items (v.capacity * 2) ≡ some b
      → Roomy v (make_room m v)
  unfolding make_room double resize_to
  in_twice v b ok full small e =
      rw
        (
          eq→== v.capacity v.size full,
          lt→leb (2 ^ 31) (v.capacity * 2) small,
          resize-resize_to v (v.capacity * 2) (omega arith),
          ne→== v.capacity (v.capacity * 2) (λ q. absurd (omega (arith, q))),
          e,
        )
        (record {
          roomy = record v { items = b; capacity = v.capacity * 2 };
          given = refl;
          same = moved-Same v (v.capacity * 2) b ok (omega arith) (omega arith) small e;
          room = omega arith;
        })

  pub make_room-Roomy : (v : Vector) → IsValid v → HasRoom v → Roomy v (make_room m v)
  make_room-Roomy v ok (inl h) = in_block v ok h
  make_room-Roomy v ok (inr (small, b, e)) = elim (Bool-cases (v.capacity == v.size)) [
    | inl q ↦ in_twice v b ok (==→eq v.capacity v.size q) small e
    | inr q ↦ in_block v ok (omega (arith, ==→ne v.capacity v.size q))
  ]

  -- vector_add on a valid vector with room appends the item and returns the new size.
  pub add-Leaves :
      (v : Vector) (item : ℕ)
      → IsValid v
      → HasRoom v
      → Leaves (pos (suc v.size)) (contents v ++ (item ∷ [])) (add m v item)
  unfolding add
  add-Leaves v item ok h =
      let r = make_room-Roomy v ok h in rw r.given (put_behind r.roomy r.same r.room)
    where
      put_behind :
          (w : Vector)
          → Same v w
          → v.size < w.capacity
          → Leaves (pos (suc v.size)) (contents v ++ (item ∷ [])) (
              store w.items w.size item >>= λ b.
              some (pos (suc w.size), record w { items = b; size = suc w.size }))
      put_behind w s room =
          let inside : w.size < length w.items = omega (arith, s.still_valid, s.same_size) in
          rw (store-eq w.items w.size item inside) (record {
            after = record w { items = put w.items w.size item; size = suc w.size };
            returns =
                ap
                  (λ n.
                    some (
                      pos (suc n),
                      record w { items = put w.items w.size item; size = suc w.size },
                    ))
                  s.same_size;
            keeps_valid = omega (arith, length-put w.items w.size item, s.still_valid, s.same_size);
            holds =
                take-suc (put w.items w.size item) w.size
                  (omega (arith, inside, length-put w.items w.size item))
                ∙ ap₂ (λ xs x. xs ++ (x ∷ []))
                    (take-put w.items w.size w.size item (omega arith) ∙ s.same_items)
                    (get_or-put w.items w.size item inside);
          })

  -- vector_add on a valid full vector stores behind the block if realloc gives no memory.
  pub add_fault :
      (v : Vector) (item : ℕ)
      → IsValid v
      → v.capacity ≡ v.size
      → m.realloc v.items (v.capacity * 2) ≡ none
      → add m v item ≡ none
  unfolding add make_room double resize_to
  add_fault v item ok full e = elim (Bool-cases (leb (2 ^ 31) (v.capacity * 2))) [
    | inl q ↦ rw (eq→== v.capacity v.size full, q) refl
    | inr q ↦
        rw
          (
            eq→== v.capacity v.size full,
            q,
            resize-resize_to v (v.capacity * 2) (omega arith),
            ne→== v.capacity (v.capacity * 2) (λ z. absurd (omega (arith, z))),
            e,
            store_fault v.items v.size item (omega arith),
          )
          refl
  ]
