-- ===== src/Vector.antt =====
-- vector/vector.c: a growing array of pointers. A pointer is a number, NULL is 0. `items` is the block
-- that malloc or realloc returned; a load or a store outside of it faults, and so does an overflow of
-- the doubled capacity. A result is the `int` returned and the new `vector_t`.
pub mod Grow
pub mod Shift
pub mod Edit
mod Tests
use csnip.Base.{
  ℕ, zero, suc, ◌+◌, ◌-◌, ◌/◌, ◌^◌, ◌<◌, ◌≤◌, ◌≡◌, Option, none, some, List, [], ◌∷◌, ◌&&◌, ◌==◌,
  ltb, leb, if◌then◌else◌, ◌>>=◌, min, length, take,
}
use csnip.Machine.Int.{ℤ, pos, negsuc, double}
use csnip.Machine.Array.{load, store}

-- malloc and realloc, counted in pointers: a block has the size asked for, and a moved block keeps
-- what fits.
pub record Allocator : Type 0 where
  pub malloc : ℕ → Option (List ℕ)
  pub realloc : List ℕ → ℕ → Option (List ℕ)
  pub malloc_size : (n : ℕ) (b : List ℕ) → malloc n ≡ some b → length b ≡ n
  pub realloc_size : (a : List ℕ) (n : ℕ) (b : List ℕ) → realloc a n ≡ some b → length b ≡ n
  pub realloc_keeps :
      (a : List ℕ) (n k : ℕ) (b : List ℕ)
      → realloc a n ≡ some b
      → k ≤ n
      → k ≤ length a
      → take k b ≡ take k a

pub record Vector : Type 0 where
  pub items : List ℕ
  pub initial_capacity : ℕ
  pub capacity : ℕ
  pub size : ℕ

pub record IsValid (v : Vector) : Type 0 where
  pub stored : length v.items ≡ v.capacity
  pub fits : v.size ≤ v.capacity
  pub some_capacity : 0 < v.capacity
  pub int_capacity : v.capacity < 2 ^ 31
  pub some_initial : 0 < v.initial_capacity
  pub int_initial : v.initial_capacity < 2 ^ 31

-- The items a user sees.
abbrev pub contents : Vector → List ℕ
contents v = take v.size v.items

unfoldable pub size_of : Vector → ℕ
size_of v = v.size

unfoldable pub set : Vector → ℤ → ℕ → Option (ℤ × Vector)
set v (negsuc i) item = some (negsuc 0, v)
set v (pos i) item =
    if ltb i v.size
    then (store v.items i item >>= λ b. some (pos v.size, record v { items = b }))
    else some (negsuc 0, v)

unfoldable pub get : Vector → ℤ → Option ℕ
get v (negsuc i) = some 0
get v (pos i) = if ltb i v.size then load v.items i else some 0

-- The loop of vector_delete from `i` on, `n` rounds.
unfoldable pub shift_down : ℕ → ℕ → List ℕ → Option (List ℕ)
shift_down zero i items = some items
shift_down (suc n) i items = load items (suc i) >>= λ x.
    store items i x >>= λ b. store b (suc i) 0 >>= λ c. shift_down n (suc i) c

-- The loop of vector_insert from `index + n` down to the place behind `index`.
unfoldable pub shift_up : ℕ → ℕ → List ℕ → Option (List ℕ)
shift_up zero index items = some items
shift_up (suc n) index items =
    load items (index + n) >>= λ x. store items (index + suc n) x >>= λ b. shift_up n index b

-- The first loop of vector_clear, which ends before the last item: `i` and on, `n` rounds.
unfoldable pub clear_items : ℕ → ℕ → List ℕ → Option (List ℕ)
clear_items zero i items = some items
clear_items (suc n) i items = store items i 0 >>= λ b. clear_items n (suc i) b

-- The initial capacity that vector_init takes for the one asked for.
unfoldable pub initial_of : ℤ → ℕ
initial_of (pos n) = if n == 0 then 4 else n
initial_of (negsuc n) = 4

module _ (m : Allocator) where
  unfoldable pub init : ℤ → ℤ × Vector
  init capacity =
      let n = initial_of capacity in
      elim (m.malloc n) [
        | none ↦ (negsuc 0, record { items = []; initial_capacity = n; capacity = n; size = 0 })
        | some b ↦ (pos n, record { items = b; initial_capacity = n; capacity = n; size = 0 })
      ]

  -- vector_resize behind its minimum
  unfoldable pub resize_to : Vector → ℕ → ℤ × Vector
  resize_to v c =
      let moved : ℤ × Vector = elim (m.realloc v.items c) [
        | none ↦ (negsuc 0, v)
        | some b ↦ (pos c, record v { items = b; capacity = c })
      ] in
      if v.capacity == c then (pos v.capacity, v) else moved

  unfoldable pub resize : Vector → ℕ → ℤ × Vector
  resize v capacity = resize_to v (if ltb capacity 1 then 1 else capacity)

  -- The test before an item more is stored, which does not look at what vector_resize returns.
  unfoldable pub make_room : Vector → Option Vector
  make_room v =
      if v.capacity == v.size then (double v.capacity >>= λ c. some (resize v c).1) else some v

  unfoldable pub add : Vector → ℕ → Option (ℤ × Vector)
  add v item = make_room v >>= λ w. store w.items w.size item >>= λ b.
      some (pos (suc w.size), record w { items = b; size = suc w.size })

  -- The size after an item less, and a smaller block where a quarter of it is in use.
  unfoldable pub shrink : Vector → Vector
  shrink v = if ltb 0 v.size && (v.size == v.capacity / 4) then (resize v (v.capacity / 2)).1 else v

  unfoldable pub delete : Vector → ℤ → Option (ℤ × Vector)
  delete v (negsuc i) = some (negsuc 0, v)
  delete v (pos i) =
      let go = store v.items i 0 >>= λ a. shift_down (v.size - 1 - i) i a >>= λ b.
      let w = shrink (record v { items = b; size = v.size - 1 }) in some (pos w.size, w) in
      if ltb i v.size then go else some (negsuc 0, v)

  unfoldable pub insert : Vector → ℤ → ℕ → Option (ℤ × Vector)
  insert v (negsuc i) item = some (negsuc 0, v)
  insert v (pos i) item =
      let go = make_room v >>= λ w. shift_up (w.size - i) i w.items >>= λ a.
      store a i item >>= λ b. some (pos (suc w.size), record w { items = b; size = suc w.size }) in
      if ltb i v.size then go else some (negsuc 0, v)

  unfoldable pub clear : Vector → Option (ℤ × Vector)
  clear v = clear_items (v.size - 1) 0 v.items >>= λ b.
      some (resize (record v { items = b; size = 0 }) v.initial_capacity)
