-- ===== src/Vector/Tests.antt =====
-- Vectors at concrete inputs: an allocator that always gives memory, and one that moves no block.
use csnip.Base.{
  ℕ, zero, suc, ◌<◌, ◌≤◌, ◌≡◌, ◌⊎◌, inr, refl, ◌∙◌, sym, ap, none, some, List, [], ◌∷◌, arith,
  length, take,
}
use mathlib.Core.Option.{some-injective, none-ne-some}
use csnip.Machine.Int.{pos, negsuc}
use csnip.Vector.{Allocator, Vector, IsValid, add, delete, insert}
use csnip.Vector.Grow.{Leaves, HasRoom, add-Leaves, add_fault}
use csnip.Vector.Edit.{delete_lem, insert_lem}

-- The first `n` words of a block, and NULL behind its end.
abbrev resized : ℕ → List ℕ → List ℕ
resized zero xs = []
resized (suc n) [] = 0 ∷ resized n []
resized (suc n) (x ∷ xs) = x ∷ resized n xs

length-resized : (n : ℕ) (xs : List ℕ) → length (resized n xs) ≡ n
length-resized zero xs = refl
length-resized (suc n) [] = ap suc (length-resized n [])
length-resized (suc n) (x ∷ xs) = ap suc (length-resized n xs)

take-resized : (k n : ℕ) (xs : List ℕ) → k ≤ n → k ≤ length xs → take k (resized n xs) ≡ take k xs
take-resized zero n xs h l = refl
take-resized (suc k) zero xs h l = absurd (omega arith)
take-resized (suc k) (suc n) [] h l = absurd (omega arith)
take-resized (suc k) (suc n) (x ∷ xs) h l =
    ap (λ t. x ∷ t) (take-resized k n xs (omega arith) (omega arith))

abbrev heap : Allocator
heap = record {
  malloc = λ n. some (resized n []);
  realloc = λ a n. some (resized n a);
  malloc_size = λ n b e. ap length (sym (some-injective (resized n []) b e)) ∙ length-resized n [];
  realloc_size = λ a n b e. ap length (sym (some-injective (resized n a) b e)) ∙ length-resized n a;
  realloc_keeps = λ a n k b e h l.
      ap (take k) (sym (some-injective (resized n a) b e)) ∙ take-resized k n a h l;
}

abbrev exhausted : Allocator
exhausted = record {
  malloc = heap.malloc;
  realloc = λ a n. none;
  malloc_size = heap.malloc_size;
  realloc_size = λ a n b e. absurd (none-ne-some b e);
  realloc_keeps = λ a n k b e h l. absurd (none-ne-some b e);
}

abbrev three : Vector
three = record { items = 5 ∷ 6 ∷ 7 ∷ 0 ∷ []; initial_capacity = 4; capacity = 4; size = 3 }

abbrev full : Vector
full = record { items = 5 ∷ 6 ∷ 7 ∷ 8 ∷ []; initial_capacity = 4; capacity = 4; size = 4 }

three-IsValid : IsValid three
three-IsValid = omega arith

full-IsValid : IsValid full
full-IsValid = omega arith

full-HasRoom : HasRoom heap full
full-HasRoom = inr (omega arith, 5 ∷ 6 ∷ 7 ∷ 8 ∷ 0 ∷ 0 ∷ 0 ∷ 0 ∷ [], refl)

add-Leaves_example : Leaves (pos 5) (5 ∷ 6 ∷ 7 ∷ 8 ∷ 9 ∷ []) (add heap full 9)
add-Leaves_example = add-Leaves heap full 9 full-IsValid full-HasRoom

add_fault_example : add exhausted full 9 ≡ none
add_fault_example = add_fault exhausted full 9 full-IsValid refl refl

delete_lem_example :
    ((0 < 3) × Leaves (pos 2) (6 ∷ 7 ∷ []) (delete heap three (pos 0)))
    ⊎ ((3 ≤ 0) × (delete heap three (pos 0) ≡ some (negsuc 0, three)))
delete_lem_example = delete_lem heap three 0 three-IsValid

insert_lem_example :
    ((1 < 4) × Leaves (pos 5) (5 ∷ 9 ∷ 6 ∷ 7 ∷ 8 ∷ []) (insert heap full (pos 1) 9))
    ⊎ ((4 ≤ 1) × (insert heap full (pos 1) 9 ≡ some (negsuc 0, full)))
insert_lem_example = insert_lem heap full 1 9 full-IsValid full-HasRoom
