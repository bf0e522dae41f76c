-- ===== src/Rb/Shared/Calls.antt =====
-- What the functions for shared memory ask of the operating system, and what is held after their
-- calls: descriptors, names and mapped pages, as POSIX has it.
use csnip.Base.{
  ℕ, ◌+◌, ◌-◌, ◌/◌, ◌<◌, ◌^◌, ◌≡◌, Bool, true, false, Option, some, List, [], ◌∷◌, ◌==◌,
  if◌then◌else◌, length, ◌&&◌,
}
use csnip.Rb.State.{Rb}

-- The answers: of uuid_unparse_lower the 37 bytes; of shm_open (which creates or not) and mmap the
-- descriptor and the address; of ftruncate, mlock and munlock whether they gave 0. A function's
-- calls of mmap are numbered from 0, as one may give an address that an earlier one gave and munmap took
-- back. Behind the address that the k-th gives is an rb_t with as much storage as it mapped behind the
-- `sizeof(rb_t)` bytes.
pub record Os : Type 0 where
  pub sizeof_rb : ℕ
  pub uuid : List ℕ
  pub shm_open : Bool → List ℕ → Option ℕ
  pub ftruncate : ℕ → ℕ → Bool
  pub mmap : ℕ → ℕ → ℕ → Option ℕ
  pub memory : ℕ → ℕ → Rb
  pub mlock : ℕ → ℕ → Bool
  pub munlock : ℕ → ℕ → Bool
  pub sizeof_small : sizeof_rb < 2 ^ 63
  pub mmap_size : (k fd n a : ℕ) → mmap k fd n ≡ some a → length (memory k a).buf ≡ n - sizeof_rb

pub data OsCall : Type 0 where
  shm_open : Bool → List ℕ → Option ℕ → OsCall
  ftruncate : ℕ → ℕ → Bool → OsCall
  mmap : ℕ → ℕ → Option ℕ → OsCall
  munmap : ℕ → ℕ → OsCall
  close : ℕ → OsCall
  shm_unlink : List ℕ → OsCall
  mlock munlock : ℕ → ℕ → Bool → OsCall
  free : ℕ → OsCall

-- Whether the descriptor `fd` is open behind the calls, which began with it open or not.
abbrev pub is_open : ℕ → Bool → List OsCall → Bool
is_open fd before [] = before
is_open fd before (shm_open create name (some f) ∷ calls) =
    is_open fd (if f == fd then true else before) calls
is_open fd before (close f ∷ calls) = is_open fd (if f == fd then false else before) calls
is_open fd before (call ∷ calls) = is_open fd before calls

abbrev pub same_name : List ℕ → List ℕ → Bool
same_name [] [] = true
same_name [] (y ∷ ys) = false
same_name (x ∷ xs) [] = false
same_name (x ∷ xs) (y ∷ ys) = (x == y) && same_name xs ys

-- Whether there is an object of that name.
abbrev pub is_named : List ℕ → Bool → List OsCall → Bool
is_named name before [] = before
is_named name before (shm_open true n (some f) ∷ calls) =
    is_named name (if same_name n name then true else before) calls
is_named name before (shm_unlink n ∷ calls) =
    is_named name (if same_name n name then false else before) calls
is_named name before (call ∷ calls) = is_named name before calls

-- The pages that `n` bytes touch from the start of a page on.
abbrev pub pages : ℕ → ℕ → ℕ
pages page n = (n + page - 1) / page

-- How many pages are mapped from address `a` on.
abbrev pub mapped : ℕ → ℕ → ℕ → List OsCall → ℕ
mapped page a before [] = before
mapped page a before (mmap fd n (some b) ∷ calls) =
    mapped page a (if b == a then pages page n else before) calls
mapped page a before (munmap b n ∷ calls) =
    mapped page a (if b == a then before - pages page n else before) calls
mapped page a before (call ∷ calls) = mapped page a before calls
