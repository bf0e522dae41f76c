-- ===== src/Rb/Exclusive/Tests.antt =====
-- Exclusive access with a mutex that keeps its holder.
use csnip.Base.{ℕ, ◌≡◌, ◌≢◌, refl, Bool, true, false, Option, none, some, inl, arith}
use csnip.Rb.Exclusive.{Pthread, try_exclusive_read, System, set, try_read, Turns, begun, taken}
use csnip.Rb.Exclusive.Holders.{exclusive}

-- 16 is EBUSY.
unfoldable trylock : ℕ → Option ℕ → ℕ × Option ℕ
trylock i none = (0, some i)
trylock i (some j) = (16, some j)

trylock-free :
    (i : ℕ) (m : Option ℕ) → m ≡ none → ((trylock i m).0 ≡ 0) × ((trylock i m).1 ≡ some i)
unfolding trylock
trylock-free i none e = (refl, refl)
trylock-free i (some j) e = cc

trylock-held :
    (i j : ℕ) (m : Option ℕ) → m ≡ some j → ((trylock i m).0 ≢ 0) × ((trylock i m).1 ≡ some j)
unfolding trylock
trylock-held i j none e = cc
trylock-held i j (some k) e = (busy, e)
  where
    busy : ◌≢◌ {A = ℕ} 16 0
    busy h = omega (arith, h)

abbrev pthread : Pthread
pthread = record {
  Mutex = Option ℕ;
  holder = λ m. m;
  trylock = trylock;
  unlock = λ i m. none;
  trylock_free = trylock-free;
  trylock_held = trylock-held;
  unlock_held = λ i m e. refl;
}

abbrev nobody : ℕ → Bool
nobody i = false

abbrev start : System pthread true
start = record {
  rb = record { read_lock = none; write_lock = none };
  reads = nobody;
  writes = nobody;
}

-- Process 1 takes the buffer for reading, and process 2 is refused.
abbrev first : System pthread true
first = record start {
  rb = (try_exclusive_read pthread true 1 start.rb).1;
  reads = set start.reads 1 (try_exclusive_read pthread true 1 start.rb).0;
}

abbrev second : System pthread true
second = record first {
  rb = (try_exclusive_read pthread true 2 first.rb).1;
  reads = set first.reads 2 (try_exclusive_read pthread true 2 first.rb).0;
}

first_has_it : second.reads 1 ≡ true
unfolding try_exclusive_read trylock
first_has_it = refl

second_has_not : second.reads 2 ≡ false
unfolding try_exclusive_read trylock
second_has_not = refl

second_may_try : first.reads 2 ≡ false
unfolding try_exclusive_read trylock
second_may_try = refl

both_turns : Turns pthread true start second
both_turns = taken (taken begun (try_read 1 refl refl)) (try_read 2 second_may_try refl)

exclusive_example : ◌≡◌ {A = ℕ} 1 1
exclusive_example =
    exclusive pthread true start second (λ i. refl) (λ i. refl) both_turns 1 1
      (inl (first_has_it, first_has_it))
