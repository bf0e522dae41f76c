-- ===== src/Rb/Exclusive.antt =====
-- rb/rb.h: exclusive access: rb_try_exclusive_read, rb_release_read and the pair for writing, in a build
-- with mutexes or without. The mutex of pthread is an argument, with what POSIX says of it; `ℕ` names
-- the process that calls.
pub mod Holders
mod Tests
use csnip.Base.{ℕ, ◌≡◌, ◌≢◌, Bool, true, false, not, Option, none, some, if◌then◌else◌, ◌==◌}

-- A mutex, who holds it, and the number that trylock returns.
pub record Pthread : Type 1 where
  pub Mutex : Type 0
  pub holder : Mutex → Option ℕ
  pub trylock : ℕ → Mutex → ℕ × Mutex
  pub unlock : ℕ → Mutex → Mutex
  pub trylock_free :
      (i : ℕ) (m : Mutex)
      → holder m ≡ none
      → ((trylock i m).0 ≡ 0) × (holder (trylock i m).1 ≡ some i)
  pub trylock_held :
      (i j : ℕ) (m : Mutex)
      → holder m ≡ some j
      → ((trylock i m).0 ≢ 0) × (holder (trylock i m).1 ≡ some j)
  pub unlock_held : (i : ℕ) (m : Mutex) → holder m ≡ some i → holder (unlock i m) ≡ none

abbrev pub set : (ℕ → Bool) → ℕ → Bool → ℕ → Bool
set f i b j = if i == j then b else f j

module _ (pthread : Pthread) (mutexes : Bool) where
  -- read_lock and write_lock
  pub record Locks : Type 0 where
    pub read_lock : pthread.Mutex
    pub write_lock : pthread.Mutex

  unfoldable pub try_exclusive_read : ℕ → Locks → Bool × Locks
  try_exclusive_read i rb =
      let (error, m) = pthread.trylock i rb.read_lock in
      let tried : Bool × Locks = (error == 0, record rb { read_lock = m }) in
      if mutexes then tried else (false, rb)

  unfoldable pub release_read : ℕ → Locks → Locks
  release_read i rb =
      if mutexes then record rb { read_lock = pthread.unlock i rb.read_lock } else rb

  unfoldable pub try_exclusive_write : ℕ → Locks → Bool × Locks
  try_exclusive_write i rb =
      let (error, m) = pthread.trylock i rb.write_lock in
      let tried : Bool × Locks = (error == 0, record rb { write_lock = m }) in
      if mutexes then tried else (false, rb)

  unfoldable pub release_write : ℕ → Locks → Locks
  release_write i rb =
      if mutexes then record rb { write_lock = pthread.unlock i rb.write_lock } else rb

  -- The processes, and which of them have the buffer for reading and for writing.
  pub record System : Type 0 where
    pub rb : Locks
    pub reads : ℕ → Bool
    pub writes : ℕ → Bool

  -- A process tries when it does not have the access, and releases when it has it.
  pub data Turn (s t : System) : Type 0 where
    try_read :
        (i : ℕ)
        → s.reads i ≡ false
        → t ≡ record s {
          rb = (try_exclusive_read i s.rb).1;
          reads = set s.reads i (try_exclusive_read i s.rb).0;
        }
        → Turn s t
    leave_read :
        (i : ℕ)
        → s.reads i ≡ true
        → t ≡ record s { rb = release_read i s.rb; reads = set s.reads i false }
        → Turn s t
    try_write :
        (i : ℕ)
        → s.writes i ≡ false
        → t ≡ record s {
          rb = (try_exclusive_write i s.rb).1;
          writes = set s.writes i (try_exclusive_write i s.rb).0;
        }
        → Turn s t
    leave_write :
        (i : ℕ)
        → s.writes i ≡ true
        → t ≡ record s { rb = release_write i s.rb; writes = set s.writes i false }
        → Turn s t

  pub data Turns (s : System) : System → Type 0 where
    begun : Turns s s
    taken : {t u : System} → Turns s t → Turn t u → Turns s u
