-- ===== src/Rb/Create.antt =====
-- rb/rb.h: rb_set_common_init_values and, in a build without RB_DEFAULT_USE_SHM, rb_new_audio with its
-- wrappers rb_new and rb_new_named. The mutexes are set up elsewhere and left out. A C string is the
-- list of its characters before the NUL; NULL is `none`.
pub mod Fresh
mod Tests
use csnip.Base.{
  ℕ, zero, suc, ◌+◌, ◌-◌, ◌<◌, ◌≤◌, ◌^◌, ◌≡◌, Bool, true, false, Option, none, some, List, [], ◌∷◌,
  ◌++◌, arith, ltb, if◌then◌else◌, length, take, drop,
}
use csnip.Machine.Word.{add64}
use csnip.Machine.Array.{put}
use csnip.Machine.Cstring.{strncpy}
use csnip.Rb.State.{Rb, Header, Stats, reset}

-- What is compiled in: the negations of RB_DISABLE_MLOCK, RB_DISABLE_RW_MUTEX and RB_DISABLE_SHM.
pub record Build : Type 0 where
  pub mlock : Bool
  pub mutex : Bool
  pub shm : Bool

-- malloc, which gives a block of the bytes asked for: an rb_t with anything in it, and behind its
-- `sizeof(rb_t)` bytes the rest of the block.
pub record Heap : Type 0 where
  pub sizeof_rb : ℕ
  pub malloc : ℕ → Option Rb
  pub sizeof_small : sizeof_rb < 2 ^ 63
  pub malloc_size : (n : ℕ) (rb : Rb) → malloc n ≡ some rb → length rb.buf ≡ n - sizeof_rb

-- "ringbuf"
abbrev pub rb_magic : List ℕ
rb_magic = 114 ∷ 105 ∷ 110 ∷ 103 ∷ 98 ∷ 117 ∷ 102 ∷ []

-- The bit pattern of the float 0.25.
abbrev pub rb_version : ℕ
rb_version = 0x3e800000

-- "anonymous"
abbrev pub anonymous : List ℕ
anonymous = 97 ∷ 110 ∷ 111 ∷ 110 ∷ 121 ∷ 109 ∷ 111 ∷ 117 ∷ 115 ∷ []

unfoldable pub set_common_init_values : Build → Rb → Rb
set_common_init_values build rb = record rb {
  header = record rb.header {
    magic = strncpy rb.magic rb_magic 8;
    version = rb_version;
    memory_locked = false;
    no_more_input_data = false;
    shm_handle = put rb.shm_handle 0 0;
    memory_lockable = build.mlock;
    mutex_lockable = build.mutex;
    memory_shareable = build.shm;
  };
  write_index = 0;
  read_index = 0;
  last_was_write = false;
  stats = record {
    total_bytes_read = 0;
    total_bytes_write = 0;
    total_bytes_peek = 0;
    total_underflows = 0;
    total_overflows = 0;
  };
}

module _ (build : Build) (heap : Heap) where
  -- The stores of rb_new_audio behind its malloc.
  unfoldable pub filled_in : Rb → ℕ → List ℕ → ℕ → ℕ → ℕ → Rb
  filled_in block size name sample_rate channel_count bytes_per_sample =
      let rb = set_common_init_values build block in
      record rb {
        size = size;
        header = record rb.header {
          in_shared_memory = false;
          unlink_requested = false;
          sample_rate = sample_rate;
          channel_count = channel_count;
          bytes_per_sample = bytes_per_sample;
          human_name = strncpy rb.human_name name 255;
        };
      }

  unfoldable pub new_audio : ℕ → List ℕ → ℕ → ℕ → ℕ → Option Rb
  new_audio size name sample_rate channel_count bytes_per_sample =
      let given = elim (heap.malloc (add64 heap.sizeof_rb size)) as (λ o. Option Rb) [
        | none ↦ none
        | some block ↦ some (filled_in block size name sample_rate channel_count bytes_per_sample)
      ] in
      if ltb size 1 then none else given

  unfoldable pub new : ℕ → Option Rb
  new size = new_audio size anonymous 0 1 1

  unfoldable pub new_named : ℕ → List ℕ → Option Rb
  new_named size name = new_audio size name 0 1 1
