-- ===== src/Rb/State.antt =====
-- rb/rb.h: the members of `rb_t`, its reset functions, and what a usable `rb_t` satisfies.
use csnip.Base.{ℕ, ◌^◌, ◌<◌, ◌≤◌, ◌≡◌, Bool, false, List, length}
use csnip.Machine.Word.{add64}

-- The members that no read or write touches. An `int32_t` is its bit pattern, a number below 2^32;
-- `version` is the bit pattern of the float.
pub record Header : Type 0 where
  pub magic : List ℕ
  pub version : ℕ
  pub memory_locked : Bool
  pub in_shared_memory : Bool
  pub memory_lockable : Bool
  pub memory_shareable : Bool
  pub mutex_lockable : Bool
  pub unlink_requested : Bool
  pub no_more_input_data : Bool
  pub sample_rate : ℕ
  pub channel_count : ℕ
  pub bytes_per_sample : ℕ
  pub shm_handle : List ℕ
  pub human_name : List ℕ

-- The five counters.
pub record Stats : Type 0 where
  pub total_bytes_read : ℕ
  pub total_bytes_write : ℕ
  pub total_bytes_peek : ℕ
  pub total_underflows : ℕ
  pub total_overflows : ℕ

-- `rb_t`, with the `size` bytes that follow it in memory (`buf_ptr`) as `buf`.
pub record Rb : Type 0 where
  pub header : Header
  pub open header use *
  pub size : ℕ
  pub read_index : ℕ
  pub write_index : ℕ
  pub last_was_write : Bool
  pub stats : Stats
  pub open stats use *
  pub buf : List ℕ

-- What `rb_new` establishes and every operation keeps. No object is larger than 2^63 bytes.
pub record IsValid (rb : Rb) : Type 0 where
  pub nonempty : 0 < rb.size
  pub small : rb.size ≤ 2 ^ 63
  pub stored : length rb.buf ≡ rb.size
  pub read_in : rb.read_index < rb.size
  pub write_in : rb.write_index < rb.size

unfoldable pub reset_stats : Rb → Rb
reset_stats rb = record rb {
  stats = record {
    total_bytes_read = 0;
    total_bytes_write = 0;
    total_bytes_peek = 0;
    total_underflows = 0;
    total_overflows = 0;
  };
}

unfoldable pub reset : Rb → Rb
unfolding reset_stats
reset rb = reset_stats (record rb { read_index = 0; write_index = 0; last_was_write = false })

-- rb->total_underflows++
unfoldable pub count_underflow : Rb → Rb
count_underflow rb = record rb {
  stats = record rb.stats { total_underflows = add64 rb.total_underflows 1 };
}

-- rb->total_overflows++
unfoldable pub count_overflow : Rb → Rb
count_overflow rb = record rb {
  stats = record rb.stats { total_overflows = add64 rb.total_overflows 1 };
}

-- rb->total_bytes_peek+=n
unfoldable pub count_peek : Rb → ℕ → Rb
count_peek rb n = record rb {
  stats = record rb.stats { total_bytes_peek = add64 rb.total_bytes_peek n };
}
