-- ===== src/Rb/Samples.antt =====
-- Ring buffers for the tests: one of eight bytes whose queue goes round the end.
use csnip.Base.{ℕ, true, false, List, [], ◌∷◌, arith}
use csnip.Rb.State.{Rb, Header, Stats, IsValid}

abbrev pub header : Header
header = record {
  magic = 114 ∷ 105 ∷ 110 ∷ 103 ∷ 98 ∷ 117 ∷ 102 ∷ 0 ∷ [];
  version = 0x3e800000;
  memory_locked = false;
  in_shared_memory = false;
  memory_lockable = true;
  memory_shareable = true;
  mutex_lockable = true;
  unlink_requested = false;
  no_more_input_data = false;
  sample_rate = 48000;
  channel_count = 2;
  bytes_per_sample = 1;
  shm_handle = [];
  human_name = [];
}

abbrev pub stats : Stats
stats = record {
  total_bytes_read = 0;
  total_bytes_write = 0;
  total_bytes_peek = 0;
  total_underflows = 0;
  total_overflows = 0;
}

-- 17, 18, 11, 12, 13 are readable, in this order.
abbrev pub wrapped : Rb
wrapped = record {
  header = header;
  size = 8;
  read_index = 6;
  write_index = 3;
  last_was_write = true;
  stats = stats;
  buf = 11 ∷ 12 ∷ 13 ∷ 14 ∷ 15 ∷ 16 ∷ 17 ∷ 18 ∷ [];
}

pub wrapped-IsValid : IsValid wrapped
wrapped-IsValid = omega arith

abbrev pub four : List ℕ
four = 0 ∷ 0 ∷ 0 ∷ 0 ∷ []

abbrev pub eight : List ℕ
eight = 1 ∷ 2 ∷ 3 ∷ 4 ∷ 5 ∷ 6 ∷ 7 ∷ 8 ∷ []

-- The same buffer with other bytes and with its queue at its start.
abbrev pub holding : List ℕ → ℕ → Rb
holding bytes n = record wrapped { read_index = 0; write_index = n; buf = bytes }
