-- ===== src/Rb/Copy.antt =====
-- rb/rb.h: the copying operations rb_read, rb_overread, rb_write, rb_peek and rb_peek_at, with the
-- one-byte versions. A result is the count returned, the caller's destination and the new `rb_t`.
pub mod Rounds
pub mod Read
pub mod Write
pub mod Peek
pub mod Split
use csnip.Base.{
  ℕ, ◌+◌, Bool, true, false, not, ◌&&◌, Option, none, some, List, [], ◌∷◌, ◌==◌, ltb, leb,
  if◌then◌else◌, ◌>>=◌, min,
}
use csnip.Machine.Word.{add64, sub64, rem}
use csnip.Machine.Memory.{memcpy}
use csnip.Rb.State.{Rb, count_underflow, count_peek}
use csnip.Rb.Space.{can_read, can_write}

abbrev pub Copied : Type 0
Copied = Option (ℕ × List ℕ × Rb)

-- The bytes up to the end of the buffer, of `n` bytes from `index` on.
unfoldable pub copy_count_1 : ℕ → ℕ → ℕ → ℕ
copy_count_1 size index n = if ltb size (add64 index n) then sub64 size index else n

-- The bytes that go round to its start.
unfoldable pub copy_count_2 : ℕ → ℕ → ℕ → ℕ
copy_count_2 size index n = if ltb size (add64 index n) then sub64 (add64 index n) size else 0

-- Both parts out of the buffer, the second only if there is one.
unfoldable pub copy_out : List ℕ → List ℕ → ℕ → ℕ → ℕ → Option (List ℕ)
copy_out dest buf i c1 c2 = do
  d ← memcpy dest 0 buf i c1
  if c2 == 0 then some d else memcpy d c1 buf 0 c2

-- Both parts into the buffer.
unfoldable pub copy_in : List ℕ → List ℕ → ℕ → ℕ → ℕ → Option (List ℕ)
copy_in buf source i c1 c2 = do
  b ← memcpy buf i source 0 c1
  if c2 == 0 then some b else memcpy b 0 source c1 c2

-- The index behind a copy of two such parts.
unfoldable pub next_index : ℕ → ℕ → ℕ → ℕ → Option ℕ
next_index size index c1 c2 = if c2 == 0 then rem (add64 index c1) size else rem c2 size

-- How many bytes a read takes: at most the buffer, or at most what can be read.
unfoldable pub read_count : Rb → ℕ → Bool → ℕ
read_count rb count over =
    if over
    then (if ltb rb.size count then rb.size else count)
    else if ltb (can_read rb) count
    then can_read rb
    else count

-- The members after `n` of `count` bytes were read, up to the new read index `r`.
unfoldable pub after_read : Rb → ℕ → ℕ → Bool → ℕ → Rb
after_read rb n count over r = record rb {
  read_index = r;
  write_index = if over && ltb (can_read rb) n then r else rb.write_index;
  last_was_write = false;
  stats = record rb.stats {
    total_bytes_read = add64 rb.total_bytes_read n;
    total_underflows = if ltb n count then add64 rb.total_underflows 1 else rb.total_underflows;
  };
}

unfoldable pub read_some : Rb → List ℕ → ℕ → Bool → ℕ → Copied
read_some rb dest count over n =
    let c1 = copy_count_1 rb.size rb.read_index n in
    let c2 = copy_count_2 rb.size rb.read_index n in
    do
      d ← copy_out dest rb.buf rb.read_index c1 c2
      r ← next_index rb.size rb.read_index c1 c2
      some (n, d, after_read rb n count over r)

unfoldable pub generic_read : Rb → List ℕ → ℕ → Bool → Copied
generic_read rb dest count over =
    if count == 0
    then some (0, dest, rb)
    else if not over && (can_read rb == 0)
    then some (0, dest, rb)
    else read_some rb dest count over (read_count rb count over)

unfoldable pub read : Rb → List ℕ → ℕ → Copied
read rb dest count = generic_read rb dest count false

unfoldable pub overread : Rb → List ℕ → ℕ → Copied
overread rb dest count = generic_read rb dest count true

unfoldable pub read_byte : Rb → List ℕ → Copied
read_byte rb dest = read rb dest 1

unfoldable pub write_count : Rb → ℕ → ℕ
write_count rb count = if ltb (can_write rb) count then can_write rb else count

unfoldable pub after_write : Rb → ℕ → ℕ → List ℕ → ℕ → Rb
after_write rb n count buf w = record rb {
  buf = buf;
  write_index = w;
  last_was_write = true;
  stats = record rb.stats {
    total_bytes_write = add64 rb.total_bytes_write n;
    total_overflows = if ltb n count then add64 rb.total_overflows 1 else rb.total_overflows;
  };
}

unfoldable pub write_some : Rb → List ℕ → ℕ → ℕ → Option (ℕ × Rb)
write_some rb source count n =
    let c1 = copy_count_1 rb.size rb.write_index n in
    let c2 = copy_count_2 rb.size rb.write_index n in
    do
      b ← copy_in rb.buf source rb.write_index c1 c2
      w ← next_index rb.size rb.write_index c1 c2
      some (n, after_write rb n count b w)

unfoldable pub write : Rb → List ℕ → ℕ → Option (ℕ × Rb)
write rb source count =
    if count == 0
    then some (0, rb)
    else if can_write rb == 0
    then some (0, rb)
    else write_some rb source count (write_count rb count)

unfoldable pub write_byte : Rb → List ℕ → Option (ℕ × Rb)
write_byte rb source = write rb source 1

-- The two counts of rb_peek_at, which differ from those of a read: with both parts in use the
-- second is also less by `offset`.
unfoldable pub peek_count_1 : ℕ → ℕ → ℕ → ℕ
peek_count_1 size index n =
    if ltb size (add64 index n) then (if leb size index then n else sub64 size index) else n

unfoldable pub peek_count_2 : ℕ → ℕ → ℕ → ℕ → ℕ
peek_count_2 size index n offset =
    if ltb size (add64 index n)
    then (if leb size index then 0 else sub64 (sub64 (add64 index n) size) offset)
    else 0

-- The index of the first part: taken round only where the copy passes the end.
unfoldable pub peek_index : ℕ → ℕ → ℕ → Option ℕ
peek_index size index n =
    if ltb size (add64 index n)
    then (if leb size index then rem index size else some index)
    else some index

unfoldable pub after_peek : Rb → ℕ → ℕ → Rb
unfolding count_peek count_underflow
after_peek rb n count = if ltb n count then count_underflow (count_peek rb n) else count_peek rb n

unfoldable pub peek_some : Rb → List ℕ → ℕ → ℕ → ℕ → Copied
peek_some rb dest count offset n =
    let index = add64 rb.read_index offset in
    do
      i ← peek_index rb.size index n
      d ←
          copy_out dest rb.buf i (peek_count_1 rb.size index n)
            (peek_count_2 rb.size index n offset)
      some (n, d, after_peek rb n count)

unfoldable pub peek_count : Rb → ℕ → ℕ → ℕ
peek_count rb count offset =
    let rest = sub64 (can_read rb) offset in if ltb rest count then rest else count

unfoldable pub peek_at : Rb → List ℕ → ℕ → ℕ → Copied
peek_at rb dest count offset =
    if count == 0
    then some (0, dest, rb)
    else if leb (can_read rb) offset
    then some (0, dest, count_underflow rb)
    else peek_some rb dest count offset (peek_count rb count offset)

unfoldable pub peek : Rb → List ℕ → ℕ → Copied
peek rb dest count = peek_at rb dest count 0

unfoldable pub peek_byte_at : Rb → List ℕ → ℕ → Copied
peek_byte_at rb dest offset =
    if leb (can_read rb) offset
    then some (0, dest, count_underflow rb)
    else let index = add64 rb.read_index offset in
      do
        d ← memcpy dest 0 rb.buf (if leb rb.size index then sub64 index rb.size else index) 1
        some (1, d, count_peek rb 1)

unfoldable pub peek_byte : Rb → List ℕ → Copied
peek_byte rb dest = peek_byte_at rb dest 0
