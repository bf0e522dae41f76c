-- ===== src/Rb/Shared.antt =====
-- rb/rb.h in shared memory: rb_new_shared_audio with its wrappers, rb_open_shared, rb_free, rb_mlock and
-- rb_munlock. What the operating system answers is an argument (Os); a function gives its result and
-- the list of its calls with their answers, in order. NULL, MAP_FAILED and a negative descriptor are
-- `none`.
pub mod Calls
pub mod New
pub mod Open
pub mod Free
mod Tests
use csnip.Base.{
  ℕ, zero, suc, ◌+◌, Bool, true, false, not, ◌&&◌, Option, none, some, List, [], ◌∷◌, ◌++◌, ◌==◌,
  ltb, if◌then◌else◌, take,
}
use csnip.Machine.Word.{add64}
use csnip.Machine.Memory.{blit}
use csnip.Machine.Cstring.{c_string, strncpy, strncmp_same}
use csnip.Rb.State.{Rb, Header}
use csnip.Rb.Create.{Build, rb_magic, rb_version, anonymous, set_common_init_values}
use csnip.Rb.Shared.Calls.{
  Os, OsCall, shm_open, ftruncate, mmap, munmap, close, shm_unlink, mlock, munlock, free,
}

-- The address and the buffer there, and the calls.
abbrev pub Made : Type 0
Made = Option (ℕ × Rb) × List OsCall

abbrev pub calling : List OsCall → Made → Made
calling calls (made, more) = (made, calls ++ more)

module _ (build : Build) (os : Os) where
  -- The stores of rb_new_shared_audio behind its mmap.
  unfoldable pub filled_in_shared : Rb → ℕ → List ℕ → ℕ → ℕ → ℕ → Rb
  filled_in_shared block size name sample_rate channel_count bytes_per_sample =
      let rb = set_common_init_values build block in
      record rb {
        size = size;
        header = record rb.header {
          shm_handle = blit 0 os.uuid rb.shm_handle;
          in_shared_memory = true;
          unlink_requested = false;
          sample_rate = sample_rate;
          channel_count = channel_count;
          bytes_per_sample = bytes_per_sample;
          human_name = strncpy rb.human_name name 255;
        };
      }

  -- The handle as a string.
  unfoldable pub new_handle : List ℕ
  new_handle = c_string os.uuid

  -- Behind the mmap of descriptor `fd`.
  unfoldable pub new_mapped : ℕ → (ℕ → Rb) → Option ℕ → Made
  new_mapped fd filled none = (none, close fd ∷ shm_unlink new_handle ∷ [])
  new_mapped fd filled (some a) = (some (a, filled a), close fd ∷ [])

  -- Behind the ftruncate, whose answer is whether it gave 0.
  unfoldable pub new_truncated : ℕ → ℕ → (ℕ → Rb) → Bool → Made
  new_truncated fd size filled false = (none, close fd ∷ shm_unlink new_handle ∷ [])
  new_truncated fd size filled true =
      let bytes = add64 os.sizeof_rb size in
      calling (mmap fd bytes (os.mmap 0 fd bytes) ∷ []) (new_mapped fd filled (os.mmap 0 fd bytes))

  -- Behind the shm_open.
  unfoldable pub new_opened : ℕ → (ℕ → Rb) → Option ℕ → Made
  new_opened size filled none = (none, [])
  new_opened size filled (some fd) =
      let bytes = add64 os.sizeof_rb size in
      calling (ftruncate fd bytes (os.ftruncate fd bytes) ∷ [])
        (new_truncated fd size filled (os.ftruncate fd bytes))

  unfoldable pub new_shared_audio : ℕ → List ℕ → ℕ → ℕ → ℕ → Made
  new_shared_audio size name sample_rate channel_count bytes_per_sample =
      let filled : ℕ → Rb = λ a.
        filled_in_shared (os.memory 0 a) size name sample_rate channel_count bytes_per_sample in
      let opened =
        calling (shm_open true new_handle (os.shm_open true new_handle) ∷ [])
          (new_opened size filled (os.shm_open true new_handle)) in
      let asked = if ltb size 1 then (none, []) else opened in
      if build.shm then asked else (none, [])

  unfoldable pub new_shared : ℕ → Made
  new_shared size = new_shared_audio size anonymous 0 1 1

  unfoldable pub new_shared_named : ℕ → List ℕ → Made
  new_shared_named size name = new_shared_audio size name 0 1 1

  -- Behind the mmap of the whole.
  unfoldable pub open_whole : ℕ → List ℕ → Option ℕ → Made
  open_whole fd handle none = (none, close fd ∷ shm_unlink handle ∷ [])
  open_whole fd handle (some b) = (some (b, os.memory 1 b), close fd ∷ [])

  -- What rb_open_shared asks of the rb_t that it finds.
  unfoldable pub recognised : Rb → Bool
  recognised rb = strncmp_same 8 rb.magic rb_magic && (rb.version == rb_version)

  -- Behind the mmap of the rb_t alone.
  unfoldable pub open_struct : ℕ → List ℕ → Option ℕ → Made
  open_struct fd handle none = (none, close fd ∷ shm_unlink handle ∷ [])
  open_struct fd handle (some a) =
      let bytes = add64 os.sizeof_rb (os.memory 0 a).size in
      let refused : Made = (none, close fd ∷ munmap a os.sizeof_rb ∷ shm_unlink handle ∷ []) in
      let remapped =
        calling (munmap a os.sizeof_rb ∷ mmap fd bytes (os.mmap 1 fd bytes) ∷ [])
          (open_whole fd handle (os.mmap 1 fd bytes)) in
      if recognised (os.memory 0 a) then remapped else refused

  -- Behind the shm_open.
  unfoldable pub open_opened : List ℕ → Option ℕ → Made
  open_opened handle none = (none, [])
  open_opened handle (some fd) =
      calling (mmap fd os.sizeof_rb (os.mmap 0 fd os.sizeof_rb) ∷ [])
        (open_struct fd handle (os.mmap 0 fd os.sizeof_rb))

  unfoldable pub open_shared : List ℕ → Made
  open_shared handle =
      let opened =
        calling (shm_open false handle (os.shm_open false handle) ∷ [])
          (open_opened handle (os.shm_open false handle)) in
      if build.shm then opened else (none, [])

  -- rb_free of the buffer at an address, by its calls. Its size is set to 0 before the munmap.
  unfoldable pub free_rb : ℕ → Rb → List OsCall
  free_rb a rb =
      let bytes = add64 os.sizeof_rb rb.size in
      let unlocked =
        if build.mlock && rb.memory_locked then munlock a bytes (os.munlock a bytes) ∷ [] else [] in
      let released =
        if build.shm && rb.in_shared_memory
        then munmap a (add64 os.sizeof_rb 0) ∷ shm_unlink (take 255 (c_string rb.shm_handle)) ∷ []
        else free a ∷ [] in
      unlocked ++ released

  -- rb_mlock and rb_munlock: what they return, and the buffer.
  unfoldable pub mlock_rb : ℕ → Rb → Bool × Rb
  mlock_rb a rb =
      let locked : Bool × Rb =
        (true, record rb { header = record rb.header { memory_locked = true } }) in
      if build.mlock && os.mlock a (add64 os.sizeof_rb rb.size) then locked else (false, rb)

  unfoldable pub munlock_rb : ℕ → Rb → Bool × Rb
  munlock_rb a rb =
      let unlocked : Bool × Rb =
        (true, record rb { header = record rb.header { memory_locked = false } }) in
      if build.mlock && os.munlock a (add64 os.sizeof_rb rb.size) then unlocked else (false, rb)
