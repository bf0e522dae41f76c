-- ===== src/Rb/Shared/New.antt =====
-- rb_new_shared_audio: what is held behind it, and the buffer that it gives.
use csnip.Base.{
  ℕ, ◌<◌, ◌≤◌, ◌^◌, ◌≡◌, refl, ap, subst, Bool, true, false, Option, none, some, List, [], ◌∷◌,
  arith, ltb, if◌then◌else◌, ◌==◌, eq→==, le→ltb, length,
}
use csnip.Machine.Word.{add64}
use csnip.Rb.State.{Rb, IsValid}
use csnip.Rb.Space.{can_read, contents}
use csnip.Rb.Queue
use csnip.Rb.Queue.{Call}
use csnip.Rb.Client.{run}
use csnip.Rb.Client.Refine.{Runs, run-Runs}
use csnip.Rb.Create.{Build, set_common_init_values}
use csnip.Rb.Shared.{
  Made, calling, filled_in_shared, new_handle, new_mapped, new_truncated, new_opened,
  new_shared_audio,
}
use csnip.Rb.Shared.Calls.{
  Os, OsCall, shm_open, ftruncate, mmap, close, is_open, same_name, is_named, mapped, pages,
}

pub same_name_self : (n : List ℕ) → same_name n n ≡ true
same_name_self [] = refl
same_name_self (c ∷ n) = rw (eq→== c c refl, same_name_self n) refl

-- What is taken and given back is not held.
pub given_back : (b : Bool) → (if b then false else if b then true else false) ≡ false
given_back true = refl
given_back false = refl

-- Behind a call that gave no buffer nothing is held; behind one that did, no descriptor is open, the
-- object has its name, and at the address are mapped the pages of its bytes.
abbrev pub LeavesHeld : ℕ → List ℕ → ℕ → Made → Type 0
LeavesHeld page name bytes (none, calls) =
    ((fd : ℕ) → is_open fd false calls ≡ false)
    × ((n : List ℕ) → is_named n false calls ≡ false)
    × ((a : ℕ) → mapped page a 0 calls ≡ 0)
LeavesHeld page name bytes (some (a, rb), calls) =
    ((fd : ℕ) → is_open fd false calls ≡ false)
    × (is_named name false calls ≡ true)
    × (mapped page a 0 calls ≡ pages page bytes)

module _ (build : Build) (os : Os) (page : ℕ) where
  mapped-LeavesHeld :
      (fd bytes : ℕ) (filled : ℕ → Rb) (o : Option ℕ)
      → LeavesHeld page (new_handle build os) bytes (
          calling
            (shm_open true (new_handle build os) (some fd)
              ∷ ftruncate fd bytes true
              ∷ mmap fd bytes o
              ∷ [])
            (new_mapped build os fd filled o))
  unfolding new_mapped
  mapped-LeavesHeld fd bytes filled none =
      (λ f. given_back (fd == f), λ n. given_back (same_name (new_handle build os) n), λ a. refl)
  mapped-LeavesHeld fd bytes filled (some a) = (
    λ f. given_back (fd == f),
    rw (same_name_self (new_handle build os)) refl,
    rw (eq→== a a refl) refl,
  )

  truncated-LeavesHeld :
      (fd size : ℕ) (filled : ℕ → Rb) (t : Bool)
      → LeavesHeld page (new_handle build os) (add64 os.sizeof_rb size) (
          calling
            (shm_open true (new_handle build os) (some fd)
              ∷ ftruncate fd (add64 os.sizeof_rb size) t
              ∷ [])
            (new_truncated build os fd size filled t))
  unfolding new_truncated
  truncated-LeavesHeld fd size filled false =
      (λ f. given_back (fd == f), λ n. given_back (same_name (new_handle build os) n), λ a. refl)
  truncated-LeavesHeld fd size filled true =
      let bytes = add64 os.sizeof_rb size in mapped-LeavesHeld fd bytes filled (os.mmap 0 fd bytes)

  opened-LeavesHeld :
      (size : ℕ) (filled : ℕ → Rb) (o : Option ℕ)
      → LeavesHeld page
          (new_handle build os)
          (add64 os.sizeof_rb size)
          (calling (shm_open true (new_handle build os) o ∷ []) (new_opened build os size filled o))
  unfolding new_opened
  opened-LeavesHeld size filled none = (λ f. refl, λ n. refl, λ a. refl)
  opened-LeavesHeld size filled (some fd) =
      truncated-LeavesHeld fd size filled (os.ftruncate fd (add64 os.sizeof_rb size))

  -- Whatever its calls answer, rb_new_shared_audio holds nothing if it returns NULL: no descriptor, no
  -- name, no mapped page; and otherwise the name and the pages of the rb_t and the storage, with no
  -- descriptor left open.
  pub new_shared_audio-LeavesHeld :
      (size : ℕ) (name : List ℕ) (sample_rate channel_count bytes_per_sample : ℕ)
      → LeavesHeld page
          (new_handle build os)
          (add64 os.sizeof_rb size)
          (new_shared_audio build os size name sample_rate channel_count bytes_per_sample)
  unfolding new_shared_audio
  new_shared_audio-LeavesHeld size name sample_rate channel_count bytes_per_sample =
      shareable build.shm (ltb size 1)
    where
      opened : Made
      opened =
          calling
            (shm_open true (new_handle build os) (os.shm_open true (new_handle build os)) ∷ [])
            (new_opened build os size
              (λ a.
                filled_in_shared build os (os.memory 0 a) size name sample_rate channel_count
                  bytes_per_sample)
              (os.shm_open true (new_handle build os)))

      shareable :
          (b c : Bool)
          → LeavesHeld page
              (new_handle build os)
              (add64 os.sizeof_rb size)
              (if b then (if c then (none, []) else opened) else (none, []))
      shareable false c = (λ f. refl, λ n. refl, λ a. refl)
      shareable true true = (λ f. refl, λ n. refl, λ a. refl)
      shareable true false = opened-LeavesHeld size _ (os.shm_open true (new_handle build os))

-- A new shared buffer, where every call succeeds.
module _ (build : Build) (os : Os) (size : ℕ) (name : List ℕ)
    (sample_rate channel_count bytes_per_sample fd a : ℕ) (shareable : build.shm ≡ true)
    (some_size : 0 < size) (opened : os.shm_open true (new_handle build os) ≡ some fd)
    (truncated : os.ftruncate fd (add64 os.sizeof_rb size) ≡ true)
    (at_address : os.mmap 0 fd (add64 os.sizeof_rb size) ≡ some a) where
  abbrev pub new_rb : Rb
  new_rb =
      filled_in_shared build os (os.memory 0 a) size name sample_rate channel_count bytes_per_sample

  abbrev pub new_calls : List OsCall
  new_calls =
      shm_open true (new_handle build os) (some fd)
      ∷ ftruncate fd (add64 os.sizeof_rb size) true
      ∷ mmap fd (add64 os.sizeof_rb size) (some a)
      ∷ close fd
      ∷ []

  pub new_shared_audio-made :
      new_shared_audio build os size name sample_rate channel_count bytes_per_sample
      ≡ (some (a, new_rb), new_calls)
  unfolding new_shared_audio new_opened new_truncated new_mapped
  new_shared_audio-made =
      simp (shareable, le→ltb size 1 (omega arith), opened, truncated, at_address) refl

  -- The buffer that rb_new_shared_audio gives where every call succeeds, for a size from 1 to 2^63
  -- bytes: any calls on it run as on an empty bounded queue of its size.
  pub new_shared_audio-run :
      (calls : List Call)
      → size ≤ 2 ^ 63
      → ((new_shared_audio build os size name sample_rate channel_count bytes_per_sample).0
          ≡ some (a, new_rb))
        × Runs new_rb (Queue.run size [] calls) (run new_rb calls)
  unfolding filled_in_shared set_common_init_values can_read
  new_shared_audio-run calls small = (
    ap (λ (m : Made). m.0) new_shared_audio-made,
    subst (λ q. Runs new_rb (Queue.run size q calls) (run new_rb calls)) empty
        (run-Runs calls new_rb valid),
  )
    where
      long : length (os.memory 0 a).buf ≡ size
      long =
          omega (arith, os.mmap_size 0 fd (add64 os.sizeof_rb size) a at_address, os.sizeof_small)

      valid : IsValid new_rb
      valid = omega (arith, long)

      empty : contents new_rb ≡ []
      empty = refl
