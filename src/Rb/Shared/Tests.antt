-- ===== src/Rb/Shared/Tests.antt =====
-- Shared buffers at concrete inputs: eight bytes behind an rb_t of 640, with pages of 64 bytes.
use csnip.Base.{
  ℕ, zero, suc, ◌==◌, if◌then◌else◌, Option, Bool-cases, inl, inr, ==→eq, ◌≢◌, length, ◌-◌, ◌≡◌,
  refl, ap, ◌∙◌, true, false, none, some, List, [], ◌∷◌, ◌++◌, arith, tabulate, length-tabulate,
}
use csnip.Machine.Word.{add64}
use csnip.Machine.Cstring.{strncmp_same, strncpy}
use csnip.Rb.State.{Rb}
use csnip.Rb.Queue
use csnip.Rb.Queue.{Call, write, read, peek}
use csnip.Rb.Client.{run}
use csnip.Rb.Client.Refine.{Runs}
use csnip.Rb.Create.{Build, set_common_init_values}
use csnip.Rb.Shared.{
  filled_in_shared, new_handle, new_shared_audio, recognised, open_shared, open_opened, open_struct,
  open_whole, free_rb,
}
use csnip.Rb.Shared.Calls.{Os, OsCall, is_open, is_named, mapped}
use csnip.Rb.Shared.New.{LeavesHeld, new_shared_audio-LeavesHeld, new_rb, new_shared_audio-run}
use csnip.Rb.Shared.Open.{OpensHeld, open_shared-OpensHeld}
use csnip.Rb.Shared.Free.{free_new_leaks}
use csnip.Rb.Samples.{wrapped}

abbrev everything : Build
everything = record { mlock = true; mutex = true; shm = true }

abbrev zeros : ℕ → List ℕ
zeros n = tabulate n (λ i. 0)

abbrev handle_bytes : List ℕ
handle_bytes = tabulate 36 (λ i. 97) ++ (0 ∷ [])

abbrev eight_bytes : List ℕ
eight_bytes = 9 ∷ 9 ∷ 9 ∷ 9 ∷ 9 ∷ 9 ∷ 9 ∷ 9 ∷ []

same : (n a : ℕ) → some n ≡ some a → a ≡ n
same n a e = cc

-- Every call succeeds; `n` mapped bytes stand at address `n`, and show `rb`.
abbrev willing : Rb → Os
willing rb = record {
  sizeof_rb = 640;
  uuid = handle_bytes;
  shm_open = λ create name. some 3;
  ftruncate = λ fd n. true;
  mmap = λ k fd n. some n;
  memory = λ k a. record rb { buf = zeros (a - 640) };
  mlock = λ a n. true;
  munlock = λ a n. true;
  sizeof_small = omega arith;
  mmap_size = λ k fd n a e. length-tabulate (a - 640) (λ i. 0) ∙ ap (λ k. k - 640) (same n a e);
}

-- An rb_t with a magic and a handle of their lengths.
abbrev block : Rb
block = record wrapped {
  header = record wrapped.header {
    magic = eight_bytes;
    shm_handle = zeros 256;
    human_name = zeros 256;
  };
}

abbrev made : Rb
made = filled_in_shared everything (willing block) (record block { buf = zeros 8 }) 8 [] 48000 2 4

new_shared_audio-LeavesHeld_example :
    LeavesHeld 64
      (new_handle everything (willing block))
      (add64 640 8)
      (new_shared_audio everything (willing block) 8 [] 48000 2 4)
new_shared_audio-LeavesHeld_example =
    new_shared_audio-LeavesHeld everything (willing block) 64 8 [] 48000 2 4

-- Another process, in which both calls of mmap give the same address: first for the rb_t alone, and then
-- for the whole.
unfoldable same_address : ℕ → ℕ → Option ℕ
same_address zero n = if n == 640 then some 4096 else none
same_address (suc k) n = if n == 648 then some 4096 else none

unfoldable shown_storage : ℕ → List ℕ
shown_storage zero = []
shown_storage (suc k) = zeros 8

same_address_size : (k n a : ℕ) → same_address k n ≡ some a → length (shown_storage k) ≡ n - 640
unfolding same_address shown_storage
same_address_size zero n a e = elim (Bool-cases (n == 640)) [
  | inl h ↦ omega (arith, ==→eq n 640 h)
  | inr h ↦ absurd (nothing (rw h at e))
]
  where
    nothing : none ≢ some a
    nothing f = cc
same_address_size (suc k) n a e = elim (Bool-cases (n == 648)) [
  | inl h ↦ omega (arith, ==→eq n 648 h)
  | inr h ↦ absurd (nothing (rw h at e))
]
  where
    nothing : none ≢ some a
    nothing f = cc

abbrev other : Os
other = record (willing made) {
  mmap = λ k fd n. same_address k n;
  memory = λ k a. record made { buf = shown_storage k };
  mmap_size = λ k fd n a e. same_address_size k n a e;
}

other_opens : (open_shared everything other handle_bytes).0 ≡ some (4096, made)
unfolding open_shared open_opened open_struct open_whole recognised strncmp_same filled_in_shared
    set_common_init_values strncpy same_address shown_storage
other_opens = refl

open_shared-OpensHeld_example :
    OpensHeld everything other 64 handle_bytes (open_shared everything other handle_bytes)
open_shared-OpensHeld_example = open_shared-OpensHeld everything other 64 handle_bytes

-- A storage of eight bytes lies on a page of its own.
free_new_leaks_example :
    (rb : Rb) × (calls : List OsCall) × (new_shared_audio everything (willing block) 8 [] 48000 2 4
      ≡ (some (648, rb), calls))
    × ((f : ℕ) → is_open f false (calls ++ free_rb everything (willing block) 648 rb) ≡ false)
    × (is_named
          (new_handle everything (willing block))
          false
          (calls ++ free_rb everything (willing block) 648 rb)
        ≡ false)
    × (mapped 64 648 0 (calls ++ free_rb everything (willing block) 648 rb) ≡ 1)
free_new_leaks_example =
    free_new_leaks everything (willing block) 64 8 [] 48000 2 4 3 648 refl (omega arith) refl refl
      refl refl (omega arith)

abbrev three_calls : List Call
three_calls = write (1 ∷ 2 ∷ 3 ∷ []) ∷ read 2 ∷ peek 4 ∷ []

new_shared_audio-run_example :
    ((new_shared_audio everything (willing block) 8 [] 48000 2 4).0
      ≡ some (
        648,
        new_rb everything (willing block) 8 [] 48000 2 4 3 648 refl (omega arith) refl refl refl,
      ))
    × Runs
        (new_rb everything (willing block) 8 [] 48000 2 4 3 648 refl (omega arith) refl refl refl)
        (Queue.run 8 [] three_calls)
        (run
          (new_rb everything (willing block) 8 [] 48000 2 4 3 648 refl (omega arith) refl refl refl)
          three_calls)
new_shared_audio-run_example =
    new_shared_audio-run everything (willing block) 8 [] 48000 2 4 3 648 refl (omega arith) refl
      refl refl three_calls (omega arith)
