-- ===== src/Rb/Create/Fresh.antt =====
-- rb_new_audio: the buffer that it gives, and the calls on it.
use csnip.Base.{ℕ, ◌<◌, ◌≤◌, ◌^◌, ◌≡◌, refl, subst, some, List, [], arith, le→ltb, length}
use csnip.Machine.Word.{add64}
use csnip.Rb.State.{Rb, IsValid}
use csnip.Rb.Space.{can_read, can_write, contents}
use csnip.Rb.Queue
use csnip.Rb.Queue.{Call}
use csnip.Rb.Client.{run}
use csnip.Rb.Client.Refine.{Runs, run-Runs}
use csnip.Rb.Create.{Build, Heap, new_audio, filled_in, set_common_init_values}

module _ (build : Build) (heap : Heap) (size : ℕ) (name : List ℕ)
    (sample_rate channel_count bytes_per_sample : ℕ) where
  -- A new buffer: valid, of the size and the properties asked for, all of it to write.
  pub record Fresh (rb : Rb) : Type 0 where
    pub valid : IsValid rb
    pub empty : contents rb ≡ []
    pub all_writable : can_write rb ≡ size
    pub same_size : rb.size ≡ size
    pub same_rate : rb.sample_rate ≡ sample_rate
    pub same_channels : rb.channel_count ≡ channel_count
    pub same_bytes : rb.bytes_per_sample ≡ bytes_per_sample

  -- rb_new_audio with memory from malloc, for a size from 1 to 2^63 bytes, gives a valid buffer of
  -- that size and those audio properties with nothing to read and all of its size to write.
  pub new_audio-Fresh :
      (block : Rb)
      → 0 < size
      → size ≤ 2 ^ 63
      → heap.malloc (add64 heap.sizeof_rb size) ≡ some block
      → (rb : Rb) × (new_audio build heap size name sample_rate channel_count bytes_per_sample
          ≡ some rb)
        × Fresh rb
  unfolding new_audio filled_in set_common_init_values can_read can_write
  new_audio-Fresh block some_size small given =
      let rb : Rb =
        filled_in build heap block size name sample_rate channel_count bytes_per_sample in
      let long : length block.buf ≡ size =
        omega
          (arith, heap.malloc_size (add64 heap.sizeof_rb size) block given, heap.sizeof_small) in
      rw (new_audio, le→ltb size 1 (omega arith), given)
        (
          rb,
          refl,
          record {
            valid = omega (arith, long);
            empty = refl;
            all_writable = refl;
            same_size = refl;
            same_rate = refl;
            same_channels = refl;
            same_bytes = refl;
          },
        )

  -- Any calls on such a new buffer run as on an empty queue of its size.
  pub new_audio-run :
      (block : Rb) (calls : List Call)
      → 0 < size
      → size ≤ 2 ^ 63
      → heap.malloc (add64 heap.sizeof_rb size) ≡ some block
      → (rb : Rb) × (new_audio build heap size name sample_rate channel_count bytes_per_sample
          ≡ some rb)
        × Runs rb (Queue.run size [] calls) (run rb calls)
  new_audio-run block calls some_size small given =
      let (rb, e, fresh) = new_audio-Fresh block some_size small given in
      (
        rb,
        e,
        subst (λ n. Runs rb (Queue.run n [] calls) (run rb calls)) fresh.same_size
            (subst (λ q. Runs rb (Queue.run rb.size q calls) (run rb calls)) fresh.empty
              (run-Runs calls rb fresh.valid)),
      )
