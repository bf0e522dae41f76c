-- ===== src/Rb/Shared/Free.antt =====
-- rb_free of a shared buffer: what is still held behind it.
use csnip.Base.{
  ℕ, zero, suc, ◌+◌, ◌-◌, ◌<◌, ◌≤◌, ◌≡◌, refl, ap, ap₂, ◌∙◌, Bool, true, false, ◌&&◌, some, List,
  [], ◌∷◌, ◌++◌, arith, ◌==◌, eq→==, Bool-cases, inl, inr, length, take, drop,
}
use csnip.Machine.Word.{add64}
use csnip.Machine.Cstring.{c_string}
use csnip.Rb.State.{Rb}
use csnip.Rb.Create.{Build, set_common_init_values}
use csnip.Rb.Shared.{filled_in_shared, new_handle, new_shared_audio, free_rb}
use csnip.Rb.Shared.Calls.{Os, OsCall, munmap, shm_unlink, is_open, is_named, mapped, pages}
use csnip.Rb.Shared.New.{same_name_self, given_back, new_rb, new_calls, new_shared_audio-made}

c_string-append :
    (xs ys : List ℕ) → length (c_string xs) < length xs → c_string (xs ++ ys) ≡ c_string xs
c_string-append [] ys h = absurd (omega arith)
c_string-append (x ∷ xs) ys h = elim (Bool-cases (x == 0)) [
  | inl e ↦ rw e refl
  | inr e ↦ rw e (ap (λ t. x ∷ t) (c_string-append xs ys (rest (rw e at h))))
]
  where
    rest : suc (length (c_string xs)) < suc (length xs) → length (c_string xs) < length xs
    rest k = omega arith

and_false : (b : Bool) → (b && false) ≡ false
and_false true = refl
and_false false = refl

take-short : (n : ℕ) (xs : List ℕ) → length xs ≤ n → take n xs ≡ xs
take-short zero [] h = refl
take-short zero (x ∷ xs) h = absurd (omega arith)
take-short (suc n) [] h = refl
take-short (suc n) (x ∷ xs) h = ap (λ t. x ∷ t) (take-short n xs (omega arith))

-- The calls of rb_free on a buffer that rb_new_shared_audio has just given: it is not locked, and its
-- handle is the whole name.
module _ (build : Build) (os : Os) (block : Rb) (size : ℕ) (name : List ℕ)
    (sample_rate channel_count bytes_per_sample a : ℕ) (shareable : build.shm ≡ true)
    (uuid_long : length os.uuid ≡ 37) (ended : length (c_string os.uuid) < 37) where
  free_new :
      free_rb build os a
        (filled_in_shared build os block size name sample_rate channel_count bytes_per_sample)
      ≡ munmap a os.sizeof_rb ∷ shm_unlink (new_handle build os) ∷ []
  unfolding free_rb filled_in_shared set_common_init_values new_handle
  free_new =
      simp (shareable, and_false build.mlock)
        (ap₂ (λ n h. munmap a n ∷ shm_unlink h ∷ []) struct_only handle)
    where
      struct_only : add64 os.sizeof_rb 0 ≡ os.sizeof_rb
      struct_only = omega (arith, os.sizeof_small)

      behind : List ℕ
      behind = drop (0 + length os.uuid) (set_common_init_values build block).shm_handle

      handle : take 255 (c_string (os.uuid ++ behind)) ≡ c_string os.uuid
      handle =
          ap (take 255) (c_string-append os.uuid behind (omega (arith, uuid_long, ended)))
          ∙ take-short 255 (c_string os.uuid) (omega (arith, ended))

-- Where rb_new_shared_audio succeeds and rb_free then frees the buffer, no descriptor is open and the
-- name is gone, but of the pages that were mapped only those of the rb_t itself are given back. The
-- uuid is a string that ends within its 37 bytes.
pub free_new_leaks :
    (build : Build) (os : Os) (page size : ℕ) (name : List ℕ)
    (sample_rate channel_count bytes_per_sample fd a : ℕ)
    → build.shm ≡ true
    → 0 < size
    → os.shm_open true (new_handle build os) ≡ some fd
    → os.ftruncate fd (add64 os.sizeof_rb size) ≡ true
    → os.mmap 0 fd (add64 os.sizeof_rb size) ≡ some a
    → length os.uuid ≡ 37
    → length (c_string os.uuid) < 37
    → (rb : Rb) × (calls : List OsCall) × (new_shared_audio build os size name sample_rate
          channel_count bytes_per_sample
        ≡ (some (a, rb), calls))
      × ((f : ℕ) → is_open f false (calls ++ free_rb build os a rb) ≡ false)
      × (is_named (new_handle build os) false (calls ++ free_rb build os a rb) ≡ false)
      × (mapped page a 0 (calls ++ free_rb build os a rb)
          ≡ pages page (add64 os.sizeof_rb size) - pages page os.sizeof_rb)
free_new_leaks build os page size name sample_rate channel_count bytes_per_sample fd a shareable
      some_size opened truncated at_address uuid_long ended =
    (
      new_rb build os size name sample_rate channel_count bytes_per_sample fd a shareable some_size
          opened truncated at_address,
      new_calls build os size name sample_rate channel_count bytes_per_sample fd a shareable
          some_size opened truncated at_address,
      new_shared_audio-made build os size name sample_rate channel_count bytes_per_sample fd a
          shareable some_size opened truncated at_address,
      λ f. rw freed (given_back (fd == f)),
      rw (freed, same_name_self (new_handle build os)) refl,
      rw (freed, eq→== a a refl) refl,
    )
  where
    freed :
        free_rb build os a (
          filled_in_shared build os
            (os.memory 0 a)
            size
            name
            sample_rate
            channel_count
            bytes_per_sample)
        ≡ munmap a os.sizeof_rb ∷ shm_unlink (new_handle build os) ∷ []
    freed =
        free_new build os (os.memory 0 a) size name sample_rate channel_count bytes_per_sample a
          shareable uuid_long ended
