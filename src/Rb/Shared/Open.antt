-- ===== src/Rb/Shared/Open.antt =====
-- rb_open_shared: what is held behind it.
use csnip.Base.{
  ℕ, ◌-◌, ◌≡◌, refl, Bool, true, false, Option, none, some, List, [], ◌∷◌, arith, if◌then◌else◌,
  ◌==◌, eq→==, Bool-cases, inl, inr,
}
use csnip.Machine.Word.{add64}
use csnip.Rb.Create.{Build}
use csnip.Rb.Shared.{Made, calling, recognised, open_whole, open_struct, open_opened, open_shared}
use csnip.Rb.Shared.Calls.{Os, shm_open, mmap, munmap, is_open, is_named, mapped, pages}
use csnip.Rb.Shared.New.{given_back}

module _ (build : Build) (os : Os) (page : ℕ) where
  -- Behind a refusal no descriptor is open and nothing is mapped. Behind a success no descriptor is
  -- open, the object keeps its name, and at the address are mapped the pages of the rb_t and the storage
  -- that the rb_t found by the first mmap tells, which is recognised.
  abbrev pub OpensHeld : List ℕ → Made → Type 0
  OpensHeld handle (none, calls) =
      ((fd : ℕ) → is_open fd false calls ≡ false) × ((a : ℕ) → mapped page a 0 calls ≡ 0)
  OpensHeld handle (some (b, rb), calls) =
      ((fd : ℕ) → is_open fd false calls ≡ false)
      × (is_named handle true calls ≡ true)
      × ((fd : ℕ) × (a : ℕ) × (os.shm_open false handle ≡ some fd)
          × (os.mmap 0 fd os.sizeof_rb ≡ some a)
          × (recognised build os (os.memory 0 a) ≡ true)
          × (mapped page b 0 calls ≡ pages page (add64 os.sizeof_rb (os.memory 0 a).size)))

  -- What is mapped and unmapped again is gone, however often.
  unmapped : (b : Bool) (p : ℕ) → (if b then (if b then p else 0) - p else if b then p else 0) ≡ 0
  unmapped true p = omega arith
  unmapped false p = refl

  whole-OpensHeld :
      (handle : List ℕ) (fd a : ℕ) (o : Option ℕ)
      → os.shm_open false handle ≡ some fd
      → os.mmap 0 fd os.sizeof_rb ≡ some a
      → recognised build os (os.memory 0 a) ≡ true
      → OpensHeld handle (
          calling
            (shm_open false handle (some fd)
              ∷ mmap fd os.sizeof_rb (some a)
              ∷ munmap a os.sizeof_rb
              ∷ mmap fd (add64 os.sizeof_rb (os.memory 0 a).size) o
              ∷ [])
            (open_whole build os fd handle o))
  unfolding open_whole
  whole-OpensHeld handle fd a none opened at_struct known =
      (λ f. given_back (fd == f), λ b. unmapped (a == b) (pages page os.sizeof_rb))
  whole-OpensHeld handle fd a (some b) opened at_struct known =
      (λ f. given_back (fd == f), refl, (fd, a, opened, at_struct, known, rw (eq→== b b refl) refl))

  struct-OpensHeld :
      (handle : List ℕ) (fd : ℕ) (o : Option ℕ)
      → os.shm_open false handle ≡ some fd
      → os.mmap 0 fd os.sizeof_rb ≡ o
      → OpensHeld handle (
          calling
            (shm_open false handle (some fd) ∷ mmap fd os.sizeof_rb o ∷ [])
            (open_struct build os fd handle o))
  unfolding open_struct
  struct-OpensHeld handle fd none opened at_struct = (λ f. given_back (fd == f), λ a. refl)
  struct-OpensHeld handle fd (some a) opened at_struct =
      elim (Bool-cases (recognised build os (os.memory 0 a))) [
        | inl known ↦ rw known (
            whole-OpensHeld handle fd a (os.mmap 1 fd (add64 os.sizeof_rb (os.memory 0 a).size))
              opened at_struct known)
        | inr unknown ↦
            rw unknown (λ f. given_back (fd == f), λ b. unmapped (a == b) (pages page os.sizeof_rb))
      ]

  opened-OpensHeld :
      (handle : List ℕ) (o : Option ℕ)
      → os.shm_open false handle ≡ o
      → OpensHeld handle (calling (shm_open false handle o ∷ []) (open_opened build os handle o))
  unfolding open_opened
  opened-OpensHeld handle none opened = (λ f. refl, λ a. refl)
  opened-OpensHeld handle (some fd) opened =
      struct-OpensHeld handle fd (os.mmap 0 fd os.sizeof_rb) opened refl

  -- Whatever its calls answer: where rb_open_shared returns NULL it leaves no descriptor open and nothing
  -- mapped; otherwise it leaves no descriptor open, the object named, and the pages of the rb_t with the
  -- size found there mapped, which the first mmap showed and which is recognised.
  pub open_shared-OpensHeld : (handle : List ℕ) → OpensHeld handle (open_shared build os handle)
  unfolding open_shared
  open_shared-OpensHeld handle = elim (Bool-cases build.shm) [
    | inl e ↦ simp e (opened-OpensHeld handle (os.shm_open false handle) refl)
    | inr e ↦ simp e (λ f. refl, λ a. refl)
  ]
