-- ===== src/Rb/Exclusive/Holders.antt =====
-- At most one process has the buffer for reading, and at most one for writing.
use csnip.Base.{
  ℕ, ◌≡◌, ◌≢◌, refl, sym, ap, subst, ◌⊎◌, ◌∙◌, Bool, true, false, Option, none, some, ◌==◌,
  Bool-cases, ==→eq, ==→ne, inl, inr,
}
use csnip.Rb.Exclusive.{
  Pthread, try_exclusive_read, release_read, try_exclusive_write, release_write, System, set, Turn,
  try_read, leave_read, try_write, leave_write, Turns, begun, taken,
}

-- Whoever has an access holds its mutex.
abbrev Guarded : (ℕ → Bool) → Option ℕ → Type 0
Guarded has o = (i : ℕ) → has i ≡ true → o ≡ some i

module _ (pthread : Pthread) where
  open pthread use {Mutex, holder, trylock, unlock}

  -- A trylock on a mutex that guards the processes.
  trylock-Guarded :
      (has : ℕ → Bool) (i : ℕ) (m : Mutex)
      → Guarded has (holder m)
      → Guarded (set has i ((trylock i m).0 == 0)) (holder (trylock i m).1)
  trylock-Guarded has i m g = by (holder m) refl
    where
      by :
          (o : Option ℕ)
          → holder m ≡ o
          → Guarded (set has i ((trylock i m).0 == 0)) (holder (trylock i m).1)
      by none e j h = elim (Bool-cases (i == j)) [
        | inl same ↦ (pthread.trylock_free i m e).1 ∙ ap some (==→eq i j same)
        | inr other ↦ absurd (nobody (g j (rw other at h)))
      ]
        where
          nobody : holder m ≢ some j
          nobody k = cc
      by (some k) e j h = elim (Bool-cases (i == j)) [
        | inl same ↦ absurd (refused (rw same at h))
        | inr other ↦ (pthread.trylock_held i k m e).1 ∙ sym e ∙ g j (rw other at h)
      ]
        where
          refused : ((trylock i m).0 == 0) ≢ true
          refused t = (pthread.trylock_held i k m e).0 (==→eq (trylock i m).0 0 t)

  unlock-Guarded :
      (has : ℕ → Bool) (i : ℕ) (m : Mutex)
      → Guarded has (holder m)
      → has i ≡ true
      → Guarded (set has i false) (holder (unlock i m))
  unlock-Guarded has i m g has_it j h = elim (Bool-cases (i == j)) [
    | inl same ↦ absurd (never (rw same at h))
    | inr other ↦ absurd (==→ne i j other (some_eq (sym (g i has_it) ∙ g j (rw other at h))))
  ]
    where
      never : false ≢ true
      never e = cc

      some_eq : {a b : ℕ} → some a ≡ some b → a ≡ b
      some_eq e = cc

  -- Both mutexes guard their processes.
  record BothGuarded (mutexes : Bool) (s : System pthread mutexes) : Type 0 where
    reading : Guarded s.reads (holder s.rb.read_lock)
    writing : Guarded s.writes (holder s.rb.write_lock)

  set-refused :
      (has : ℕ → Bool) (i : ℕ) (o : Option ℕ) → Guarded has o → Guarded (set has i false) o
  set-refused has i o g j h = elim (Bool-cases (i == j)) [
    | inl same ↦ absurd (never (rw same at h))
    | inr other ↦ g j (rw other at h)
  ]
    where
      never : false ≢ true
      never e = cc

  Turn-BothGuarded :
      (mutexes : Bool) (s t : System pthread mutexes)
      → Turn pthread mutexes s t
      → BothGuarded mutexes s
      → BothGuarded mutexes t
  unfolding try_exclusive_read release_read try_exclusive_write release_write
  Turn-BothGuarded true s t (try_read i has_not e) g =
      subst (BothGuarded true) (sym e) (record {
        reading = trylock-Guarded s.reads i s.rb.read_lock g.reading;
        writing = g.writing;
      })
  Turn-BothGuarded false s t (try_read i has_not e) g =
      subst (BothGuarded false) (sym e)
        (record { reading = set-refused s.reads i _ g.reading; writing = g.writing })
  Turn-BothGuarded true s t (leave_read i has_it e) g = subst (BothGuarded true) (sym e) (record {
    reading = unlock-Guarded s.reads i s.rb.read_lock g.reading has_it;
    writing = g.writing;
  })
  Turn-BothGuarded false s t (leave_read i has_it e) g =
      subst (BothGuarded false) (sym e)
        (record { reading = set-refused s.reads i _ g.reading; writing = g.writing })
  Turn-BothGuarded true s t (try_write i has_not e) g = subst (BothGuarded true) (sym e) (record {
    reading = g.reading;
    writing = trylock-Guarded s.writes i s.rb.write_lock g.writing;
  })
  Turn-BothGuarded false s t (try_write i has_not e) g =
      subst (BothGuarded false) (sym e)
        (record { reading = g.reading; writing = set-refused s.writes i _ g.writing })
  Turn-BothGuarded true s t (leave_write i has_it e) g = subst (BothGuarded true) (sym e) (record {
    reading = g.reading;
    writing = unlock-Guarded s.writes i s.rb.write_lock g.writing has_it;
  })
  Turn-BothGuarded false s t (leave_write i has_it e) g =
      subst (BothGuarded false) (sym e)
        (record { reading = g.reading; writing = set-refused s.writes i _ g.writing })

  Turns-BothGuarded :
      (mutexes : Bool) (s t : System pthread mutexes)
      → Turns pthread mutexes s t
      → BothGuarded mutexes s
      → BothGuarded mutexes t
  Turns-BothGuarded mutexes s t begun g = g
  Turns-BothGuarded mutexes s t (taken {t = u} turns turn) g =
      Turn-BothGuarded mutexes u t turn (Turns-BothGuarded mutexes s u turns g)

  -- However processes try for exclusive access and release what they have got, in a build with mutexes or
  -- without: from a state in which nobody has access, at most one process has it for reading, and at most
  -- one for writing.
  pub exclusive :
      (mutexes : Bool) (s t : System pthread mutexes)
      → ((i : ℕ) → s.reads i ≡ false)
      → ((i : ℕ) → s.writes i ≡ false)
      → Turns pthread mutexes s t
      → (i j : ℕ)
      → ((t.reads i ≡ true) × (t.reads j ≡ true)) ⊎ ((t.writes i ≡ true) × (t.writes j ≡ true))
      → i ≡ j
  exclusive mutexes s t none_reads none_writes turns i j both = elim both [
    | inl (a, b) ↦ same (sym (g.reading i a) ∙ g.reading j b)
    | inr (a, b) ↦ same (sym (g.writing i a) ∙ g.writing j b)
  ]
    where
      never : {b : Bool} → b ≡ false → b ≢ true
      never e h = cc

      same : some i ≡ some j → i ≡ j
      same e = cc

      g : BothGuarded mutexes t
      g = Turns-BothGuarded mutexes s t turns (record {
        reading = λ k h. absurd (never (none_reads k) h);
        writing = λ k h. absurd (never (none_writes k) h);
      })
