-- ===== src/Lifecycle/Removals.antt =====
-- What `acquire` does to the lock file.
use tekrion.Prelude.{
  ℕ, zero, suc, ◌<◌, ◌≡◌, refl, List, [], ◌∷◌, ◌++◌, Option, none, some, All, arith, Text,
}
use tekrion.Storage.Tables.{All-imp}
use tekrion.Lifecycle.DaemonLock.{
  DaemonLockRecord, Recovery, Creation, created, present, creation_failed, Removal, removed, gone,
  removal_failed, Answers, Action, creates, reads, removes, releases_guard, initial_record, running,
  recovery_after, Run, after_removal, after_reading, after_creation, later, attempts, acquire,
}
use tekrion.Lifecycle.Acquisition.{IsUnclaimed, unclaimed}

module _ (instance_id : Text) (pid : ℕ) where
  -- A file is removed in an attempt that found one and read no record of a live process, and a
  -- record that is written is one of this process and this instance.
  abbrev pub IsJustified : ℕ → (ℕ → Answers) → Action → Type 0
  IsJustified k answers (creates r) = (r.instance_id ≡ instance_id) × (r.pid ≡ pid)
  IsJustified k answers reads = Unit
  IsJustified k answers (removes a) =
      (n : ℕ) × (n < k) × (answers n ≡ a) × (a.creation ≡ present) × IsUnclaimed a
  IsJustified k answers releases_guard = Unit

  later-IsJustified :
      (k : ℕ) (answers : ℕ → Answers) (x : Action)
      → IsJustified k (later answers) x
      → IsJustified (suc k) answers x
  later-IsJustified k answers (creates r) h = h
  later-IsJustified k answers reads h = tt
  later-IsJustified k answers (removes a) (n, below, same, here, free) =
      (suc n, omega (arith, below), same, here, free)
  later-IsJustified k answers releases_guard h = tt

  module _ (k : ℕ) (answers : ℕ → Answers) (recovery : Option Recovery) (rest : Run)
      (h : All (IsJustified (suc k) answers) rest.0) where
    abbrev a : Answers
    a = answers zero

    after_removal-IsJustified :
        (removal : Removal) → All (IsJustified (suc k) answers) (after_removal removal rest).0
    unfolding after_removal
    after_removal-IsJustified removed = h
    after_removal-IsJustified gone = h
    after_removal-IsJustified removal_failed = tt

    after_reading-IsJustified :
        (o : Option DaemonLockRecord)
        → running a.reading a.process_alive ≡ o
        → a.creation ≡ present
        → All (IsJustified (suc k) answers) (after_reading a o rest).0
    unfolding after_reading
    after_reading-IsJustified (some r) e here = tt
    after_reading-IsJustified none e here = (
      (zero, omega arith, refl, here, unclaimed a.reading a.process_alive e),
      after_removal-IsJustified a.removal,
    )

    after_creation-IsJustified :
        (c : Creation) (initial : DaemonLockRecord)
        → a.creation ≡ c
        → All (IsJustified (suc k) answers) (after_creation a c initial recovery rest).0
    unfolding after_creation
    after_creation-IsJustified created initial e = tt
    after_creation-IsJustified creation_failed initial e = tt
    after_creation-IsJustified present initial e =
        (tt, after_reading-IsJustified (running a.reading a.process_alive) refl e)

  attempts-IsJustified :
      (k : ℕ) (answers : ℕ → Answers) (recovery : Option Recovery)
      → All (IsJustified k answers) (attempts instance_id pid k answers recovery).0
  unfolding attempts initial_record
  attempts-IsJustified zero answers recovery = tt
  attempts-IsJustified (suc k) answers recovery = (
    (refl, refl),
    after_creation-IsJustified k answers recovery
        (attempts instance_id pid k (later answers)
          (recovery_after (answers zero).reading recovery))
        (All-imp _ _ (later-IsJustified k answers) _
          (attempts-IsJustified k (later answers) (recovery_after (answers zero).reading recovery)))
        (answers zero).creation (initial_record instance_id pid (answers zero).timestamp) refl,
  )

  one_more :
      (answers : ℕ → Answers) (xs : List Action)
      → All (IsJustified 8 answers) xs
      → All (IsJustified 8 answers) (xs ++ releases_guard ∷ [])
  one_more answers [] h = (tt, tt)
  one_more answers (x ∷ xs) h = (h.0, one_more answers xs h.1)

  -- Whatever the answers, `acquire` removes the lock file only in one of its eight attempts, after its
  -- creation found a file and its read gave no record of a process that is alive, and every record
  -- that it tries to write has the process and the instance of the call.
  pub acquire-IsJustified :
      (answers : ℕ → Answers) → All (IsJustified 8 answers) (acquire instance_id pid answers).0
  unfolding acquire
  acquire-IsJustified answers =
      one_more answers (attempts instance_id pid 8 answers none).0
        (attempts-IsJustified 8 answers none)
