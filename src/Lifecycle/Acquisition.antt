-- ===== src/Lifecycle/Acquisition.antt =====
-- What the outcomes of `acquire` say of the answers that it got.
use tekrion.Prelude.{
  ◌⊎◌, ℕ, zero, suc, ◌≡◌, inl, inr, Bool, Bool-cases, true, false, Option, none, some,
}
use tekrion.Lifecycle.DaemonLock.{
  DaemonLockRecord, Recovery, created, present, creation_failed, Reading, missing, corrupt, found,
  removal_failed, Answers, Outcome, acquired, already_running, file_error, running, recovery_after,
  Run, later,
}

-- The attempt found a file, but none of a live process, and the removal did not fail.
abbrev pub IsStale : Answers → Type 0
IsStale a =
    (a.creation ≡ present)
    × (((r : DaemonLockRecord) → a.reading ≡ found r → a.process_alive r.pid ≡ false)
        × ¬ (a.removal ≡ removal_failed))

-- The first attempts, as many as the number says, are stale.
abbrev pub AllStale : ℕ → (ℕ → Answers) → Type 0
AllStale zero answers = Unit
AllStale (suc n) answers = IsStale (answers zero) × AllStale n (later answers)

-- What the last read of them that found a file says.
abbrev pub last_recovery : ℕ → (ℕ → Answers) → Option Recovery → Option Recovery
last_recovery zero answers recovery = recovery
last_recovery (suc n) answers recovery =
    last_recovery n (later answers) (recovery_after (answers zero).reading recovery)

-- The record found, if one was, is not one of a live process.
abbrev pub IsUnclaimed : Answers → Type 0
IsUnclaimed a = (r : DaemonLockRecord) → a.reading ≡ found r → a.process_alive r.pid ≡ false

-- How an attempt that comes after stale ones ends the call.
pub data Ends (initial : DaemonLockRecord) (recovery : Option Recovery) (a : Answers)
    : Outcome → Type 0 where
  by_creation : a.creation ≡ created → Ends initial recovery a (acquired initial recovery)
  by_refusal :
      (r : DaemonLockRecord)
      → a.creation ≡ present
      → a.reading ≡ found r
      → a.process_alive r.pid ≡ true
      → Ends initial recovery a (already_running r)
  by_failed_creation : a.creation ≡ creation_failed → Ends initial recovery a file_error
  by_failed_removal :
      a.creation ≡ present
      → IsUnclaimed a
      → a.removal ≡ removal_failed
      → Ends initial recovery a file_error

some-none : {r : DaemonLockRecord} → ¬ (◌≡◌ {A = Option DaemonLockRecord} (some r) none)
some-none h = cc

read_of : DaemonLockRecord → Reading → DaemonLockRecord
read_of d missing = d
read_of d corrupt = d
read_of d (found r) = r

pub unclaimed :
    (reading : Reading) (alive : ℕ → Bool)
    → running reading alive ≡ none
    → (r : DaemonLockRecord) → reading ≡ found r
    → alive r.pid ≡ false
unfolding running
unclaimed reading alive e r path = elim (Bool-cases (alive r.pid)) [
  | inl lives ↦ absurd (some-none (rw (path, lives, running) at e))
  | inr dead ↦ dead
]

module _ (initial : DaemonLockRecord) (recovery : Option Recovery) (a : Answers) (rest : Run) where
  -- The call ends with the outcome, or the attempt is stale and the outcome is that of the later ones.
  abbrev Decides : Outcome → Type 0
  Decides outcome = Ends initial recovery a outcome ⊎ (IsStale a × (outcome ≡ rest.1))
