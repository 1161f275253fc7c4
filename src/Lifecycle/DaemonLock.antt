-- ===== src/Lifecycle/DaemonLock.antt =====
-- The records of the lock file, the loop of `acquire` under the guard, `update` and `release`. The loop
-- that gets the guard is not modelled.
use tekrion.Prelude.{
  ℕ, zero, suc, Bool, false, List, [], ◌∷◌, ◌++◌, Option, none, some, if◌then◌else◌, Text, text_eq,
}

pub data LockState : Type 0 where
  starting ready stopping : LockState

pub record DaemonLockRecord : Type 0 where
  pub instance_id : Text
  pub pid : ℕ
  pub started_at : Text
  pub updated_at : Text
  pub state : LockState
  pub proxy_origin : Option Text
  pub control_origin : Option Text

-- `DaemonLockRecovery`.
pub data Recovery : Type 0 where
  from_corrupt : Recovery
  from_dead_process : DaemonLockRecord → Recovery

-- What `createPrivateFileExclusive`, `readDaemonLockRecord` and `rm` come to. Every error of a read
-- but that the file is missing becomes a `CorruptDaemonLockError`.
pub data Creation : Type 0 where
  created present creation_failed : Creation

pub data Reading : Type 0 where
  missing corrupt : Reading
  found : DaemonLockRecord → Reading

pub data Removal : Type 0 where
  removed gone removal_failed : Removal

-- The answers to the operations of one attempt.
pub record Answers : Type 0 where
  pub timestamp : Text
  pub creation : Creation
  pub reading : Reading
  pub process_alive : ℕ → Bool
  pub removal : Removal

-- The file operations of a call; a removal comes with the answers of its attempt.
pub data Action : Type 0 where
  creates : DaemonLockRecord → Action
  reads : Action
  removes : Answers → Action
  releases_guard : Action

pub data Outcome : Type 0 where
  acquired : DaemonLockRecord → Option Recovery → Outcome
  already_running : DaemonLockRecord → Outcome
  file_error too_many_races : Outcome

-- The record of an attempt.
unfoldable pub initial_record :
    (instance_id : Text) → (pid : ℕ) → (timestamp : Text) → DaemonLockRecord
initial_record instance_id pid timestamp = record {
  instance_id = instance_id;
  pid = pid;
  started_at = timestamp;
  updated_at = timestamp;
  state = starting;
  proxy_origin = none;
  control_origin = none;
}

-- The record of `DaemonAlreadyRunningError`, where it is thrown.
unfoldable pub running : Reading → (process_alive : ℕ → Bool) → Option DaemonLockRecord
running missing process_alive = none
running corrupt process_alive = none
running (found r) process_alive = if process_alive r.pid then some r else none

unfoldable pub recovery_after : Reading → Option Recovery → Option Recovery
recovery_after missing recovery = recovery
recovery_after corrupt recovery = some from_corrupt
recovery_after (found r) recovery = some (from_dead_process r)

abbrev pub Run : Type 0
Run = List Action × Outcome

abbrev pub acting : List Action → Run → Run
acting actions (more, outcome) = (actions ++ more, outcome)

-- From the removal on; `rest` are the later attempts.
unfoldable pub after_removal : Removal → Run → Run
after_removal removal_failed rest = ([], file_error)
after_removal removed rest = rest
after_removal gone rest = rest

unfoldable pub after_reading : Answers → Option DaemonLockRecord → Run → Run
unfolding after_removal
after_reading a (some r) rest = ([], already_running r)
after_reading a none rest = acting (removes a ∷ []) (after_removal a.removal rest)

unfoldable pub after_creation : Answers → Creation → DaemonLockRecord → Option Recovery → Run → Run
unfolding running after_reading
after_creation a created initial recovery rest = ([], acquired initial recovery)
after_creation a creation_failed initial recovery rest = ([], file_error)
after_creation a present initial recovery rest =
    acting (reads ∷ []) (after_reading a (running a.reading a.process_alive) rest)

abbrev pub later : (ℕ → Answers) → ℕ → Answers
later answers j = answers (suc j)

module _ (instance_id : Text) (pid : ℕ) where
  -- The loop, with the number of attempts that are left.
  unfoldable pub attempts : ℕ → (ℕ → Answers) → Option Recovery → Run
  unfolding initial_record recovery_after after_creation
  attempts zero answers recovery = ([], too_many_races)
  attempts (suc k) answers recovery =
      let a = answers 0 in
      let initial = initial_record instance_id pid a.timestamp in
      acting (creates initial ∷ []) (
        after_creation a a.creation initial recovery
          (attempts k (later answers) (recovery_after a.reading recovery)))

  -- `acquire` once it has the guard.
  unfoldable pub acquire : (ℕ → Answers) → Run
  unfolding attempts
  acquire answers =
      let (actions, outcome) = attempts 8 answers none in (actions ++ releases_guard ∷ [], outcome)

-- `{ ...update }` of `update`: an origin that is not given stays.
pub record LockUpdate : Type 0 where
  pub state : LockState
  pub proxy_origin : Option Text
  pub control_origin : Option Text

abbrev or_else : Option Text → Option Text → Option Text
or_else none old = old
or_else (some new) old = some new

-- The replacement that `update` writes.
unfoldable pub replacement : LockUpdate → (timestamp : Text) → DaemonLockRecord → DaemonLockRecord
replacement update timestamp r = record r {
  state = update.state;
  proxy_origin = or_else update.proxy_origin r.proxy_origin;
  control_origin = or_else update.control_origin r.control_origin;
  updated_at = timestamp;
}

-- `current?.instanceId === this.recordValue.instanceId`.
unfoldable pub is_own : DaemonLockRecord → Reading → Bool
unfolding text_eq
is_own own missing = false
is_own own corrupt = false
is_own own (found r) = text_eq r.instance_id own.instance_id

pub data UpdateOutcome : Type 0 where
  updated : DaemonLockRecord → UpdateOutcome
  ownership_changed corrupt_lock write_failed : UpdateOutcome

-- `update`, with what the read and `replacePrivateFile` (whether it succeeds) come to.
unfoldable pub update :
    LockUpdate → (timestamp : Text) → Reading → (replaces : Bool) → DaemonLockRecord → UpdateOutcome
unfolding is_own replacement
update change timestamp corrupt replaces own = corrupt_lock
update change timestamp reading replaces own =
    if is_own own reading
    then if replaces then updated (replacement change timestamp own) else write_failed
    else ownership_changed

-- The lock's record after a call of `update`.
unfoldable pub record_after : DaemonLockRecord → UpdateOutcome → DaemonLockRecord
record_after own (updated new) = new
record_after own _ = own

-- Whether `release` goes on to remove the file.
unfoldable pub releases : Reading → DaemonLockRecord → Bool
unfolding is_own
releases reading own = is_own own reading
