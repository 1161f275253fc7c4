-- ===== src/Lifecycle/Tests.antt =====
-- The lock at concrete answers: the file of a dead process is taken away, and the next attempt succeeds.
use tekrion.Prelude.{ℕ, zero, suc, true, false, List, [], ◌∷◌, none, All}
use tekrion.Lifecycle.DaemonLock.{
  DaemonLockRecord, Answers, created, present, found, missing, removed, ready, LockUpdate, acquire,
}
use tekrion.Lifecycle.Removals.{IsJustified, acquire-IsJustified}
use tekrion.Lifecycle.Ownership.{UpdateCall}

abbrev left_behind : DaemonLockRecord
left_behind = record {
  instance_id = 7 ∷ [];
  pid = 4;
  started_at = [];
  updated_at = [];
  state = ready;
  proxy_origin = none;
  control_origin = none;
}

abbrev answers : ℕ → Answers
answers zero = record {
  timestamp = [];
  creation = present;
  reading = found left_behind;
  process_alive = λ pid. false;
  removal = removed;
}
answers (suc n) = record {
  timestamp = 1 ∷ [];
  creation = created;
  reading = missing;
  process_alive = λ pid. false;
  removal = removed;
}

acquire-IsJustified_example : All (IsJustified (9 ∷ []) 5 8 answers) (acquire (9 ∷ []) 5 answers).0
acquire-IsJustified_example = acquire-IsJustified (9 ∷ []) 5 answers

abbrev own : DaemonLockRecord
own = record left_behind { instance_id = 9 ∷ []; pid = 5 }

abbrev change : LockUpdate
change = record { state = ready; proxy_origin = none; control_origin = none }

abbrev calls : List UpdateCall
calls = record { change = change; timestamp = 2 ∷ []; reading = found own; replaces = true } ∷ []
