-- ===== src/Lifecycle/Ownership.antt =====
-- `update` and `release` act on a file of the instance that acquired the lock, and on no other.
use tekrion.Prelude.{◌≡◌, Bool, List, [], ◌∷◌, Text}
use tekrion.Lifecycle.DaemonLock.{
  DaemonLockRecord, Reading, LockUpdate, UpdateOutcome, update, record_after,
}

-- A call of `update`, and what its file operations come to.
pub record UpdateCall : Type 0 where
  pub change : LockUpdate
  pub timestamp : Text
  pub reading : Reading
  pub replaces : Bool

abbrev pub run_update : UpdateCall → DaemonLockRecord → UpdateOutcome
run_update c own = update c.change c.timestamp c.reading c.replaces own

-- The lock's record after the calls.
unfoldable pub record_over : List UpdateCall → DaemonLockRecord → DaemonLockRecord
unfolding update record_after
record_over [] own = own
record_over (c ∷ cs) own = record_over cs (record_after own (run_update c own))

abbrev pub HasOwner : DaemonLockRecord → DaemonLockRecord → Type 0
HasOwner own r =
    (r.instance_id ≡ own.instance_id) × (r.pid ≡ own.pid) × (r.started_at ≡ own.started_at)
