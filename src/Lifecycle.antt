-- ===== src/Lifecycle.antt =====
-- apps/daemon/src/lifecycle/daemon-lock.ts: one process's side of the daemon's lock file. What the file
-- system, the clock and the other processes answer to each of its operations is a parameter, so that
-- other processes may do anything to the file between two operations.
pub mod DaemonLock
pub mod Acquisition
pub mod Removals
pub mod Ownership
mod Tests
