-- ===== src/Normalizers.antt =====
-- packages/normalizers/src: the shared parts of the normalizers, and
-- apps/daemon/src/normalization/normalization-runner.ts, which stores what a normalizer finds. The
-- normalizers of the single protocols are parameters.
pub mod Contracts
pub mod Events
pub mod Canonical
pub mod Diagnostics
pub mod Evidence
mod Codec
pub mod Replay
pub mod Authority
pub mod Registry
pub mod Runner
pub mod Calls
pub mod Found
pub mod Durability
mod Tests
