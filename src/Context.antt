-- ===== src/Context.antt =====
-- packages/context/src/reconstructor.ts: the chain of responses that the context of a request rests on.
pub mod Source
pub mod Turns
pub mod Ancestry
pub mod Reconstructor
pub mod Chain
pub mod Rounds
pub mod Completeness
pub mod Termination
mod Tests
