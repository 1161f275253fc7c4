-- ===== src/Query.antt =====
-- apps/daemon/src/query/live-event-stream.ts: a client gets the events of a session as they are
-- stored.
pub mod LiveStream
pub mod Decoding
mod Tests
