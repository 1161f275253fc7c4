-- ===== src/Sse.antt =====
-- packages/normalizers/src/sse.ts: the incremental decoder of server-sent events. The streaming
-- UTF-8 decoder of the platform is a parameter, an `Utf8`. What a throw leaves behind in the
-- decoder is not modelled: `decodeSseChunks`, the only caller, lets every error out and drops it.
pub mod Lines
pub mod Frame
pub mod Drain
pub mod Chunks
pub mod Splitting
pub mod Stream
pub mod Numbering
mod Tests
