-- ===== src/Viewer.antt =====
-- apps/viewer/src/timeline.ts: the events that the viewer shows.
pub mod Timeline
pub mod Merge
mod Tests
