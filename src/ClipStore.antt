-- ===== src/ClipStore.antt =====
-- applets/clip_store: the database of clips.
pub mod Answer
pub mod Row
pub mod Hash
pub mod Index
pub mod Number
pub mod Format
pub mod Compact
pub mod Commands
pub mod Tests
