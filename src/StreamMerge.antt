-- ===== src/StreamMerge.antt =====
-- The applet stream_merge (applets/stream_merge): event sets, the clip state machine, the reader of
-- metadata lines, and the session around them.
pub mod Events
pub mod Records
pub mod LongDouble
pub mod Reader
pub mod Fsm
pub mod Session
pub mod Emit
pub mod Drain
pub mod Main
pub mod Poll
pub mod Tests
