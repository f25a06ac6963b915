-- ===== src/Dispatcher.antt =====
-- applets/pipeline_dispatcher and applets/main.c: which applet runs, and the life of the three
-- stages.
pub mod Children
pub mod Spawn
pub mod Pipeline
pub mod Applet
pub mod Config
pub mod Tests
