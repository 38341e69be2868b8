-- ===== src/Hooks.antt =====
-- qraft/hooks.py: the at-most-once dispatch of hooks and the handler of finished tasks.
pub mod Once
