-- ===== src/Graph.antt =====
-- qraft/models/graphs.py and qraft/graphs.py: execution graphs.
pub mod Rows
pub mod Dispatch
pub mod Closure
pub mod Control
pub mod Start
pub mod Generations
pub mod Plan
pub mod Publish
