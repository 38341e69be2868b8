-- ===== src/Workflow.antt =====
-- The workflow primitives of qraft: the status machine, settlement, fan-out and chains.
pub mod Status
pub mod Settle
pub mod Parallel
pub mod Chain
