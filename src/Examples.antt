-- ===== src/Examples.antt =====
-- The theorems at concrete rows, plans and deliveries.
mod Workflows
mod Chains
mod Graphs
mod Jobs
mod Tasks
mod Limits
mod Runs
mod Usages
