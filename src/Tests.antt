-- ===== src/Tests.antt =====
-- Runs of the modelled code at concrete inputs.
mod Unions
mod Rows
mod Forgets
mod Writes
mod Batches
mod Insights
mod Merges
mod Coarse
mod Fixed
mod Pages
mod Names
mod Hops
mod Verdicts
mod Scores
mod Blocks
mod Chunks
mod Recalls
