-- ===== src/Tests.antt =====
-- Runs of the model at concrete inputs.
mod Common
mod Wire
mod Heads
mod Data
mod Files
mod Filters
mod Stats
mod Cursor
mod Search
mod Delta
mod DryRun
mod Options
mod SentList
