-- ===== src/Tests.antt =====
-- Tests on concrete inputs, and each theorem at an input that meets its hypotheses.
mod Samples
mod Wire
mod Workers
mod Passes
mod Transports
mod KeyNames
mod Scheduling
mod Stores
mod Plans
mod Tasks
mod Leases
mod Plugins
mod Commands
mod SmallRedis
mod Entries
mod Calendars
mod Stopping
mod DueJobs
mod Files
