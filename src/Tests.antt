-- ===== src/Tests.antt =====
-- Every property at a concrete input.
mod Samples
mod Orders
mod Positions
mod Machine
mod Submissions
mod Limits
mod Schedules
mod Ticks
mod Decisions
mod Replay
mod Configs
mod Venue
mod Sessions
mod Charts
mod Summaries
