-- ===== src/Tests.antt =====
-- The theorems at concrete inputs.
mod Strings
mod Sessions
mod Agents
mod Queues
mod Access
mod Tasks
mod Settings
mod Facts
mod Subagents
mod Tools
mod Logs
