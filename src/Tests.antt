-- ===== src/Tests.antt =====
-- Small databases, and the theorems at inputs that meet their hypotheses.
mod Data
pub mod Tokens
pub mod Runs
pub mod Cancellations
pub mod Coverage
pub mod Retries
pub mod Changes
pub mod Networks
pub mod Executions
pub mod Exposures
pub mod Requests
pub mod Uniqueness
pub mod Logins
pub mod Schedules
pub mod Scans
pub mod Gauges
pub mod Texts
