-- ===== src/Api.antt =====
-- src/scanpod_enterprise/main.py: the handlers of the HTTP API. A handler's first argument after the
-- environment is the user that the request's token names.
pub mod Scopes
pub mod Import
pub mod Users
pub mod Profiles
pub mod Schedules
pub mod Runs
pub mod Exposures
pub mod Changes
pub mod References
pub mod Unique
pub mod Permissions
pub mod Approval
