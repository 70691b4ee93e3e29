-- ===== src/Tests.antt =====
-- Runs of the model on small data, and each theorem at one of them.
pub mod Members
pub mod EntryData
pub mod Entries
pub mod EntryRequests
pub mod Summaries
pub mod Money
pub mod Pages
pub mod Limiter
pub mod AuthData
pub mod Logins
pub mod Codes
pub mod AuditLog
pub mod Forests
pub mod Sharing
pub mod Imports
