-- ===== src/Audit.antt =====
-- backend/internal/audit: the log of security and data-change events, chained by hashes.
pub mod Model
pub mod Store
pub mod Metadata
pub mod Hashes
pub mod Service
pub mod Pages
pub mod Chain
pub mod Snapshot
