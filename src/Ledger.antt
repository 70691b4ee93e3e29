-- ===== src/Ledger.antt =====
-- The ledger package (backend/internal/ledger): data, money, paging, the in-memory store and the
-- service on top of it.
pub mod Model
pub mod Page
pub mod Money
pub mod Rates
pub mod Store
pub mod Seed
pub mod Service
