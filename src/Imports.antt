-- ===== src/Imports.antt =====
-- backend/internal/imports: staged batches of an import and their application to a book.
pub mod Model
pub mod Store
pub mod Service
pub mod Applied
