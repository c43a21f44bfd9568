-- ===== src/Collections.antt =====
-- apps/api/internal/collections
pub mod Model
pub mod Cursor
pub mod Repository
pub mod Service
mod Examples
