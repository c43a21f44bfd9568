-- ===== src/Youtube.antt =====
-- apps/api/internal/youtube
pub mod Duration
pub mod Client
pub mod Sums
pub mod Fetched
mod Examples
