-- ===== src/Http.antt =====
-- apps/api/internal/httpapi and apps/api/internal/generated/openapiv1
pub mod Problems
pub mod Types
pub mod Enums
pub mod Responses
pub mod Streams
pub mod Collections
pub mod Reservations
pub mod Routes
pub mod Server
pub mod Reads
pub mod Safe
pub mod Valid
pub mod Contract
pub mod Resources
mod Examples
