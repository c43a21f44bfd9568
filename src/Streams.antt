-- ===== src/Streams.antt =====
-- apps/api/internal/streams
pub mod Parse
pub mod Canonical
pub mod Model
pub mod Url
pub mod Normalize
pub mod Repository
pub mod Service
pub mod Registered
pub mod Examples
