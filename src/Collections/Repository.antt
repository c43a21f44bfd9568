-- ===== src/Collections/Repository.antt =====
-- apps/api/internal/collections/repository.go and activity.go
pub mod Search
pub mod Jobs
pub mod Pending
pub mod Start
pub mod Retry
pub mod Like
pub mod Messages
pub mod Timeline
pub mod Pages
pub mod ChatActivity
pub mod Activity
