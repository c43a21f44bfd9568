-- ===== src/Reservations.antt =====
-- apps/api/internal/reservations
pub mod Reports
pub mod Exhausted
pub mod Created
pub mod Model
pub mod Machine
pub mod Schedule
pub mod Repository
pub mod Service
pub mod Monitor
pub mod Invariant
pub mod System
pub mod Fencing
pub mod Claims
mod Examples
