-- ===== src/Reservations/Repository.antt =====
-- apps/api/internal/reservations/repository.go. Each operation is one atomic step, as its row locks
-- make it; so no row is locked when SKIP LOCKED looks for one.
pub mod Rows
pub mod Public
pub mod Leases
pub mod Guarded
pub mod Outcomes
