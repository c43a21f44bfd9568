-- ===== src/Reservations/Invariant.antt =====
-- What holds of the reservation tables after every operation.
pub mod Checks
pub mod Defs
pub mod Writes
pub mod Public
pub mod Leases
pub mod Heartbeat
pub mod Guarded
pub mod Supplied
pub mod Operations
