-- ===== src/Worker.antt =====
-- src/worker.rs.
pub mod InFlight
pub mod Lease
pub mod Claim
pub mod Pump
pub mod Task
pub mod ChangeStream
pub mod Loop
pub mod Handle
pub mod Shutdown
