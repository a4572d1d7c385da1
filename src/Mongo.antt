-- ===== src/Mongo.antt =====
-- MongoDB as a parameter of the model.
pub mod Paths
pub mod Errors
pub mod Updates
pub mod Server
pub mod Atomic
pub mod Filters
pub mod Successors
pub mod Memory
