-- ===== src/Mongo/Memory.antt =====
-- A small MongoDB in memory, over the concrete `bson` crate. It shows that the laws of the parameter can
-- be met, and the tests run on it.
pub mod Query
pub mod Change
pub mod Laws
pub mod Instance
