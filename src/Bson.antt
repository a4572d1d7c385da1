-- ===== src/Bson.antt =====
-- The `bson` crate as a parameter of the model, and the documents that the program builds with it.
pub mod Crate
pub mod Document
pub mod Memory
