-- ===== src/Kem/Composite.antt =====
-- kem/composite_kem.rs: a KEM made of a traditional and a post-quantum one.
pub mod Parts
pub mod Keys
pub mod Operations
pub mod Correct
