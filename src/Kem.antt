-- ===== src/Kem.antt =====
-- kem/: key encapsulation.
pub mod Types
pub mod Info
pub mod Algorithm
pub mod Kdf
pub mod Trait
pub mod Ml
pub mod Ec
pub mod Rsa
pub mod Composite
pub mod Manager
