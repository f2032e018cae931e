-- ===== src/Dsa.antt =====
-- dsa/: signatures.
pub mod Types
pub mod Info
pub mod Algorithm
pub mod Trait
pub mod Signature
pub mod Composite
pub mod Fips
pub mod Rsa
pub mod Ec
pub mod Manager
