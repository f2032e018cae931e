-- ===== src/Asn1.antt =====
-- asn1/: composite keys in DER, and object identifiers.
pub mod Der
pub mod CompositePublicKey
pub mod CompositePrivateKey
pub mod Codec
