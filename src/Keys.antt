-- ===== src/Keys.antt =====
-- asn1/public_key.rs, asn1/private_key.rs and the key generators: keys with their identifiers.
pub mod PublicKey
pub mod PrivateKey
pub mod Generators
pub mod Valid
pub mod Encoded
pub mod Kinds
pub mod Agreement
use qubitcrypt.Prelude.{String, ◌≡◌, true, Option, some}
use qubitcrypt.Outcome.{Bytes}
use qubitcrypt.Asn1.Der.{Der}
use qubitcrypt.Oids.{is_valid_kem_or_dsa_oid}

-- asn1/public_key_info.rs: `PublicKeyInfo`, with its `AlgorithmIdentifierWithOid` in place.
pub record PublicKeyInfo (d : Der) : Type 0 where
  pub oid : d.ObjectId
  pub parameters : Option Bytes
  pub public_key : d.BitString

-- What the keys use of the crates: the encoder that `#[derive(Sequence)]` generates for that
-- struct, the tag and contents of PEM, and `std::str::from_utf8`.
pub record Codecs (d : Der) : Type 0 where
  pub encode_public_info : PublicKeyInfo d → Option Bytes
  pub decode_public_info : Bytes → Option (PublicKeyInfo d)
  pub pem_encode : String → Bytes → String
  pub pem_parse : String → Option (String × Bytes)
  pub from_utf8 : Bytes → Option String

-- The documented laws: what was encoded is read as what it was, and an identifier of the crate's
-- is written as it was read.
pub record IsLawful (d : Der) (c : Codecs d) : Type 0 where
  pub public_info :
      (k : PublicKeyInfo d) (b : Bytes)
      → c.encode_public_info k ≡ some b
      → c.decode_public_info b ≡ some k
  pub pem : (tag : String) (b : Bytes) → c.pem_parse (c.pem_encode tag b) ≡ some (tag, b)
  pub oid_text :
      (s : String) (o : d.ObjectId)
      → is_valid_kem_or_dsa_oid s ≡ true
      → d.parse_oid s ≡ some o
      → d.oid_to_string o ≡ s
