-- ===== src/Asn1/Der.antt =====
-- What the crate uses of `der`, `der_derive`, `const-oid` and `pkcs8`: strings of bits and octets,
-- object identifiers, and the encoders that `#[derive(Sequence)]` generates. These are parameters;
-- `none` stands for the crates' `Err`.
use qubitcrypt.Prelude.{String, ◌≡◌, Option, some}
use qubitcrypt.Outcome.{Bytes, Outcome, ◌>>=◌, ok_or, unwrap, invalid_oid}

-- `pkcs8::PrivateKeyInfo`, with its `AlgorithmIdentifierRef` in place.
pub record PrivateKeyInfo (O : Type 0) : Type 0 where
  pub oid : O
  pub parameters : Option Bytes
  pub private_key : Bytes
  pub public_key : Option Bytes

pub record Der : Type 1 where
  pub ObjectId : Type 0
  pub BitString : Type 0
  pub OctetString : Type 0
  pub parse_oid : String → Option ObjectId
  pub oid_to_string : ObjectId → String
  pub encode_oid : ObjectId → Option Bytes
  -- `BitString::new(0, bytes)`, and `as_bytes`, which wants a whole number of octets.
  pub bit_string : Bytes → Option BitString
  pub bit_string_bytes : BitString → Option Bytes
  pub octet_string : Bytes → Option OctetString
  pub octets : OctetString → Bytes
  pub encode_key_info : PrivateKeyInfo ObjectId → Option Bytes
  pub decode_key_info : Bytes → Option (PrivateKeyInfo ObjectId)
  -- A SEQUENCE of two BIT STRINGs: composite public keys and composite signatures.
  pub encode_bit_strings : BitString × BitString → Option Bytes
  pub decode_bit_strings : Bytes → Option (BitString × BitString)
  -- A SEQUENCE of two OCTET STRINGs: composite ciphertexts.
  pub encode_octet_strings : OctetString × OctetString → Option Bytes
  pub decode_octet_strings : Bytes → Option (OctetString × OctetString)
  -- A SEQUENCE of two OneAsymmetricKeys: composite private keys.
  pub encode_key_infos : PrivateKeyInfo ObjectId × PrivateKeyInfo ObjectId → Option Bytes
  pub decode_key_infos : Bytes → Option (PrivateKeyInfo ObjectId × PrivateKeyInfo ObjectId)

-- The documented laws: what was encoded is decoded to what it was.
pub record IsLawful (d : Der) : Type 0 where
  pub bits : (b : Bytes) (s : d.BitString) → d.bit_string b ≡ some s → d.bit_string_bytes s ≡ some b
  pub octet : (b : Bytes) (s : d.OctetString) → d.octet_string b ≡ some s → d.octets s ≡ b
  pub key_info :
      (k : PrivateKeyInfo d.ObjectId) (b : Bytes)
      → d.encode_key_info k ≡ some b
      → d.decode_key_info b ≡ some k
  pub bit_strings :
      (p : d.BitString × d.BitString) (b : Bytes)
      → d.encode_bit_strings p ≡ some b
      → d.decode_bit_strings b ≡ some p
  pub octet_strings :
      (p : d.OctetString × d.OctetString) (b : Bytes)
      → d.encode_octet_strings p ≡ some b
      → d.decode_octet_strings b ≡ some p
  pub key_infos :
      (p : PrivateKeyInfo d.ObjectId × PrivateKeyInfo d.ObjectId) (b : Bytes)
      → d.encode_key_infos p ≡ some b
      → d.decode_key_infos b ≡ some p

-- `oid_to_der` of asn1/asn_util.rs: `new_unwrap` panics on text that is no object identifier.
unfoldable pub oid_to_der : Der → String → Outcome Bytes
oid_to_der d oid = do o ← unwrap (d.parse_oid oid); ok_or invalid_oid (d.encode_oid o)
