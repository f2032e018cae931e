-- ===== src/Asn1/Codec.antt =====
-- Composite keys and their DER form: asn1/composite_public_key.rs and
-- asn1/composite_private_key.rs.
use qubitcrypt.Prelude.{String, ◌≡◌, arith}
use qubitcrypt.Outcome.{Bytes, ok}
use qubitcrypt.Asn1.Der.{Der, IsLawful, PrivateKeyInfo}
use qubitcrypt.Asn1.CompositePublicKey
use qubitcrypt.Asn1.CompositePublicKey.{CompositePublicKey}
use qubitcrypt.Asn1.CompositePrivateKey
use qubitcrypt.Asn1.CompositePrivateKey.{CompositePrivateKey}

module _ (d : Der) (l : IsLawful d) where
  -- A composite public key that encodes to DER is decoded from it, under the same identifier, to
  -- the key that it was.
  pub public-round_trip :
      (k : CompositePublicKey) (b : Bytes)
      → CompositePublicKey.to_der d k ≡ ok b
      → CompositePublicKey.from_der d k.oid b ≡ ok k
  unfolding CompositePublicKey.to_der CompositePublicKey.from_der CompositePublicKey.new
  public-round_trip k b h = grind (arith, l.bits, l.bit_strings)

  -- A composite private key that is built from two keys and encodes to DER is decoded to the same
  -- composite key, and that yields the two keys, each in its place.
  pub private-round_trip :
      (oid : String) (pq trad : PrivateKeyInfo d.ObjectId) (c : CompositePrivateKey) (b : Bytes)
      → CompositePrivateKey.new d oid pq trad ≡ ok c
      → CompositePrivateKey.to_der d c ≡ ok b
      → (CompositePrivateKey.from_der d oid b ≡ ok c)
        × (CompositePrivateKey.get_pq_sk d c ≡ ok pq)
        × (CompositePrivateKey.get_trad_sk d c ≡ ok trad)
  unfolding CompositePrivateKey.new CompositePrivateKey.to_der CompositePrivateKey.from_der
      CompositePrivateKey.get_pq_sk CompositePrivateKey.get_trad_sk
  private-round_trip oid pq trad c b built encoded = grind (arith, l.key_info, l.key_infos)
