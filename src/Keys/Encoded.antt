-- ===== src/Keys/Encoded.antt =====
-- asn1/public_key.rs and asn1/private_key.rs: the encodings of a key against what reads them.
use qubitcrypt.Prelude.{◌≡◌, refl, sym, ap, String, none, some}
use qubitcrypt.Outcome.{
  Bytes, ok, ok_or, >>=-returns, ok_or-eq-ok, invalid_public_key, invalid_private_key,
}
use qubitcrypt.Asn1.Der.{Der}
use qubitcrypt.Asn1.Der as Asn1
use qubitcrypt.Keys.{Codecs, IsLawful}
use qubitcrypt.Keys.PublicKey.{PublicKey}
use qubitcrypt.Keys.PublicKey as Public
use qubitcrypt.Keys.PrivateKey.{PrivateKey}
use qubitcrypt.Keys.PrivateKey as Private
use qubitcrypt.Keys.Valid.{IsValid}

public_new-valid : (k : PublicKey) → IsValid k.oid k.is_composite → Public.new k.oid k.key ≡ ok k
unfolding Public.new
public_new-valid k v =
    rw (v.known) (ap (λ b. ok (record { oid = k.oid; key = k.key; is_composite = b })) (sym v.kind))

private_new-valid :
    (k : PrivateKey) → IsValid k.oid k.is_composite → Private.new k.oid k.private_key ≡ ok k
unfolding Private.new
private_new-valid k v = rw (v.known) (
    ap (λ b. ok (record { oid = k.oid; private_key = k.private_key; is_composite = b }))
      (sym v.kind))

module _ (d : Der) (l : Asn1.IsLawful d) (c : Codecs d) (m : IsLawful d c) where
  public_from_der-to_der :
      (k : PublicKey)
      → IsValid k.oid k.is_composite
      → (b : Bytes) → Public.to_der d c k ≡ ok b
      → Public.from_der d c b ≡ ok k
  unfolding Public.to_der Public.to_bitstring Public.from_der
  public_from_der-to_der k v b h =
      let (bits, e₁, r₁) = >>=-returns (ok_or invalid_public_key (d.bit_string k.key)) _ h in
      let (oid, e₂, r₂) = >>=-returns (ok_or invalid_public_key (d.parse_oid k.oid)) _ r₁ in
      let read =
        m.public_info (record { oid = oid; parameters = none; public_key = bits }) b
          (ok_or-eq-ok invalid_public_key _ r₂) in
      let key = l.bits k.key bits (ok_or-eq-ok invalid_public_key (d.bit_string k.key) e₁) in
      let text =
        m.oid_text k.oid oid v.known (ok_or-eq-ok invalid_public_key (d.parse_oid k.oid) e₂) in
      rw (read, key, text) (public_new-valid k v)

  private_from_der-to_der :
      (k : PrivateKey)
      → IsValid k.oid k.is_composite
      → (b : Bytes) → Private.to_der d k ≡ ok b
      → Private.from_der d b ≡ ok k
  unfolding Private.to_der Private.from_der
  private_from_der-to_der k v b h =
      let (oid, e₁, r₁) = >>=-returns (ok_or invalid_private_key (d.parse_oid k.oid)) _ h in
      let read =
        l.key_info
          (record { oid = oid; parameters = none; private_key = k.private_key; public_key = none })
          b (ok_or-eq-ok invalid_private_key _ r₁) in
      let text =
        m.oid_text k.oid oid v.known (ok_or-eq-ok invalid_private_key (d.parse_oid k.oid) e₁) in
      rw (read, text) (private_new-valid k v)

  -- A public key whose identifier is one of the crate's, and decides its mark, is read back from its
  -- DER, when it has one; then it has a PEM too, from which it is read back.
  pub public_key-round_trip :
      (k : PublicKey)
      → IsValid k.oid k.is_composite
      → (b : Bytes) → Public.to_der d c k ≡ ok b
      → (Public.from_der d c b ≡ ok k)
        × (s : String) × (Public.to_pem d c k ≡ ok s)
        × (Public.from_pem d c s ≡ ok k)
  unfolding Public.to_pem Public.from_pem
  public_key-round_trip k v b h =
      let back = public_from_der-to_der k v b h in
      (back, c.pem_encode "PUBLIC KEY" b, rw (h) refl, rw (m.pem "PUBLIC KEY" b) back)

  -- A private key whose identifier is one of the crate's, and decides its mark, is read back from its
  -- DER, when it has one, and from a file with that content; then it has a PEM too, from which it is
  -- read back.
  pub private_key-round_trip :
      (k : PrivateKey)
      → IsValid k.oid k.is_composite
      → (b : Bytes) → Private.to_der d k ≡ ok b
      → (Private.from_der d b ≡ ok k)
        × (Private.from_file d c (some b) ≡ ok k)
        × (s : String) × (Private.to_pem d c k ≡ ok s)
        × (Private.from_pem d c s ≡ ok k)
  unfolding Private.to_pem Private.from_pem Private.from_file
  private_key-round_trip k v b h =
      let back = private_from_der-to_der k v b h in
      (
        back,
        rw (back) refl,
        c.pem_encode "PRIVATE KEY" b,
        rw (h) refl,
        rw (m.pem "PRIVATE KEY" b) back,
      )
