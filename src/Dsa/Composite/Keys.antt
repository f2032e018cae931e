-- ===== src/Dsa/Composite/Keys.antt =====
-- dsa/composite_dsa.rs: what `key_gen_composite` puts into the DER of a composite pair of keys.
use qubitcrypt.Prelude.{◌≡◌, refl, none, ◌∙◌, ap}
use qubitcrypt.Outcome.{
  Bytes, ok, >>=-returns, map_err-eq-ok, ok_or, map_err, key_pair_generation_failed, pair-injective,
}
use qubitcrypt.Asn1.Der.{Der, IsLawful, PrivateKeyInfo}
use qubitcrypt.Asn1.CompositePublicKey
use qubitcrypt.Asn1.CompositePrivateKey
use qubitcrypt.Asn1.Codec.{public-round_trip, private-round_trip}
use qubitcrypt.Dsa.Info.{DsaInfo}
use qubitcrypt.Dsa.Trait.{Dsa}
use qubitcrypt.Dsa.Composite.{MessageDigest, Hasher, key_gen_composite, secret_keys}

-- A key as it is stored.
abbrev stored : {O : Type 0} → O → Bytes → PrivateKeyInfo O
stored o sk = record { oid = o; parameters = none; private_key = sk; public_key = none }

module _ (d : Der) (l : IsLawful d) (hasher : Hasher) {W R : Type 0} (info : DsaInfo)
    (trad pq : Dsa W R) (kdf : MessageDigest) where
  -- The DER of a composite pair of keys holds the four keys that it was made of.
  pub record Holds (t_pk t_sk pq_pk pq_sk pk sk : Bytes) : Type 0 where
    pub encodes : CompositePublicKey.to_der d (CompositePublicKey.new info.oid pq_pk t_pk) ≡ ok pk
    pub public :
        CompositePublicKey.from_der d info.oid pk ≡ ok (CompositePublicKey.new info.oid pq_pk t_pk)
    pub secret : secret_keys d hasher info trad pq kdf sk ≡ ok (t_sk, pq_sk)

  pub key_gen_composite-Holds :
      (trad_info pq_info : DsaInfo) (t_pk t_sk pq_pk pq_sk pk sk : Bytes)
      → key_gen_composite d info trad_info pq_info t_pk t_sk pq_pk pq_sk ≡ ok (pk, sk)
      → Holds t_pk t_sk pq_pk pq_sk pk sk
  unfolding key_gen_composite secret_keys CompositePublicKey.new
  key_gen_composite-Holds trad_info pq_info t_pk t_sk pq_pk pq_sk pk sk made =
      let (pk', e₁, r₁) =
        >>=-returns
          (map_err key_pair_generation_failed
            (CompositePublicKey.to_der d (CompositePublicKey.new info.oid pq_pk t_pk)))
          _ made in
      let (oid, e₂, r₂) =
        >>=-returns (ok_or key_pair_generation_failed (d.parse_oid trad_info.oid)) _ r₁ in
      let (pq_oid, e₃, r₃) =
        >>=-returns (ok_or key_pair_generation_failed (d.parse_oid pq_info.oid)) _ r₂ in
      let (c, e₄, r₄) =
        >>=-returns (CompositePrivateKey.new d info.oid (stored pq_oid pq_sk) (stored oid t_sk)) _
          r₃ in
      let (sk', e₅, r₅) = >>=-returns (CompositePrivateKey.to_der d c) _ r₄ in
      let (same_pk, same_sk) = pair-injective r₅ in
      let encoded : CompositePublicKey.to_der d (CompositePublicKey.new info.oid pq_pk t_pk)
          ≡ ok pk =
        map_err-eq-ok key_pair_generation_failed
          (CompositePublicKey.to_der d (CompositePublicKey.new info.oid pq_pk t_pk)) e₁
        ∙ ap ok same_pk in
      let (p₁, p₂, p₃) =
        private-round_trip d l info.oid (stored pq_oid pq_sk) (stored oid t_sk) c sk e₄
          (e₅ ∙ ap ok same_sk) in
      record {
        encodes = encoded;
        public = public-round_trip d l (CompositePublicKey.new info.oid pq_pk t_pk) pk encoded;
        secret = rw (p₁, p₃, p₂) refl;
      }
