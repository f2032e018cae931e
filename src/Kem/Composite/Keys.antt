-- ===== src/Kem/Composite/Keys.antt =====
-- kem/composite_kem.rs: what `key_gen_composite` puts into the DER of a composite pair of keys.
use qubitcrypt.Prelude.{◌≡◌, none, some}
use qubitcrypt.Outcome.{Bytes, ok, >>=-returns, ok_or, invalid_oid}
use qubitcrypt.Asn1.Der.{Der, IsLawful, PrivateKeyInfo}
use qubitcrypt.Asn1.CompositePublicKey
use qubitcrypt.Asn1.CompositePrivateKey
use qubitcrypt.Asn1.CompositePrivateKey.{CompositePrivateKey}
use qubitcrypt.Asn1.Codec.{public-round_trip, private-round_trip}
use qubitcrypt.Kem.Info.{KemInfo}
use qubitcrypt.Kem.Composite.Parts.{key_gen_composite}

-- The DER of a composite pair of keys holds the four keys that it was made of.
pub record Holds (d : Der) (info : KemInfo) (t_pk t_sk pq_pk pq_sk pk sk : Bytes) : Type 0 where
  pub public :
      CompositePublicKey.from_der d info.oid pk ≡ ok (CompositePublicKey.new info.oid pq_pk t_pk)
  pub key : CompositePrivateKey
  pub private : CompositePrivateKey.from_der d info.oid sk ≡ ok key
  pub oid : d.ObjectId
  pub pq_oid : d.ObjectId
  pub pq_part :
      CompositePrivateKey.get_pq_sk d key
      ≡ ok (record { oid = pq_oid; parameters = none; private_key = pq_sk; public_key = none })
  pub trad_part :
      CompositePrivateKey.get_trad_sk d key
      ≡ ok (record { oid = oid; parameters = none; private_key = t_sk; public_key = some t_pk })

-- The keys as they are stored.
abbrev pub pq_key : {O : Type 0} → O → Bytes → PrivateKeyInfo O
pq_key o sk = record { oid = o; parameters = none; private_key = sk; public_key = none }

abbrev pub trad_key : {O : Type 0} → O → Bytes → Bytes → PrivateKeyInfo O
trad_key o sk pk = record { oid = o; parameters = none; private_key = sk; public_key = some pk }

-- What a generation that went through has computed.
key_gen_composite-stages :
    (d : Der) (info pq_info : KemInfo) (t_pk t_sk pq_pk pq_sk pk sk : Bytes)
    → key_gen_composite d info pq_info t_pk t_sk pq_pk pq_sk ≡ ok (pk, sk)
    → (oid : d.ObjectId) × (pq_oid : d.ObjectId) × (c : CompositePrivateKey)
      × (CompositePublicKey.to_der d (CompositePublicKey.new info.oid pq_pk t_pk) ≡ ok pk)
      × (CompositePrivateKey.new d info.oid (pq_key pq_oid pq_sk) (trad_key oid t_sk t_pk) ≡ ok c)
      × (CompositePrivateKey.to_der d c ≡ ok sk)
unfolding key_gen_composite
key_gen_composite-stages d info pq_info t_pk t_sk pq_pk pq_sk pk sk made =
    let (pk', e₁, r₁) =
      >>=-returns (CompositePublicKey.to_der d (CompositePublicKey.new info.oid pq_pk t_pk)) _
        made in
    let (oid, e₂, r₂) = >>=-returns (ok_or invalid_oid (d.parse_oid info.oid)) _ r₁ in
    let (pq_oid, e₃, r₃) = >>=-returns (ok_or invalid_oid (d.parse_oid pq_info.oid)) _ r₂ in
    let (c, e₄, r₄) =
      >>=-returns
        (CompositePrivateKey.new d info.oid (pq_key pq_oid pq_sk) (trad_key oid t_sk t_pk)) _ r₃ in
    let (sk', e₅, r₅) = >>=-returns (CompositePrivateKey.to_der d c) _ r₄ in
    (oid, pq_oid, c, cc (e₁, r₅), e₄, cc (e₅, r₅))

module _ (d : Der) (l : IsLawful d) (info pq_info : KemInfo) where
  -- A composite pair of keys that was generated holds the keys of its two parts.
  pub key_gen_composite-Holds :
      (t_pk t_sk pq_pk pq_sk pk sk : Bytes)
      → key_gen_composite d info pq_info t_pk t_sk pq_pk pq_sk ≡ ok (pk, sk)
      → Holds d info t_pk t_sk pq_pk pq_sk pk sk
  unfolding CompositePublicKey.new
  key_gen_composite-Holds t_pk t_sk pq_pk pq_sk pk sk made =
      let (oid, pq_oid, c, e₁, e₄, e₅) =
        key_gen_composite-stages d info pq_info t_pk t_sk pq_pk pq_sk pk sk made in
      let (p₁, p₂, p₃) =
        private-round_trip d l info.oid (pq_key pq_oid pq_sk) (trad_key oid t_sk t_pk) c sk e₄ e₅ in
      record {
        public = public-round_trip d l (CompositePublicKey.new info.oid pq_pk t_pk) pk e₁;
        key = c;
        private = p₁;
        oid = oid;
        pq_oid = pq_oid;
        pq_part = p₂;
        trad_part = p₃;
      }
