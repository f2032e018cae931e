-- ===== src/Kem/Composite/Parts.antt =====
-- kem/composite_kem.rs and kem/asn1/composite_kem_primitives.rs: the parts of the composite KEM
-- that touch no randomness.
use qubitcrypt.Prelude.{none, some, ◌++◌}
use qubitcrypt.Outcome.{Bytes, Outcome, ok, ◌>>=◌, ok_or, unwrap, invalid_oid, decap_failed}
use qubitcrypt.Asn1.Der.{Der, oid_to_der}
use qubitcrypt.Asn1.CompositePublicKey
use qubitcrypt.Asn1.CompositePrivateKey
use qubitcrypt.Kem.Info.{KemInfo}
use qubitcrypt.Kem.Kdf.{Hashes, KdfType, kdf}
use qubitcrypt.Kem.Trait.{Kem}

module _ (d : Der) where
  -- `CompositeCiphertextValue::new`: `OctetString::new` is unwrapped.
  unfoldable pub new_ciphertext : Bytes → Bytes → Outcome (d.OctetString × d.OctetString)
  new_ciphertext pq_ct trad_ct = do
    pq ← unwrap (d.octet_string pq_ct)
    trad ← unwrap (d.octet_string trad_ct)
    ok (pq, trad)

module _ (d : Der) (h : Hashes) (info : KemInfo) (t : KdfType) where
  -- The secrets, the traditional ciphertext and public key, and the identifier's DER as the
  -- domain separator, in this order.
  unfoldable pub combiner : Bytes → Bytes → Bytes → Bytes → Outcome Bytes
  combiner pq_kem_ss trad_kem_ss trad_ct trad_pk = do
    dom_sep ← oid_to_der d info.oid
    kdf h t ((((pq_kem_ss ++ trad_kem_ss) ++ trad_ct) ++ trad_pk) ++ dom_sep)

module _ (d : Der) (info pq_info : KemInfo) where
  -- The traditional key is stored under the composite identifier, with its public key; the
  -- post-quantum key under its own, without.
  unfoldable pub key_gen_composite : Bytes → Bytes → Bytes → Bytes → Outcome (Bytes × Bytes)
  key_gen_composite t_pk t_sk pq_pk pq_sk = do
    pk ← CompositePublicKey.to_der d (CompositePublicKey.new info.oid pq_pk t_pk)
    oid ← ok_or invalid_oid (d.parse_oid info.oid)
    pq_oid ← ok_or invalid_oid (d.parse_oid pq_info.oid)
    c_sk ←
        CompositePrivateKey.new d info.oid
          (record { oid = pq_oid; parameters = none; private_key = pq_sk; public_key = none })
          (record { oid = oid; parameters = none; private_key = t_sk; public_key = some t_pk })
    sk ← CompositePrivateKey.to_der d c_sk
    ok (pk, sk)

module _ (d : Der) (h : Hashes) {W R : Type 0} (info : KemInfo) (trad pq : Kem W R)
    (t : KdfType) where
  unfoldable pub decap : Bytes → Bytes → Outcome Bytes
  decap sk ct = do
    c_sk ← CompositePrivateKey.from_der d info.oid sk
    c_ct ← ok_or decap_failed (d.decode_octet_strings ct)
    t_key ← CompositePrivateKey.get_trad_sk d c_sk
    t_ss ← trad.decap t_key.private_key (d.octets c_ct.1)
    pq_key ← CompositePrivateKey.get_pq_sk d c_sk
    pq_ss ← pq.decap pq_key.private_key (d.octets c_ct.0)
    t_pk ← ok_or decap_failed t_key.public_key
    combiner d h info t pq_ss t_ss (d.octets c_ct.1) t_pk
