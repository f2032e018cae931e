-- ===== src/Asn1/CompositePrivateKey.antt =====
-- asn1/composite_private_key.rs: a pair of OneAsymmetricKeys, the post-quantum one first.
use qubitcrypt.Prelude.{String}
use qubitcrypt.Outcome.{Bytes, Outcome, ok, ◌>>=◌, ok_or, map_err, invalid_private_key}
use qubitcrypt.Asn1.Der.{Der, PrivateKeyInfo}

pub record CompositePrivateKey : Type 0 where
  pub pq_sk_der : Bytes
  pub trad_sk_der : Bytes
  pub oid : String

module _ (d : Der) where
  unfoldable pub new :
      String → PrivateKeyInfo d.ObjectId → PrivateKeyInfo d.ObjectId → Outcome CompositePrivateKey
  new oid pq_sk trad_sk = do
    pq_sk_der ← ok_or invalid_private_key (d.encode_key_info pq_sk)
    trad_sk_der ← ok_or invalid_private_key (d.encode_key_info trad_sk)
    ok (record { pq_sk_der = pq_sk_der; trad_sk_der = trad_sk_der; oid = oid })

  unfoldable pub get_pq_sk : CompositePrivateKey → Outcome (PrivateKeyInfo d.ObjectId)
  get_pq_sk k = ok_or invalid_private_key (d.decode_key_info k.pq_sk_der)

  unfoldable pub get_trad_sk : CompositePrivateKey → Outcome (PrivateKeyInfo d.ObjectId)
  get_trad_sk k = ok_or invalid_private_key (d.decode_key_info k.trad_sk_der)

  unfoldable pub from_der : String → Bytes → Outcome CompositePrivateKey
  unfolding new
  from_der oid der = do
    key_data ← ok_or invalid_private_key (d.decode_key_infos der)
    map_err invalid_private_key (new oid key_data.0 key_data.1)

  unfoldable pub to_der : CompositePrivateKey → Outcome Bytes
  to_der k = do
    pq_sk ← ok_or invalid_private_key (d.decode_key_info k.pq_sk_der)
    trad_sk ← ok_or invalid_private_key (d.decode_key_info k.trad_sk_der)
    ok_or invalid_private_key (d.encode_key_infos (pq_sk, trad_sk))
