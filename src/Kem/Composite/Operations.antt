-- ===== src/Kem/Composite/Operations.antt =====
-- kem/composite_kem.rs: `impl Kem for CompositeKemManager`.
use qubitcrypt.Outcome.{Bytes, ok, ok_or, encap_failed}
use qubitcrypt.Effect.{Eff, ◌>>=◌, pure}
use qubitcrypt.Asn1.Der.{Der}
use qubitcrypt.Asn1.CompositePublicKey
use qubitcrypt.Kem.Info.{KemInfo}
use qubitcrypt.Kem.Kdf.{Hashes, KdfType}
use qubitcrypt.Kem.Trait.{Kem}
use qubitcrypt.Kem.Composite.Parts.{new_ciphertext, combiner, key_gen_composite, decap}

module _ (d : Der) (h : Hashes) {W R : Type 0} (info : KemInfo) (trad pq : Kem W R)
    (t : KdfType) where
  unfoldable pub key_gen : Eff W (Bytes × Bytes)
  key_gen = do
    t_keys ← trad.key_gen
    pq_keys ← pq.key_gen
    pure (key_gen_composite d info pq.get_kem_info t_keys.0 t_keys.1 pq_keys.0 pq_keys.1)

  unfoldable pub key_gen_with_rng : Eff R (Bytes × Bytes)
  key_gen_with_rng = do
    t_keys ← trad.key_gen_with_rng
    pq_keys ← pq.key_gen_with_rng
    pure (key_gen_composite d info pq.get_kem_info t_keys.0 t_keys.1 pq_keys.0 pq_keys.1)

  unfoldable pub encap : Bytes → Eff W (Bytes × Bytes)
  encap pk = do
    c_pk ← pure (CompositePublicKey.from_der d info.oid pk)
    t_out ← trad.encap c_pk.trad_pk
    pq_out ← pq.encap c_pk.pq_pk
    c_ct ← pure (new_ciphertext d pq_out.1 t_out.1)
    ct ← pure (ok_or encap_failed (d.encode_octet_strings c_ct))
    ss ← pure (combiner d h info t pq_out.0 t_out.0 t_out.1 c_pk.trad_pk)
    pure (ok (ss, ct))

  -- The composite manager behind the trait.
  unfoldable pub kem : Kem W R
  unfolding key_gen key_gen_with_rng encap decap
  kem = record {
    key_gen = key_gen;
    key_gen_with_rng = key_gen_with_rng;
    encap = encap;
    decap = decap d h info trad pq t;
    get_kem_info = info;
  }
