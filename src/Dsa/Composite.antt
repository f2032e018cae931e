-- ===== src/Dsa/Composite.antt =====
-- dsa/composite_dsa.rs: a signature made of a traditional and a post-quantum one.
pub mod Keys
pub mod Verify
pub mod Correct
use qubitcrypt.Prelude.{Bool, none, ◌&&◌, ◌++◌, Option}
use qubitcrypt.Outcome.{
  Bytes, Outcome, ok, ◌>>=◌, ok_or, map_err, unwrap, signature_failed, invalid_signature,
  key_pair_generation_failed,
}
use qubitcrypt.Effect
use qubitcrypt.Effect.{Eff, pure}
use qubitcrypt.Asn1.Der.{Der, oid_to_der}
use qubitcrypt.Asn1.CompositePublicKey
use qubitcrypt.Asn1.CompositePrivateKey
use qubitcrypt.Dsa.Info.{DsaInfo}
use qubitcrypt.Dsa.Trait.{Dsa}
use qubitcrypt.Dsa.Signature

-- The values of `openssl::hash::MessageDigest` that the module names.
pub data MessageDigest : Type 0 where
  sha256 sha512 : MessageDigest

-- `Hasher::new(digest)`, `update(msg)` and `finish()`: `none` when one of the three fails.
abbrev pub Hasher : Type 0
Hasher = MessageDigest → Bytes → Option Bytes

module _ (d : Der) (hasher : Hasher) (info : DsaInfo) (kdf : MessageDigest) where
  -- The DER of the identifier, as the domain, before the hash of the message.
  unfoldable pub pre_hash : Bytes → Outcome Bytes
  pre_hash msg = do
    hashed ← ok_or signature_failed (hasher kdf msg)
    domain ← oid_to_der d info.oid
    ok (domain ++ hashed)

module _ (d : Der) (info trad_info pq_info : DsaInfo) where
  -- Each key is stored under its own identifier, without its public key.
  unfoldable pub key_gen_composite : Bytes → Bytes → Bytes → Bytes → Outcome (Bytes × Bytes)
  key_gen_composite t_pk t_sk pq_pk pq_sk = do
    pk ←
        map_err key_pair_generation_failed
          (CompositePublicKey.to_der d (CompositePublicKey.new info.oid pq_pk t_pk))
    oid ← ok_or key_pair_generation_failed (d.parse_oid trad_info.oid)
    pq_oid ← ok_or key_pair_generation_failed (d.parse_oid pq_info.oid)
    c_sk ←
        CompositePrivateKey.new d info.oid
          (record { oid = pq_oid; parameters = none; private_key = pq_sk; public_key = none })
          (record { oid = oid; parameters = none; private_key = t_sk; public_key = none })
    sk ← CompositePrivateKey.to_der d c_sk
    ok (pk, sk)

module _ (d : Der) (hasher : Hasher) {W R : Type 0} (info : DsaInfo) (trad pq : Dsa W R)
    (kdf : MessageDigest) where
  unfoldable pub key_gen : Eff W (Bytes × Bytes)
  key_gen = Effect.◌>>=◌ trad.key_gen λ t_keys. Effect.◌>>=◌ pq.key_gen λ pq_keys. pure (
      key_gen_composite d info trad.get_dsa_info pq.get_dsa_info t_keys.0 t_keys.1 pq_keys.0
        pq_keys.1)

  unfoldable pub key_gen_with_rng : Eff R (Bytes × Bytes)
  key_gen_with_rng = Effect.◌>>=◌ trad.key_gen_with_rng λ t_keys.
      Effect.◌>>=◌ pq.key_gen_with_rng λ pq_keys. pure (
        key_gen_composite d info trad.get_dsa_info pq.get_dsa_info t_keys.0 t_keys.1 pq_keys.0
          pq_keys.1)

  -- The two secret keys of a composite one, the traditional one first.
  unfoldable pub secret_keys : Bytes → Outcome (Bytes × Bytes)
  secret_keys sk = do
    c_key ← CompositePrivateKey.from_der d info.oid sk
    sk_trad ← CompositePrivateKey.get_trad_sk d c_key
    sk_pq ← CompositePrivateKey.get_pq_sk d c_key
    ok (sk_trad.private_key, sk_pq.private_key)

  unfoldable pub encode_signature : Bytes → Bytes → Outcome Bytes
  unfolding Signature.new
  encode_signature pq_sig trad_sig = do
    c_sig ← Signature.new d pq_sig trad_sig
    unwrap (d.encode_bit_strings c_sig)

  unfoldable pub sign : Bytes → Bytes → Eff W Bytes
  unfolding pre_hash secret_keys encode_signature
  sign sk msg = Effect.◌>>=◌ (pure (pre_hash d hasher info kdf msg)) λ m.
      Effect.◌>>=◌ (pure (secret_keys sk)) λ sks.
        Effect.◌>>=◌ (trad.sign sks.0 m) λ trad_sig.
          Effect.◌>>=◌ (pq.sign sks.1 m) λ pq_sig. pure (encode_signature pq_sig trad_sig)

  unfoldable pub verify : Bytes → Bytes → Bytes → Outcome Bool
  unfolding pre_hash Signature.get_trad_sig Signature.get_pq_sig
  verify pk msg signature = do
    m ← pre_hash d hasher info kdf msg
    c_key ← CompositePublicKey.from_der d info.oid pk
    c_sig ← ok_or invalid_signature (d.decode_bit_strings signature)
    t_sig ← Signature.get_trad_sig d c_sig
    pq_sig ← Signature.get_pq_sig d c_sig
    is_verified_trad ← trad.verify c_key.trad_pk m t_sig
    is_verified_pq ← pq.verify c_key.pq_pk m pq_sig
    ok (is_verified_pq && is_verified_trad)

  unfoldable pub get_public_key : Bytes → Outcome Bytes
  unfolding secret_keys
  get_public_key sk = do
    sks ← secret_keys sk
    pk_trad ← trad.get_public_key sks.0
    pk_pq ← pq.get_public_key sks.1
    map_err key_pair_generation_failed
        (CompositePublicKey.to_der d (CompositePublicKey.new info.oid pk_pq pk_trad))

  -- `impl Dsa for CompositeDsaManager`.
  unfoldable pub dsa : Dsa W R
  unfolding key_gen key_gen_with_rng sign verify get_public_key
  dsa = record {
    key_gen = key_gen;
    key_gen_with_rng = key_gen_with_rng;
    sign = sign;
    verify = verify;
    get_dsa_info = info;
    get_public_key = get_public_key;
  }
