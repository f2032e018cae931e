-- ===== src/Dsa/Ec.antt =====
-- dsa/ec_dsa.rs: ECDSA and EdDSA, over utils/openssl_utils.rs and the crates of Ed25519 and Ed448.
pub mod Correct
use qubitcrypt.Prelude.{Bool, Option, none, some}
use qubitcrypt.Outcome.{
  Bytes, Outcome, ok, err, map_err, not_implemented, key_pair_generation_failed, signature_failed,
  signature_verification_failed, invalid_private_key,
}
use qubitcrypt.Effect.{Eff, pure, map_error}
use qubitcrypt.Kem.Ec.{
  Nid, nid_prime256v1, nid_secp384r1, nid_brainpool_p256r1, nid_brainpool_p384r1,
}
use qubitcrypt.Dsa.Types.{
  DsaType, ecdsa_p256_sha256, ecdsa_p256_sha512, ecdsa_p384_sha512, ecdsa_brainpool_p256r1_sha512,
  ecdsa_brainpool_p256r1_sha256, ecdsa_brainpool_p384r1_sha512, ed25519_sha512, ed448_sha512,
}
use qubitcrypt.Dsa.Info.{DsaInfo, dsa_info}
use qubitcrypt.Dsa.Trait.{Dsa}
use qubitcrypt.Dsa.Composite.{MessageDigest, sha256, sha512}

-- The two values of `openssl::pkey::Id` that the module uses.
pub data EdId : Type 0 where
  id_ed25519 id_ed448 : EdId

-- The functions of utils/openssl_utils.rs that the module calls, as an interface, and `generate_ed`,
-- which is `SigningKey::generate` of ed25519_dalek and `PrivateKey::new` of ed448_rust with the public
-- key.
pub record OpensslUtils (W R : Type 0) : Type 0 where
  pub get_key_pair_ec_based : Nid → Eff W (Bytes × Bytes)
  pub get_key_pair_pkey_based : EdId → Eff W (Bytes × Bytes)
  pub get_key_pair_ec_based_with_rng : Nid → Eff R (Bytes × Bytes)
  pub generate_ed : EdId → R → (Bytes × Bytes) × R
  pub sign_ec_based : Nid → Bytes → Bytes → MessageDigest → Eff W Bytes
  pub sign_pkey_based : EdId → Bytes → Bytes → Eff W Bytes
  pub verify_ec_based : Nid → Bytes → Bytes → Bytes → MessageDigest → Outcome Bool
  pub verify_pkey_based : EdId → Bytes → Bytes → Bytes → Outcome Bool
  pub get_pk_from_sk_ec_based : Bytes → Nid → Outcome Bytes
  pub get_pk_from_sk_pkey_based : Bytes → EdId → Outcome Bytes

pub record EcDsaManager : Type 0 where
  pub info : DsaInfo
  pub ec_based_nid : Option Nid
  pub pk_based_id : Option EdId
  pub digest : MessageDigest

abbrev manager : DsaType → Option Nid → Option EdId → MessageDigest → Outcome EcDsaManager
manager t nid id md =
    ok (record { info = dsa_info t; ec_based_nid = nid; pk_based_id = id; digest = md })

-- `EcDsaManager::new`.
unfoldable pub new : DsaType → Outcome EcDsaManager
unfolding dsa_info
new ecdsa_p256_sha256 = manager ecdsa_p256_sha256 (some nid_prime256v1) none sha256
new ecdsa_p256_sha512 = manager ecdsa_p256_sha512 (some nid_prime256v1) none sha512
new ecdsa_p384_sha512 = manager ecdsa_p384_sha512 (some nid_secp384r1) none sha512
new ecdsa_brainpool_p256r1_sha256 =
    manager ecdsa_brainpool_p256r1_sha256 (some nid_brainpool_p256r1) none sha256
new ecdsa_brainpool_p256r1_sha512 =
    manager ecdsa_brainpool_p256r1_sha512 (some nid_brainpool_p256r1) none sha512
new ecdsa_brainpool_p384r1_sha512 =
    manager ecdsa_brainpool_p384r1_sha512 (some nid_brainpool_p384r1) none sha512
new ed25519_sha512 = manager ed25519_sha512 none (some id_ed25519) sha512
new ed448_sha512 = manager ed448_sha512 none (some id_ed448) sha512
new _ = err not_implemented

-- `if let Some(nid) = … { … } else if let Some(id) = … { … } else { … }`.
abbrev pub by_key {ℓ} : {X : Type ℓ} → Option Nid → Option EdId → (Nid → X) → (EdId → X) → X → X
by_key (some nid) _ ec pkey neither = ec nid
by_key none (some id) ec pkey neither = pkey id
by_key none none ec pkey neither = neither

module _ {W R : Type 0} (u : OpensslUtils W R) where
  unfoldable pub key_gen : EcDsaManager → Eff W (Bytes × Bytes)
  key_gen m =
      by_key m.ec_based_nid m.pk_based_id
        (λ n. map_error key_pair_generation_failed (u.get_key_pair_ec_based n))
        (λ i. map_error key_pair_generation_failed (u.get_key_pair_pkey_based i))
        (pure (err not_implemented))

  unfoldable pub key_gen_with_rng : EcDsaManager → Eff R (Bytes × Bytes)
  key_gen_with_rng m =
      by_key m.ec_based_nid m.pk_based_id
        (λ n. map_error key_pair_generation_failed (u.get_key_pair_ec_based_with_rng n))
        (λ i r. (ok (u.generate_ed i r).0, (u.generate_ed i r).1)) (pure (err not_implemented))

  unfoldable pub sign : EcDsaManager → Bytes → Bytes → Eff W Bytes
  sign m sk msg =
      by_key m.ec_based_nid m.pk_based_id
        (λ n. map_error signature_failed (u.sign_ec_based n sk msg m.digest))
        (λ i. map_error signature_failed (u.sign_pkey_based i sk msg)) (pure (err not_implemented))

  unfoldable pub verify : EcDsaManager → Bytes → Bytes → Bytes → Outcome Bool
  verify m pk msg signature =
      by_key m.ec_based_nid m.pk_based_id
        (λ n. map_err signature_verification_failed (u.verify_ec_based n pk msg signature m.digest))
        (λ i. map_err signature_verification_failed (u.verify_pkey_based i pk msg signature))
        (err not_implemented)

  unfoldable pub get_public_key : EcDsaManager → Bytes → Outcome Bytes
  get_public_key m sk =
      by_key m.ec_based_nid m.pk_based_id
        (λ n. map_err invalid_private_key (u.get_pk_from_sk_ec_based sk n))
        (λ i. map_err invalid_private_key (u.get_pk_from_sk_pkey_based sk i)) (err not_implemented)

  -- `impl Dsa for EcDsaManager`.
  unfoldable pub ec_dsa : EcDsaManager → Dsa W R
  unfolding key_gen key_gen_with_rng sign verify get_public_key
  ec_dsa m = record {
    key_gen = key_gen m;
    key_gen_with_rng = key_gen_with_rng m;
    sign = sign m;
    verify = verify m;
    get_dsa_info = m.info;
    get_public_key = get_public_key m;
  }
