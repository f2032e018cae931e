-- ===== src/Kem/Ec.antt =====
-- kem/ec_kem.rs: Diffie-Hellman as a KEM, over utils/openssl_utils.rs.
pub mod Correct
use qubitcrypt.Prelude.{Option, none, some}
use qubitcrypt.Outcome.{
  Bytes, Outcome, ok, err, panic, map_err, not_implemented, key_pair_generation_failed,
  encap_failed, decap_failed,
}
use qubitcrypt.Effect.{Eff, pure, map_error}
use qubitcrypt.Kem.Types.{KemType, p256, p384, brainpool_p256r1, brainpool_p384r1, x25519, x448}
use qubitcrypt.Kem.Info.{KemInfo, kem_info}
use qubitcrypt.Kem.Trait.{Kem}

-- The constants of `openssl::nid::Nid` and `openssl::pkey::Id` that the module names.
pub data Nid : Type 0 where
  nid_prime256v1 nid_secp384r1 nid_brainpool_p256r1 nid_brainpool_p384r1 : Nid

pub data PkeyId : Type 0 where
  id_x25519 id_x448 : PkeyId

-- The functions of utils/openssl_utils.rs that the module calls, as an interface.
pub record OpensslUtils (W R : Type 0) : Type 0 where
  pub get_key_pair_ec_based : Nid → Eff W (Bytes × Bytes)
  pub get_key_pair_pkey_based : PkeyId → Eff W (Bytes × Bytes)
  pub get_key_pair_ec_based_with_rng : Nid → Eff R (Bytes × Bytes)
  pub get_keypair_pkey_based_with_rng : PkeyId → Eff R (Bytes × Bytes)
  pub encaps_ec_based : Nid → Bytes → Eff W (Bytes × Bytes)
  pub encaps_pkey_based : PkeyId → Bytes → Eff W (Bytes × Bytes)
  pub decaps_ec_based : Nid → Bytes → Bytes → Outcome Bytes
  pub decaps_pkey_based : PkeyId → Bytes → Bytes → Outcome Bytes

pub record EcKemManager : Type 0 where
  pub info : KemInfo
  pub ec_based_nid : Option Nid
  pub pk_based_id : Option PkeyId

abbrev manager : KemType → Option Nid → Option PkeyId → Outcome EcKemManager
manager t nid id = ok (record { info = kem_info t; ec_based_nid = nid; pk_based_id = id })

-- `EcKemManager::new`.
unfoldable pub new : KemType → Outcome EcKemManager
unfolding kem_info
new p256 = manager p256 (some nid_prime256v1) none
new p384 = manager p384 (some nid_secp384r1) none
new brainpool_p256r1 = manager brainpool_p256r1 (some nid_brainpool_p256r1) none
new brainpool_p384r1 = manager brainpool_p384r1 (some nid_brainpool_p384r1) none
new x25519 = manager x25519 none (some id_x25519)
new x448 = manager x448 none (some id_x448)
new _ = err not_implemented

-- `if let Some(nid) = … { … } else if let Some(id) = … { … } else { … }`.
abbrev pub by_kind {ℓ} :
    {X : Type ℓ} → Option Nid → Option PkeyId → (Nid → X) → (PkeyId → X) → X → X
by_kind (some nid) _ ec pkey neither = ec nid
by_kind none (some id) ec pkey neither = pkey id
by_kind none none ec pkey neither = neither

module _ {W R : Type 0} (u : OpensslUtils W R) where
  unfoldable pub key_gen : Option Nid → Option PkeyId → Eff W (Bytes × Bytes)
  key_gen nid id =
      by_kind nid id (λ n. map_error key_pair_generation_failed (u.get_key_pair_ec_based n))
        (λ i. map_error key_pair_generation_failed (u.get_key_pair_pkey_based i))
        (pure (err not_implemented))

  unfoldable pub key_gen_with_rng : Option Nid → Option PkeyId → Eff R (Bytes × Bytes)
  key_gen_with_rng nid id =
      by_kind nid id
        (λ n. map_error key_pair_generation_failed (u.get_key_pair_ec_based_with_rng n))
        (λ i. map_error key_pair_generation_failed (u.get_keypair_pkey_based_with_rng i))
        (pure (err not_implemented))

  unfoldable pub encap : Option Nid → Option PkeyId → Bytes → Eff W (Bytes × Bytes)
  encap nid id pk =
      by_kind nid id (λ n. map_error encap_failed (u.encaps_ec_based n pk))
        (λ i. map_error encap_failed (u.encaps_pkey_based i pk)) (pure (err not_implemented))

  unfoldable pub decap : Option Nid → Option PkeyId → Bytes → Bytes → Outcome Bytes
  decap nid id sk ct =
      by_kind nid id (λ n. map_err decap_failed (u.decaps_ec_based n sk ct))
        (λ i. map_err decap_failed (u.decaps_pkey_based i sk ct)) panic

  -- `impl Kem for EcKemManager`.
  unfoldable pub ec_kem : EcKemManager → Kem W R
  unfolding key_gen key_gen_with_rng encap decap
  ec_kem m = record {
    key_gen = key_gen m.ec_based_nid m.pk_based_id;
    key_gen_with_rng = key_gen_with_rng m.ec_based_nid m.pk_based_id;
    encap = encap m.ec_based_nid m.pk_based_id;
    decap = decap m.ec_based_nid m.pk_based_id;
    get_kem_info = m.info;
  }
