-- ===== src/Dsa/Manager/Built.antt =====
-- dsa/dsa_manager.rs: which types `DsaManager::new` builds a manager for.
use qubitcrypt.Prelude.{ℕ, suc, ◌≡◌, refl}
use qubitcrypt.Outcome.{ok}
use qubitcrypt.Dsa.Types.{
  DsaType, rsa2048_pss_sha256, rsa2048_pkcs15_sha256, rsa3072_pss_sha512, rsa3072_pkcs15_sha512,
  ecdsa_p256_sha256, ecdsa_p256_sha512, ecdsa_p384_sha512, ecdsa_brainpool_p256r1_sha512,
  ecdsa_brainpool_p256r1_sha256, ecdsa_brainpool_p384r1_sha512, ed25519_sha512, ed448_sha512,
  ml_dsa44, ml_dsa65, ml_dsa87, ml_dsa44_rsa2048_pss_sha256, ml_dsa44_rsa2048_pkcs15_sha256,
  ml_dsa44_ed25519_sha512, ml_dsa44_ecdsa_p256_sha256, ml_dsa44_ecdsa_brainpool_p256r1_sha256,
  ml_dsa65_rsa3072_pss_sha512, ml_dsa65_rsa3072_pkcs15_sha512, ml_dsa65_ecdsa_p256_sha512,
  ml_dsa65_ecdsa_brainpool_p256r1_sha512, ml_dsa65_ed25519_sha512, ml_dsa87_ecdsa_p384_sha512,
  ml_dsa87_ecdsa_brainpool_p384r1_sha512, ml_dsa87_ed448_sha512, slh_dsa_sha2_128s,
  slh_dsa_sha2_128f, slh_dsa_sha2_192s, slh_dsa_sha2_192f, slh_dsa_sha2_256s, slh_dsa_sha2_256f,
  slh_dsa_shake128s, slh_dsa_shake128f, slh_dsa_shake192s, slh_dsa_shake192f, slh_dsa_shake256s,
  slh_dsa_shake256f,
}
use qubitcrypt.Dsa.Info.{DsaInfo, dsa_info}
use qubitcrypt.Dsa.Manager.{DsaManager, ml, rsa, ec, composite, slh, new}

-- The `dsa_info` field of the manager of each family.
unfoldable pub info_of : DsaManager → DsaInfo
info_of (ml info) = info
info_of (rsa info) = info
info_of (ec m) = m.info
info_of (composite info trad pq md) = info
info_of (slh info) = info

-- With any fuel from 2, `DsaManager::new` returns a manager with the information of its type for
-- each of the forty types: it neither fails nor panics.
pub dsa_new-returns :
    (n : ℕ) (t : DsaType)
    → (m : DsaManager) × (new (suc (suc n)) t ≡ ok m) × (info_of m ≡ dsa_info t)
unfolding info_of new
dsa_new-returns n rsa2048_pss_sha256 = (_, refl, refl)
dsa_new-returns n rsa2048_pkcs15_sha256 = (_, refl, refl)
dsa_new-returns n rsa3072_pss_sha512 = (_, refl, refl)
dsa_new-returns n rsa3072_pkcs15_sha512 = (_, refl, refl)
dsa_new-returns n ecdsa_p256_sha256 = (_, refl, refl)
dsa_new-returns n ecdsa_p256_sha512 = (_, refl, refl)
dsa_new-returns n ecdsa_p384_sha512 = (_, refl, refl)
dsa_new-returns n ecdsa_brainpool_p256r1_sha512 = (_, refl, refl)
dsa_new-returns n ecdsa_brainpool_p256r1_sha256 = (_, refl, refl)
dsa_new-returns n ecdsa_brainpool_p384r1_sha512 = (_, refl, refl)
dsa_new-returns n ed25519_sha512 = (_, refl, refl)
dsa_new-returns n ed448_sha512 = (_, refl, refl)
dsa_new-returns n ml_dsa44 = (_, refl, refl)
dsa_new-returns n ml_dsa65 = (_, refl, refl)
dsa_new-returns n ml_dsa87 = (_, refl, refl)
dsa_new-returns n ml_dsa44_rsa2048_pss_sha256 = (_, refl, refl)
dsa_new-returns n ml_dsa44_rsa2048_pkcs15_sha256 = (_, refl, refl)
dsa_new-returns n ml_dsa44_ed25519_sha512 = (_, refl, refl)
dsa_new-returns n ml_dsa44_ecdsa_p256_sha256 = (_, refl, refl)
dsa_new-returns n ml_dsa44_ecdsa_brainpool_p256r1_sha256 = (_, refl, refl)
dsa_new-returns n ml_dsa65_rsa3072_pss_sha512 = (_, refl, refl)
dsa_new-returns n ml_dsa65_rsa3072_pkcs15_sha512 = (_, refl, refl)
dsa_new-returns n ml_dsa65_ecdsa_p256_sha512 = (_, refl, refl)
dsa_new-returns n ml_dsa65_ecdsa_brainpool_p256r1_sha512 = (_, refl, refl)
dsa_new-returns n ml_dsa65_ed25519_sha512 = (_, refl, refl)
dsa_new-returns n ml_dsa87_ecdsa_p384_sha512 = (_, refl, refl)
dsa_new-returns n ml_dsa87_ecdsa_brainpool_p384r1_sha512 = (_, refl, refl)
dsa_new-returns n ml_dsa87_ed448_sha512 = (_, refl, refl)
dsa_new-returns n slh_dsa_sha2_128s = (_, refl, refl)
dsa_new-returns n slh_dsa_sha2_128f = (_, refl, refl)
dsa_new-returns n slh_dsa_sha2_192s = (_, refl, refl)
dsa_new-returns n slh_dsa_sha2_192f = (_, refl, refl)
dsa_new-returns n slh_dsa_sha2_256s = (_, refl, refl)
dsa_new-returns n slh_dsa_sha2_256f = (_, refl, refl)
dsa_new-returns n slh_dsa_shake128s = (_, refl, refl)
dsa_new-returns n slh_dsa_shake128f = (_, refl, refl)
dsa_new-returns n slh_dsa_shake192s = (_, refl, refl)
dsa_new-returns n slh_dsa_shake192f = (_, refl, refl)
dsa_new-returns n slh_dsa_shake256s = (_, refl, refl)
dsa_new-returns n slh_dsa_shake256f = (_, refl, refl)
