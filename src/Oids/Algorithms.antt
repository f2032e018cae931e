-- ===== src/Oids/Algorithms.antt =====
-- kem/api/algorithm.rs and dsa/api/algorithm.rs: `from_oid` against `get_oid`.
use qubitcrypt.Prelude.{◌≡◌, refl, subst, ◌↔◌, String, some, str_eq, eq_iff, find-passes}
use qubitcrypt.Kem.Algorithm as Kem
use qubitcrypt.Kem.Algorithm.{KemAlgorithm}
use qubitcrypt.Dsa.Algorithm as Dsa
use qubitcrypt.Dsa.Algorithm.{DsaAlgorithm}

kem_algorithm_from_oid-get_oid : (a : KemAlgorithm) → Kem.from_oid (Kem.get_oid a) ≡ some a
unfolding Kem.from_oid Kem.get_oid
kem_algorithm_from_oid-get_oid KemAlgorithm.ml_kem512 = refl
kem_algorithm_from_oid-get_oid KemAlgorithm.ml_kem768 = refl
kem_algorithm_from_oid-get_oid KemAlgorithm.ml_kem1024 = refl
kem_algorithm_from_oid-get_oid KemAlgorithm.ml_kem512_p256 = refl
kem_algorithm_from_oid-get_oid KemAlgorithm.ml_kem512_brainpool_p256r1 = refl
kem_algorithm_from_oid-get_oid KemAlgorithm.ml_kem512_x25519 = refl
kem_algorithm_from_oid-get_oid KemAlgorithm.ml_kem512_rsa2048 = refl
kem_algorithm_from_oid-get_oid KemAlgorithm.ml_kem512_rsa3072 = refl
kem_algorithm_from_oid-get_oid KemAlgorithm.ml_kem768_p256 = refl
kem_algorithm_from_oid-get_oid KemAlgorithm.ml_kem768_rsa2048 = refl
kem_algorithm_from_oid-get_oid KemAlgorithm.ml_kem768_rsa3072 = refl
kem_algorithm_from_oid-get_oid KemAlgorithm.ml_kem768_rsa4096 = refl
kem_algorithm_from_oid-get_oid KemAlgorithm.ml_kem768_x25519 = refl
kem_algorithm_from_oid-get_oid KemAlgorithm.ml_kem768_p384 = refl
kem_algorithm_from_oid-get_oid KemAlgorithm.ml_kem768_brainpool_p256r1 = refl
kem_algorithm_from_oid-get_oid KemAlgorithm.ml_kem1024_p384 = refl
kem_algorithm_from_oid-get_oid KemAlgorithm.ml_kem1024_brainpool_p384r1 = refl
kem_algorithm_from_oid-get_oid KemAlgorithm.ml_kem1024_x448 = refl

-- `KemAlgorithm::from_oid` returns an algorithm exactly when the identifier is the algorithm's: no two of
-- the algorithms share one.
pub kem_algorithm_from_oid_iff :
    (s : String) (a : KemAlgorithm) → (Kem.from_oid s ≡ some a) ↔ (Kem.get_oid a ≡ s)
unfolding Kem.from_oid
kem_algorithm_from_oid_iff s a = (
  (λ h. (eq_iff (Kem.get_oid a) s).0 (find-passes (λ x. str_eq (Kem.get_oid x) s) Kem.all a h)),
  (λ same. subst (λ x. Kem.from_oid x ≡ some a) same (kem_algorithm_from_oid-get_oid a)),
)

dsa_algorithm_from_oid-get_oid : (a : DsaAlgorithm) → Dsa.from_oid (Dsa.get_oid a) ≡ some a
unfolding Dsa.from_oid Dsa.get_oid
dsa_algorithm_from_oid-get_oid DsaAlgorithm.ml_dsa44 = refl
dsa_algorithm_from_oid-get_oid DsaAlgorithm.ml_dsa65 = refl
dsa_algorithm_from_oid-get_oid DsaAlgorithm.ml_dsa87 = refl
dsa_algorithm_from_oid-get_oid DsaAlgorithm.ml_dsa44_rsa2048_pss_sha256 = refl
dsa_algorithm_from_oid-get_oid DsaAlgorithm.ml_dsa44_rsa2048_pkcs15_sha256 = refl
dsa_algorithm_from_oid-get_oid DsaAlgorithm.ml_dsa44_ed25519_sha512 = refl
dsa_algorithm_from_oid-get_oid DsaAlgorithm.ml_dsa44_ecdsa_p256_sha256 = refl
dsa_algorithm_from_oid-get_oid DsaAlgorithm.ml_dsa44_ecdsa_brainpool_p256r1_sha256 = refl
dsa_algorithm_from_oid-get_oid DsaAlgorithm.ml_dsa65_rsa3072_pss_sha512 = refl
dsa_algorithm_from_oid-get_oid DsaAlgorithm.ml_dsa65_rsa3072_pkcs15_sha512 = refl
dsa_algorithm_from_oid-get_oid DsaAlgorithm.ml_dsa65_ecdsa_p256_sha512 = refl
dsa_algorithm_from_oid-get_oid DsaAlgorithm.ml_dsa65_ecdsa_brainpool_p256r1_sha512 = refl
dsa_algorithm_from_oid-get_oid DsaAlgorithm.ml_dsa65_ed25519_sha512 = refl
dsa_algorithm_from_oid-get_oid DsaAlgorithm.ml_dsa87_ecdsa_p384_sha512 = refl
dsa_algorithm_from_oid-get_oid DsaAlgorithm.ml_dsa87_ecdsa_brainpool_p384r1_sha512 = refl
dsa_algorithm_from_oid-get_oid DsaAlgorithm.ml_dsa87_ed448_sha512 = refl
dsa_algorithm_from_oid-get_oid DsaAlgorithm.slh_dsa_sha2_128s = refl
dsa_algorithm_from_oid-get_oid DsaAlgorithm.slh_dsa_sha2_128f = refl
dsa_algorithm_from_oid-get_oid DsaAlgorithm.slh_dsa_sha2_192s = refl
dsa_algorithm_from_oid-get_oid DsaAlgorithm.slh_dsa_sha2_192f = refl
dsa_algorithm_from_oid-get_oid DsaAlgorithm.slh_dsa_sha2_256s = refl
dsa_algorithm_from_oid-get_oid DsaAlgorithm.slh_dsa_sha2_256f = refl
dsa_algorithm_from_oid-get_oid DsaAlgorithm.slh_dsa_shake128s = refl
dsa_algorithm_from_oid-get_oid DsaAlgorithm.slh_dsa_shake128f = refl
dsa_algorithm_from_oid-get_oid DsaAlgorithm.slh_dsa_shake192s = refl
dsa_algorithm_from_oid-get_oid DsaAlgorithm.slh_dsa_shake192f = refl
dsa_algorithm_from_oid-get_oid DsaAlgorithm.slh_dsa_shake256s = refl
dsa_algorithm_from_oid-get_oid DsaAlgorithm.slh_dsa_shake256f = refl

-- `DsaAlgorithm::from_oid` returns an algorithm exactly when the identifier is the algorithm's: no two of
-- the algorithms share one.
pub dsa_algorithm_from_oid_iff :
    (s : String) (a : DsaAlgorithm) → (Dsa.from_oid s ≡ some a) ↔ (Dsa.get_oid a ≡ s)
unfolding Dsa.from_oid
dsa_algorithm_from_oid_iff s a = (
  (λ h. (eq_iff (Dsa.get_oid a) s).0 (find-passes (λ x. str_eq (Dsa.get_oid x) s) Dsa.all a h)),
  (λ same. subst (λ x. Dsa.from_oid x ≡ some a) same (dsa_algorithm_from_oid-get_oid a)),
)
