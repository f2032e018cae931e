-- ===== src/Oids/Offered.antt =====
-- kem/api/algorithm.rs and dsa/api/algorithm.rs: the managers that the identifiers of the offered
-- algorithms lead to.
use qubitcrypt.Prelude.{◌≡◌, refl, ap, ◌∙◌, some}
use qubitcrypt.Outcome.{Outcome}
use qubitcrypt.Kem.Types as KemTypes
use qubitcrypt.Kem.Types.{KemType}
use qubitcrypt.Kem.Trait as KemTrait
use qubitcrypt.Kem.Algorithm as Kem
use qubitcrypt.Kem.Algorithm.{KemAlgorithm}
use qubitcrypt.Dsa.Types as DsaTypes
use qubitcrypt.Dsa.Types.{DsaType}
use qubitcrypt.Dsa.Trait as DsaTrait
use qubitcrypt.Dsa.Algorithm as Dsa
use qubitcrypt.Dsa.Algorithm.{DsaAlgorithm}
use qubitcrypt.Oids.Lookups.{of_found, kem_new_from_oid-from_oid, dsa_new_from_oid-from_oid}

kem_type-of_algorithm :
    (a : KemAlgorithm) → KemTypes.from_oid (Kem.get_oid a) ≡ some (Kem.get_kem_type a)
unfolding KemTypes.from_oid Kem.get_oid Kem.get_kem_type
kem_type-of_algorithm KemAlgorithm.ml_kem512 = refl
kem_type-of_algorithm KemAlgorithm.ml_kem768 = refl
kem_type-of_algorithm KemAlgorithm.ml_kem1024 = refl
kem_type-of_algorithm KemAlgorithm.ml_kem512_p256 = refl
kem_type-of_algorithm KemAlgorithm.ml_kem512_brainpool_p256r1 = refl
kem_type-of_algorithm KemAlgorithm.ml_kem512_x25519 = refl
kem_type-of_algorithm KemAlgorithm.ml_kem512_rsa2048 = refl
kem_type-of_algorithm KemAlgorithm.ml_kem512_rsa3072 = refl
kem_type-of_algorithm KemAlgorithm.ml_kem768_p256 = refl
kem_type-of_algorithm KemAlgorithm.ml_kem768_rsa2048 = refl
kem_type-of_algorithm KemAlgorithm.ml_kem768_rsa3072 = refl
kem_type-of_algorithm KemAlgorithm.ml_kem768_rsa4096 = refl
kem_type-of_algorithm KemAlgorithm.ml_kem768_x25519 = refl
kem_type-of_algorithm KemAlgorithm.ml_kem768_p384 = refl
kem_type-of_algorithm KemAlgorithm.ml_kem768_brainpool_p256r1 = refl
kem_type-of_algorithm KemAlgorithm.ml_kem1024_p384 = refl
kem_type-of_algorithm KemAlgorithm.ml_kem1024_brainpool_p384r1 = refl
kem_type-of_algorithm KemAlgorithm.ml_kem1024_x448 = refl

pub kem_new_from_oid-algorithm :
    {M : Type 0} (new : KemType → Outcome M) (a : KemAlgorithm)
    → KemTrait.new_from_oid new (Kem.get_oid a) ≡ new (Kem.get_kem_type a)
kem_new_from_oid-algorithm new a =
    kem_new_from_oid-from_oid new (Kem.get_oid a) ∙ ap (of_found new) (kem_type-of_algorithm a)

dsa_type-of_algorithm :
    (a : DsaAlgorithm) → DsaTypes.from_oid (Dsa.get_oid a) ≡ some (Dsa.get_dsa_type a)
unfolding DsaTypes.from_oid Dsa.get_oid Dsa.get_dsa_type
dsa_type-of_algorithm DsaAlgorithm.ml_dsa44 = refl
dsa_type-of_algorithm DsaAlgorithm.ml_dsa65 = refl
dsa_type-of_algorithm DsaAlgorithm.ml_dsa87 = refl
dsa_type-of_algorithm DsaAlgorithm.ml_dsa44_rsa2048_pss_sha256 = refl
dsa_type-of_algorithm DsaAlgorithm.ml_dsa44_rsa2048_pkcs15_sha256 = refl
dsa_type-of_algorithm DsaAlgorithm.ml_dsa44_ed25519_sha512 = refl
dsa_type-of_algorithm DsaAlgorithm.ml_dsa44_ecdsa_p256_sha256 = refl
dsa_type-of_algorithm DsaAlgorithm.ml_dsa44_ecdsa_brainpool_p256r1_sha256 = refl
dsa_type-of_algorithm DsaAlgorithm.ml_dsa65_rsa3072_pss_sha512 = refl
dsa_type-of_algorithm DsaAlgorithm.ml_dsa65_rsa3072_pkcs15_sha512 = refl
dsa_type-of_algorithm DsaAlgorithm.ml_dsa65_ecdsa_p256_sha512 = refl
dsa_type-of_algorithm DsaAlgorithm.ml_dsa65_ecdsa_brainpool_p256r1_sha512 = refl
dsa_type-of_algorithm DsaAlgorithm.ml_dsa65_ed25519_sha512 = refl
dsa_type-of_algorithm DsaAlgorithm.ml_dsa87_ecdsa_p384_sha512 = refl
dsa_type-of_algorithm DsaAlgorithm.ml_dsa87_ecdsa_brainpool_p384r1_sha512 = refl
dsa_type-of_algorithm DsaAlgorithm.ml_dsa87_ed448_sha512 = refl
dsa_type-of_algorithm DsaAlgorithm.slh_dsa_sha2_128s = refl
dsa_type-of_algorithm DsaAlgorithm.slh_dsa_sha2_128f = refl
dsa_type-of_algorithm DsaAlgorithm.slh_dsa_sha2_192s = refl
dsa_type-of_algorithm DsaAlgorithm.slh_dsa_sha2_192f = refl
dsa_type-of_algorithm DsaAlgorithm.slh_dsa_sha2_256s = refl
dsa_type-of_algorithm DsaAlgorithm.slh_dsa_sha2_256f = refl
dsa_type-of_algorithm DsaAlgorithm.slh_dsa_shake128s = refl
dsa_type-of_algorithm DsaAlgorithm.slh_dsa_shake128f = refl
dsa_type-of_algorithm DsaAlgorithm.slh_dsa_shake192s = refl
dsa_type-of_algorithm DsaAlgorithm.slh_dsa_shake192f = refl
dsa_type-of_algorithm DsaAlgorithm.slh_dsa_shake256s = refl
dsa_type-of_algorithm DsaAlgorithm.slh_dsa_shake256f = refl

pub dsa_new_from_oid-algorithm :
    {M : Type 0} (new : DsaType → Outcome M) (a : DsaAlgorithm)
    → DsaTrait.new_from_oid new (Dsa.get_oid a) ≡ new (Dsa.get_dsa_type a)
dsa_new_from_oid-algorithm new a =
    dsa_new_from_oid-from_oid new (Dsa.get_oid a) ∙ ap (of_found new) (dsa_type-of_algorithm a)
