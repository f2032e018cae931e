-- ===== src/Dsa/Algorithm.antt =====
-- dsa/api/algorithm.rs: the algorithms that the public interface offers.
use qubitcrypt.Prelude.{Bool, true, false, String, Option, List, [], ◌∷◌, str_eq, find}
use qubitcrypt.Dsa.Types.{DsaType}
use qubitcrypt.Dsa.Types

pub data DsaAlgorithm : Type 0 where
  ml_dsa44 ml_dsa65 ml_dsa87 ml_dsa44_rsa2048_pss_sha256 : DsaAlgorithm
  ml_dsa44_rsa2048_pkcs15_sha256 ml_dsa44_ed25519_sha512 : DsaAlgorithm
  ml_dsa44_ecdsa_p256_sha256 ml_dsa44_ecdsa_brainpool_p256r1_sha256 : DsaAlgorithm
  ml_dsa65_rsa3072_pss_sha512 ml_dsa65_rsa3072_pkcs15_sha512 : DsaAlgorithm
  ml_dsa65_ecdsa_p256_sha512 ml_dsa65_ecdsa_brainpool_p256r1_sha512 : DsaAlgorithm
  ml_dsa65_ed25519_sha512 ml_dsa87_ecdsa_p384_sha512 : DsaAlgorithm
  ml_dsa87_ecdsa_brainpool_p384r1_sha512 ml_dsa87_ed448_sha512 slh_dsa_sha2_128s : DsaAlgorithm
  slh_dsa_sha2_128f slh_dsa_sha2_192s slh_dsa_sha2_192f slh_dsa_sha2_256s : DsaAlgorithm
  slh_dsa_sha2_256f slh_dsa_shake128s slh_dsa_shake128f slh_dsa_shake192s : DsaAlgorithm
  slh_dsa_shake192f slh_dsa_shake256s slh_dsa_shake256f : DsaAlgorithm

unfoldable pub all : List DsaAlgorithm
all =
    ml_dsa44 ∷ ml_dsa65 ∷ ml_dsa87 ∷ ml_dsa44_rsa2048_pss_sha256 ∷ ml_dsa44_rsa2048_pkcs15_sha256
    ∷ ml_dsa44_ed25519_sha512 ∷ ml_dsa44_ecdsa_p256_sha256 ∷ ml_dsa44_ecdsa_brainpool_p256r1_sha256
    ∷ ml_dsa65_rsa3072_pss_sha512 ∷ ml_dsa65_rsa3072_pkcs15_sha512 ∷ ml_dsa65_ecdsa_p256_sha512
    ∷ ml_dsa65_ecdsa_brainpool_p256r1_sha512 ∷ ml_dsa65_ed25519_sha512 ∷ ml_dsa87_ecdsa_p384_sha512
    ∷ ml_dsa87_ecdsa_brainpool_p384r1_sha512 ∷ ml_dsa87_ed448_sha512 ∷ slh_dsa_sha2_128s
    ∷ slh_dsa_sha2_128f ∷ slh_dsa_sha2_192s ∷ slh_dsa_sha2_192f ∷ slh_dsa_sha2_256s
    ∷ slh_dsa_sha2_256f ∷ slh_dsa_shake128s ∷ slh_dsa_shake128f ∷ slh_dsa_shake192s
    ∷ slh_dsa_shake192f ∷ slh_dsa_shake256s ∷ slh_dsa_shake256f ∷ []

unfoldable pub get_dsa_type : DsaAlgorithm → DsaType
get_dsa_type ml_dsa44 = DsaType.ml_dsa44
get_dsa_type ml_dsa65 = DsaType.ml_dsa65
get_dsa_type ml_dsa87 = DsaType.ml_dsa87
get_dsa_type ml_dsa44_rsa2048_pss_sha256 = DsaType.ml_dsa44_rsa2048_pss_sha256
get_dsa_type ml_dsa44_rsa2048_pkcs15_sha256 = DsaType.ml_dsa44_rsa2048_pkcs15_sha256
get_dsa_type ml_dsa44_ed25519_sha512 = DsaType.ml_dsa44_ed25519_sha512
get_dsa_type ml_dsa44_ecdsa_p256_sha256 = DsaType.ml_dsa44_ecdsa_p256_sha256
get_dsa_type ml_dsa44_ecdsa_brainpool_p256r1_sha256 = DsaType.ml_dsa44_ecdsa_brainpool_p256r1_sha256
get_dsa_type ml_dsa65_rsa3072_pss_sha512 = DsaType.ml_dsa65_rsa3072_pss_sha512
get_dsa_type ml_dsa65_rsa3072_pkcs15_sha512 = DsaType.ml_dsa65_rsa3072_pkcs15_sha512
get_dsa_type ml_dsa65_ecdsa_p256_sha512 = DsaType.ml_dsa65_ecdsa_p256_sha512
get_dsa_type ml_dsa65_ecdsa_brainpool_p256r1_sha512 = DsaType.ml_dsa65_ecdsa_brainpool_p256r1_sha512
get_dsa_type ml_dsa65_ed25519_sha512 = DsaType.ml_dsa65_ed25519_sha512
get_dsa_type ml_dsa87_ecdsa_p384_sha512 = DsaType.ml_dsa87_ecdsa_p384_sha512
get_dsa_type ml_dsa87_ecdsa_brainpool_p384r1_sha512 = DsaType.ml_dsa87_ecdsa_brainpool_p384r1_sha512
get_dsa_type ml_dsa87_ed448_sha512 = DsaType.ml_dsa87_ed448_sha512
get_dsa_type slh_dsa_sha2_128s = DsaType.slh_dsa_sha2_128s
get_dsa_type slh_dsa_sha2_128f = DsaType.slh_dsa_sha2_128f
get_dsa_type slh_dsa_sha2_192s = DsaType.slh_dsa_sha2_192s
get_dsa_type slh_dsa_sha2_192f = DsaType.slh_dsa_sha2_192f
get_dsa_type slh_dsa_sha2_256s = DsaType.slh_dsa_sha2_256s
get_dsa_type slh_dsa_sha2_256f = DsaType.slh_dsa_sha2_256f
get_dsa_type slh_dsa_shake128s = DsaType.slh_dsa_shake128s
get_dsa_type slh_dsa_shake128f = DsaType.slh_dsa_shake128f
get_dsa_type slh_dsa_shake192s = DsaType.slh_dsa_shake192s
get_dsa_type slh_dsa_shake192f = DsaType.slh_dsa_shake192f
get_dsa_type slh_dsa_shake256s = DsaType.slh_dsa_shake256s
get_dsa_type slh_dsa_shake256f = DsaType.slh_dsa_shake256f

unfoldable pub is_composite : DsaAlgorithm → Bool
is_composite ml_dsa44 = false
is_composite ml_dsa65 = false
is_composite ml_dsa87 = false
is_composite _ = true

unfoldable pub get_oid : DsaAlgorithm → String
unfolding get_dsa_type Types.get_oid
get_oid a = Types.get_oid (get_dsa_type a)

unfoldable pub from_oid : String → Option DsaAlgorithm
unfolding all get_oid
from_oid oid = find (λ a. str_eq (get_oid a) oid) all
