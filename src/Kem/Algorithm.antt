-- ===== src/Kem/Algorithm.antt =====
-- kem/api/algorithm.rs: the algorithms that the public interface offers.
use qubitcrypt.Prelude.{Bool, true, false, String, Option, List, [], ◌∷◌, str_eq, find}
use qubitcrypt.Kem.Types.{KemType}
use qubitcrypt.Kem.Types

pub data KemAlgorithm : Type 0 where
  ml_kem512 ml_kem768 ml_kem1024 ml_kem512_p256 ml_kem512_brainpool_p256r1 : KemAlgorithm
  ml_kem512_x25519 ml_kem512_rsa2048 ml_kem512_rsa3072 ml_kem768_p256 : KemAlgorithm
  ml_kem768_rsa2048 ml_kem768_rsa3072 ml_kem768_rsa4096 ml_kem768_x25519 : KemAlgorithm
  ml_kem768_p384 ml_kem768_brainpool_p256r1 ml_kem1024_p384 : KemAlgorithm
  ml_kem1024_brainpool_p384r1 ml_kem1024_x448 : KemAlgorithm

unfoldable pub all : List KemAlgorithm
all =
    ml_kem512 ∷ ml_kem768 ∷ ml_kem1024 ∷ ml_kem512_p256 ∷ ml_kem512_brainpool_p256r1
    ∷ ml_kem512_x25519 ∷ ml_kem512_rsa2048 ∷ ml_kem512_rsa3072 ∷ ml_kem768_p256 ∷ ml_kem768_rsa2048
    ∷ ml_kem768_rsa3072 ∷ ml_kem768_rsa4096 ∷ ml_kem768_x25519 ∷ ml_kem768_p384
    ∷ ml_kem768_brainpool_p256r1 ∷ ml_kem1024_p384 ∷ ml_kem1024_brainpool_p384r1 ∷ ml_kem1024_x448
    ∷ []

unfoldable pub get_kem_type : KemAlgorithm → KemType
get_kem_type ml_kem512 = KemType.ml_kem512
get_kem_type ml_kem768 = KemType.ml_kem768
get_kem_type ml_kem1024 = KemType.ml_kem1024
get_kem_type ml_kem512_p256 = KemType.ml_kem512_p256
get_kem_type ml_kem512_brainpool_p256r1 = KemType.ml_kem512_brainpool_p256r1
get_kem_type ml_kem512_x25519 = KemType.ml_kem512_x25519
get_kem_type ml_kem512_rsa2048 = KemType.ml_kem512_rsa2048
get_kem_type ml_kem512_rsa3072 = KemType.ml_kem512_rsa3072
get_kem_type ml_kem768_p256 = KemType.ml_kem768_p256
get_kem_type ml_kem768_rsa2048 = KemType.ml_kem768_rsa2048
get_kem_type ml_kem768_rsa3072 = KemType.ml_kem768_rsa3072
get_kem_type ml_kem768_rsa4096 = KemType.ml_kem768_rsa4096
get_kem_type ml_kem768_x25519 = KemType.ml_kem768_x25519
get_kem_type ml_kem768_p384 = KemType.ml_kem768_p384
get_kem_type ml_kem768_brainpool_p256r1 = KemType.ml_kem768_brainpool_p256r1
get_kem_type ml_kem1024_p384 = KemType.ml_kem1024_p384
get_kem_type ml_kem1024_brainpool_p384r1 = KemType.ml_kem1024_brainpool_p384r1
get_kem_type ml_kem1024_x448 = KemType.ml_kem1024_x448

unfoldable pub is_composite : KemAlgorithm → Bool
is_composite ml_kem512 = false
is_composite ml_kem768 = false
is_composite ml_kem1024 = false
is_composite _ = true

unfoldable pub get_oid : KemAlgorithm → String
unfolding get_kem_type Types.get_oid
get_oid a = Types.get_oid (get_kem_type a)

unfoldable pub from_oid : String → Option KemAlgorithm
unfolding all get_oid
from_oid oid = find (λ a. str_eq (get_oid a) oid) all
