-- ===== src/Kem/Types.antt =====
-- kem/common/kem_type.rs and kem/common/config/oids.rs: the KEM types that the crate knows, and
-- their object identifiers. `all` is what `EnumIter` yields: the variants in declaration order.
use qubitcrypt.Prelude.{
  ℕ, String, Bool, true, false, Option, List, [], ◌∷◌, ◌==◌, str_eq, find, any,
}

pub data KemType : Type 0 where
  p256 p384 x25519 brainpool_p256r1 brainpool_p384r1 x448 rsa_oaep2048 rsa_oaep3072 : KemType
  rsa_oaep4096 ml_kem512 ml_kem768 ml_kem1024 ml_kem512_p256 : KemType
  ml_kem512_brainpool_p256r1 ml_kem512_x25519 ml_kem512_rsa2048 ml_kem512_rsa3072 : KemType
  ml_kem768_p256 ml_kem768_rsa2048 ml_kem768_rsa3072 ml_kem768_rsa4096 : KemType
  ml_kem768_x25519 ml_kem768_p384 ml_kem768_brainpool_p256r1 ml_kem1024_p384 : KemType
  ml_kem1024_brainpool_p384r1 ml_kem1024_x448 xwing : KemType

-- The derived `PartialEq` compares discriminants.
unfoldable pub discriminant : KemType → ℕ
discriminant p256 = 0
discriminant p384 = 1
discriminant x25519 = 2
discriminant brainpool_p256r1 = 3
discriminant brainpool_p384r1 = 4
discriminant x448 = 5
discriminant rsa_oaep2048 = 6
discriminant rsa_oaep3072 = 7
discriminant rsa_oaep4096 = 8
discriminant ml_kem512 = 9
discriminant ml_kem768 = 10
discriminant ml_kem1024 = 11
discriminant ml_kem512_p256 = 12
discriminant ml_kem512_brainpool_p256r1 = 13
discriminant ml_kem512_x25519 = 14
discriminant ml_kem512_rsa2048 = 15
discriminant ml_kem512_rsa3072 = 16
discriminant ml_kem768_p256 = 17
discriminant ml_kem768_rsa2048 = 18
discriminant ml_kem768_rsa3072 = 19
discriminant ml_kem768_rsa4096 = 20
discriminant ml_kem768_x25519 = 21
discriminant ml_kem768_p384 = 22
discriminant ml_kem768_brainpool_p256r1 = 23
discriminant ml_kem1024_p384 = 24
discriminant ml_kem1024_brainpool_p384r1 = 25
discriminant ml_kem1024_x448 = 26
discriminant xwing = 27

unfoldable pub same : KemType → KemType → Bool
unfolding discriminant
same a b = discriminant a == discriminant b

-- `[KemType; n]::contains`.
unfoldable pub contains : List KemType → KemType → Bool
unfolding same
contains xs t = any (λ x. same x t) xs

unfoldable pub all : List KemType
all =
    p256 ∷ p384 ∷ x25519 ∷ brainpool_p256r1 ∷ brainpool_p384r1 ∷ x448 ∷ rsa_oaep2048 ∷ rsa_oaep3072
    ∷ rsa_oaep4096 ∷ ml_kem512 ∷ ml_kem768 ∷ ml_kem1024 ∷ ml_kem512_p256
    ∷ ml_kem512_brainpool_p256r1 ∷ ml_kem512_x25519 ∷ ml_kem512_rsa2048 ∷ ml_kem512_rsa3072
    ∷ ml_kem768_p256 ∷ ml_kem768_rsa2048 ∷ ml_kem768_rsa3072 ∷ ml_kem768_rsa4096 ∷ ml_kem768_x25519
    ∷ ml_kem768_p384 ∷ ml_kem768_brainpool_p256r1 ∷ ml_kem1024_p384 ∷ ml_kem1024_brainpool_p384r1
    ∷ ml_kem1024_x448 ∷ xwing ∷ []

unfoldable pub get_oid : KemType → String
get_oid ml_kem512_p256 = "2.16.840.1.114027.80.5.2.1"
get_oid ml_kem512_brainpool_p256r1 = "2.16.840.1.114027.80.5.2.2"
get_oid ml_kem512_x25519 = "2.16.840.1.114027.80.5.2.3"
get_oid ml_kem512_rsa2048 = "2.16.840.1.114027.80.5.2.13"
get_oid ml_kem512_rsa3072 = "2.16.840.1.114027.80.5.2.4"
get_oid ml_kem768_p256 = "2.16.840.1.114027.80.5.2.5"
get_oid ml_kem768_brainpool_p256r1 = "2.16.840.1.114027.80.5.2.6"
get_oid ml_kem768_x25519 = "2.16.840.1.114027.80.5.2.7"
get_oid ml_kem1024_p384 = "2.16.840.1.114027.80.5.2.8"
get_oid ml_kem1024_brainpool_p384r1 = "2.16.840.1.114027.80.5.2.9"
get_oid ml_kem1024_x448 = "2.16.840.1.114027.80.5.2.10"
get_oid ml_kem768_rsa2048 = "2.16.840.1.114027.80.5.2.21"
get_oid ml_kem768_rsa3072 = "2.16.840.1.114027.80.5.2.22"
get_oid ml_kem768_rsa4096 = "2.16.840.1.114027.80.5.2.23"
get_oid ml_kem768_p384 = "2.16.840.1.114027.80.5.2.25"
get_oid p256 = "1.2.840.10045.3.1.7"
get_oid p384 = "1.3.132.0.34"
get_oid x25519 = "1.3.101.110"
get_oid x448 = "1.3.101.111"
get_oid brainpool_p256r1 = "1.3.36.3.3.2.8.1.7"
get_oid brainpool_p384r1 = "1.3.36.3.3.2.8.1.11"
get_oid rsa_oaep2048 = "1.2.840.113549.1.1.7"
get_oid rsa_oaep3072 = "1.2.840.113549.1.1.7"
get_oid rsa_oaep4096 = "1.2.840.113549.1.1.7"
get_oid ml_kem512 = "2.16.840.1.101.3.4.4.1"
get_oid ml_kem768 = "2.16.840.1.101.3.4.4.2"
get_oid ml_kem1024 = "2.16.840.1.101.3.4.4.3"
get_oid xwing = "2.16.840.1.101.3.4.4.2.0"

unfoldable pub is_composite : KemType → Bool
is_composite ml_kem512 = false
is_composite ml_kem768 = false
is_composite ml_kem1024 = false
is_composite _ = true

unfoldable pub from_oid : String → Option KemType
unfolding all get_oid
from_oid oid = find (λ t. str_eq (get_oid t) oid) all
