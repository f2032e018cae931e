-- ===== src/Dsa/Types.antt =====
-- dsa/common/dsa_type.rs and dsa/common/config/oids.rs: the DSA types that the crate knows, and
-- their object identifiers. `all` is what `EnumIter` yields: the variants in declaration order.
use qubitcrypt.Prelude.{
  ℕ, String, Bool, true, false, Option, List, [], ◌∷◌, ◌==◌, str_eq, find, any,
}

pub data DsaType : Type 0 where
  rsa2048_pss_sha256 rsa2048_pkcs15_sha256 rsa3072_pss_sha512 rsa3072_pkcs15_sha512 : DsaType
  ecdsa_p256_sha256 ecdsa_p256_sha512 ecdsa_p384_sha512 ecdsa_brainpool_p256r1_sha512 : DsaType
  ecdsa_brainpool_p256r1_sha256 ecdsa_brainpool_p384r1_sha512 ed25519_sha512 : DsaType
  ed448_sha512 ml_dsa44 ml_dsa65 ml_dsa87 ml_dsa44_rsa2048_pss_sha256 : DsaType
  ml_dsa44_rsa2048_pkcs15_sha256 ml_dsa44_ed25519_sha512 ml_dsa44_ecdsa_p256_sha256 : DsaType
  ml_dsa44_ecdsa_brainpool_p256r1_sha256 ml_dsa65_rsa3072_pss_sha512 : DsaType
  ml_dsa65_rsa3072_pkcs15_sha512 ml_dsa65_ecdsa_p256_sha512 : DsaType
  ml_dsa65_ecdsa_brainpool_p256r1_sha512 ml_dsa65_ed25519_sha512 : DsaType
  ml_dsa87_ecdsa_p384_sha512 ml_dsa87_ecdsa_brainpool_p384r1_sha512 : DsaType
  ml_dsa87_ed448_sha512 slh_dsa_sha2_128s slh_dsa_sha2_128f slh_dsa_sha2_192s : DsaType
  slh_dsa_sha2_192f slh_dsa_sha2_256s slh_dsa_sha2_256f slh_dsa_shake128s : DsaType
  slh_dsa_shake128f slh_dsa_shake192s slh_dsa_shake192f slh_dsa_shake256s : DsaType
  slh_dsa_shake256f : DsaType

-- The derived `PartialEq` compares discriminants.
unfoldable pub discriminant : DsaType → ℕ
discriminant rsa2048_pss_sha256 = 0
discriminant rsa2048_pkcs15_sha256 = 1
discriminant rsa3072_pss_sha512 = 2
discriminant rsa3072_pkcs15_sha512 = 3
discriminant ecdsa_p256_sha256 = 4
discriminant ecdsa_p256_sha512 = 5
discriminant ecdsa_p384_sha512 = 6
discriminant ecdsa_brainpool_p256r1_sha512 = 7
discriminant ecdsa_brainpool_p256r1_sha256 = 8
discriminant ecdsa_brainpool_p384r1_sha512 = 9
discriminant ed25519_sha512 = 10
discriminant ed448_sha512 = 11
discriminant ml_dsa44 = 12
discriminant ml_dsa65 = 13
discriminant ml_dsa87 = 14
discriminant ml_dsa44_rsa2048_pss_sha256 = 15
discriminant ml_dsa44_rsa2048_pkcs15_sha256 = 16
discriminant ml_dsa44_ed25519_sha512 = 17
discriminant ml_dsa44_ecdsa_p256_sha256 = 18
discriminant ml_dsa44_ecdsa_brainpool_p256r1_sha256 = 19
discriminant ml_dsa65_rsa3072_pss_sha512 = 20
discriminant ml_dsa65_rsa3072_pkcs15_sha512 = 21
discriminant ml_dsa65_ecdsa_p256_sha512 = 22
discriminant ml_dsa65_ecdsa_brainpool_p256r1_sha512 = 23
discriminant ml_dsa65_ed25519_sha512 = 24
discriminant ml_dsa87_ecdsa_p384_sha512 = 25
discriminant ml_dsa87_ecdsa_brainpool_p384r1_sha512 = 26
discriminant ml_dsa87_ed448_sha512 = 27
discriminant slh_dsa_sha2_128s = 28
discriminant slh_dsa_sha2_128f = 29
discriminant slh_dsa_sha2_192s = 30
discriminant slh_dsa_sha2_192f = 31
discriminant slh_dsa_sha2_256s = 32
discriminant slh_dsa_sha2_256f = 33
discriminant slh_dsa_shake128s = 34
discriminant slh_dsa_shake128f = 35
discriminant slh_dsa_shake192s = 36
discriminant slh_dsa_shake192f = 37
discriminant slh_dsa_shake256s = 38
discriminant slh_dsa_shake256f = 39

unfoldable pub same : DsaType → DsaType → Bool
unfolding discriminant
same a b = discriminant a == discriminant b

-- `[DsaType; n]::contains`.
unfoldable pub contains : List DsaType → DsaType → Bool
unfolding same
contains xs t = any (λ x. same x t) xs

unfoldable pub all : List DsaType
all =
    rsa2048_pss_sha256 ∷ rsa2048_pkcs15_sha256 ∷ rsa3072_pss_sha512 ∷ rsa3072_pkcs15_sha512
    ∷ ecdsa_p256_sha256 ∷ ecdsa_p256_sha512 ∷ ecdsa_p384_sha512 ∷ ecdsa_brainpool_p256r1_sha512
    ∷ ecdsa_brainpool_p256r1_sha256 ∷ ecdsa_brainpool_p384r1_sha512 ∷ ed25519_sha512 ∷ ed448_sha512
    ∷ ml_dsa44 ∷ ml_dsa65 ∷ ml_dsa87 ∷ ml_dsa44_rsa2048_pss_sha256 ∷ ml_dsa44_rsa2048_pkcs15_sha256
    ∷ ml_dsa44_ed25519_sha512 ∷ ml_dsa44_ecdsa_p256_sha256 ∷ ml_dsa44_ecdsa_brainpool_p256r1_sha256
    ∷ ml_dsa65_rsa3072_pss_sha512 ∷ ml_dsa65_rsa3072_pkcs15_sha512 ∷ ml_dsa65_ecdsa_p256_sha512
    ∷ ml_dsa65_ecdsa_brainpool_p256r1_sha512 ∷ ml_dsa65_ed25519_sha512 ∷ ml_dsa87_ecdsa_p384_sha512
    ∷ ml_dsa87_ecdsa_brainpool_p384r1_sha512 ∷ ml_dsa87_ed448_sha512 ∷ slh_dsa_sha2_128s
    ∷ slh_dsa_sha2_128f ∷ slh_dsa_sha2_192s ∷ slh_dsa_sha2_192f ∷ slh_dsa_sha2_256s
    ∷ slh_dsa_sha2_256f ∷ slh_dsa_shake128s ∷ slh_dsa_shake128f ∷ slh_dsa_shake192s
    ∷ slh_dsa_shake192f ∷ slh_dsa_shake256s ∷ slh_dsa_shake256f ∷ []

unfoldable pub get_oid : DsaType → String
get_oid rsa2048_pss_sha256 = "1.2.840.113549.1.1.10"
get_oid rsa3072_pss_sha512 = "1.2.840.113549.1.1.10"
get_oid rsa2048_pkcs15_sha256 = "1.2.840.113549.1.1.11"
get_oid rsa3072_pkcs15_sha512 = "1.2.840.113549.1.1.13"
get_oid ecdsa_brainpool_p256r1_sha256 = "1.2.840.10045.4.3.2"
get_oid ecdsa_p256_sha256 = "1.2.840.10045.4.3.2"
get_oid ecdsa_brainpool_p256r1_sha512 = "1.2.840.10045.4.3.4"
get_oid ecdsa_brainpool_p384r1_sha512 = "1.2.840.10045.4.3.4"
get_oid ecdsa_p256_sha512 = "1.2.840.10045.4.3.4"
get_oid ecdsa_p384_sha512 = "1.2.840.10045.4.3.4"
get_oid ed25519_sha512 = "1.3.101.112"
get_oid ed448_sha512 = "1.3.101.113"
get_oid ml_dsa44 = "2.16.840.1.101.3.4.3.17"
get_oid ml_dsa65 = "2.16.840.1.101.3.4.3.18"
get_oid ml_dsa87 = "2.16.840.1.101.3.4.3.19"
get_oid ml_dsa44_rsa2048_pss_sha256 = "2.16.840.1.114027.80.8.1.1"
get_oid ml_dsa44_rsa2048_pkcs15_sha256 = "2.16.840.1.114027.80.8.1.2"
get_oid ml_dsa44_ed25519_sha512 = "2.16.840.1.114027.80.8.1.3"
get_oid ml_dsa44_ecdsa_p256_sha256 = "2.16.840.1.114027.80.8.1.4"
get_oid ml_dsa44_ecdsa_brainpool_p256r1_sha256 = "2.16.840.1.114027.80.8.1.5"
get_oid ml_dsa65_rsa3072_pss_sha512 = "2.16.840.1.114027.80.8.1.6"
get_oid ml_dsa65_rsa3072_pkcs15_sha512 = "2.16.840.1.114027.80.8.1.7"
get_oid ml_dsa65_ecdsa_p256_sha512 = "2.16.840.1.114027.80.8.1.8"
get_oid ml_dsa65_ecdsa_brainpool_p256r1_sha512 = "2.16.840.1.114027.80.8.1.9"
get_oid ml_dsa65_ed25519_sha512 = "2.16.840.1.114027.80.8.1.10"
get_oid ml_dsa87_ecdsa_p384_sha512 = "2.16.840.1.114027.80.8.1.11"
get_oid ml_dsa87_ecdsa_brainpool_p384r1_sha512 = "2.16.840.1.114027.80.8.1.12"
get_oid ml_dsa87_ed448_sha512 = "2.16.840.1.114027.80.8.1.13"
get_oid slh_dsa_sha2_128s = "2.16.840.1.101.3.4.3.20"
get_oid slh_dsa_sha2_128f = "2.16.840.1.101.3.4.3.21"
get_oid slh_dsa_sha2_192s = "2.16.840.1.101.3.4.3.22"
get_oid slh_dsa_sha2_192f = "2.16.840.1.101.3.4.3.23"
get_oid slh_dsa_sha2_256s = "2.16.840.1.101.3.4.3.24"
get_oid slh_dsa_sha2_256f = "2.16.840.1.101.3.4.3.25"
get_oid slh_dsa_shake128s = "2.16.840.1.101.3.4.3.26"
get_oid slh_dsa_shake128f = "2.16.840.1.101.3.4.3.27"
get_oid slh_dsa_shake192s = "2.16.840.1.101.3.4.3.28"
get_oid slh_dsa_shake192f = "2.16.840.1.101.3.4.3.29"
get_oid slh_dsa_shake256s = "2.16.840.1.101.3.4.3.30"
get_oid slh_dsa_shake256f = "2.16.840.1.101.3.4.3.31"

unfoldable pub is_composite : DsaType → Bool
is_composite ml_dsa44 = false
is_composite ml_dsa65 = false
is_composite ml_dsa87 = false
is_composite _ = true

unfoldable pub from_oid : String → Option DsaType
unfolding all get_oid
from_oid oid = find (λ t. str_eq (get_oid t) oid) all
