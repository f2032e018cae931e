-- ===== src/Dsa/Info.antt =====
-- dsa/common/config/{pk_len,sk_len,sig_len}.rs and dsa/common/dsa_info.rs: the byte lengths that
-- the crate publishes for each signature scheme, and the record that a manager carries.
use qubitcrypt.Prelude.{ℕ, ◌+◌, ◌*◌, String, Option, none, some}
use qubitcrypt.Dsa.Types.{
  DsaType, get_oid, rsa2048_pss_sha256, rsa2048_pkcs15_sha256, rsa3072_pss_sha512,
  rsa3072_pkcs15_sha512, ecdsa_p256_sha256, ecdsa_p256_sha512, ecdsa_p384_sha512,
  ecdsa_brainpool_p256r1_sha512, ecdsa_brainpool_p256r1_sha256, ecdsa_brainpool_p384r1_sha512,
  ed25519_sha512, ed448_sha512, ml_dsa44, ml_dsa65, ml_dsa87, ml_dsa44_rsa2048_pss_sha256,
  ml_dsa44_rsa2048_pkcs15_sha256, ml_dsa44_ed25519_sha512, ml_dsa44_ecdsa_p256_sha256,
  ml_dsa44_ecdsa_brainpool_p256r1_sha256, ml_dsa65_rsa3072_pss_sha512,
  ml_dsa65_rsa3072_pkcs15_sha512, ml_dsa65_ecdsa_p256_sha512,
  ml_dsa65_ecdsa_brainpool_p256r1_sha512, ml_dsa65_ed25519_sha512, ml_dsa87_ecdsa_p384_sha512,
  ml_dsa87_ecdsa_brainpool_p384r1_sha512, ml_dsa87_ed448_sha512, slh_dsa_sha2_128s,
  slh_dsa_sha2_128f, slh_dsa_sha2_192s, slh_dsa_sha2_192f, slh_dsa_sha2_256s, slh_dsa_sha2_256f,
  slh_dsa_shake128s, slh_dsa_shake128f, slh_dsa_shake192s, slh_dsa_shake192f, slh_dsa_shake256s,
  slh_dsa_shake256f,
}

unfoldable pub get_pk_len : DsaType → Option ℕ
get_pk_len rsa2048_pkcs15_sha256 = some 270
get_pk_len rsa2048_pss_sha256 = some 270
get_pk_len rsa3072_pkcs15_sha512 = some 398
get_pk_len rsa3072_pss_sha512 = some 398
get_pk_len ecdsa_p256_sha256 = some 65
get_pk_len ecdsa_p256_sha512 = some 65
get_pk_len ecdsa_p384_sha512 = some 97
get_pk_len ecdsa_brainpool_p256r1_sha256 = some 65
get_pk_len ecdsa_brainpool_p256r1_sha512 = some 65
get_pk_len ecdsa_brainpool_p384r1_sha512 = some 97
get_pk_len ed25519_sha512 = some 32
get_pk_len ed448_sha512 = some 57
get_pk_len ml_dsa44 = some 1312
get_pk_len ml_dsa65 = some 1952
get_pk_len ml_dsa87 = some 2592
get_pk_len ml_dsa44_rsa2048_pss_sha256 = some (1312 + 270 + 14)
get_pk_len ml_dsa44_rsa2048_pkcs15_sha256 = some (1312 + 270 + 14)
get_pk_len ml_dsa44_ed25519_sha512 = some (1312 + 32 + 12)
get_pk_len ml_dsa44_ecdsa_p256_sha256 = some (1312 + 65 + 12)
get_pk_len ml_dsa44_ecdsa_brainpool_p256r1_sha256 = some (1312 + 65 + 12)
get_pk_len ml_dsa65_rsa3072_pss_sha512 = some (1952 + 398 + 14)
get_pk_len ml_dsa65_rsa3072_pkcs15_sha512 = some (1952 + 398 + 14)
get_pk_len ml_dsa65_ecdsa_p256_sha512 = some (1952 + 65 + 12)
get_pk_len ml_dsa65_ecdsa_brainpool_p256r1_sha512 = some (1952 + 65 + 12)
get_pk_len ml_dsa65_ed25519_sha512 = some (1952 + 32 + 12)
get_pk_len ml_dsa87_ecdsa_p384_sha512 = some (2592 + 97 + 12)
get_pk_len ml_dsa87_ecdsa_brainpool_p384r1_sha512 = some (2592 + 97 + 12)
get_pk_len ml_dsa87_ed448_sha512 = some (2592 + 57 + 12)
get_pk_len slh_dsa_sha2_128s = some 32
get_pk_len slh_dsa_sha2_128f = some 32
get_pk_len slh_dsa_sha2_192s = some 48
get_pk_len slh_dsa_sha2_192f = some 48
get_pk_len slh_dsa_sha2_256s = some 64
get_pk_len slh_dsa_sha2_256f = some 64
get_pk_len slh_dsa_shake128s = some 32
get_pk_len slh_dsa_shake128f = some 32
get_pk_len slh_dsa_shake192s = some 48
get_pk_len slh_dsa_shake192f = some 48
get_pk_len slh_dsa_shake256s = some 64
get_pk_len slh_dsa_shake256f = some 64

unfoldable pub get_sk_len : DsaType → Option ℕ
get_sk_len rsa2048_pkcs15_sha256 = none
get_sk_len rsa2048_pss_sha256 = none
get_sk_len rsa3072_pkcs15_sha512 = none
get_sk_len rsa3072_pss_sha512 = none
get_sk_len ecdsa_p256_sha256 = some 32
get_sk_len ecdsa_p256_sha512 = some 32
get_sk_len ecdsa_p384_sha512 = some 48
get_sk_len ecdsa_brainpool_p256r1_sha256 = some 32
get_sk_len ecdsa_brainpool_p256r1_sha512 = some 32
get_sk_len ecdsa_brainpool_p384r1_sha512 = some 48
get_sk_len ed25519_sha512 = some 32
get_sk_len ed448_sha512 = some 57
get_sk_len ml_dsa44 = some 2560
get_sk_len ml_dsa65 = some 4032
get_sk_len ml_dsa87 = some 4896
get_sk_len ml_dsa44_rsa2048_pss_sha256 = none
get_sk_len ml_dsa44_rsa2048_pkcs15_sha256 = none
get_sk_len ml_dsa44_ed25519_sha512 = some (2560 + 32 + 24 + 14 + 4)
get_sk_len ml_dsa44_ecdsa_p256_sha256 = some (2560 + 32 + 24 + 19 + 4)
get_sk_len ml_dsa44_ecdsa_brainpool_p256r1_sha256 = some (2560 + 32 + 24 + 19 + 4)
get_sk_len ml_dsa65_rsa3072_pss_sha512 = none
get_sk_len ml_dsa65_rsa3072_pkcs15_sha512 = none
get_sk_len ml_dsa65_ecdsa_p256_sha512 = some (4032 + 32 + 24 + 19 + 4)
get_sk_len ml_dsa65_ecdsa_brainpool_p256r1_sha512 = some (4032 + 32 + 24 + 19 + 4)
get_sk_len ml_dsa65_ed25519_sha512 = some (4032 + 32 + 24 + 14 + 4)
get_sk_len ml_dsa87_ecdsa_p384_sha512 = some (4896 + 48 + 24 + 19 + 4)
get_sk_len ml_dsa87_ecdsa_brainpool_p384r1_sha512 = some (4896 + 48 + 24 + 19 + 4)
get_sk_len ml_dsa87_ed448_sha512 = some (4896 + 57 + 24 + 14 + 4)
get_sk_len slh_dsa_sha2_128s = some (32 * 2)
get_sk_len slh_dsa_sha2_128f = some (32 * 2)
get_sk_len slh_dsa_sha2_192s = some (48 * 2)
get_sk_len slh_dsa_sha2_192f = some (48 * 2)
get_sk_len slh_dsa_sha2_256s = some (64 * 2)
get_sk_len slh_dsa_sha2_256f = some (64 * 2)
get_sk_len slh_dsa_shake128s = some (32 * 2)
get_sk_len slh_dsa_shake128f = some (32 * 2)
get_sk_len slh_dsa_shake192s = some (48 * 2)
get_sk_len slh_dsa_shake192f = some (48 * 2)
get_sk_len slh_dsa_shake256s = some (64 * 2)
get_sk_len slh_dsa_shake256f = some (64 * 2)

unfoldable pub get_sig_len : DsaType → Option ℕ
get_sig_len rsa2048_pkcs15_sha256 = some 256
get_sig_len rsa2048_pss_sha256 = some 256
get_sig_len rsa3072_pkcs15_sha512 = some 384
get_sig_len rsa3072_pss_sha512 = some 384
get_sig_len ecdsa_p256_sha256 = none
get_sig_len ecdsa_p256_sha512 = none
get_sig_len ecdsa_p384_sha512 = none
get_sig_len ecdsa_brainpool_p256r1_sha256 = none
get_sig_len ecdsa_brainpool_p256r1_sha512 = none
get_sig_len ecdsa_brainpool_p384r1_sha512 = none
get_sig_len ed25519_sha512 = some 64
get_sig_len ed448_sha512 = some 114
get_sig_len ml_dsa44 = some 2420
get_sig_len ml_dsa65 = some 3309
get_sig_len ml_dsa87 = some 4627
get_sig_len ml_dsa44_rsa2048_pss_sha256 = some (2420 + 256 + 14)
get_sig_len ml_dsa44_rsa2048_pkcs15_sha256 = some (2420 + 256 + 14)
get_sig_len ml_dsa44_ed25519_sha512 = some (2420 + 64 + 12)
get_sig_len ml_dsa44_ecdsa_p256_sha256 = none
get_sig_len ml_dsa44_ecdsa_brainpool_p256r1_sha256 = none
get_sig_len ml_dsa65_rsa3072_pss_sha512 = some (3309 + 384 + 14)
get_sig_len ml_dsa65_rsa3072_pkcs15_sha512 = some (3309 + 384 + 14)
get_sig_len ml_dsa65_ecdsa_p256_sha512 = none
get_sig_len ml_dsa65_ecdsa_brainpool_p256r1_sha512 = none
get_sig_len ml_dsa65_ed25519_sha512 = some (3309 + 64 + 12)
get_sig_len ml_dsa87_ecdsa_p384_sha512 = none
get_sig_len ml_dsa87_ecdsa_brainpool_p384r1_sha512 = none
get_sig_len ml_dsa87_ed448_sha512 = some (4627 + 114 + 12)
get_sig_len slh_dsa_sha2_128s = some 7856
get_sig_len slh_dsa_sha2_128f = some 17088
get_sig_len slh_dsa_sha2_192s = some 16224
get_sig_len slh_dsa_sha2_192f = some 35664
get_sig_len slh_dsa_sha2_256s = some 29792
get_sig_len slh_dsa_sha2_256f = some 49856
get_sig_len slh_dsa_shake128s = some 7856
get_sig_len slh_dsa_shake128f = some 17088
get_sig_len slh_dsa_shake192s = some 16224
get_sig_len slh_dsa_shake192f = some 35664
get_sig_len slh_dsa_shake256s = some 29792
get_sig_len slh_dsa_shake256f = some 49856

pub record DsaInfo : Type 0 where
  pub dsa_type : DsaType
  pub pk_byte_len : Option ℕ
  pub sk_byte_len : Option ℕ
  pub sig_byte_len : Option ℕ
  pub oid : String

-- `DsaInfo::new`.
unfoldable pub dsa_info : DsaType → DsaInfo
unfolding get_pk_len get_sk_len get_sig_len get_oid
dsa_info t = record {
  dsa_type = t;
  pk_byte_len = get_pk_len t;
  sk_byte_len = get_sk_len t;
  sig_byte_len = get_sig_len t;
  oid = get_oid t;
}
