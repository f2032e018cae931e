-- ===== src/Kem/Info.antt =====
-- kem/common/config/{pk_len,sk_len,ct_len,ss_len}.rs and kem/common/kem_info.rs: the byte lengths
-- that the crate publishes for each KEM, and the record that a manager carries.
use qubitcrypt.Prelude.{ℕ, ◌+◌, String, Option, none, some}
use qubitcrypt.Kem.Types.{
  KemType, get_oid, p256, p384, x25519, brainpool_p256r1, brainpool_p384r1, x448, rsa_oaep2048,
  rsa_oaep3072, rsa_oaep4096, ml_kem512, ml_kem768, ml_kem1024, ml_kem512_p256,
  ml_kem512_brainpool_p256r1, ml_kem512_x25519, ml_kem512_rsa2048, ml_kem512_rsa3072,
  ml_kem768_p256, ml_kem768_rsa2048, ml_kem768_rsa3072, ml_kem768_rsa4096, ml_kem768_x25519,
  ml_kem768_p384, ml_kem768_brainpool_p256r1, ml_kem1024_p384, ml_kem1024_brainpool_p384r1,
  ml_kem1024_x448, xwing,
}

unfoldable pub get_pk_len : KemType → Option ℕ
get_pk_len p256 = some 65
get_pk_len p384 = some 97
get_pk_len x25519 = some 32
get_pk_len brainpool_p256r1 = some 65
get_pk_len brainpool_p384r1 = some 97
get_pk_len x448 = some 56
get_pk_len ml_kem512 = some 800
get_pk_len ml_kem768 = some 1184
get_pk_len ml_kem1024 = some 1568
get_pk_len rsa_oaep2048 = some 270
get_pk_len rsa_oaep3072 = some 398
get_pk_len rsa_oaep4096 = some 526
get_pk_len ml_kem512_p256 = some (800 + 65 + 12)
get_pk_len ml_kem512_brainpool_p256r1 = some (800 + 65 + 12)
get_pk_len ml_kem512_x25519 = some (800 + 32 + 12)
get_pk_len ml_kem512_rsa2048 = some (800 + 270 + 14)
get_pk_len ml_kem512_rsa3072 = some (800 + 398 + 14)
get_pk_len ml_kem768_p256 = some (1184 + 65 + 12)
get_pk_len ml_kem768_brainpool_p256r1 = some (1184 + 65 + 12)
get_pk_len ml_kem768_x25519 = some (1184 + 32 + 12)
get_pk_len ml_kem1024_p384 = some (1568 + 97 + 12)
get_pk_len ml_kem1024_brainpool_p384r1 = some (1568 + 97 + 12)
get_pk_len ml_kem1024_x448 = some (1568 + 56 + 12)
get_pk_len ml_kem768_rsa2048 = some (1184 + 270 + 14)
get_pk_len ml_kem768_rsa3072 = some (1184 + 398 + 14)
get_pk_len ml_kem768_rsa4096 = some (1184 + 526 + 14)
get_pk_len ml_kem768_p384 = some (1184 + 97 + 12)
get_pk_len xwing = some 1216

unfoldable pub get_sk_len : KemType → Option ℕ
get_sk_len p256 = some 32
get_sk_len p384 = some 48
get_sk_len x25519 = some 32
get_sk_len brainpool_p256r1 = some 32
get_sk_len brainpool_p384r1 = some 48
get_sk_len x448 = some 56
get_sk_len ml_kem512 = some 1632
get_sk_len ml_kem768 = some 2400
get_sk_len ml_kem1024 = some 3168
get_sk_len rsa_oaep2048 = none
get_sk_len rsa_oaep3072 = none
get_sk_len rsa_oaep4096 = none
get_sk_len ml_kem512_p256 = some (1632 + 32 + 24 + (65 + 6) + 19 + 4)
get_sk_len ml_kem512_brainpool_p256r1 = some (1632 + 32 + 24 + (65 + 6) + 19 + 4)
get_sk_len ml_kem512_x25519 = some (1632 + 32 + 24 + (32 + 11) + 14 + 4)
get_sk_len ml_kem512_rsa2048 = none
get_sk_len ml_kem512_rsa3072 = none
get_sk_len ml_kem768_p256 = some (2400 + 32 + 24 + (65 + 6) + 19 + 4)
get_sk_len ml_kem768_brainpool_p256r1 = some (2400 + 32 + 24 + (65 + 6) + 19 + 4)
get_sk_len ml_kem768_x25519 = some (2400 + 32 + 24 + (32 + 11) + 14 + 4)
get_sk_len ml_kem1024_p384 = some (3168 + 48 + 24 + (97 + 10) + 16 + 4)
get_sk_len ml_kem1024_brainpool_p384r1 = some (3168 + 48 + 24 + (97 + 7) + 19 + 4)
get_sk_len ml_kem1024_x448 = some (3168 + 56 + 24 + (56 + 12) + 14 + 4)
get_sk_len ml_kem768_rsa2048 = none
get_sk_len ml_kem768_rsa3072 = none
get_sk_len ml_kem768_rsa4096 = none
get_sk_len ml_kem768_p384 = some (2400 + 48 + 24 + (97 + 10) + 16 + 4)
get_sk_len xwing = some 32

unfoldable pub get_ct_len : KemType → Option ℕ
get_ct_len p256 = some 65
get_ct_len p384 = some 97
get_ct_len x25519 = some 32
get_ct_len brainpool_p256r1 = some 65
get_ct_len brainpool_p384r1 = some 97
get_ct_len x448 = some 56
get_ct_len rsa_oaep2048 = some 256
get_ct_len rsa_oaep3072 = some 384
get_ct_len rsa_oaep4096 = some 512
get_ct_len ml_kem512 = some 768
get_ct_len ml_kem768 = some 1088
get_ct_len ml_kem1024 = some 1568
get_ct_len ml_kem512_p256 = some (768 + 65 + 10)
get_ct_len ml_kem512_brainpool_p256r1 = some (768 + 65 + 10)
get_ct_len ml_kem512_x25519 = some (768 + 32 + 10)
get_ct_len ml_kem512_rsa2048 = some (768 + 256 + 12)
get_ct_len ml_kem512_rsa3072 = some (768 + 384 + 12)
get_ct_len ml_kem768_p256 = some (1088 + 65 + 10)
get_ct_len ml_kem768_brainpool_p256r1 = some (1088 + 65 + 10)
get_ct_len ml_kem768_x25519 = some (1088 + 32 + 10)
get_ct_len ml_kem1024_p384 = some (1568 + 97 + 10)
get_ct_len ml_kem1024_brainpool_p384r1 = some (1568 + 97 + 10)
get_ct_len ml_kem1024_x448 = some (1568 + 56 + 10)
get_ct_len ml_kem768_rsa2048 = some (1088 + 256 + 12)
get_ct_len ml_kem768_rsa3072 = some (1088 + 384 + 12)
get_ct_len ml_kem768_rsa4096 = some (1088 + 512 + 12)
get_ct_len ml_kem768_p384 = some (1088 + 97 + 10)
get_ct_len xwing = some 1120

unfoldable pub get_ss_len : KemType → ℕ
get_ss_len p256 = 32
get_ss_len p384 = 48
get_ss_len x25519 = 32
get_ss_len brainpool_p256r1 = 32
get_ss_len brainpool_p384r1 = 48
get_ss_len x448 = 56
get_ss_len rsa_oaep2048 = 32
get_ss_len rsa_oaep3072 = 32
get_ss_len rsa_oaep4096 = 32
get_ss_len ml_kem512 = 32
get_ss_len ml_kem768 = 32
get_ss_len ml_kem1024 = 32
get_ss_len ml_kem512_p256 = 32
get_ss_len ml_kem512_brainpool_p256r1 = 32
get_ss_len ml_kem512_x25519 = 32
get_ss_len ml_kem512_rsa2048 = 32
get_ss_len ml_kem512_rsa3072 = 32
get_ss_len ml_kem768_p256 = 48
get_ss_len ml_kem768_brainpool_p256r1 = 48
get_ss_len ml_kem768_x25519 = 48
get_ss_len ml_kem1024_p384 = 64
get_ss_len ml_kem1024_brainpool_p384r1 = 64
get_ss_len ml_kem1024_x448 = 64
get_ss_len ml_kem768_rsa2048 = 32
get_ss_len ml_kem768_rsa3072 = 32
get_ss_len ml_kem768_rsa4096 = 32
get_ss_len ml_kem768_p384 = 48
get_ss_len xwing = 32

pub record KemInfo : Type 0 where
  pub kem_type : KemType
  pub ss_byte_len : ℕ
  pub pk_byte_len : Option ℕ
  pub sk_byte_len : Option ℕ
  pub ct_byte_len : Option ℕ
  pub oid : String

-- `KemInfo::new`.
unfoldable pub kem_info : KemType → KemInfo
unfolding get_ss_len get_pk_len get_sk_len get_ct_len get_oid
kem_info t = record {
  kem_type = t;
  ss_byte_len = get_ss_len t;
  pk_byte_len = get_pk_len t;
  sk_byte_len = get_sk_len t;
  ct_byte_len = get_ct_len t;
  oid = get_oid t;
}
