-- ===== src/Dsa/Rsa.antt =====
-- dsa/rsa_dsa.rs: RSA signatures, over the `rsa` crate and OpenSSL.
pub mod Correct
use qubitcrypt.Prelude.{ℕ, Bool, Option, none, some}
use qubitcrypt.Outcome.{
  Bytes, Outcome, ok, err, panic, ok_or, ◌>>=◌, not_implemented, key_pair_generation_failed,
  serialization_failed, signature_failed, signature_verification_failed, invalid_private_key,
}
use qubitcrypt.Effect
use qubitcrypt.Effect.{Eff, pure, attempt, seeded}
use qubitcrypt.Dsa.Types.{
  DsaType, rsa2048_pss_sha256, rsa2048_pkcs15_sha256, rsa3072_pss_sha512, rsa3072_pkcs15_sha512,
}
use qubitcrypt.Dsa.Info.{DsaInfo}
use qubitcrypt.Dsa.Trait.{Dsa}
use qubitcrypt.Dsa.Composite.{MessageDigest, sha256, sha512}

-- `openssl::rsa::Padding`, as far as it is named.
pub data Padding : Type 0 where
  pkcs1 pkcs1_pss : Padding

-- The `rsa` crate's generation of keys, and OpenSSL's keys, `Signer` and `Verifier`: a signer is
-- made with a digest and a padding, and for PSS with the digest of MGF1 and a salt of the digest's
-- length. `none` stands for an error of any of their calls.
pub record RsaCrates (W R : Type 0) : Type 1 where
  pub PrivKey : Type 0
  pub generate : ℕ → R → Option PrivKey × R
  pub private_to_der : PrivKey → Option Bytes
  pub public_to_der : PrivKey → Option Bytes
  pub Private : Type 0
  pub Public : Type 0
  pub SignKey : Type 0
  pub VerifyKey : Type 0
  pub private_key_from_der : Bytes → Option Private
  pub public_key_from_der : Bytes → Option Public
  pub private_pkey : Private → Option SignKey
  pub public_pkey : Public → Option VerifyKey
  pub public_key_to_der : Private → Option Bytes
  pub sign : MessageDigest → Padding → Option MessageDigest → SignKey → Bytes → W → Option Bytes × W
  pub verify :
      MessageDigest → Padding → Option MessageDigest → VerifyKey → Bytes → Bytes → Option Bool

unfoldable pub key_bits : DsaType → Outcome ℕ
key_bits rsa2048_pkcs15_sha256 = ok 2048
key_bits rsa2048_pss_sha256 = ok 2048
key_bits rsa3072_pkcs15_sha512 = ok 3072
key_bits rsa3072_pss_sha512 = ok 3072
key_bits _ = err not_implemented

-- The match of `sign` and of `verify`.
unfoldable pub hash_and_padding : DsaType → Outcome (MessageDigest × Padding)
hash_and_padding rsa2048_pkcs15_sha256 = ok (sha256, pkcs1)
hash_and_padding rsa2048_pss_sha256 = ok (sha256, pkcs1_pss)
hash_and_padding rsa3072_pkcs15_sha512 = ok (sha512, pkcs1)
hash_and_padding rsa3072_pss_sha512 = ok (sha512, pkcs1_pss)
hash_and_padding _ = panic

-- `if padding == PKCS1_PSS { set_rsa_mgf1_md(hash); … }`.
abbrev pub mgf1 : MessageDigest → Padding → Option MessageDigest
mgf1 hash pkcs1 = none
mgf1 hash pkcs1_pss = some hash

module _ {W R : Type 0} (c : RsaCrates W R) where
  unfoldable pub key_gen_with_rng : DsaType → Eff R (Bytes × Bytes)
  unfolding key_bits
  key_gen_with_rng t = Effect.◌>>=◌ (pure (key_bits t)) λ bits.
      Effect.◌>>=◌ (attempt key_pair_generation_failed (c.generate bits)) λ rpk.
        Effect.◌>>=◌ (pure (ok_or key_pair_generation_failed (c.private_to_der rpk))) λ sk.
          Effect.◌>>=◌ (pure (ok_or key_pair_generation_failed (c.public_to_der rpk)))
            λ pk. pure (ok (pk, sk))

  unfoldable pub sign : DsaType → Bytes → Bytes → Eff W Bytes
  unfolding hash_and_padding
  sign t sk msg =
      Effect.◌>>=◌ (pure (ok_or serialization_failed (c.private_key_from_der sk))) λ rsa_sk.
        Effect.◌>>=◌ (pure (ok_or signature_failed (c.private_pkey rsa_sk))) λ pkey.
          Effect.◌>>=◌ (pure (hash_and_padding t))
            λ set. attempt signature_failed (c.sign set.0 set.1 (mgf1 set.0 set.1) pkey msg)

  unfoldable pub verify : DsaType → Bytes → Bytes → Bytes → Outcome Bool
  unfolding hash_and_padding
  verify t pk msg signature = do
    rsa_pk ← ok_or serialization_failed (c.public_key_from_der pk)
    pkey ← ok_or signature_verification_failed (c.public_pkey rsa_pk)
    set ← hash_and_padding t
    ok_or signature_verification_failed (c.verify set.0 set.1 (mgf1 set.0 set.1) pkey msg signature)

  unfoldable pub get_public_key : Bytes → Outcome Bytes
  get_public_key sk = do
    rsa_sk ← ok_or invalid_private_key (c.private_key_from_der sk)
    ok_or serialization_failed (c.public_key_to_der rsa_sk)

  -- `impl Dsa for RsaDsaManager`; the manager is its `dsa_info`.
  unfoldable pub rsa_dsa : (W → R × W) → DsaInfo → Dsa W R
  unfolding key_gen_with_rng sign verify get_public_key
  rsa_dsa from_entropy info = record {
    key_gen = seeded from_entropy (key_gen_with_rng info.dsa_type);
    key_gen_with_rng = key_gen_with_rng info.dsa_type;
    sign = sign info.dsa_type;
    verify = verify info.dsa_type;
    get_dsa_info = info;
    get_public_key = get_public_key;
  }
