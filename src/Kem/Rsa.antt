-- ===== src/Kem/Rsa.antt =====
-- kem/rsa_kem.rs: RSA-OAEP as a KEM, over the `rsa` crate.
pub mod Correct
use qubitcrypt.Prelude.{ℕ, Option}
use qubitcrypt.Outcome.{
  Bytes, Outcome, ok, err, ok_or, ◌>>=◌, not_implemented, key_pair_generation_failed,
  invalid_public_key, invalid_private_key, encap_failed, decap_failed,
}
use qubitcrypt.Effect
use qubitcrypt.Effect.{Eff, pure, attempt, infallible, seeded}
use qubitcrypt.Kem.Types.{KemType, rsa_oaep2048, rsa_oaep3072, rsa_oaep4096}
use qubitcrypt.Kem.Info.{KemInfo}
use qubitcrypt.Kem.Trait.{Kem}

-- The `rsa` crate with OAEP over SHA-256, and `fill_bytes` of a generator for a number of bytes.
pub record RsaCrate (R : Type 0) : Type 1 where
  pub PrivKey : Type 0
  pub PubKey : Type 0
  pub generate : ℕ → R → Option PrivKey × R
  pub to_public_key : PrivKey → PubKey
  pub private_to_der : PrivKey → Option Bytes
  pub public_to_der : PubKey → Option Bytes
  pub private_from_der : Bytes → Option PrivKey
  pub public_from_der : Bytes → Option PubKey
  pub fill_bytes : ℕ → R → Bytes × R
  pub encrypt : PubKey → Bytes → R → Option Bytes × R
  pub decrypt : PrivKey → Bytes → Option Bytes

unfoldable pub key_bits : KemType → Outcome ℕ
key_bits rsa_oaep2048 = ok 2048
key_bits rsa_oaep3072 = ok 3072
key_bits rsa_oaep4096 = ok 4096
key_bits _ = err not_implemented

module _ {W R : Type 0} (c : RsaCrate R) (from_entropy : W → R × W) where
  unfoldable pub key_gen_with_rng : KemType → Eff R (Bytes × Bytes)
  unfolding key_bits
  key_gen_with_rng t = Effect.◌>>=◌ (pure (key_bits t)) λ bits.
      Effect.◌>>=◌ (attempt key_pair_generation_failed (c.generate bits)) λ rpk.
        Effect.◌>>=◌ (pure (ok_or key_pair_generation_failed (c.private_to_der rpk))) λ sk.
          Effect.◌>>=◌
            (pure (ok_or key_pair_generation_failed (c.public_to_der (c.to_public_key rpk))))
            λ pk. pure (ok (pk, sk))

  -- The secret is drawn before the key is read.
  unfoldable pub encap_with : Bytes → Eff R (Bytes × Bytes)
  encap_with pk = Effect.◌>>=◌ (infallible (c.fill_bytes 32)) λ ss.
      Effect.◌>>=◌ (pure (ok_or invalid_public_key (c.public_from_der pk)))
        λ key. Effect.◌>>=◌ (attempt encap_failed (c.encrypt key ss)) λ ct. pure (ok (ss, ct))

  unfoldable pub decap : Bytes → Bytes → Outcome Bytes
  decap sk ct = do
    key ← ok_or invalid_private_key (c.private_from_der sk)
    ok_or decap_failed (c.decrypt key ct)

  -- `impl Kem for RsaKemManager`; the manager is its `kem_info`.
  unfoldable pub rsa_kem : KemInfo → Kem W R
  unfolding key_gen_with_rng encap_with decap
  rsa_kem info = record {
    key_gen = seeded from_entropy (key_gen_with_rng info.kem_type);
    key_gen_with_rng = key_gen_with_rng info.kem_type;
    encap = λ pk. seeded from_entropy (encap_with pk);
    decap = decap;
    get_kem_info = info;
  }
