-- ===== src/Dsa/Fips.antt =====
-- dsa/ml_dsa.rs and dsa/slh_dsa.rs: ML-DSA over the `fips204` crate and SLH-DSA over `fips205`. The
-- two files have the same macros over the same traits, so the crate is a parameter with its type of
-- parameter sets.
pub mod Correct
use qubitcrypt.Prelude.{ℕ, Bool, Option, none, some, not, ◌==◌, length, if◌then◌else◌}
use qubitcrypt.Outcome.{
  Bytes, Outcome, ok, err, ok_or, ◌>>=◌, not_implemented, invalid_public_key, invalid_private_key,
  invalid_signature, signature_failed, key_pair_generation_failed,
}
use qubitcrypt.Effect
use qubitcrypt.Effect.{Eff, pure, attempt, seeded}
use qubitcrypt.Dsa.Types.{
  DsaType, ml_dsa44, ml_dsa65, ml_dsa87, slh_dsa_sha2_128s, slh_dsa_sha2_128f, slh_dsa_sha2_192s,
  slh_dsa_sha2_192f, slh_dsa_sha2_256s, slh_dsa_sha2_256f, slh_dsa_shake128s, slh_dsa_shake128f,
  slh_dsa_shake192s, slh_dsa_shake192f, slh_dsa_shake256s, slh_dsa_shake256f,
}
use qubitcrypt.Dsa.Info.{DsaInfo}
use qubitcrypt.Dsa.Trait.{Dsa}

-- A module of the crate per parameter set: its lengths, its keys with their byte forms, whose
-- conversions take arrays of the right length, and the traits `Signer` and `Verifier` with an empty
-- context. Signing draws on the machine's entropy.
pub record FipsCrate (P W R : Type 0) : Type 1 where
  pub Pk : P → Type 0
  pub Sk : P → Type 0
  pub pk_len : P → ℕ
  pub sk_len : P → ℕ
  pub sig_len : P → ℕ
  pub try_keygen_with_rng : (p : P) → R → Option (Pk p × Sk p) × R
  pub pk_bytes : (p : P) → Pk p → Bytes
  pub sk_bytes : (p : P) → Sk p → Bytes
  pub try_pk : (p : P) → Bytes → Option (Pk p)
  pub try_sk : (p : P) → Bytes → Option (Sk p)
  pub try_sign : (p : P) → Sk p → Bytes → W → Option Bytes × W
  pub verify : (p : P) → Pk p → Bytes → Bytes → Bool
  pub get_public_key : (p : P) → Sk p → Pk p

pub data MlSet : Type 0 where
  set44 set65 set87 : MlSet

pub data SlhSet : Type 0 where
  sha2_128s sha2_128f sha2_192s sha2_192f sha2_256s sha2_256f : SlhSet
  shake_128s shake_128f shake_192s shake_192f shake_256s shake_256f : SlhSet

-- The matches on the type, which are the same in every operation of a file.
unfoldable pub ml_set : DsaType → Option MlSet
ml_set ml_dsa44 = some set44
ml_set ml_dsa65 = some set65
ml_set ml_dsa87 = some set87
ml_set _ = none

unfoldable pub slh_set : DsaType → Option SlhSet
slh_set slh_dsa_sha2_128s = some sha2_128s
slh_set slh_dsa_sha2_128f = some sha2_128f
slh_set slh_dsa_sha2_192s = some sha2_192s
slh_set slh_dsa_sha2_192f = some sha2_192f
slh_set slh_dsa_sha2_256s = some sha2_256s
slh_set slh_dsa_sha2_256f = some sha2_256f
slh_set slh_dsa_shake128s = some shake_128s
slh_set slh_dsa_shake128f = some shake_128f
slh_set slh_dsa_shake192s = some shake_192s
slh_set slh_dsa_shake192f = some shake_192f
slh_set slh_dsa_shake256s = some shake_256s
slh_set slh_dsa_shake256f = some shake_256f
slh_set _ = none

-- `match dsa_type { … => f!(set), _ => Err(NotImplemented) }`.
abbrev pub by_set : {P X : Type 0} → Option P → X → (P → X) → X
by_set none otherwise f = otherwise
by_set (some p) otherwise f = f p

module _ {P W R : Type 0} (c : FipsCrate P W R) where
  -- The macros, at one parameter set.
  unfoldable pub keygen_at : P → Eff R (Bytes × Bytes)
  keygen_at p =
      Effect.◌>>=◌ (attempt key_pair_generation_failed (c.try_keygen_with_rng p))
        λ keys. pure (ok (c.pk_bytes p keys.0, c.sk_bytes p keys.1))

  unfoldable pub sign_at : P → Bytes → Bytes → Eff W Bytes
  sign_at p sk msg w =
      if not (length sk == c.sk_len p)
      then (err invalid_private_key, w)
      else Effect.◌>>=◌ (pure (ok_or signature_failed (c.try_sk p sk)))
          (λ key. attempt signature_failed (c.try_sign p key msg)) w

  unfoldable pub verify_at : P → Bytes → Bytes → Bytes → Outcome Bool
  verify_at p pk msg signature =
      if not (length pk == c.pk_len p)
      then err invalid_public_key
      else if not (length signature == c.sig_len p)
      then err invalid_signature
      else (do key ← ok_or invalid_public_key (c.try_pk p pk); ok (c.verify p key msg signature))

  unfoldable pub get_public_key_at : P → Bytes → Outcome Bytes
  get_public_key_at p sk = if not (length sk == c.sk_len p) then err invalid_private_key else (do
    key ← ok_or invalid_private_key (c.try_sk p sk)
    ok (c.pk_bytes p (c.get_public_key p key)))

  -- `impl Dsa for MlDsaManager` with `ml_set` and `impl Dsa for SlhDsaManager` with `slh_set`; a
  -- manager is its `dsa_info`.
  unfoldable pub fips_dsa : (W → R × W) → (DsaType → Option P) → DsaInfo → Dsa W R
  unfolding keygen_at sign_at verify_at get_public_key_at
  fips_dsa from_entropy set info = record {
    key_gen =
        seeded from_entropy (by_set (set info.dsa_type) (pure (err not_implemented)) keygen_at);
    key_gen_with_rng = by_set (set info.dsa_type) (pure (err not_implemented)) keygen_at;
    sign =
        λ sk msg. by_set (set info.dsa_type) (pure (err not_implemented)) (λ p. sign_at p sk msg);
    verify = λ pk msg signature.
        by_set (set info.dsa_type) (err not_implemented) (λ p. verify_at p pk msg signature);
    get_dsa_info = info;
    get_public_key =
        λ sk. by_set (set info.dsa_type) (err not_implemented) (λ p. get_public_key_at p sk);
  }
