-- ===== src/Kem/Ml.antt =====
-- kem/ml_kem.rs: ML-KEM over the `ml_kem` crate.
pub mod Correct
use qubitcrypt.Prelude.{Option}
use qubitcrypt.Outcome.{
  Bytes, Outcome, ok, err, panic, ok_or, ◌>>=◌, not_implemented, invalid_public_key,
  invalid_private_key, invalid_ciphertext, decap_failed,
}
use qubitcrypt.Effect
use qubitcrypt.Effect.{Eff, pure, infallible, unwrapped, seeded}
use qubitcrypt.Kem.Types.{KemType, ml_kem512, ml_kem768, ml_kem1024}
use qubitcrypt.Kem.Info.{KemInfo}
use qubitcrypt.Kem.Trait.{Kem}

-- The type parameter of `KemCore`.
pub data ParamSet : Type 0 where
  set512 set768 set1024 : ParamSet

-- The `ml_kem` crate: its key and ciphertext types, with their byte forms and the conversions from
-- slices, which refuse a wrong length. `R` is the state of a random number generator.
pub record MlKemCrate (R : Type 0) : Type 1 where
  pub Ek : ParamSet → Type 0
  pub Dk : ParamSet → Type 0
  pub Ct : ParamSet → Type 0
  pub generate : (p : ParamSet) → R → (Dk p × Ek p) × R
  pub generate_deterministic : (p : ParamSet) → Bytes → Bytes → Dk p × Ek p
  pub ek_bytes : (p : ParamSet) → Ek p → Bytes
  pub dk_bytes : (p : ParamSet) → Dk p → Bytes
  pub ct_bytes : (p : ParamSet) → Ct p → Bytes
  pub read_ek : (p : ParamSet) → Bytes → Option (Ek p)
  pub read_dk : (p : ParamSet) → Bytes → Option (Dk p)
  pub read_ct : (p : ParamSet) → Bytes → Option (Ct p)
  pub encapsulate : (p : ParamSet) → Ek p → R → Option (Ct p × Bytes) × R
  pub decapsulate : (p : ParamSet) → Dk p → Ct p → Option Bytes

module _ {W R : Type 0} (c : MlKemCrate R) (from_entropy : W → R × W) where
  -- `key_gen_ml!`, `encapsulate_ml!` with `get_encapsulation_key_obj`, and `decapsulate` with
  -- `get_decapsulation_key_obj`, each at one parameter set.
  unfoldable pub generate_at : ParamSet → Eff R (Bytes × Bytes)
  generate_at p r =
      let ((dk, ek), r') = c.generate p r in (ok (c.ek_bytes p ek, c.dk_bytes p dk), r')

  unfoldable pub encapsulate_at : ParamSet → Bytes → Eff R (Bytes × Bytes)
  encapsulate_at p pk = Effect.◌>>=◌ (pure (ok_or invalid_public_key (c.read_ek p pk))) λ ek.
      Effect.◌>>=◌ (unwrapped (c.encapsulate p ek)) λ out. pure (ok (out.1, c.ct_bytes p out.0))

  unfoldable pub decapsulate_at : ParamSet → Bytes → Bytes → Outcome Bytes
  decapsulate_at p sk ct = do
    ct' ← ok_or invalid_ciphertext (c.read_ct p ct)
    dk ← ok_or invalid_private_key (c.read_dk p sk)
    ok_or decap_failed (c.decapsulate p dk ct')

  unfoldable pub generate_deterministic_at : ParamSet → Bytes → Bytes → Bytes × Bytes
  generate_deterministic_at p seed z =
      let (dk, ek) = c.generate_deterministic p seed z in (c.ek_bytes p ek, c.dk_bytes p dk)

  unfoldable pub key_gen_deterministic : KemType → Bytes → Bytes → Outcome (Bytes × Bytes)
  unfolding generate_deterministic_at
  key_gen_deterministic ml_kem512 seed z = ok (generate_deterministic_at set512 seed z)
  key_gen_deterministic ml_kem768 seed z = ok (generate_deterministic_at set768 seed z)
  key_gen_deterministic ml_kem1024 seed z = ok (generate_deterministic_at set1024 seed z)
  key_gen_deterministic _ seed z = err not_implemented

  unfoldable pub key_gen_with_rng : KemType → Eff R (Bytes × Bytes)
  unfolding generate_at
  key_gen_with_rng ml_kem512 = generate_at set512
  key_gen_with_rng ml_kem768 = generate_at set768
  key_gen_with_rng ml_kem1024 = generate_at set1024
  key_gen_with_rng _ = pure panic

  unfoldable pub encap_with : KemType → Bytes → Eff R (Bytes × Bytes)
  unfolding encapsulate_at
  encap_with ml_kem512 pk = encapsulate_at set512 pk
  encap_with ml_kem768 pk = encapsulate_at set768 pk
  encap_with ml_kem1024 pk = encapsulate_at set1024 pk
  encap_with _ pk = pure panic

  unfoldable pub decap : KemType → Bytes → Bytes → Outcome Bytes
  unfolding decapsulate_at
  decap ml_kem512 sk ct = decapsulate_at set512 sk ct
  decap ml_kem768 sk ct = decapsulate_at set768 sk ct
  decap ml_kem1024 sk ct = decapsulate_at set1024 sk ct
  decap _ sk ct = err not_implemented

  -- `impl Kem for MlKemManager`; the manager is its `kem_info`.
  unfoldable pub ml_kem : KemInfo → Kem W R
  unfolding key_gen_with_rng encap_with decap
  ml_kem info = record {
    key_gen = seeded from_entropy (key_gen_with_rng info.kem_type);
    key_gen_with_rng = key_gen_with_rng info.kem_type;
    encap = λ pk. seeded from_entropy (encap_with info.kem_type pk);
    decap = decap info.kem_type;
    get_kem_info = info;
  }
