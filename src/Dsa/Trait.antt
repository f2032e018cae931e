-- ===== src/Dsa/Trait.antt =====
-- dsa/common/dsa_trait.rs: the trait `Dsa` as a record of operations, what its users rely on, and
-- its provided method `new_from_oid`.
use qubitcrypt.Prelude.{String, ◌≡◌, Bool, true, List, [], ◌∷◌, str_eq, if◌then◌else◌}
use qubitcrypt.Outcome.{Bytes, Outcome, ok, err, invalid_oid}
use qubitcrypt.Effect.{Eff}
use qubitcrypt.Dsa.Types.{DsaType, all, get_oid}
use qubitcrypt.Dsa.Info.{DsaInfo}

-- `W` is the machine's entropy, which a signature may draw on, `R` a caller's generator. Pairs are
-- (pk, sk); `sign` takes the key and the message, `verify` the key, the message and the signature.
pub record Dsa (W R : Type 0) : Type 0 where
  pub key_gen : Eff W (Bytes × Bytes)
  pub key_gen_with_rng : Eff R (Bytes × Bytes)
  pub sign : Bytes → Bytes → Eff W Bytes
  pub verify : Bytes → Bytes → Bytes → Outcome Bool
  pub get_dsa_info : DsaInfo
  pub get_public_key : Bytes → Outcome Bytes

module _ {W R : Type 0} where
  -- What is signed by `sk` is verified by `pk`, and `pk` is computed from `sk`.
  pub record Agrees (s : Dsa W R) (pk sk : Bytes) : Type 0 where
    pub signed :
        (msg : Bytes) (w : W) (sig : Bytes) (w' : W)
        → s.sign sk msg w ≡ (ok sig, w')
        → s.verify pk msg sig ≡ ok true
    pub public : s.get_public_key sk ≡ ok pk

  -- The pairs of keys that it generates agree.
  pub record IsCorrect (s : Dsa W R) : Type 0 where
    pub generated :
        (w : W) (pk sk : Bytes) (w' : W) → s.key_gen w ≡ (ok (pk, sk), w') → Agrees s pk sk
    pub generated_with_rng :
        (r : R) (pk sk : Bytes) (r' : R) → s.key_gen_with_rng r ≡ (ok (pk, sk), r') → Agrees s pk sk

module _ {M : Type 0} (new : DsaType → Outcome M) where
  -- The loop of `new_from_oid`.
  unfoldable pub new_of : List DsaType → String → Outcome M
  new_of [] oid = err invalid_oid
  new_of (t ∷ ts) oid = if str_eq (get_oid t) oid then new t else new_of ts oid

  unfoldable pub new_from_oid : String → Outcome M
  unfolding new_of all get_oid
  new_from_oid oid = new_of all oid
