-- ===== src/Kem/Trait.antt =====
-- kem/common/kem_trait.rs: the trait `Kem` as a record of operations, what its users rely on, and
-- its provided method `new_from_oid`.
use qubitcrypt.Prelude.{String, ◌≡◌, List, [], ◌∷◌, str_eq, if◌then◌else◌}
use qubitcrypt.Outcome.{Bytes, Outcome, ok, err, invalid_oid}
use qubitcrypt.Effect.{Eff}
use qubitcrypt.Kem.Types.{KemType, all, get_oid}
use qubitcrypt.Kem.Info.{KemInfo}

-- `W` is the machine's entropy, `R` a caller's generator. Pairs are (pk, sk) and (ss, ct).
pub record Kem (W R : Type 0) : Type 0 where
  pub key_gen : Eff W (Bytes × Bytes)
  pub key_gen_with_rng : Eff R (Bytes × Bytes)
  pub encap : Bytes → Eff W (Bytes × Bytes)
  pub decap : Bytes → Bytes → Outcome Bytes
  pub get_kem_info : KemInfo

module _ {W R : Type 0} where
  -- Whatever is encapsulated to `pk` is decapsulated by `sk` to the same secret.
  abbrev pub Agrees : Kem W R → Bytes → Bytes → Type 0
  Agrees k pk sk =
      (w : W) (ss ct : Bytes) (w' : W) → k.encap pk w ≡ (ok (ss, ct), w') → k.decap sk ct ≡ ok ss

  -- The pairs of keys that it generates agree.
  pub record IsCorrect (k : Kem W R) : Type 0 where
    pub generated :
        (w : W) (pk sk : Bytes) (w' : W) → k.key_gen w ≡ (ok (pk, sk), w') → Agrees k pk sk
    pub generated_with_rng :
        (r : R) (pk sk : Bytes) (r' : R) → k.key_gen_with_rng r ≡ (ok (pk, sk), r') → Agrees k pk sk

module _ {M : Type 0} (new : KemType → Outcome M) where
  -- The loop of `new_from_oid`.
  unfoldable pub new_of : List KemType → String → Outcome M
  new_of [] oid = err invalid_oid
  new_of (t ∷ ts) oid = if str_eq (get_oid t) oid then new t else new_of ts oid

  unfoldable pub new_from_oid : String → Outcome M
  unfolding new_of all get_oid
  new_from_oid oid = new_of all oid
