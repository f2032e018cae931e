-- ===== src/Kem/Manager/Correct.antt =====
-- kem/kem_manager.rs: encapsulation to a key of any manager against decapsulation.
use qubitcrypt.Prelude.{◌≡◌}
use qubitcrypt.Outcome.{Bytes, ok}
use qubitcrypt.Asn1.Der
use qubitcrypt.Kem.Trait.{IsCorrect}
use qubitcrypt.Kem.Ml.Correct as Ml
use qubitcrypt.Kem.Ml.Correct.{ml_kem-IsCorrect}
use qubitcrypt.Kem.Ec.Correct.{ec_kem-IsCorrect}
use qubitcrypt.Utils.Filled.{kem_utils}
use qubitcrypt.Utils.Lawful as Openssl
use qubitcrypt.Utils.Exchanged.{kem_utils-IsLawful}
use qubitcrypt.Kem.Rsa.Correct as Rsa
use qubitcrypt.Kem.Rsa.Correct.{rsa_kem-IsCorrect}
use qubitcrypt.Kem.Composite.Correct.{composite_kem-IsCorrect}
use qubitcrypt.Kem.Manager.{KemManager, ml, rsa, ec, composite, Primitives, operations}

-- The documented laws of the code outside the crate.
pub record IsLawful {W R : Type 0} (p : Primitives W R) : Type 0 where
  pub der : Der.IsLawful p.der
  pub ml_kem_crate : Ml.IsLawful p.ml_kem_crate
  pub openssl : Openssl.IsLawful p.openssl
  pub rsa_crate : Rsa.IsLawful p.rsa_crate

module _ {W R : Type 0} (p : Primitives W R) (l : IsLawful p) where
  -- Every manager is correct.
  operations-IsCorrect : (m : KemManager) → IsCorrect (operations p m)
  unfolding operations
  operations-IsCorrect (ml info) =
      ml_kem-IsCorrect p.ml_kem_crate l.ml_kem_crate p.from_entropy info
  operations-IsCorrect (rsa info) = rsa_kem-IsCorrect p.rsa_crate l.rsa_crate p.from_entropy info
  operations-IsCorrect (ec m) =
      ec_kem-IsCorrect (kem_utils p.candidates p.openssl)
        (kem_utils-IsLawful p.openssl l.openssl p.candidates) m
  operations-IsCorrect (composite info trad pq k) =
      composite_kem-IsCorrect p.der l.der p.hashes info (operations p trad) (operations p pq) k
        (operations-IsCorrect trad) (operations-IsCorrect pq)

  -- Whatever the manager, if it generates (pk, sk) from the machine's entropy and encapsulates to
  -- pk with the outcome (ss, ct), then decapsulating ct with sk gives ss.
  pub decap-encap :
      (m : KemManager) (w : W) (pk sk : Bytes) (w₁ : W)
      → (operations p m).key_gen w ≡ (ok (pk, sk), w₁)
      → (w₂ : W) (ss ct : Bytes) (w₃ : W) → (operations p m).encap pk w₂ ≡ (ok (ss, ct), w₃)
      → (operations p m).decap sk ct ≡ ok ss
  decap-encap m w pk sk w₁ made = (operations-IsCorrect m).generated w pk sk w₁ made

  -- Whatever the manager, if it generates (pk, sk) from a caller's generator and encapsulates to pk
  -- with the outcome (ss, ct), then decapsulating ct with sk gives ss.
  decap-encap_with_rng :
      (m : KemManager) (r : R) (pk sk : Bytes) (r₁ : R)
      → (operations p m).key_gen_with_rng r ≡ (ok (pk, sk), r₁)
      → (w : W) (ss ct : Bytes) (w₁ : W) → (operations p m).encap pk w ≡ (ok (ss, ct), w₁)
      → (operations p m).decap sk ct ≡ ok ss
  decap-encap_with_rng m r pk sk r₁ made =
      (operations-IsCorrect m).generated_with_rng r pk sk r₁ made
