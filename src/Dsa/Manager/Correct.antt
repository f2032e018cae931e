-- ===== src/Dsa/Manager/Correct.antt =====
-- dsa/dsa_manager.rs: signing by a key of any manager against verification.
use qubitcrypt.Prelude.{◌≡◌, true}
use qubitcrypt.Outcome.{Bytes, ok}
use qubitcrypt.Asn1.Der
use qubitcrypt.Dsa.Trait.{IsCorrect}
use qubitcrypt.Dsa.Fips.{ml_set, slh_set}
use qubitcrypt.Dsa.Fips.Correct as Fips
use qubitcrypt.Dsa.Fips.Correct.{fips_dsa-IsCorrect}
use qubitcrypt.Utils.Filled.{dsa_utils}
use qubitcrypt.Utils.Lawful as Openssl
use qubitcrypt.Utils.Signed.{ReadsEd, dsa_utils-IsLawful}
use qubitcrypt.Dsa.Rsa.Correct as Rsa
use qubitcrypt.Dsa.Rsa.Correct.{rsa_dsa-IsCorrect}
use qubitcrypt.Dsa.Ec.Correct.{ec_dsa-IsCorrect}
use qubitcrypt.Dsa.Composite.Correct.{composite_dsa-IsCorrect}
use qubitcrypt.Dsa.Manager.{DsaManager, ml, rsa, ec, composite, slh, Primitives, operations}

-- The documented laws of the code outside the crate.
pub record IsLawful {W R : Type 0} (p : Primitives W R) : Type 0 where
  pub der : Der.IsLawful p.der
  pub fips204 : Fips.IsLawful p.fips204
  pub fips205 : Fips.IsLawful p.fips205
  pub rsa_crates : Rsa.IsLawful p.rsa_crates
  pub openssl : Openssl.IsLawful p.openssl
  pub generate_ed : ReadsEd p.openssl p.generate_ed

module _ {W R : Type 0} (p : Primitives W R) (l : IsLawful p) where
  -- Every manager is correct.
  pub dsa_operations-IsCorrect : (m : DsaManager) → IsCorrect (operations p m)
  unfolding operations
  dsa_operations-IsCorrect (ml info) =
      fips_dsa-IsCorrect p.fips204 l.fips204 p.from_entropy ml_set info
  dsa_operations-IsCorrect (rsa info) =
      rsa_dsa-IsCorrect p.rsa_crates l.rsa_crates p.from_entropy info
  dsa_operations-IsCorrect (ec m) =
      ec_dsa-IsCorrect (dsa_utils p.candidates p.openssl p.generate_ed)
        (dsa_utils-IsLawful p.openssl l.openssl p.candidates p.generate_ed l.generate_ed) m
  dsa_operations-IsCorrect (composite info trad pq md) =
      composite_dsa-IsCorrect p.der l.der p.hasher info (operations p trad) (operations p pq) md
        (dsa_operations-IsCorrect trad) (dsa_operations-IsCorrect pq)
  dsa_operations-IsCorrect (slh info) =
      fips_dsa-IsCorrect p.fips205 l.fips205 p.from_entropy slh_set info

  -- Whatever the signature manager, if it generates (pk, sk) from the machine's entropy and signs a
  -- message with sk, then verifying the signature of that message with pk gives true.
  pub manager_verify-sign :
      (m : DsaManager) (w : W) (pk sk : Bytes) (w₁ : W)
      → (operations p m).key_gen w ≡ (ok (pk, sk), w₁)
      → (msg : Bytes) (w₂ : W) (sig : Bytes) (w₃ : W)
      → (operations p m).sign sk msg w₂ ≡ (ok sig, w₃)
      → (operations p m).verify pk msg sig ≡ ok true
  manager_verify-sign m w pk sk w₁ made =
      ((dsa_operations-IsCorrect m).generated w pk sk w₁ made).signed
