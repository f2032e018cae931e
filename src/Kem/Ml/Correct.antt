-- ===== src/Kem/Ml/Correct.antt =====
-- kem/ml_kem.rs: encapsulation to a generated ML-KEM key against decapsulation.
use qubitcrypt.Prelude.{◌≡◌, ap, sym, subst, ◌∙◌, some, eq_of_some}
use qubitcrypt.Outcome.{Bytes, ok, ok_or, ok_or-eq-ok, invalid_public_key}
use qubitcrypt.Effect.{
  unwrapped, after-returns, after-pure-returns, pair-returns, unwrapped-returns, panic-returns,
  seeded-returns,
}
use qubitcrypt.Kem.Types.{KemType, ml_kem512, ml_kem768, ml_kem1024}
use qubitcrypt.Kem.Info.{KemInfo}
use qubitcrypt.Kem.Trait.{IsCorrect}
use qubitcrypt.Kem.Ml.{
  ParamSet, set512, set768, set1024, MlKemCrate, generate_at, encapsulate_at, decapsulate_at,
  key_gen_with_rng, encap_with, decap, ml_kem,
}

-- What the crate documents: byte forms are read back, and FIPS 203's correctness, its negligible
-- rate of decapsulation failures left out.
pub record IsLawful {R : Type 0} (c : MlKemCrate R) : Type 0 where
  pub ek_read : (p : ParamSet) (k : c.Ek p) → c.read_ek p (c.ek_bytes p k) ≡ some k
  pub dk_read : (p : ParamSet) (k : c.Dk p) → c.read_dk p (c.dk_bytes p k) ≡ some k
  pub ct_read : (p : ParamSet) (x : c.Ct p) → c.read_ct p (c.ct_bytes p x) ≡ some x
  pub agrees :
      (p : ParamSet) (r r₁ : R) (out : c.Ct p × Bytes)
      → (c.encapsulate p (c.generate p r).0.1 r₁).0 ≡ some out
      → c.decapsulate p (c.generate p r).0.0 out.0 ≡ some out.1

module _ {W R : Type 0} (c : MlKemCrate R) (from_entropy : W → R × W) where
  -- What an encapsulation that went through has computed.
  encapsulate-stages :
      (p : ParamSet) (pk : Bytes) (r : R) (ss ct : Bytes) (r' : R)
      → encapsulate_at c from_entropy p pk r ≡ (ok (ss, ct), r')
      → (ek : c.Ek p) × (out : c.Ct p × Bytes) × (c.read_ek p pk ≡ some ek)
        × ((c.encapsulate p ek r).0 ≡ some out)
        × (out.1 ≡ ss)
        × (c.ct_bytes p out.0 ≡ ct)
  unfolding encapsulate_at
  encapsulate-stages p pk r ss ct r' e =
      let (ek, e₀, s₀) = after-pure-returns (ok_or invalid_public_key (c.read_ek p pk)) r _ e in
      let (out, r₁, e₁, s₁) = after-returns (unwrapped (c.encapsulate p ek) r) _ s₀ in
      let (same_ss, same_ct) = pair-returns s₁ in
      (
        ek,
        out,
        ok_or-eq-ok invalid_public_key (c.read_ek p pk) e₀,
        ap (λ x. x.0) (unwrapped-returns (c.encapsulate p ek) r e₁),
        same_ss,
        same_ct,
      )

  -- A decapsulation goes through when its parts do.
  decapsulate-stages :
      (p : ParamSet) (sk ct ss : Bytes) (dk : c.Dk p) (x : c.Ct p)
      → c.read_dk p sk ≡ some dk
      → c.read_ct p ct ≡ some x
      → c.decapsulate p dk x ≡ some ss
      → decapsulate_at c from_entropy p sk ct ≡ ok ss
  unfolding decapsulate_at
  decapsulate-stages p sk ct ss dk x e₁ e₂ e₃ = rw (e₂, e₁, e₃)

module _ {W R : Type 0} (c : MlKemCrate R) (l : IsLawful c) (from_entropy : W → R × W) where
  at-Agrees :
      (p : ParamSet) (r : R) (pk sk : Bytes) (r' r₁ : R) (ss ct : Bytes) (r₂ : R)
      → generate_at c from_entropy p r ≡ (ok (pk, sk), r')
      → encapsulate_at c from_entropy p pk r₁ ≡ (ok (ss, ct), r₂)
      → decapsulate_at c from_entropy p sk ct ≡ ok ss
  unfolding generate_at
  at-Agrees p r pk sk r' r₁ ss ct r₂ made sent =
      let (same_pk, same_sk) = pair-returns made in
      let (ek, out, e₀, e₁, same_ss, same_ct) =
        encapsulate-stages c from_entropy p pk r₁ ss ct r₂ sent in
      let same_ek : ek ≡ (c.generate p r).0.1 =
        eq_of_some (sym e₀ ∙ (ap (c.read_ek p) (sym same_pk) ∙ l.ek_read p (c.generate p r).0.1)) in
      decapsulate-stages c from_entropy p sk ct ss (c.generate p r).0.0 out.0
        (ap (c.read_dk p) (sym same_sk) ∙ l.dk_read p (c.generate p r).0.0)
        (ap (c.read_ct p) (sym same_ct) ∙ l.ct_read p out.0)
        (l.agrees p r r₁ out (subst (λ k. (c.encapsulate p k r₁).0 ≡ some out) same_ek e₁)
          ∙ ap some same_ss)

  -- No encapsulation goes through at a type that is not ML-KEM, and no key is generated there: both
  -- panic. At the three ML-KEM types the decapsulation of what was encapsulated to a generated key
  -- gives the same secret.
  of_type-Agrees :
      (t : KemType) (r : R) (pk sk : Bytes) (r' r₁ : R) (ss ct : Bytes) (r₂ : R)
      → key_gen_with_rng c from_entropy t r ≡ (ok (pk, sk), r')
      → encap_with c from_entropy t pk r₁ ≡ (ok (ss, ct), r₂)
      → decap c from_entropy t sk ct ≡ ok ss
  unfolding key_gen_with_rng encap_with decap
  of_type-Agrees ml_kem512 r pk sk r' r₁ ss ct r₂ made sent =
      at-Agrees set512 r pk sk r' r₁ ss ct r₂ made sent
  of_type-Agrees ml_kem768 r pk sk r' r₁ ss ct r₂ made sent =
      at-Agrees set768 r pk sk r' r₁ ss ct r₂ made sent
  of_type-Agrees ml_kem1024 r pk sk r' r₁ ss ct r₂ made sent =
      at-Agrees set1024 r pk sk r' r₁ ss ct r₂ made sent
  of_type-Agrees _ r pk sk r' r₁ ss ct r₂ made sent = absurd (panic-returns made)

  pub ml_kem-IsCorrect : (info : KemInfo) → IsCorrect (ml_kem c from_entropy info)
  unfolding ml_kem
  ml_kem-IsCorrect info = record {
    generated = λ w pk sk w' made w₁ ss ct w₂ sent.
        of_type-Agrees info.kem_type (from_entropy w).0 pk sk _ (from_entropy w₁).0 ss ct _
          (seeded-returns from_entropy (key_gen_with_rng c from_entropy info.kem_type) w made)
          (seeded-returns from_entropy (encap_with c from_entropy info.kem_type pk) w₁ sent);
    generated_with_rng = λ r pk sk r' made w₁ ss ct w₂ sent.
        of_type-Agrees info.kem_type r pk sk r' (from_entropy w₁).0 ss ct _ made
          (seeded-returns from_entropy (encap_with c from_entropy info.kem_type pk) w₁ sent);
  }
