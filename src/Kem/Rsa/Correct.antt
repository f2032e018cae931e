-- ===== src/Kem/Rsa/Correct.antt =====
-- kem/rsa_kem.rs: encapsulation to a generated RSA key against decapsulation.
use qubitcrypt.Prelude.{◌≡◌, ap, sym, subst, ◌∙◌, some, eq_of_some}
use qubitcrypt.Outcome.{
  Bytes, ok, ok_or, ok_or-eq-ok, invalid_public_key, key_pair_generation_failed, encap_failed,
}
use qubitcrypt.Effect.{
  attempt, after-returns, after-pure-returns, pair-returns, attempt-returns, seeded-returns,
}
use qubitcrypt.Kem.Types.{KemType}
use qubitcrypt.Kem.Info.{KemInfo}
use qubitcrypt.Kem.Trait.{IsCorrect}
use qubitcrypt.Kem.Rsa.{RsaCrate, key_bits, key_gen_with_rng, encap_with, decap, rsa_kem}

-- What the crate documents: DER forms are read back, and decryption undoes encryption.
pub record IsLawful {R : Type 0} (c : RsaCrate R) : Type 0 where
  pub private_read :
      (k : c.PrivKey) (b : Bytes) → c.private_to_der k ≡ some b → c.private_from_der b ≡ some k
  pub public_read :
      (k : c.PubKey) (b : Bytes) → c.public_to_der k ≡ some b → c.public_from_der b ≡ some k
  pub decrypts :
      (k : c.PrivKey) (m ct : Bytes) (r r' : R)
      → c.encrypt (c.to_public_key k) m r ≡ (some ct, r')
      → c.decrypt k ct ≡ some m

module _ {W R : Type 0} (c : RsaCrate R) (from_entropy : W → R × W) where
  key_gen-stages :
      (t : KemType) (r : R) (pk sk : Bytes) (r' : R)
      → key_gen_with_rng c from_entropy t r ≡ (ok (pk, sk), r')
      → (k : c.PrivKey) × (c.private_to_der k ≡ some sk)
        × (c.public_to_der (c.to_public_key k) ≡ some pk)
  unfolding key_gen_with_rng
  key_gen-stages t r pk sk r' e =
      let (bits, e₀, s₀) = after-pure-returns (key_bits t) r _ e in
      let (k, r₁, e₁, s₁) =
        after-returns (attempt key_pair_generation_failed (c.generate bits) r) _ s₀ in
      let (sk', e₂, s₂) =
        after-pure-returns (ok_or key_pair_generation_failed (c.private_to_der k)) r₁ _ s₁ in
      let (pk', e₃, s₃) =
        after-pure-returns (ok_or key_pair_generation_failed (c.public_to_der (c.to_public_key k)))
          r₁ _ s₂ in
      let (same_pk, same_sk) = pair-returns s₃ in
      (
        k,
        ok_or-eq-ok key_pair_generation_failed (c.private_to_der k) e₂ ∙ ap some same_sk,
        ok_or-eq-ok key_pair_generation_failed (c.public_to_der (c.to_public_key k)) e₃
            ∙ ap some same_pk,
      )

  encap-stages :
      (pk : Bytes) (r : R) (ss ct : Bytes) (r' : R)
      → encap_with c from_entropy pk r ≡ (ok (ss, ct), r')
      → (key : c.PubKey) × (r₁ : R) × (r₂ : R) × (c.public_from_der pk ≡ some key)
        × (c.encrypt key ss r₁ ≡ (some ct, r₂))
  unfolding encap_with
  encap-stages pk r ss ct r' e =
      let ss' : Bytes = (c.fill_bytes 32 r).0 in
      let r₁ : R = (c.fill_bytes 32 r).1 in
      let (key, e₁, s₁) =
        after-pure-returns (ok_or invalid_public_key (c.public_from_der pk)) r₁ _ e in
      let (ct', r₂, e₂, s₂) = after-returns (attempt encap_failed (c.encrypt key ss') r₁) _ s₁ in
      let (same_ss, same_ct) = pair-returns s₂ in
      (
        key,
        r₁,
        r₂,
        ok_or-eq-ok invalid_public_key (c.public_from_der pk) e₁,
        subst (λ x. c.encrypt key x r₁ ≡ (some ct, r₂)) same_ss
            (subst (λ x. c.encrypt key ss' r₁ ≡ (some x, r₂)) same_ct
              (attempt-returns encap_failed (c.encrypt key ss') r₁ e₂)),
      )

  decap-stages :
      (sk ct ss : Bytes) (k : c.PrivKey)
      → c.private_from_der sk ≡ some k
      → c.decrypt k ct ≡ some ss
      → decap c from_entropy sk ct ≡ ok ss
  unfolding decap
  decap-stages sk ct ss k e₁ e₂ = rw (e₁, e₂)

module _ {W R : Type 0} (c : RsaCrate R) (l : IsLawful c) (from_entropy : W → R × W) where
  of_type-Agrees :
      (t : KemType) (r : R) (pk sk : Bytes) (r' r₁ : R) (ss ct : Bytes) (r₂ : R)
      → key_gen_with_rng c from_entropy t r ≡ (ok (pk, sk), r')
      → encap_with c from_entropy pk r₁ ≡ (ok (ss, ct), r₂)
      → decap c from_entropy sk ct ≡ ok ss
  of_type-Agrees t r pk sk r' r₁ ss ct r₂ made sent =
      let (k, e₁, e₂) = key_gen-stages c from_entropy t r pk sk r' made in
      let (key, r₃, r₄, f₁, f₂) = encap-stages c from_entropy pk r₁ ss ct r₂ sent in
      let same_key : key ≡ c.to_public_key k =
        eq_of_some (sym f₁ ∙ l.public_read (c.to_public_key k) pk e₂) in
      decap-stages c from_entropy sk ct ss k (l.private_read k sk e₁)
        (l.decrypts k ss ct r₃ r₄ (subst (λ x. c.encrypt x ss r₃ ≡ (some ct, r₄)) same_key f₂))

  pub rsa_kem-IsCorrect : (info : KemInfo) → IsCorrect (rsa_kem c from_entropy info)
  unfolding rsa_kem
  rsa_kem-IsCorrect info = record {
    generated = λ w pk sk w' made w₁ ss ct w₂ sent.
        of_type-Agrees info.kem_type (from_entropy w).0 pk sk _ (from_entropy w₁).0 ss ct _
          (seeded-returns from_entropy (key_gen_with_rng c from_entropy info.kem_type) w made)
          (seeded-returns from_entropy (encap_with c from_entropy pk) w₁ sent);
    generated_with_rng = λ r pk sk r' made w₁ ss ct w₂ sent.
        of_type-Agrees info.kem_type r pk sk r' (from_entropy w₁).0 ss ct _ made
          (seeded-returns from_entropy (encap_with c from_entropy pk) w₁ sent);
  }
