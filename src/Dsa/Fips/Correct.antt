-- ===== src/Dsa/Fips/Correct.antt =====
-- dsa/ml_dsa.rs and dsa/slh_dsa.rs: signing by a generated key against verification.
use qubitcrypt.Prelude.{
  eq_of_some, ℕ, ◌≡◌, refl, ap, sym, subst, ◌∙◌, true, Option, none, some, not, ◌==◌, ==_iff,
  length, if◌then◌else◌,
}
use qubitcrypt.Outcome.{
  Bytes, Outcome, ok, err, ok_or, ok_or-eq-ok, signature_failed, key_pair_generation_failed,
  invalid_private_key, not_implemented,
}
use qubitcrypt.Effect
use qubitcrypt.Effect.{
  Eff, pure, attempt, seeded, after-returns, after-pure-returns, attempt-returns, pair-returns,
  seeded-returns, err-returns,
}
use qubitcrypt.Dsa.Types.{DsaType}
use qubitcrypt.Dsa.Info.{DsaInfo}
use qubitcrypt.Dsa.Trait.{Agrees, IsCorrect}
use qubitcrypt.Dsa.Fips.{
  FipsCrate, by_set, keygen_at, sign_at, verify_at, get_public_key_at, fips_dsa,
}

-- What FIPS 204 and FIPS 205 and the crates document: the lengths of the byte forms, that they are
-- read back, and that a signature of a generated key verifies.
pub record IsLawful {P W R : Type 0} (c : FipsCrate P W R) : Type 0 where
  pub pk_length : (p : P) (k : c.Pk p) → length (c.pk_bytes p k) ≡ c.pk_len p
  pub sk_length : (p : P) (k : c.Sk p) → length (c.sk_bytes p k) ≡ c.sk_len p
  pub sig_length :
      (p : P) (k : c.Sk p) (m : Bytes) (w : W) (s : Bytes)
      → (c.try_sign p k m w).0 ≡ some s
      → length s ≡ c.sig_len p
  pub pk_read : (p : P) (k : c.Pk p) → c.try_pk p (c.pk_bytes p k) ≡ some k
  pub sk_read : (p : P) (k : c.Sk p) → c.try_sk p (c.sk_bytes p k) ≡ some k
  pub verifies :
      (p : P) (r : R) (keys : c.Pk p × c.Sk p)
      → (c.try_keygen_with_rng p r).0 ≡ some keys
      → (m : Bytes) (w : W) (s : Bytes) → (c.try_sign p keys.1 m w).0 ≡ some s
      → c.verify p keys.0 m s ≡ true
  pub public :
      (p : P) (r : R) (keys : c.Pk p × c.Sk p)
      → (c.try_keygen_with_rng p r).0 ≡ some keys
      → c.get_public_key p keys.1 ≡ keys.0

same-== : {a b : ℕ} → a ≡ b → (a == b) ≡ true
same-== {a} {b} e = (==_iff a b).1 e

module _ {P W R : Type 0} (c : FipsCrate P W R) (l : IsLawful c) where
  -- What a signature by a key of the crate has computed.
  sign_at-returns :
      (p : P) (k : c.Sk p) (msg : Bytes) (w : W) (sig : Bytes) (w' : W)
      → sign_at c p (c.sk_bytes p k) msg w ≡ (ok sig, w')
      → (c.try_sign p k msg w).0 ≡ some sig
  unfolding sign_at
  sign_at-returns p k msg w sig w' e =
      let body : W → Outcome Bytes × W = λ v.
        Effect.after (ok_or signature_failed (c.try_sk p (c.sk_bytes p k)), v)
          (λ key. attempt signature_failed (c.try_sign p key msg)) in
      let passed : body w ≡ (ok sig, w') =
        subst (λ b. (if not b then (err invalid_private_key, w) else body w) ≡ (ok sig, w'))
          (same-== (l.sk_length p k)) e in
      let (key, e₁, r₁) =
        after-pure-returns (ok_or signature_failed (c.try_sk p (c.sk_bytes p k))) w _ passed in
      let same : key ≡ k =
        eq_of_some
          (sym (ok_or-eq-ok signature_failed (c.try_sk p (c.sk_bytes p k)) e₁) ∙ l.sk_read p k) in
      subst (λ y. (c.try_sign p y msg w).0 ≡ some sig) same
        (ap (λ o. o.0) (attempt-returns signature_failed (c.try_sign p key msg) w r₁))

  verify_at-accepts :
      (p : P) (k : c.Pk p) (msg sig : Bytes)
      → length sig ≡ c.sig_len p
      → c.verify p k msg sig ≡ true
      → verify_at c p (c.pk_bytes p k) msg sig ≡ ok true
  unfolding verify_at
  verify_at-accepts p k msg sig e v =
      rw (same-== (l.pk_length p k), same-== e, l.pk_read p k, v) refl

  get_public_key_at-eq-ok :
      (p : P) (k : c.Sk p)
      → get_public_key_at c p (c.sk_bytes p k) ≡ ok (c.pk_bytes p (c.get_public_key p k))
  unfolding get_public_key_at
  get_public_key_at-eq-ok p k = rw (same-== (l.sk_length p k), l.sk_read p k) refl

  -- The keys of a generation that went through.
  keygen_at-returns :
      (p : P) (r : R) (pk sk : Bytes) (r' : R)
      → keygen_at c p r ≡ (ok (pk, sk), r')
      → (keys : c.Pk p × c.Sk p) × ((c.try_keygen_with_rng p r).0 ≡ some keys)
        × (c.pk_bytes p keys.0 ≡ pk)
        × (c.sk_bytes p keys.1 ≡ sk)
  unfolding keygen_at
  keygen_at-returns p r pk sk r' e =
      let (keys, r₁, e₁, s₁) =
        after-returns (attempt key_pair_generation_failed (c.try_keygen_with_rng p) r) _ e in
      let (same_pk, same_sk) = pair-returns s₁ in
      (
        keys,
        ap (λ o. o.0) (attempt-returns key_pair_generation_failed (c.try_keygen_with_rng p) r e₁),
        same_pk,
        same_sk,
      )

  module _ (from_entropy : W → R × W) (set : DsaType → Option P) (info : DsaInfo) where
    generated-Agrees :
        (o : Option P) (r : R) (pk sk : Bytes) (r' : R)
        → by_set o (pure (err not_implemented)) (keygen_at c) r ≡ (ok (pk, sk), r')
        → set info.dsa_type ≡ o
        → Agrees (fips_dsa c from_entropy set info) pk sk
    unfolding fips_dsa
    generated-Agrees none r pk sk r' e same = absurd (err-returns e)
    generated-Agrees (some p) r pk sk r' e same =
        let (keys, made, same_pk, same_sk) = keygen_at-returns p r pk sk r' e in
        record {
          signed = λ msg w sig w' s.
              let s' : sign_at c p (c.sk_bytes p keys.1) msg w ≡ (ok sig, w') =
                subst (λ k. sign_at c p k msg w ≡ (ok sig, w')) (sym same_sk)
                  (subst
                    (λ o.
                      by_set o (pure (err not_implemented)) (λ p. sign_at c p sk msg) w
                      ≡ (ok sig, w'))
                    same s) in
              let t = sign_at-returns p keys.1 msg w sig w' s' in
              rw (same) (
                subst (λ k. verify_at c p k msg sig ≡ ok true) same_pk
                  (verify_at-accepts p keys.0 msg sig (l.sig_length p keys.1 msg w sig t)
                    (l.verifies p r keys made msg w sig t)));
          public = rw (same) (
              subst (λ k. get_public_key_at c p k ≡ ok pk) same_sk
                (get_public_key_at-eq-ok p keys.1
                  ∙ (ap (λ k. ok (c.pk_bytes p k)) (l.public p r keys made) ∙ ap ok same_pk)));
        }

    -- A manager over a crate that keeps its laws is correct.
    pub fips_dsa-IsCorrect : IsCorrect (fips_dsa c from_entropy set info)
    unfolding fips_dsa
    fips_dsa-IsCorrect = record {
      generated = λ w pk sk w' made.
          generated-Agrees (set info.dsa_type) (from_entropy w).0 pk sk _
            (seeded-returns from_entropy
              (by_set (set info.dsa_type) (pure (err not_implemented)) (keygen_at c)) w made)
            refl;
      generated_with_rng =
          λ r pk sk r' made. generated-Agrees (set info.dsa_type) r pk sk r' made refl;
    }

    -- Whatever the parameter sets, lawful crate, manager and message, if the manager generates
    -- (pk, sk) from the machine's entropy and signs the message with sk, then verifying the signature
    -- with pk gives true; the checks of lengths stand in no valid signature's way.
    pub fips_verify-sign :
        (w : W) (pk sk : Bytes) (w₁ : W)
        → (fips_dsa c from_entropy set info).key_gen w ≡ (ok (pk, sk), w₁)
        → (msg : Bytes) (w₂ : W) (sig : Bytes) (w₃ : W)
        → (fips_dsa c from_entropy set info).sign sk msg w₂ ≡ (ok sig, w₃)
        → (fips_dsa c from_entropy set info).verify pk msg sig ≡ ok true
    fips_verify-sign w pk sk w₁ made = (fips_dsa-IsCorrect.generated w pk sk w₁ made).signed

    -- Whatever the parameter sets, lawful crate and manager, if the manager generates (pk, sk), then
    -- the public key that it computes from sk is pk.
    pub fips_get_public_key-key_gen :
        (w : W) (pk sk : Bytes) (w₁ : W)
        → (fips_dsa c from_entropy set info).key_gen w ≡ (ok (pk, sk), w₁)
        → (fips_dsa c from_entropy set info).get_public_key sk ≡ ok pk
    fips_get_public_key-key_gen w pk sk w₁ made =
        (fips_dsa-IsCorrect.generated w pk sk w₁ made).public
