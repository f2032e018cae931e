-- ===== src/Dsa/Rsa/Correct.antt =====
-- dsa/rsa_dsa.rs: signing by a generated RSA key against verification.
use qubitcrypt.Prelude.{refl, ◌≡◌, ◌∙◌, ap, true, Option, some}
use qubitcrypt.Outcome.{
  Bytes, ok, ok_or, ok_or-eq-ok, key_pair_generation_failed, serialization_failed, signature_failed,
}
use qubitcrypt.Effect.{
  attempt, after-returns, after-pure-returns, attempt-returns, pair-returns, seeded-returns,
}
use qubitcrypt.Dsa.Types.{DsaType}
use qubitcrypt.Dsa.Info.{DsaInfo}
use qubitcrypt.Dsa.Trait.{Agrees, IsCorrect}
use qubitcrypt.Dsa.Composite.{MessageDigest}
use qubitcrypt.Dsa.Rsa.{
  RsaCrates, Padding, hash_and_padding, mgf1, key_bits, key_gen_with_rng, sign, verify,
  get_public_key, rsa_dsa,
}

-- What the crate and OpenSSL document of the DER of one key: OpenSSL reads both parts, computes the
-- public one from the private one, and verifies what it signs under the same digest and padding.
pub record IsLawful {W R : Type 0} (c : RsaCrates W R) : Type 0 where
  pub reads_public :
      (k : c.PrivKey) (pk : Bytes)
      → c.public_to_der k ≡ some pk
      → (p : c.Public) × (v : c.VerifyKey) × (c.public_key_from_der pk ≡ some p)
        × (c.public_pkey p ≡ some v)
  pub derives :
      (k : c.PrivKey) (sk pk : Bytes)
      → c.private_to_der k ≡ some sk
      → c.public_to_der k ≡ some pk
      → (s : c.Private) × (c.private_key_from_der sk ≡ some s) × (c.public_key_to_der s ≡ some pk)
  pub verifies :
      (k : c.PrivKey) (sk pk : Bytes) (s : c.Private) (g : c.SignKey) (p : c.Public)
      (v : c.VerifyKey)
      → c.private_to_der k ≡ some sk
      → c.public_to_der k ≡ some pk
      → c.private_key_from_der sk ≡ some s
      → c.private_pkey s ≡ some g
      → c.public_key_from_der pk ≡ some p
      → c.public_pkey p ≡ some v
      → (md : MessageDigest) (pad : Padding) (mg : Option MessageDigest) (m : Bytes) (w : W)
        (sig : Bytes)
      → (c.sign md pad mg g m w).0 ≡ some sig
      → c.verify md pad mg v m sig ≡ some true

module _ {W R : Type 0} (c : RsaCrates W R) where
  key_gen-stages :
      (t : DsaType) (r : R) (pk sk : Bytes) (r' : R)
      → key_gen_with_rng c t r ≡ (ok (pk, sk), r')
      → (k : c.PrivKey) × (c.private_to_der k ≡ some sk) × (c.public_to_der k ≡ some pk)
  unfolding key_gen_with_rng
  key_gen-stages t r pk sk r' e =
      let (bits, e₀, s₀) = after-pure-returns (key_bits t) r _ e in
      let (k, r₁, e₁, s₁) =
        after-returns (attempt key_pair_generation_failed (c.generate bits) r) _ s₀ in
      let (sk', e₂, s₂) =
        after-pure-returns (ok_or key_pair_generation_failed (c.private_to_der k)) r₁ _ s₁ in
      let (pk', e₃, s₃) =
        after-pure-returns (ok_or key_pair_generation_failed (c.public_to_der k)) r₁ _ s₂ in
      let (same_pk, same_sk) = pair-returns s₃ in
      (
        k,
        ok_or-eq-ok key_pair_generation_failed (c.private_to_der k) e₂ ∙ ap some same_sk,
        ok_or-eq-ok key_pair_generation_failed (c.public_to_der k) e₃ ∙ ap some same_pk,
      )

  sign-stages :
      (t : DsaType) (sk msg : Bytes) (w : W) (sig : Bytes) (w' : W)
      → sign c t sk msg w ≡ (ok sig, w')
      → (s : c.Private) × (g : c.SignKey) × (set : MessageDigest × Padding)
        × (c.private_key_from_der sk ≡ some s)
        × (c.private_pkey s ≡ some g)
        × (hash_and_padding t ≡ ok set)
        × ((c.sign set.0 set.1 (mgf1 set.0 set.1) g msg w).0 ≡ some sig)
  unfolding sign
  sign-stages t sk msg w sig w' e =
      let (s, e₁, r₁) =
        after-pure-returns (ok_or serialization_failed (c.private_key_from_der sk)) w _ e in
      let (g, e₂, r₂) = after-pure-returns (ok_or signature_failed (c.private_pkey s)) w _ r₁ in
      let (set, e₃, r₃) = after-pure-returns (hash_and_padding t) w _ r₂ in
      (
        s,
        g,
        set,
        ok_or-eq-ok serialization_failed (c.private_key_from_der sk) e₁,
        ok_or-eq-ok signature_failed (c.private_pkey s) e₂,
        e₃,
        ap (λ o. o.0)
            (attempt-returns signature_failed (c.sign set.0 set.1 (mgf1 set.0 set.1) g msg) w r₃),
      )

module _ {W R : Type 0} (c : RsaCrates W R) (l : IsLawful c) (from_entropy : W → R × W) where
  of_key-Agrees :
      (info : DsaInfo) (k : c.PrivKey) (pk sk : Bytes)
      → c.private_to_der k ≡ some sk
      → c.public_to_der k ≡ some pk
      → Agrees (rsa_dsa c from_entropy info) pk sk
  unfolding rsa_dsa verify get_public_key
  of_key-Agrees info k pk sk e f = record {
    signed = λ msg w sig w' h.
        let (s, g, set, e₁, e₂, e₃, e₄) = sign-stages c info.dsa_type sk msg w sig w' h in
        let (p, v, f₁, f₂) = l.reads_public k pk f in
        let accepted =
          l.verifies k sk pk s g p v e f e₁ e₂ f₁ f₂ set.0 set.1 (mgf1 set.0 set.1) msg w sig e₄ in
        rw (f₁, f₂, e₃, accepted) refl;
    public = let (s, g₁, g₂) = l.derives k sk pk e f in rw (g₁, g₂) refl;
  }

  generated-Agrees :
      (info : DsaInfo) (r : R) (pk sk : Bytes) (r' : R)
      → key_gen_with_rng c info.dsa_type r ≡ (ok (pk, sk), r')
      → Agrees (rsa_dsa c from_entropy info) pk sk
  generated-Agrees info r pk sk r' h =
      let (k, e, f) = key_gen-stages c info.dsa_type r pk sk r' h in of_key-Agrees info k pk sk e f

  pub rsa_dsa-IsCorrect : (info : DsaInfo) → IsCorrect (rsa_dsa c from_entropy info)
  unfolding rsa_dsa
  rsa_dsa-IsCorrect info = record {
    generated = λ w pk sk w' h.
        generated-Agrees info (from_entropy w).0 pk sk _
          (seeded-returns from_entropy (key_gen_with_rng c info.dsa_type) w h);
    generated_with_rng = generated-Agrees info;
  }
