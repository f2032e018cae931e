-- ===== src/Dsa/Composite/Correct.antt =====
-- dsa/composite_dsa.rs: signing by a generated composite key against verification.
use qubitcrypt.Prelude.{◌≡◌, some, sym, ap, subst, refl, ◌∙◌}
use qubitcrypt.Outcome.{Bytes, ok, >>=-returns, unwrap-eq-ok, ok-injective}
use qubitcrypt.Effect.{after-returns, after-pure-returns}
use qubitcrypt.Asn1.Der.{Der, IsLawful}
use qubitcrypt.Asn1.CompositePublicKey
use qubitcrypt.Dsa.Info.{DsaInfo}
use qubitcrypt.Dsa.Trait.{Dsa, Agrees, IsCorrect}
use qubitcrypt.Dsa.Signature
use qubitcrypt.Dsa.Signature.{signature-round_trip}
use qubitcrypt.Dsa.Composite.{
  MessageDigest, Hasher, pre_hash, key_gen, key_gen_with_rng, secret_keys, encode_signature, sign,
  get_public_key, dsa,
}
use qubitcrypt.Dsa.Composite.Keys.{Holds, key_gen_composite-Holds}
use qubitcrypt.Dsa.Composite.Verify.{verify_iff}

module _ (d : Der) (hasher : Hasher) {W R : Type 0} (info : DsaInfo) (trad pq : Dsa W R)
    (kdf : MessageDigest) where
  -- What a signature that went through has computed.
  sign-stages :
      (sk msg : Bytes) (w : W) (sig : Bytes) (w' : W)
      → sign d hasher info trad pq kdf sk msg w ≡ (ok sig, w')
      → (m : Bytes) × (sks : Bytes × Bytes) × (t_sig : Bytes) × (w₁ : W) × (pq_sig : Bytes)
        × (w₂ : W) × (c : d.BitString × d.BitString) × (pre_hash d hasher info kdf msg ≡ ok m)
        × (secret_keys d hasher info trad pq kdf sk ≡ ok sks)
        × (trad.sign sks.0 m w ≡ (ok t_sig, w₁))
        × (pq.sign sks.1 m w₁ ≡ (ok pq_sig, w₂))
        × (Signature.new d pq_sig t_sig ≡ ok c)
        × (d.encode_bit_strings c ≡ some sig)
  unfolding sign encode_signature
  sign-stages sk msg w sig w' e =
      let (m, e₁, r₁) = after-pure-returns (pre_hash d hasher info kdf msg) w _ e in
      let (sks, e₂, r₂) = after-pure-returns (secret_keys d hasher info trad pq kdf sk) w _ r₁ in
      let (t_sig, w₁, e₃, r₃) = after-returns (trad.sign sks.0 m w) _ r₂ in
      let (pq_sig, w₂, e₄, r₄) = after-returns (pq.sign sks.1 m w₁) _ r₃ in
      let (c, e₅, r₅) = >>=-returns (Signature.new d pq_sig t_sig) _ (ap (λ p. p.0) r₄) in
      (
        m,
        sks,
        t_sig,
        w₁,
        pq_sig,
        w₂,
        c,
        e₁,
        e₂,
        e₃,
        e₄,
        e₅,
        unwrap-eq-ok (d.encode_bit_strings c) r₅,
      )

module _ (d : Der) (l : IsLawful d) (hasher : Hasher) {W R : Type 0} (info : DsaInfo)
    (trad pq : Dsa W R) (kdf : MessageDigest) where
  -- Keys that hold agreeing keys of the two parts agree.
  Holds-Agrees :
      (t_pk t_sk pq_pk pq_sk pk sk : Bytes)
      → Agrees trad t_pk t_sk
      → Agrees pq pq_pk pq_sk
      → Holds d l hasher info trad pq kdf t_pk t_sk pq_pk pq_sk pk sk
      → Agrees (dsa d hasher info trad pq kdf) pk sk
  unfolding dsa get_public_key CompositePublicKey.new
  Holds-Agrees t_pk t_sk pq_pk pq_sk pk sk at ap' held = record {
    signed = λ msg w sig w' e.
        let (m, sks, t_sig, w₁, pq_sig, w₂, c, e₁, e₂, e₃, e₄, e₅, e₆) =
          sign-stages d hasher info trad pq kdf sk msg w sig w' e in
        let same : sks ≡ (t_sk, pq_sk) = ok-injective (sym e₂ ∙ held.secret) in
        let (f₁, f₂, f₃) = signature-round_trip d l pq_sig t_sig sig c e₅ e₆ in
        (verify_iff d hasher info trad pq kdf pk msg sig).1 (record {
          hashed = m;
          key = CompositePublicKey.new info.oid pq_pk t_pk;
          parts = c;
          trad_sig = t_sig;
          pq_sig = pq_sig;
          hashes = e₁;
          reads_key = held.public;
          reads_signature = f₁;
          reads_trad = f₃;
          reads_pq = f₂;
          trad_accepts =
              at.signed m w t_sig w₁ (subst (λ x. trad.sign x.0 m w ≡ (ok t_sig, w₁)) same e₃);
          pq_accepts =
              ap'.signed m w₁ pq_sig w₂ (subst (λ x. pq.sign x.1 m w₁ ≡ (ok pq_sig, w₂)) same e₄);
        });
    public = rw (held.secret, at.public, ap'.public, held.encodes) refl;
  }

  -- A composite signature of two correct ones is correct.
  pub composite_dsa-IsCorrect :
      IsCorrect trad → IsCorrect pq → IsCorrect (dsa d hasher info trad pq kdf)
  unfolding dsa key_gen key_gen_with_rng
  composite_dsa-IsCorrect ct cp = record {
    generated = λ w pk sk w' e.
        let ((t_pk, t_sk), w₁, e₁, r₁) = after-returns (trad.key_gen w) _ e in
        let ((pq_pk, pq_sk), w₂, e₂, r₂) = after-returns (pq.key_gen w₁) _ r₁ in
        Holds-Agrees t_pk t_sk pq_pk pq_sk pk sk (ct.generated w t_pk t_sk w₁ e₁)
          (cp.generated w₁ pq_pk pq_sk w₂ e₂)
          (key_gen_composite-Holds d l hasher info trad pq kdf trad.get_dsa_info pq.get_dsa_info
            t_pk t_sk pq_pk pq_sk pk sk (ap (λ p. p.0) r₂));
    generated_with_rng = λ r pk sk r' e.
        let ((t_pk, t_sk), w₁, e₁, r₁) = after-returns (trad.key_gen_with_rng r) _ e in
        let ((pq_pk, pq_sk), w₂, e₂, r₂) = after-returns (pq.key_gen_with_rng w₁) _ r₁ in
        Holds-Agrees t_pk t_sk pq_pk pq_sk pk sk (ct.generated_with_rng r t_pk t_sk w₁ e₁)
          (cp.generated_with_rng w₁ pq_pk pq_sk w₂ e₂)
          (key_gen_composite-Holds d l hasher info trad pq kdf trad.get_dsa_info pq.get_dsa_info
            t_pk t_sk pq_pk pq_sk pk sk (ap (λ p. p.0) r₂));
  }
