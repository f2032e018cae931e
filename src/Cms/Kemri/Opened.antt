-- ===== src/Cms/Kemri/Opened.antt =====
-- cms/asn1/kemri_builder.rs against cms/cms_util.rs: which private keys open the recipient that a
-- builder builds.
use qubitcrypt.Prelude.{
  ◌≡◌, refl, sym, ap, ◌∙◌, subst, false, inl, inr, same_bytes, same_bytes_eq, Bool-cases,
}
use qubitcrypt.Outcome.{
  Bytes, Outcome, ok, err, map_err, >>=-returns, map_err-eq-ok, ok-injective, unknown,
  invalid_certificate,
}
use qubitcrypt.Effect.{after-returns, after-pure-returns, map_error-returns}
use qubitcrypt.Kem.Trait as KemTrait
use qubitcrypt.Kem.Algorithm.{KemAlgorithm}
use qubitcrypt.Kem.Manager as KemManager
use qubitcrypt.Kem.Manager.{kem_manager}
use qubitcrypt.Keys.PublicKey.{PublicKey}
use qubitcrypt.Keys.PrivateKey.{PrivateKey}
use qubitcrypt.Keys.Generators.{kem_generate}
use qubitcrypt.Keys.Agreement.{keys_decap-encap, kem_generate-is_kem, encap-manager}
use qubitcrypt.Certificate.{Certificate, get_subject_key_identifier, get_public_key}
use qubitcrypt.Store.{subject_key_identifier}
use qubitcrypt.Kdf as Kdf
use qubitcrypt.Kdf.{KdfType}
use qubitcrypt.Wrap as Wrap
use qubitcrypt.Wrap.{WrapType}
use qubitcrypt.Cms.{Crypto, x509, OtherRecipientInfo, ori, Recipient}
use qubitcrypt.Cms.Kemri.{
  Oid, Any, is_identified_by, open_kemri, get_cek, KemRecipientInfoBuilder, wrap_cek,
  encode_recipient, build,
}
use qubitcrypt.Cms.Kemri.Recovered.{
  IsLawful, wrap_cek-stages, encode_recipient-Encoded, get_cek-encode_recipient,
}

-- The builder is for this public key, with a derivation and a wrapping of the crate's.
pub record Addresses {W R : Type 0} (e : Crypto W R) (b : KemRecipientInfoBuilder e)
    (pk : PublicKey) : Type 0 where
  pub public_key : get_public_key (x509 e) b.cert ≡ ok pk
  pub kem : KemTrait.new_from_oid kem_manager pk.oid ≡ ok b.kem
  pub kdf_type : KdfType
  pub kdf_oid : b.kdf_oid ≡ Kdf.get_oid kdf_type
  pub wrap_type : WrapType
  pub wrap_oid : b.wrap_oid ≡ Wrap.get_oid wrap_type

-- The outcome for a recipient of which the holder of the key gets `r`.
abbrev pub Yields :
    {W R : Type 0} (e : Crypto W R)
    → Recipient e.kems.der e.contents
    → PrivateKey
    → Certificate
    → Outcome Bytes
    → Type 0
Yields e ri sk cert r =
    (o : OtherRecipientInfo (Oid e) (Any e)) × (ri ≡ ori o) × (get_cek e o sk cert ≡ r)

module _ {W R : Type 0} (e : Crypto W R) (b : KemRecipientInfoBuilder e) where
  build-stages :
      (cek : Bytes) (w : W) (ri : Recipient e.kems.der e.contents) (w' : W)
      → build e b cek w ≡ (ok ri, w')
      → (pk : PublicKey) × (ss : Bytes) × (ct : Bytes) × (v : W) × (t : WrapType)
        × (wrapped : Bytes) × (get_public_key (x509 e) b.cert ≡ ok pk)
        × ((KemManager.operations e.kems b.kem).encap pk.key w ≡ (ok (ss, ct), v))
        × (wrap_cek e b cek ss ≡ ok (t, wrapped))
        × (encode_recipient e b (Wrap.wrap_info t).key_length wrapped ct ≡ ok ri)
  unfolding build
  build-stages cek w ri w' h =
      let (pk, e₁, r₁) =
        after-pure-returns (map_err unknown (get_public_key (x509 e) b.cert)) w _ h in
      let (out, v, e₂, r₂) = after-returns _ _ r₁ in
      let (key, e₃, r₃) = >>=-returns (wrap_cek e b cek out.0) _ (ap (λ x. x.0) r₂) in
      (
        pk,
        out.0,
        out.1,
        v,
        key.0,
        key.1,
        map_err-eq-ok unknown _ e₁,
        map_error-returns unknown ((KemManager.operations e.kems b.kem).encap pk.key w) e₂,
        e₃,
        r₃,
      )

  module _ (l : IsLawful e) where
    -- If the key generator of a KEM algorithm gives (pk, sk), and a builder that is made for a certificate
    -- with pk builds a recipient for a content key, then the holder of sk and of the certificate gets the
    -- content key from the recipient.
    pub get_cek-build :
        (a : KemAlgorithm) (w : W) (pk : PublicKey) (sk : PrivateKey) (w₁ : W)
        → kem_generate e.kems a w ≡ (ok (pk, sk), w₁)
        → Addresses e b pk
        → (cek : Bytes) (w₂ : W) (ri : Recipient e.kems.der e.contents) (w₃ : W)
        → build e b cek w₂ ≡ (ok ri, w₃)
        → Yields e ri sk b.cert (ok cek)
    get_cek-build a w pk sk w₁ generated to cek w₂ ri w₃ built =
        let (pk', ss, ct, v, t, wrapped, e₁, e₂, e₃, e₄) = build-stages cek w₂ ri w₃ built in
        let same : pk' ≡ pk = ok-injective (sym e₁ ∙ to.public_key) in
        let sent =
          encap-manager e.kems pk b.kem w₂ (kem_generate-is_kem e.kems a w pk sk w₁ generated)
            to.kem
          ∙ subst (λ k. (KemManager.operations e.kems b.kem).encap k.key w₂ ≡ (ok (ss, ct), v)) same
              e₂ in
        let opens = keys_decap-encap e.kems l.kems a w pk sk w₁ generated w₂ ss ct v sent in
        let (kek, found, derived, back) = wrap_cek-stages e l b cek ss t wrapped e₃ in
        get_cek-encode_recipient e l b t to.kdf_type to.wrap_type sk cek ss ct kek wrapped ri
          to.kdf_oid to.wrap_oid
          (encode_recipient-Encoded e l b (Wrap.wrap_info t).key_length wrapped ct ri e₄) opens
          found derived back

    other-identified :
        (cert : Certificate) (s t : Bytes)
        → get_subject_key_identifier (x509 e) cert ≡ ok s
        → (t ≡ s → ⊥)
        → is_identified_by e cert (subject_key_identifier t) ≡ ok false
    unfolding is_identified_by
    other-identified cert s t own other = elim (Bool-cases (same_bytes s t)) [
      | inl same ↦ absurd (other (sym (same_bytes_eq s t same)))
      | inr differ ↦ rw (own, differ) refl
    ]

    -- A recipient that a builder builds is refused with `InvalidCertificate` to the holder of a
    -- certificate with another subject key identifier than that of the builder's.
    pub get_cek-build_other :
        (cert : Certificate) (s : Bytes)
        → get_subject_key_identifier (x509 e) cert ≡ ok s
        → (get_subject_key_identifier (x509 e) b.cert ≡ ok s → ⊥)
        → (sk : PrivateKey) (cek : Bytes) (w : W) (ri : Recipient e.kems.der e.contents) (w' : W)
        → build e b cek w ≡ (ok ri, w')
        → Yields e ri sk cert (err invalid_certificate)
    unfolding get_cek open_kemri
    get_cek-build_other cert s own other sk cek w ri w' built =
        let (pk, ss, ct, v, t, wrapped, e₁, e₂, e₃, e₄) = build-stages cek w ri w' built in
        let r = encode_recipient-Encoded e l b (Wrap.wrap_info t).key_length wrapped ct ri e₄ in
        let differs : r.skid ≡ s → ⊥ = λ same. other (r.identifies ∙ ap ok same) in
        (
          r.value,
          r.is_ori,
          rw (r.reads, r.decodes, r.rid, other-identified cert s r.skid own differs) refl,
        )
