-- ===== src/Cms/Content/Read.antt =====
-- cms/asn1/auth_enveloped_data_content.rs and cms/asn1/enveloped_data_content.rs: what is read of a
-- message of the builder, and of bytes that are no DER.
use qubitcrypt.Prelude.{
  ◌≡◌, refl, sym, ap, ◌∙◌, Bool, true, false, not, Option, none, Memᴰ, if◌then◌else◌, arith,
}
use qubitcrypt.Outcome.{
  >>=-returns, Bytes, Outcome, ok, err, ok_or, ok-injective, QubitCryptError, invalid_content,
  invalid_enveloped_data,
}
use qubitcrypt.Kem.Algorithm.{KemAlgorithm}
use qubitcrypt.Keys.PublicKey.{PublicKey}
use qubitcrypt.Keys.PrivateKey.{PrivateKey}
use qubitcrypt.Keys.Generators.{kem_generate}
use qubitcrypt.Certificate.{Certificate, get_subject_key_identifier}
use qubitcrypt.Cms.{Crypto, x509}
use qubitcrypt.Cms.Kemri.{KemRecipientInfoBuilder}
use qubitcrypt.Cms.Kemri.Recovered.{IsLawful}
use qubitcrypt.Cms.Kemri.Opened.{Addresses}
use qubitcrypt.Cms.Decrypt.{decrypt_kemri}
use qubitcrypt.Cms.Sealed.{AeadOids, kem}
use qubitcrypt.Cms.Sealed.Built.{seal-Sealing}
use qubitcrypt.Cms.Sealed.Roundtrip.{IsEncoder, OthersDiffer}
use qubitcrypt.Cms.Builder.{EnvelopedDataBuilder}
use qubitcrypt.Cms.Builder.Build.{Envelopes, build}
use qubitcrypt.Cms.Builder.Ordered.{recipients, to_seal}
use qubitcrypt.Cms.Builder.Delivered.{IsWrapping, build-stages, sealed-in, decrypt_kemri-build}
use qubitcrypt.Cms.Content.{
  EnvelopedDataContent, AuthEnvelopedDataContent, or_pem, from_bytes_for_kem_recipient,
  auth_from_bytes_for_kem_recipient,
}

-- A test whose failure is an error was passed.
guarded-returns :
    {A : Type 0} (b : Bool) (x : QubitCryptError) (rest : Outcome A) {a : A}
    → (if not b then err x else rest) ≡ ok a
    → rest ≡ ok a
guarded-returns true x rest h = h
guarded-returns false x rest h = absurd (ground arith)

module _ {W R : Type 0} (e : Crypto W R) where
  decrypt_kemri-none :
      (bytes : Bytes) (sk : PrivateKey) (cert : Certificate)
      → e.codecs.decode_content_info bytes ≡ none
      → decrypt_kemri e bytes sk cert ≡ err invalid_enveloped_data
  unfolding decrypt_kemri
  decrypt_kemri-none bytes sk cert h = rw (h) refl

  module _ (pem_parse : Bytes → Option Bytes) where
    -- What is read has the content that decryption of the bytes gives.
    from_bytes-decrypted :
        (bytes : Bytes) (cert : Certificate) (sk : PrivateKey) (x : EnvelopedDataContent e)
        → from_bytes_for_kem_recipient e pem_parse bytes cert sk ≡ ok x
        → decrypt_kemri e bytes sk cert ≡ ok x.content
    unfolding from_bytes_for_kem_recipient
    from_bytes-decrypted bytes cert sk x h =
        let (ci, e₁, r₁) =
          >>=-returns (or_pem e pem_parse bytes (e.codecs.decode_content_info bytes)) _ h in
        let r₂ =
          guarded-returns (e.codecs.same_oid ci.0 e.codecs.id_enveloped_data) invalid_content _
            r₁ in
        let (der, e₃, r₃) =
          >>=-returns (ok_or invalid_enveloped_data (e.contents.any_to_der ci.1)) _ r₂ in
        let (ed, e₄, r₄) =
          >>=-returns (ok_or invalid_content (e.codecs.decode_enveloped der)) _ r₃ in
        let (text, e₅, r₅) = >>=-returns (decrypt_kemri e bytes sk cert) _ r₄ in
        e₅ ∙ ap (λ c. ok c.content) (ok-injective r₅)

    auth_from_bytes-decrypted :
        (bytes : Bytes) (cert : Certificate) (sk : PrivateKey) (x : AuthEnvelopedDataContent e)
        → auth_from_bytes_for_kem_recipient e pem_parse bytes cert sk ≡ ok x
        → decrypt_kemri e bytes sk cert ≡ ok x.content
    unfolding auth_from_bytes_for_kem_recipient
    auth_from_bytes-decrypted bytes cert sk x h =
        let (ci, e₁, r₁) =
          >>=-returns (or_pem e pem_parse bytes (e.codecs.decode_content_info bytes)) _ h in
        let r₂ =
          guarded-returns (e.codecs.same_oid ci.0 e.codecs.id_ct_auth_enveloped_data)
            invalid_content _ r₁ in
        let (der, e₃, r₃) =
          >>=-returns (ok_or invalid_enveloped_data (e.contents.any_to_der ci.1)) _ r₂ in
        let (ed, e₄, r₄) =
          >>=-returns (ok_or invalid_content (e.codecs.decode_auth_enveloped der)) _ r₃ in
        let (text, e₅, r₅) = >>=-returns (decrypt_kemri e bytes sk cert) _ r₄ in
        e₅ ∙ ap (λ c. ok c.content) (ok-injective r₅)

    -- Bytes that are not the DER of a message are read by neither from_bytes_for_kem_recipient, whatever
    -- PEM they are.
    pub from_bytes-not_der :
        (bytes : Bytes) (cert : Certificate) (sk : PrivateKey)
        → e.codecs.decode_content_info bytes ≡ none
        → ((x : EnvelopedDataContent e)
            → from_bytes_for_kem_recipient e pem_parse bytes cert sk ≡ ok x
            → ⊥)
          × ((x : AuthEnvelopedDataContent e)
              → auth_from_bytes_for_kem_recipient e pem_parse bytes cert sk ≡ ok x
              → ⊥)
    from_bytes-not_der bytes cert sk h =
        let refused = sym (decrypt_kemri-none bytes sk cert h) in
        (
          λ x r. err-ok (refused ∙ from_bytes-decrypted bytes cert sk x r),
          λ x r. err-ok (refused ∙ auth_from_bytes-decrypted bytes cert sk x r),
        )
      where
        err-ok : {y : QubitCryptError} {a : Bytes} → err y ≡ ok a → ⊥
        err-ok h = ground arith

  module _ (l : IsLawful e) (m : IsEncoder e) (n : IsWrapping e) where
    -- If the key generator of a KEM algorithm gives (pk, sk), and a builder of an authenticated message has
    -- KEM recipients, one of them made for a certificate with pk, the others for certificates with another
    -- subject key identifier, and builds a message, then from_bytes_for_kem_recipient of the message with
    -- that certificate and sk gives the content, the attributes of both kinds and the originator of the
    -- builder.
    pub auth_from_bytes-build :
        (a : KemAlgorithm) (w : W) (pk : PublicKey) (sk : PrivateKey) (w₁ : W)
        → kem_generate e.kems a w ≡ (ok (pk, sk), w₁)
        → (v : Envelopes e) (ids : AeadOids) (b : EnvelopedDataBuilder e)
          (r : KemRecipientInfoBuilder e) (skid : Bytes)
        → b.is_auth_enveloped ≡ true
        → Addresses e r pk
        → get_subject_key_identifier (x509 e) r.cert ≡ ok skid
        → Memᴰ (kem r) (recipients e b)
        → OthersDiffer e r skid (recipients e b)
        → (w₂ : W) (bytes : Bytes) (w₃ : W) → build e v ids b w₂ ≡ (ok bytes, w₃)
        → (pem_parse : Bytes → Option Bytes)
        → (x : AuthEnvelopedDataContent e) × (auth_from_bytes_for_kem_recipient e pem_parse bytes
              r.cert sk
            ≡ ok x)
          × (x.content ≡ b.plaintext)
          × (x.auth_attrs ≡ b.auth_attributes)
          × (x.unprotected_attrs ≡ b.unprotected_attributes)
          × (x.originator_info ≡ b.originator_info)
    unfolding auth_from_bytes_for_kem_recipient or_pem to_seal
    auth_from_bytes-build a w pk sk w₁ generated v ids b r skid auth to own among differ w₂ bytes w₃
          built pem_parse =
        let decrypted =
          decrypt_kemri-build e l m n a w pk sk w₁ generated v ids b r skid auth to own among differ
            w₂ bytes w₃ built in
        let (message, u, content, e₁, e₂, e₃) = build-stages e v ids b auth w₂ bytes w₃ built in
        let (cea, ed, u', f₁, f₂) = sealed-in e ids b w₂ message u e₁ in
        let made = seal-Sealing e ids (to_seal e b cea (recipients e b)) w₂ ed u' f₁ in
        (
          record {
            version = ed.version;
            originator_info = ed.originator_info;
            recip_infos = ed.recip_infos;
            content = b.plaintext;
            unprotected_attrs = ed.unauth_attrs;
            auth_attrs = ed.auth_attrs;
          },
          rw
              (
                n.info (e.codecs.id_ct_auth_enveloped_data, content) bytes e₃,
                l.contents.any message content e₂,
                n.auth,
                m.auth_enveloped ed message f₂,
                decrypted,
              )
              refl,
          refl,
          sym made.attributes,
          sym made.unprotected,
          sym made.originator,
        )
