-- ===== src/Cms/Builder/Delivered.antt =====
-- cms/enveloped_data_builder.rs against cms/cms_util.rs: a message from its builder to a recipient.
use qubitcrypt.Prelude.{◌≡◌, sym, ap, ◌∙◌, true, false, Bool-cases, inl, inr, some, Memᴰ}
use qubitcrypt.Outcome.{Bytes, ok, ok_or, ok_or-eq-ok, unknown}
use qubitcrypt.Effect.{after-returns, after-pure-returns, err-returns}
use qubitcrypt.Kem.Algorithm.{KemAlgorithm}
use qubitcrypt.Keys.PublicKey.{PublicKey}
use qubitcrypt.Keys.PrivateKey.{PrivateKey}
use qubitcrypt.Keys.Generators.{kem_generate}
use qubitcrypt.Certificate.{get_subject_key_identifier}
use qubitcrypt.Cms.{Crypto, x509}
use qubitcrypt.Cms.Kemri.{KemRecipientInfoBuilder}
use qubitcrypt.Cms.Kemri.Recovered.{IsLawful}
use qubitcrypt.Cms.Kemri.Opened.{Addresses}
use qubitcrypt.Cms.Decrypt.{decrypt_kemri}
use qubitcrypt.Cms.Sealed.{AeadOids, kem, seal}
use qubitcrypt.Cms.Sealed.Roundtrip.{IsEncoder, OthersDiffer, decrypt-seal}
use qubitcrypt.Cms.Builder.{EnvelopedDataBuilder, aead_of}
use qubitcrypt.Cms.Builder.Build.{Envelopes, is_empty, build, build_auth_enveloped}
use qubitcrypt.Cms.Builder.Ordered.{recipients, to_seal, build_auth_enveloped-refines}

-- The documented laws of `ContentInfo` and of the identifiers of the two kinds of content.
pub record IsWrapping {W R : Type 0} (e : Crypto W R) : Type 0 where
  pub info :
      (x : e.kems.der.ObjectId × e.contents.Any) (b : Bytes)
      → e.codecs.encode_content_info x ≡ some b
      → e.codecs.decode_content_info b ≡ some x
  pub auth :
      e.codecs.same_oid e.codecs.id_ct_auth_enveloped_data e.codecs.id_ct_auth_enveloped_data ≡ true
  pub other :
      e.codecs.same_oid e.codecs.id_ct_auth_enveloped_data e.codecs.id_enveloped_data ≡ false

module _ {W R : Type 0} (e : Crypto W R) where
  -- The message inside of what an authenticated builder builds.
  pub build-stages :
      (v : Envelopes e) (ids : AeadOids) (b : EnvelopedDataBuilder e)
      → b.is_auth_enveloped ≡ true
      → (w : W) (bytes : Bytes) (w' : W) → build e v ids b w ≡ (ok bytes, w')
      → (message : Bytes) × (u : W) × (content : e.contents.Any) × (build_auth_enveloped e ids b w
          ≡ (ok message, u))
        × (e.contents.any_from_der message ≡ some content)
        × (e.codecs.encode_content_info (e.codecs.id_ct_auth_enveloped_data, content) ≡ some bytes)
  unfolding build
  build-stages v ids b auth w bytes w' h = elim (Bool-cases (is_empty e v b.plaintext)) [
    | inl empty ↦ absurd (err-returns (rw (empty) at h))
    | inr full ↦
        let (message, u, e₁, r₁) =
          after-returns (build_auth_enveloped e ids b w) _ (rw (full, auth) at h) in
        let (content, e₂, r₂) =
          after-pure-returns (ok_or unknown (e.contents.any_from_der message)) u _ r₁ in
        (
          message,
          u,
          content,
          e₁,
          ok_or-eq-ok unknown _ e₂,
          ok_or-eq-ok unknown _ (ap (λ x. x.0) r₂),
        )
  ]

  pub sealed-in :
      (ids : AeadOids) (b : EnvelopedDataBuilder e) (w : W) (message : Bytes) (w' : W)
      → build_auth_enveloped e ids b w ≡ (ok message, w')
      → (cea : _) × (ed : _) × (u : W) × (seal e ids (to_seal e b cea (recipients e b)) w
          ≡ (ok ed, u))
        × (e.codecs.encode_auth_enveloped ed ≡ some message)
  sealed-in ids b w message w' h =
      let (cea, e₁, r₁) =
        after-pure-returns (aead_of b.cea_type) w _
          (sym (build_auth_enveloped-refines e ids b w) ∙ h) in
      let (ed, u, e₂, r₂) = after-returns (seal e ids (to_seal e b cea (recipients e b)) w) _ r₁ in
      (cea, ed, u, e₂, ok_or-eq-ok unknown _ (ap (λ x. x.0) r₂))

  module _ (l : IsLawful e) (m : IsEncoder e) (n : IsWrapping e) where
    -- If the key generator of a KEM algorithm gives (pk, sk), and a builder of an authenticated message has
    -- KEM recipients, one of them made for a certificate with pk, the others for certificates with another
    -- subject key identifier, and builds a message, then decryption of the message with sk and that
    -- certificate gives the content of the builder.
    pub decrypt_kemri-build :
        (a : KemAlgorithm) (w : W) (pk : PublicKey) (sk : PrivateKey) (w₁ : W)
        → kem_generate e.kems a w ≡ (ok (pk, sk), w₁)
        → (v : Envelopes e) (ids : AeadOids) (b : EnvelopedDataBuilder e)
          (r : KemRecipientInfoBuilder e) (skid : Bytes)
        → b.is_auth_enveloped ≡ true
        → Addresses e r pk
        → get_subject_key_identifier (x509 e) r.cert ≡ ok skid
        → Memᴰ (kem r) (recipients e b)
        → OthersDiffer e r skid (recipients e b)
        → (w₂ : W) (bytes : Bytes) (w₃ : W) → build e v ids b w₂ ≡ (ok bytes, w₃)
        → decrypt_kemri e bytes sk r.cert ≡ ok b.plaintext
    unfolding decrypt_kemri to_seal
    decrypt_kemri-build a w pk sk w₁ generated v ids b r skid auth to own among differ w₂ bytes w₃
          built =
        let (message, u, content, e₁, e₂, e₃) = build-stages v ids b auth w₂ bytes w₃ built in
        let (cea, ed, u', f₁, f₂) = sealed-in ids b w₂ message u e₁ in
        rw
          (
            n.info (e.codecs.id_ct_auth_enveloped_data, content) bytes e₃,
            l.contents.any message content e₂,
            n.other,
            n.auth,
          )
          (decrypt-seal e l m a w pk sk w₁ generated ids (to_seal e b cea (recipients e b)) r skid
            to own among differ w₂ ed u' f₁ message f₂)
