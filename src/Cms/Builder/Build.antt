-- ===== src/Cms/Builder/Build.antt =====
-- cms/enveloped_data_builder.rs: what a builder of messages builds.
use qubitcrypt.Prelude.{
  Bool, true, false, not, String, Option, none, List, [], ◌∷◌, ◌++◌, if◌then◌else◌,
}
use qubitcrypt.Outcome
use qubitcrypt.Outcome.{
  Bytes, Outcome, ok, err, ok_or, unsupported_content_encryption_algorithm, invalid_attribute,
  unsupported_operation, invalid_certificate, empty_content, unknown, file_write_error,
}
use qubitcrypt.Effect.{Eff, pure, ◌>>=◌, map_error, attempt, infallible}
use qubitcrypt.Cms.{Crypto, EnvelopedData}
use qubitcrypt.Cms.Kemri.{KemRecipientInfoBuilder}
use qubitcrypt.Cms.Sealed.{
  ContentEncryptionAlgorithmAead, AeadOids, RecipientBuilder, kem, foreign,
  AuthEnvelopedDataBuilder, seal,
}
use qubitcrypt.Cms.Builder.{
  Done, Foreign, EnvelopedDataBuilder, cbc_of, aead_of, ContentEncryptionAlgorithm,
}

module _ {W R : Type 0} (e : Crypto W R) where
  -- `AuthEnvelopedDataBuilder::new` and `add_recipient_info`, and the loops that call it.
  unfoldable pub auth_new :
      EnvelopedDataBuilder e → ContentEncryptionAlgorithmAead → AuthEnvelopedDataBuilder e
  auth_new b cea = record {
    content_id = none;
    originator_info = b.originator_info;
    recipient_infos = [];
    unencrypted_content = b.plaintext;
    content_encryption_algorithm = cea;
    auth_attributes = b.auth_attributes;
    unauth_attributes = b.unprotected_attributes;
  }

  unfoldable pub add_recipient_info :
      AuthEnvelopedDataBuilder e → RecipientBuilder e → AuthEnvelopedDataBuilder e
  add_recipient_info b r = record {
    content_id = b.content_id;
    originator_info = b.originator_info;
    recipient_infos = b.recipient_infos ++ (r ∷ []);
    unencrypted_content = b.unencrypted_content;
    content_encryption_algorithm = b.content_encryption_algorithm;
    auth_attributes = b.auth_attributes;
    unauth_attributes = b.unauth_attributes;
  }

  unfoldable pub add_kemris :
      AuthEnvelopedDataBuilder e → List (KemRecipientInfoBuilder e) → AuthEnvelopedDataBuilder e
  unfolding add_recipient_info
  add_kemris b [] = b
  add_kemris b (r ∷ rs) = add_kemris (add_recipient_info b (kem r)) rs

  unfoldable pub add_foreigns :
      AuthEnvelopedDataBuilder e → List (Foreign e) → AuthEnvelopedDataBuilder e
  unfolding add_recipient_info
  add_foreigns b [] = b
  add_foreigns b (r ∷ rs) = add_foreigns (add_recipient_info b (foreign r)) rs

  -- The six loops of `build_auth_enveloped`.
  unfoldable pub add_all :
      AuthEnvelopedDataBuilder e → EnvelopedDataBuilder e → AuthEnvelopedDataBuilder e
  unfolding add_kemris add_foreigns
  add_all a b =
      add_foreigns
        (add_foreigns
          (add_foreigns
            (add_foreigns (add_foreigns (add_kemris a b.kemri_builders) b.kek_builders)
              b.ktri_builders)
            b.kari_builders)
          b.pwri_builders)
        b.ori_builders

  unfoldable pub build_auth_enveloped : AeadOids → EnvelopedDataBuilder e → Eff W Bytes
  unfolding aead_of auth_new add_all seal
  build_auth_enveloped ids b = do
    cea ← pure (aead_of b.cea_type)
    enveloped_data ← seal e ids (add_all (auth_new b cea) b)
    pure (ok_or unknown (e.codecs.encode_auth_enveloped enveloped_data))

  -- `cms::builder::EnvelopedDataBuilder`, with the DER of what it builds, and `std::fs::write`.
  pub record Envelopes : Type 1 where
    pub Builder : Type 0
    pub new :
        Option e.codecs.Originator
        → Bytes
        → ContentEncryptionAlgorithm
        → Option e.codecs.Attributes
        → Option Builder
    pub add_recipient_info : Builder → RecipientBuilder e → Option Builder
    pub build_with_rng :
        Builder
        → R
        → Eff W (EnvelopedData e.kems.der e.contents e.codecs.Originator e.codecs.Attributes)
    pub to_der :
        EnvelopedData e.kems.der e.contents e.codecs.Originator e.codecs.Attributes → Option Bytes
    pub write : String → Bytes → W → Option Done × W

  module _ (v : Envelopes) where
    -- The loops of `build_enveloped`.
    unfoldable pub envelope_kemris :
        v.Builder → List (KemRecipientInfoBuilder e) → Outcome v.Builder
    envelope_kemris b [] = ok b
    envelope_kemris b (r ∷ rs) =
        Outcome.◌>>=◌ (ok_or unknown (v.add_recipient_info b (kem r))) (λ c. envelope_kemris c rs)

    unfoldable pub envelope_foreigns : v.Builder → List (Foreign e) → Outcome v.Builder
    envelope_foreigns b [] = ok b
    envelope_foreigns b (r ∷ rs) =
        Outcome.◌>>=◌ (ok_or unknown (v.add_recipient_info b (foreign r)))
          (λ c. envelope_foreigns c rs)

    unfoldable pub build_enveloped : EnvelopedDataBuilder e → Eff W Bytes
    unfolding cbc_of envelope_kemris envelope_foreigns
    build_enveloped b = do
      cea ← pure (cbc_of b.cea_type)
      b₀ ← pure (ok_or unknown (v.new b.originator_info b.plaintext cea b.unprotected_attributes))
      b₁ ← pure (envelope_kemris b₀ b.kemri_builders)
      b₂ ← pure (envelope_foreigns b₁ b.kek_builders)
      b₃ ← pure (envelope_foreigns b₂ b.ktri_builders)
      b₄ ← pure (envelope_foreigns b₃ b.kari_builders)
      b₅ ← pure (envelope_foreigns b₄ b.pwri_builders)
      b₆ ← pure (envelope_foreigns b₅ b.ori_builders)
      rng ← infallible e.kems.from_entropy
      enveloped_data ← map_error unknown (v.build_with_rng b₆ rng)
      pure (ok_or unknown (v.to_der enveloped_data))

    abbrev pub is_empty : Bytes → Bool
    is_empty [] = true
    is_empty (_ ∷ _) = false

    unfoldable pub build : AeadOids → EnvelopedDataBuilder e → Eff W Bytes
    unfolding build_enveloped build_auth_enveloped
    build ids b = if is_empty b.plaintext then pure (err empty_content) else (do
      message ← (if not b.is_auth_enveloped then build_enveloped b else build_auth_enveloped ids b)
      content ← pure (ok_or unknown (e.contents.any_from_der message))
      pure (
          ok_or unknown (
            e.codecs.encode_content_info (
              (if b.is_auth_enveloped
                  then e.codecs.id_ct_auth_enveloped_data
                  else e.codecs.id_enveloped_data),
              content,
            ))))

    unfoldable pub build_to_file : AeadOids → EnvelopedDataBuilder e → String → Eff W Done
    unfolding build
    build_to_file ids b file_path = do
      message ← build ids b
      attempt file_write_error (v.write file_path message)
