-- ===== src/Cms/Builder/Ordered.antt =====
-- cms/enveloped_data_builder.rs: `build_auth_enveloped` against one list of recipients.
use qubitcrypt.Prelude.{none, ◌≡◌, refl, sym, ap, ◌∙◌, List, [], ◌∷◌, ◌++◌, map}
use mathlib.Core.List.{append-nil, append_assoc}
use qubitcrypt.Outcome.{ok_or, unknown}
use qubitcrypt.Effect.{pure, ◌>>=◌}
use qubitcrypt.Cms.{Crypto}
use qubitcrypt.Cms.Kemri.{KemRecipientInfoBuilder}
use qubitcrypt.Cms.Sealed.{
  ContentEncryptionAlgorithmAead, AeadOids, RecipientBuilder, kem, foreign,
  AuthEnvelopedDataBuilder, seal,
}
use qubitcrypt.Cms.Builder.{Foreign, EnvelopedDataBuilder, aead_of}
use qubitcrypt.Cms.Builder.Build.{
  auth_new, add_recipient_info, add_kemris, add_foreigns, add_all, build_auth_enveloped,
}

module _ {W R : Type 0} (e : Crypto W R) where
  -- All recipients: those with KEM keys, then the other kinds in their order, each in the order in
  -- which they were added.
  unfoldable pub recipients : EnvelopedDataBuilder e → List (RecipientBuilder e)
  recipients b =
      map kem b.kemri_builders
      ++ map foreign (
          b.kek_builders
          ++ (b.ktri_builders ++ (b.kari_builders ++ (b.pwri_builders ++ b.ori_builders))))

  -- The message to seal, in one step.
  unfoldable pub to_seal :
      EnvelopedDataBuilder e
      → ContentEncryptionAlgorithmAead
      → List (RecipientBuilder e)
      → AuthEnvelopedDataBuilder e
  to_seal b cea rs = record {
    content_id = none;
    originator_info = b.originator_info;
    recipient_infos = rs;
    unencrypted_content = b.plaintext;
    content_encryption_algorithm = cea;
    auth_attributes = b.auth_attributes;
    unauth_attributes = b.unprotected_attributes;
  }

  add_kemris-append :
      (b : EnvelopedDataBuilder e) (cea : ContentEncryptionAlgorithmAead)
      (before : List (RecipientBuilder e)) (rs : List (KemRecipientInfoBuilder e))
      → add_kemris e (to_seal b cea before) rs ≡ to_seal b cea (before ++ map kem rs)
  unfolding add_kemris to_seal add_recipient_info
  add_kemris-append b cea before [] = ap (to_seal b cea) (sym (append-nil before))
  add_kemris-append b cea before (r ∷ rs) =
      add_kemris-append b cea (before ++ (kem r ∷ [])) rs
      ∙ ap (to_seal b cea) (append_assoc before (kem r ∷ []) (map kem rs))

  add_foreigns-append :
      (b : EnvelopedDataBuilder e) (cea : ContentEncryptionAlgorithmAead)
      (before : List (RecipientBuilder e)) (rs : List (Foreign e))
      → add_foreigns e (to_seal b cea before) rs ≡ to_seal b cea (before ++ map foreign rs)
  unfolding add_foreigns to_seal add_recipient_info
  add_foreigns-append b cea before [] = ap (to_seal b cea) (sym (append-nil before))
  add_foreigns-append b cea before (r ∷ rs) =
      add_foreigns-append b cea (before ++ (foreign r ∷ [])) rs
      ∙ ap (to_seal b cea) (append_assoc before (foreign r ∷ []) (map foreign rs))

  -- Two loops in a row are one over both lists.
  add_foreigns-join :
      (a : AuthEnvelopedDataBuilder e) (rs ss : List (Foreign e))
      → add_foreigns e (add_foreigns e a rs) ss ≡ add_foreigns e a (rs ++ ss)
  unfolding add_foreigns
  add_foreigns-join a [] ss = refl
  add_foreigns-join a (r ∷ rs) ss = add_foreigns-join (add_recipient_info e a (foreign r)) rs ss

  add_all-recipients :
      (b : EnvelopedDataBuilder e) (cea : ContentEncryptionAlgorithmAead)
      → add_all e (auth_new e b cea) b ≡ to_seal b cea (recipients b)
  unfolding add_all recipients auth_new to_seal
  add_all-recipients b cea =
      let k = add_kemris e (auth_new e b cea) b.kemri_builders in
      add_foreigns-join _ b.pwri_builders b.ori_builders
      ∙ (add_foreigns-join _ b.kari_builders (b.pwri_builders ++ b.ori_builders)
          ∙ (add_foreigns-join _ b.ktri_builders
                (b.kari_builders ++ (b.pwri_builders ++ b.ori_builders))
              ∙ (add_foreigns-join k b.kek_builders
                    (b.ktri_builders ++ (b.kari_builders ++ (b.pwri_builders ++ b.ori_builders)))
                  ∙ (ap
                        (λ x. add_foreigns e x (
                          b.kek_builders
                          ++ (b.ktri_builders
                              ++ (b.kari_builders ++ (b.pwri_builders ++ b.ori_builders)))))
                        (add_kemris-append b cea [] b.kemri_builders)
                      ∙ add_foreigns-append b cea (map kem b.kemri_builders) _))))

  -- Building an authenticated message is sealing the content for one list of recipients, which has those
  -- with KEM keys first, then those by key encryption, transport, agreement and password, and the
  -- others, and encoding what was sealed: the six loops put the recipients into that order.
  pub build_auth_enveloped-refines :
      (ids : AeadOids) (b : EnvelopedDataBuilder e) (w : W)
      → build_auth_enveloped e ids b w
        ≡ (do
          cea ← pure (aead_of b.cea_type)
          message ← seal e ids (to_seal b cea (recipients b))
          pure (ok_or unknown (e.codecs.encode_auth_enveloped message)))
            w
  unfolding build_auth_enveloped
  build_auth_enveloped-refines ids b w =
      ap
        (λ (f : ContentEncryptionAlgorithmAead → AuthEnvelopedDataBuilder e).
          (do
            cea ← pure (aead_of b.cea_type)
            message ← seal e ids (f cea)
            pure (ok_or unknown (e.codecs.encode_auth_enveloped message)))
            w)
        (λ i cea. add_all-recipients b cea i)
