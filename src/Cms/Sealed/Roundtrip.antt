-- ===== src/Cms/Sealed/Roundtrip.antt =====
-- cms/asn1/auth_enveloped_data_builder.rs against cms/cms_util.rs: what a recipient decrypts of a
-- sealed content.
use qubitcrypt.Prelude.{
  eq_of_some, ◌≡◌, refl, sym, ap, ◌∙◌, subst, ◌⊎◌, inl, inr, Option, none, some, List, [], Memᴰ,
}
use qubitcrypt.Outcome.{
  Bytes, Outcome, ok, ok_or, >>=-returns, ok_or-eq-ok, ok-injective, unknown, invalid_certificate,
}
use qubitcrypt.Kem.Algorithm.{KemAlgorithm}
use qubitcrypt.Keys.PublicKey.{PublicKey}
use qubitcrypt.Keys.PrivateKey.{PrivateKey}
use qubitcrypt.Keys.Generators.{kem_generate}
use qubitcrypt.Certificate.{Certificate, get_subject_key_identifier}
use qubitcrypt.Cea as Cea
use qubitcrypt.Cea.Correct.{decrypt-encrypt, encrypt-reencoded}
use qubitcrypt.Cms.{Crypto, x509, Recipient, AuthEnvelopedData}
use qubitcrypt.Cms.Kemri.{KemRecipientInfoBuilder, get_cek}
use qubitcrypt.Cms.Kemri.Recovered.{IsLawful}
use qubitcrypt.Cms.Kemri.Opened.{Addresses, get_cek-build, get_cek-build_other}
use qubitcrypt.Cms.Decrypt.{attributes_der, decrypt_auth_enveloped_kemri, open_first}
use qubitcrypt.Cms.Decrypt.Searched.{GivesOrRefused, open_first-only_key}
use qubitcrypt.Cms.Sealed.Built.{build_all-each, build_all-has, seal-Sealing}
use qubitcrypt.Cms.Sealed.{
  AeadOids, RecipientBuilder, kem, build_recipient, AuthEnvelopedDataBuilder, additional_data, seal,
}

-- The documented laws of the encoders of messages: a set of recipients has the elements that it was
-- made of.
pub record IsEncoder {W R : Type 0} (e : Crypto W R) : Type 0 where
  pub auth_enveloped :
      (x : AuthEnvelopedData e.kems.der e.contents e.codecs.Originator e.codecs.Attributes)
      (b : Bytes)
      → e.codecs.encode_auth_enveloped x ≡ some b
      → e.codecs.decode_auth_enveloped b ≡ some x
  pub kept :
      (xs ys : List (Recipient e.kems.der e.contents))
      → e.codecs.recipient_infos xs ≡ some ys
      → (r : Recipient e.kems.der e.contents) → Memᴰ r xs
      → Memᴰ r ys
  pub no_others :
      (xs ys : List (Recipient e.kems.der e.contents))
      → e.codecs.recipient_infos xs ≡ some ys
      → (r : Recipient e.kems.der e.contents) → Memᴰ r ys
      → Memᴰ r xs

module _ {W R : Type 0} (e : Crypto W R) where
  -- The reader of a message has the additional data of its builder; no attributes are no data.
  decrypt-additional_data :
      (attrs : Option e.codecs.Attributes) (aad : Option Bytes) (key tag content text : Bytes)
      → additional_data e attrs ≡ ok aad
      → Cea.decrypt e.kems.der e.contents e.symm key tag content aad ≡ ok text
      → (read : Bytes) × (attributes_der e attrs ≡ ok read)
        × (Cea.decrypt e.kems.der e.contents e.symm key tag content (some read) ≡ ok text)
  unfolding additional_data attributes_der Cea.decrypt
  decrypt-additional_data none aad key tag content text h back = (
    [],
    refl,
    subst (λ a. Cea.decrypt e.kems.der e.contents e.symm key tag content a ≡ ok text)
        (sym (ok-injective h)) back,
  )
  decrypt-additional_data (some attrs) aad key tag content text h back =
      let (der, e₁, r₁) = >>=-returns (ok_or unknown (e.codecs.encode_attributes attrs)) _ h in
      (
        der,
        rw (ok_or-eq-ok unknown _ e₁) refl,
        subst (λ a. Cea.decrypt e.kems.der e.contents e.symm key tag content a ≡ ok text)
            (sym (ok-injective r₁)) back,
      )

  -- A message of which the parts are read and the loop uses the key is decrypted.
  decrypt_auth-eq-ok_of :
      (ed : AuthEnvelopedData e.kems.der e.contents e.codecs.Originator e.codecs.Attributes)
      (der : Bytes) (sk : PrivateKey) (cert : Certificate) (cek tag content read text : Bytes)
      → e.codecs.decode_auth_enveloped der ≡ some ed
      → e.contents.encode_content ed.auth_encrypted_content ≡ some content
      → attributes_der e ed.auth_attrs ≡ ok read
      → e.kems.der.octets ed.mac ≡ tag
      → ((decrypt : Bytes → Outcome Bytes)
          → open_first (λ o. get_cek e o sk cert) decrypt ed.recip_infos ≡ decrypt cek)
      → Cea.decrypt e.kems.der e.contents e.symm cek tag content (some read) ≡ ok text
      → decrypt_auth_enveloped_kemri e der sk cert ≡ ok text
  unfolding decrypt_auth_enveloped_kemri
  decrypt_auth-eq-ok_of ed der sk cert cek tag content read text h₁ h₂ h₃ h₄ opens h₅ =
      rw (h₁, h₂, h₃, h₄)
        (opens (λ key. Cea.decrypt e.kems.der e.contents e.symm key tag content (some read)) ∙ h₅)

  -- Every recipient of a list is this one, or a KEM recipient whose certificate has another subject
  -- key identifier.
  abbrev pub OthersDiffer : KemRecipientInfoBuilder e → Bytes → List (RecipientBuilder e) → Type 0
  OthersDiffer b skid bs =
      (r : RecipientBuilder e)
      → Memᴰ r bs
      → (r ≡ kem b)
        ⊎ ((c : KemRecipientInfoBuilder e) × (r ≡ kem c)
            × (get_subject_key_identifier (x509 e) c.cert ≡ ok skid → ⊥))

  module _ (l : IsLawful e) (m : IsEncoder e) where
    -- Every recipient that was built gives the content key to the holder, or refuses.
    sealed-gives_or_refuses :
        (a : KemAlgorithm) (w : W) (pk : PublicKey) (sk : PrivateKey) (w₁ : W)
        → kem_generate e.kems a w ≡ (ok (pk, sk), w₁)
        → (b : KemRecipientInfoBuilder e) (skid : Bytes) → Addresses e b pk
        → get_subject_key_identifier (x509 e) b.cert ≡ ok skid
        → (cek : Bytes) (r : RecipientBuilder e)
        → (r ≡ kem b)
          ⊎ ((c : KemRecipientInfoBuilder e) × (r ≡ kem c)
              × (get_subject_key_identifier (x509 e) c.cert ≡ ok skid → ⊥))
        → (v : W) (ri : Recipient e.kems.der e.contents) (v' : W)
        → build_recipient e r cek v ≡ (ok ri, v')
        → GivesOrRefused (λ o. get_cek e o sk b.cert) cek ri
    unfolding build_recipient
    sealed-gives_or_refuses a w pk sk w₁ generated b skid to own cek r (inl is) v ri v' built =
        let (o, same, gives) =
          get_cek-build e b l a w pk sk w₁ generated to cek v ri v'
            (ap (λ x. build_recipient e x cek v) (sym is) ∙ built) in
        (o, same, inl gives)
    sealed-gives_or_refuses a w pk sk w₁ generated b skid to own cek r (inr (c, is, differs)) v ri
          v' built =
        let (o, same, refuses) =
          get_cek-build_other e c l b.cert skid own differs sk cek v ri v'
            (ap (λ x. build_recipient e x cek v) (sym is) ∙ built) in
        (o, same, inr (invalid_certificate, refuses))

    -- If the key generator of a KEM algorithm gives (pk, sk), a content is sealed for KEM recipients, one of
    -- them made for a certificate with pk, the others for certificates with another subject key
    -- identifier, and the message has a DER, then decryption of the DER with sk and that certificate gives
    -- the content.
    pub decrypt-seal :
        (a : KemAlgorithm) (w : W) (pk : PublicKey) (sk : PrivateKey) (w₁ : W)
        → kem_generate e.kems a w ≡ (ok (pk, sk), w₁)
        → (ids : AeadOids) (builder : AuthEnvelopedDataBuilder e) (b : KemRecipientInfoBuilder e)
          (skid : Bytes)
        → Addresses e b pk
        → get_subject_key_identifier (x509 e) b.cert ≡ ok skid
        → Memᴰ (kem b) builder.recipient_infos
        → OthersDiffer b skid builder.recipient_infos
        → (w₂ : W)
          (ed : AuthEnvelopedData e.kems.der e.contents e.codecs.Originator e.codecs.Attributes)
          (w₃ : W)
        → seal e ids builder w₂ ≡ (ok ed, w₃)
        → (der : Bytes) → e.codecs.encode_auth_enveloped ed ≡ some der
        → decrypt_auth_enveloped_kemri e der sk b.cert ≡ ok builder.unencrypted_content
    unfolding build_recipient
    decrypt-seal a w pk sk w₁ generated ids builder b skid to own among differ w₂ ed w₃ sealed der
          encoded =
        let s = seal-Sealing e ids builder w₂ ed w₃ sealed in
        let (x, reencoded, decoded) =
          encrypt-reencoded e.kems.der l.kems.der e.contents e.symm l.contents s.cea s.cek
            (some s.nonce) builder.unencrypted_content s.aad _ s.before s.tag s.content s.after
            s.encrypted in
        let same : x ≡ ed.auth_encrypted_content = eq_of_some (sym decoded ∙ s.decoded) in
        let (read, has_read, back) =
          decrypt-additional_data builder.auth_attributes s.aad s.cek s.tag s.content
            builder.unencrypted_content s.has_aad
            (decrypt-encrypt e.kems.der l.kems.der e.contents e.symm l.contents s.cea s.cek
              (some s.nonce) builder.unencrypted_content s.aad _ s.before s.tag s.content s.after
              s.encrypted) in
        let (ri, v, v', built_in, built) =
          build_all-has e s.cek (kem b) builder.recipient_infos among s.after s.built s.end
            s.has_built in
        let (o, is_ori, gives) =
          get_cek-build e b l a w pk sk w₁ generated to s.cek v ri v' built in
        decrypt_auth-eq-ok_of ed der sk b.cert s.cek s.tag s.content read
          builder.unencrypted_content (m.auth_enveloped ed der encoded)
          (subst (λ y. e.contents.encode_content y ≡ some s.content) same reencoded)
          (ap (attributes_der e) (sym s.attributes) ∙ has_read)
          (l.kems.der.octet s.tag ed.mac s.mac)
          (λ decrypt.
            open_first-only_key (λ p. get_cek e p sk b.cert) decrypt s.cek ed.recip_infos
              (λ r n.
                build_all-each e s.cek (GivesOrRefused (λ p. get_cek e p sk b.cert) s.cek)
                  builder.recipient_infos
                  (λ c k.
                    sealed-gives_or_refuses a w pk sk w₁ generated b skid to own s.cek c
                      (differ c k))
                  s.after s.built s.end s.has_built r
                  (m.no_others s.built ed.recip_infos s.ordered r n))
              o
              (subst (λ y. Memᴰ y ed.recip_infos) is_ori
                (m.kept s.built ed.recip_infos s.ordered ri built_in))
              gives)
          back
