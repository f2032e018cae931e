-- ===== src/Cms/Sealed.antt =====
-- cms/asn1/auth_enveloped_data_builder.rs: the sealing of a content for a list of recipients.
pub mod Built
pub mod Roundtrip
use qubitcrypt.Prelude.{String, Option, none, some, List, [], ◌∷◌}
use qubitcrypt.Outcome
use qubitcrypt.Outcome.{Bytes, Outcome, ok, ok_or, unknown}
use qubitcrypt.Effect.{Eff, pure, ◌>>=◌, map_error}
use qubitcrypt.Cea as Cea
use qubitcrypt.Cms.{Crypto, Recipient, AuthEnvelopedData}
use qubitcrypt.Cms.Kemri.{KemRecipientInfoBuilder, Oid, build}

pub data ContentEncryptionAlgorithmAead : Type 0 where
  aes128_gcm aes192_gcm aes256_gcm : ContentEncryptionAlgorithmAead

-- The constants of `const_oid` for these, as text.
pub record AeadOids : Type 0 where
  pub id_aes_128_gcm : String
  pub id_aes_192_gcm : String
  pub id_aes_256_gcm : String

-- `ContentEncryptionAlgorithmAead::oid`, then `to_string`.
unfoldable pub aead_oid : AeadOids → ContentEncryptionAlgorithmAead → String
aead_oid ids aes128_gcm = ids.id_aes_128_gcm
aead_oid ids aes192_gcm = ids.id_aes_192_gcm
aead_oid ids aes256_gcm = ids.id_aes_256_gcm

module _ {W R : Type 0} (e : Crypto W R) where
  -- A `Box<dyn RecipientInfoBuilder>`: the crate's own, or one of the `cms` crate as its `build`.
  pub data RecipientBuilder : Type 0 where
    kem : KemRecipientInfoBuilder e → RecipientBuilder
    foreign : (Bytes → Eff W (Recipient e.kems.der e.contents)) → RecipientBuilder

  unfoldable pub build_recipient :
      RecipientBuilder → Bytes → Eff W (Recipient e.kems.der e.contents)
  unfolding build
  build_recipient (kem b) cek = build e b cek
  build_recipient (foreign b) cek = b cek

  pub record AuthEnvelopedDataBuilder : Type 0 where
    pub content_id : Option (Oid e)
    pub originator_info : Option e.codecs.Originator
    pub recipient_infos : List RecipientBuilder
    pub unencrypted_content : Bytes
    pub content_encryption_algorithm : ContentEncryptionAlgorithmAead
    pub auth_attributes : Option e.codecs.Attributes
    pub unauth_attributes : Option e.codecs.Attributes

  -- `iter_mut().map(|ri| ri.build(&cek)).collect()`: it stops at the first error.
  unfoldable pub build_all :
      List RecipientBuilder → Bytes → Eff W (List (Recipient e.kems.der e.contents))
  unfolding build_recipient
  build_all [] cek = pure (ok [])
  build_all (b ∷ bs) cek = do
    ri ← build_recipient b cek
    ris ← build_all bs cek
    pure (ok (ri ∷ ris))

  -- The additional data: `match &self.auth_attributes { … }`.
  unfoldable pub additional_data : Option e.codecs.Attributes → Outcome (Option Bytes)
  additional_data none = ok none
  additional_data (some attrs) =
      Outcome.◌>>=◌ (ok_or unknown (e.codecs.encode_attributes attrs)) (λ der. ok (some der))

  abbrev pub content_oid : Option (Oid e) → Option String
  content_oid none = none
  content_oid (some oid) = some (e.kems.der.oid_to_string oid)

  -- The end of `build`, which puts the message together from the recipients, the tag and the content.
  unfoldable pub assemble :
      AuthEnvelopedDataBuilder
      → List (Recipient e.kems.der e.contents)
      → Bytes
      → Bytes
      → Outcome (AuthEnvelopedData e.kems.der e.contents e.codecs.Originator e.codecs.Attributes)
  assemble b ris tag content =
      Outcome.◌>>=◌ (ok_or unknown (e.codecs.recipient_infos ris)) (λ recip_infos.
        Outcome.◌>>=◌ (ok_or unknown (e.kems.der.octet_string tag)) (λ mac.
          Outcome.◌>>=◌ (ok_or unknown (e.contents.decode_content content)) (λ eci. ok (record {
            version = 0;
            originator_info = b.originator_info;
            recip_infos = recip_infos;
            auth_encrypted_content = eci;
            auth_attrs = b.auth_attributes;
            mac = mac;
            unauth_attrs = b.unauth_attributes;
          }))))

  -- What `build` does for a type: keys, encryption, recipients. The clearing of the content key at
  -- the end has no effect that is read.
  unfoldable pub seal_with :
      Cea.CeaType
      → AuthEnvelopedDataBuilder
      → Option Bytes
      → Eff W (AuthEnvelopedData e.kems.der e.contents e.codecs.Originator e.codecs.Attributes)
  unfolding Cea.key_gen Cea.nonce_gen Cea.encrypt build_all assemble
  seal_with cea b aad = do
    cek ← Cea.key_gen e.symm cea
    nonce ← Cea.nonce_gen e.symm cea
    out ←
        Cea.encrypt e.kems.der e.contents e.symm cea cek (some nonce) b.unencrypted_content aad
          (content_oid b.content_id)
    ris ← map_error unknown (build_all b.recipient_infos cek)
    pure (assemble b ris out.0 out.1)

  -- `AuthEnvelopedDataBuilder::build`.
  unfoldable pub seal :
      AeadOids
      → AuthEnvelopedDataBuilder
      → Eff W (AuthEnvelopedData e.kems.der e.contents e.codecs.Originator e.codecs.Attributes)
  unfolding additional_data aead_oid Cea.from_oid Cea.new seal_with
  seal ids b = do
    aad ← pure (additional_data b.auth_attributes)
    cea_type ← pure (ok_or unknown (Cea.from_oid (aead_oid ids b.content_encryption_algorithm)))
    cea ← pure (Cea.new cea_type)
    seal_with cea b aad
