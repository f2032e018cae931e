-- ===== src/Cms/Builder.antt =====
-- cms/enveloped_data_builder.rs: the builder of messages. An operation on `&mut self` changes the
-- builder, which is its state; `Ok(self)` is `tt`.
pub mod Recipients
pub mod Build
pub mod Consistent
pub mod Ordered
pub mod Delivered
use qubitcrypt.Prelude.{
  Bool, true, false, not, ◌&&◌, String, Option, none, some, List, [], ◌∷◌, ◌++◌, if◌then◌else◌,
}
use qubitcrypt.Outcome
use qubitcrypt.Outcome.{
  Bytes, Outcome, ok, err, ok_or, unsupported_content_encryption_algorithm, invalid_attribute,
  unsupported_operation, invalid_certificate, empty_content, unknown, file_write_error,
}
use qubitcrypt.Effect.{Eff, pure, after, ◌>>=◌, map_error, attempt, infallible}
use qubitcrypt.Kem.Trait as Kem
use qubitcrypt.Kem.Manager.{kem_manager}
use qubitcrypt.Certificate.{Certificate, is_key_encipherment_enabled}
use qubitcrypt.Kdf as Kdf
use qubitcrypt.Kdf.{KdfType}
use qubitcrypt.Wrap as Wrap
use qubitcrypt.Wrap.{WrapType}
use qubitcrypt.Cea.{
  CeaType, aes128_gcm, aes192_gcm, aes256_gcm, aes128_cbc_pad, aes192_cbc_pad, aes256_cbc_pad,
  contains,
}
use qubitcrypt.Cms.{Crypto, x509, Recipient, EnvelopedData}
use qubitcrypt.Cms.Kemri.{KemRecipientInfoBuilder, Octets}
use qubitcrypt.Cms.Kemri as Kemri
use qubitcrypt.Cms.Sealed.{
  ContentEncryptionAlgorithmAead, AeadOids, RecipientBuilder, kem, foreign,
  AuthEnvelopedDataBuilder, seal,
}
use qubitcrypt.Cms.Sealed as Sealed

-- `cms::builder::ContentEncryptionAlgorithm`.
pub data ContentEncryptionAlgorithm : Type 0 where
  aes128_cbc aes192_cbc aes256_cbc : ContentEncryptionAlgorithm

abbrev allowed_cea_types_enveloped : List CeaType
allowed_cea_types_enveloped = aes128_cbc_pad ∷ aes192_cbc_pad ∷ aes256_cbc_pad ∷ []

abbrev allowed_cea_types_auth_enveloped : List CeaType
allowed_cea_types_auth_enveloped = aes128_gcm ∷ aes192_gcm ∷ aes256_gcm ∷ []

-- The match of `build_enveloped`, and that of `build_auth_enveloped`.
unfoldable pub cbc_of : CeaType → Outcome ContentEncryptionAlgorithm
cbc_of aes128_cbc_pad = ok aes128_cbc
cbc_of aes192_cbc_pad = ok aes192_cbc
cbc_of aes256_cbc_pad = ok aes256_cbc
cbc_of _ = err unsupported_operation

unfoldable pub aead_of : CeaType → Outcome ContentEncryptionAlgorithmAead
aead_of aes128_gcm = ok Sealed.aes128_gcm
aead_of aes192_gcm = ok Sealed.aes192_gcm
aead_of aes256_gcm = ok Sealed.aes256_gcm
aead_of _ = err unsupported_operation

-- What an operation gives besides the builder.
abbrev pub Done : Type 0
Done = Unit

module _ {W R : Type 0} (e : Crypto W R) where
  -- A recipient builder of the `cms` crate is its `build`.
  abbrev pub Foreign : Type 0
  Foreign = Bytes → Eff W (Recipient e.kems.der e.contents)

  pub record EnvelopedDataBuilder : Type 0 where
    pub originator_info : Option e.codecs.Originator
    pub plaintext : Bytes
    pub cea_type : CeaType
    pub unprotected_attributes : Option e.codecs.Attributes
    pub auth_attributes : Option e.codecs.Attributes
    pub kemri_builders : List (KemRecipientInfoBuilder e)
    pub kek_builders : List Foreign
    pub ktri_builders : List Foreign
    pub kari_builders : List Foreign
    pub pwri_builders : List Foreign
    pub ori_builders : List Foreign
    pub is_auth_enveloped : Bool

  unfoldable pub new : CeaType → Bool → Outcome EnvelopedDataBuilder
  new cea_type is_auth_enveloped =
      if not is_auth_enveloped && not (contains allowed_cea_types_enveloped cea_type)
      then err unsupported_content_encryption_algorithm
      else if is_auth_enveloped && not (contains allowed_cea_types_auth_enveloped cea_type)
      then err unsupported_content_encryption_algorithm
      else ok (record {
        originator_info = none;
        plaintext = [];
        cea_type = cea_type;
        unprotected_attributes = none;
        auth_attributes = none;
        kemri_builders = [];
        kek_builders = [];
        ktri_builders = [];
        kari_builders = [];
        pwri_builders = [];
        ori_builders = [];
        is_auth_enveloped = is_auth_enveloped;
      })

  -- The attributes so far, made where there were none, before one is inserted.
  abbrev attributes_or_new : Option e.codecs.Attributes → e.codecs.Attributes
  attributes_or_new none = e.codecs.no_attributes
  attributes_or_new (some attributes) = attributes

  abbrev inserted : Option e.codecs.Attributes → Outcome Done
  inserted none = err invalid_attribute
  inserted (some attributes) = ok tt

  abbrev or_before : e.codecs.Attributes → Option e.codecs.Attributes → e.codecs.Attributes
  or_before before none = before
  or_before before (some attributes) = attributes

  -- `insert`: its result, and the set that is left.
  unfoldable pub insert_attribute :
      e.codecs.Attribute → Option e.codecs.Attributes → Outcome Done × Option e.codecs.Attributes
  insert_attribute attribute attributes =
      let before = attributes_or_new attributes in
      let set = e.codecs.insert attribute before in (inserted set, some (or_before before set))

  abbrev with_unprotected : EnvelopedDataBuilder → Option e.codecs.Attributes → EnvelopedDataBuilder
  with_unprotected b a = record {
    originator_info = b.originator_info;
    plaintext = b.plaintext;
    cea_type = b.cea_type;
    unprotected_attributes = a;
    auth_attributes = b.auth_attributes;
    kemri_builders = b.kemri_builders;
    kek_builders = b.kek_builders;
    ktri_builders = b.ktri_builders;
    kari_builders = b.kari_builders;
    pwri_builders = b.pwri_builders;
    ori_builders = b.ori_builders;
    is_auth_enveloped = b.is_auth_enveloped;
  }

  unfoldable pub unprotected_attribute : e.codecs.Attribute → Eff EnvelopedDataBuilder Done
  unfolding insert_attribute
  unprotected_attribute attribute b =
      let set = insert_attribute attribute b.unprotected_attributes in
      (set.0, with_unprotected b set.1)

  abbrev with_auth : EnvelopedDataBuilder → Option e.codecs.Attributes → EnvelopedDataBuilder
  with_auth b a = record {
    originator_info = b.originator_info;
    plaintext = b.plaintext;
    cea_type = b.cea_type;
    unprotected_attributes = b.unprotected_attributes;
    auth_attributes = a;
    kemri_builders = b.kemri_builders;
    kek_builders = b.kek_builders;
    ktri_builders = b.ktri_builders;
    kari_builders = b.kari_builders;
    pwri_builders = b.pwri_builders;
    ori_builders = b.ori_builders;
    is_auth_enveloped = b.is_auth_enveloped;
  }

  unfoldable pub auth_attribute : e.codecs.Attribute → Eff EnvelopedDataBuilder Done
  unfolding insert_attribute
  auth_attribute attribute b =
      if not b.is_auth_enveloped
      then (err unsupported_operation, b)
      else (let set = insert_attribute attribute b.auth_attributes in (set.0, with_auth b set.1))

  unfoldable pub content : Bytes → Eff EnvelopedDataBuilder Done
  content text b = (
    ok tt,
    record {
      originator_info = b.originator_info;
      plaintext = text;
      cea_type = b.cea_type;
      unprotected_attributes = b.unprotected_attributes;
      auth_attributes = b.auth_attributes;
      kemri_builders = b.kemri_builders;
      kek_builders = b.kek_builders;
      ktri_builders = b.ktri_builders;
      kari_builders = b.kari_builders;
      pwri_builders = b.pwri_builders;
      ori_builders = b.ori_builders;
      is_auth_enveloped = b.is_auth_enveloped;
    },
  )

  unfoldable pub originator_info : e.codecs.Originator → Eff EnvelopedDataBuilder Done
  originator_info info b = (
    ok tt,
    record {
      originator_info = some info;
      plaintext = b.plaintext;
      cea_type = b.cea_type;
      unprotected_attributes = b.unprotected_attributes;
      auth_attributes = b.auth_attributes;
      kemri_builders = b.kemri_builders;
      kek_builders = b.kek_builders;
      ktri_builders = b.ktri_builders;
      kari_builders = b.kari_builders;
      pwri_builders = b.pwri_builders;
      ori_builders = b.ori_builders;
      is_auth_enveloped = b.is_auth_enveloped;
    },
  )
