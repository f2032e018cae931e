-- ===== src/Cms/Content.antt =====
-- cms/asn1/enveloped_data_content.rs and cms/asn1/auth_enveloped_data_content.rs: messages that
-- were read for a holder of a KEM key. The getters are the fields.
pub mod Read
use qubitcrypt.Prelude.{ℕ, true, false, not, Option, none, some, List, if◌then◌else◌}
use qubitcrypt.Outcome.{
  Bytes, Outcome, ok, err, ok_or, ◌>>=◌, file_read_error, invalid_content, invalid_enveloped_data,
}
use qubitcrypt.Keys.PrivateKey.{PrivateKey}
use qubitcrypt.Certificate.{Certificate}
use qubitcrypt.Cea.{
  CeaType, aes128_gcm, aes192_gcm, aes256_gcm, aes128_cbc_pad, aes192_cbc_pad, aes256_cbc_pad,
}
use qubitcrypt.Cms.{Crypto, Recipient}
use qubitcrypt.Cms.Kemri.{Oid, Any}
use qubitcrypt.Cms.Decrypt.{decrypt_kemri}
use qubitcrypt.Cms.Sealed.{ContentEncryptionAlgorithmAead}
use qubitcrypt.Cms.Sealed as Sealed
use qubitcrypt.Cms.Builder.{
  ContentEncryptionAlgorithm, aes128_cbc, aes192_cbc, aes256_cbc, EnvelopedDataBuilder, new,
}

-- The matches of the two `get_builder`.
unfoldable pub cea_of_cbc : ContentEncryptionAlgorithm → CeaType
cea_of_cbc aes128_cbc = aes128_cbc_pad
cea_of_cbc aes192_cbc = aes192_cbc_pad
cea_of_cbc aes256_cbc = aes256_cbc_pad

unfoldable pub cea_of_aead : ContentEncryptionAlgorithmAead → CeaType
cea_of_aead Sealed.aes128_gcm = aes128_gcm
cea_of_aead Sealed.aes192_gcm = aes192_gcm
cea_of_aead Sealed.aes256_gcm = aes256_gcm

module _ {W R : Type 0} (e : Crypto W R) where
  pub record EnvelopedDataContent : Type 0 where
    pub version : ℕ
    pub originator_info : Option e.codecs.Originator
    pub recip_infos : List (Recipient e.kems.der e.contents)
    pub content : Bytes
    pub unprotected_attrs : Option e.codecs.Attributes

  pub record AuthEnvelopedDataContent : Type 0 where
    pub version : ℕ
    pub originator_info : Option e.codecs.Originator
    pub recip_infos : List (Recipient e.kems.der e.contents)
    pub content : Bytes
    pub unprotected_attrs : Option e.codecs.Attributes
    pub auth_attrs : Option e.codecs.Attributes

  unfoldable pub get_builder : ContentEncryptionAlgorithm → Outcome (EnvelopedDataBuilder e)
  unfolding cea_of_cbc new
  get_builder content_encryption_alg = new e (cea_of_cbc content_encryption_alg) false

  unfoldable pub auth_get_builder :
      ContentEncryptionAlgorithmAead → Outcome (EnvelopedDataBuilder e)
  unfolding cea_of_aead new
  auth_get_builder content_encryption_alg = new e (cea_of_aead content_encryption_alg) true

  -- What `pem::parse` reads: the contents, whatever the tag.
  module _ (pem_parse : Bytes → Option Bytes) where
    -- `if let Ok(content_info) = ContentInfo::from_der(bytes) { … } else { … }`.
    unfoldable pub or_pem : Bytes → Option (Oid e × Any e) → Outcome (Oid e × Any e)
    or_pem bytes (some content_info) = ok content_info
    or_pem bytes none = do
      contents ← ok_or invalid_content (pem_parse bytes)
      ok_or invalid_content (e.codecs.decode_content_info contents)

    unfoldable pub from_bytes_for_kem_recipient :
        Bytes → Certificate → PrivateKey → Outcome EnvelopedDataContent
    unfolding or_pem
    from_bytes_for_kem_recipient bytes recipient_cert recipient_private_key =
        or_pem bytes (e.codecs.decode_content_info bytes) >>= λ ci.
        if not (e.codecs.same_oid ci.0 e.codecs.id_enveloped_data) then err invalid_content else (do
          enveloped_data ← ok_or invalid_enveloped_data (e.contents.any_to_der ci.1)
          ed ← ok_or invalid_content (e.codecs.decode_enveloped enveloped_data)
          pt ← decrypt_kemri e bytes recipient_private_key recipient_cert
          ok (record {
            version = ed.version;
            originator_info = ed.originator_info;
            recip_infos = ed.recip_infos;
            content = pt;
            unprotected_attrs = ed.unprotected_attrs;
          }))

    unfoldable pub auth_from_bytes_for_kem_recipient :
        Bytes → Certificate → PrivateKey → Outcome AuthEnvelopedDataContent
    unfolding or_pem
    auth_from_bytes_for_kem_recipient bytes recipient_cert recipient_private_key =
        or_pem bytes (e.codecs.decode_content_info bytes) >>= λ ci.
        if not (e.codecs.same_oid ci.0 e.codecs.id_ct_auth_enveloped_data)
        then err invalid_content
        else (do
          enveloped_data ← ok_or invalid_enveloped_data (e.contents.any_to_der ci.1)
          ed ← ok_or invalid_content (e.codecs.decode_auth_enveloped enveloped_data)
          pt ← decrypt_kemri e bytes recipient_private_key recipient_cert
          ok (record {
            version = ed.version;
            originator_info = ed.originator_info;
            recip_infos = ed.recip_infos;
            content = pt;
            unprotected_attrs = ed.unauth_attrs;
            auth_attrs = ed.auth_attrs;
          }))

    -- Over what reading the file gives.
    unfoldable pub from_file_for_kem_recipient :
        Option Bytes → Certificate → PrivateKey → Outcome EnvelopedDataContent
    unfolding from_bytes_for_kem_recipient
    from_file_for_kem_recipient file recipient_cert recipient_private_key = do
      bytes ← ok_or file_read_error file
      from_bytes_for_kem_recipient bytes recipient_cert recipient_private_key

    unfoldable pub auth_from_file_for_kem_recipient :
        Option Bytes → Certificate → PrivateKey → Outcome AuthEnvelopedDataContent
    unfolding auth_from_bytes_for_kem_recipient
    auth_from_file_for_kem_recipient file recipient_cert recipient_private_key = do
      bytes ← ok_or file_read_error file
      auth_from_bytes_for_kem_recipient bytes recipient_cert recipient_private_key
