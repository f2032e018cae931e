-- ===== src/Cms/Decrypt.antt =====
-- cms/cms_util.rs: the decryption of messages by the holder of a KEM key.
pub mod Searched
use qubitcrypt.Prelude.{Option, none, some, List, [], ◌∷◌, if◌then◌else◌}
use qubitcrypt.Outcome.{Bytes, Outcome, ok, err, ok_or, ◌>>=◌, if_ok, invalid_enveloped_data}
use qubitcrypt.Keys.PrivateKey.{PrivateKey}
use qubitcrypt.Certificate.{Certificate}
use qubitcrypt.Cea as Cea
use qubitcrypt.Cms.{
  Crypto, OtherRecipientInfo, RecipientInfo, ori, ktri, kari, kekri, pwri, Recipient,
}
use qubitcrypt.Cms.Kemri.{Oid, Any, get_cek}

-- The loop over the recipients, which both kinds of messages have: the first one whose content key
-- is got decides.
abbrev pub open_first :
    {O A : Type 0}
    → (OtherRecipientInfo O A → Outcome Bytes)
    → (Bytes → Outcome Bytes)
    → List (RecipientInfo O A)
    → Outcome Bytes
open_first cek decrypt [] = err invalid_enveloped_data
open_first cek decrypt (ori o ∷ ris) = if_ok (cek o) decrypt (open_first cek decrypt ris)
open_first cek decrypt (ktri _ ∷ ris) = open_first cek decrypt ris
open_first cek decrypt (kari _ ∷ ris) = open_first cek decrypt ris
open_first cek decrypt (kekri _ ∷ ris) = open_first cek decrypt ris
open_first cek decrypt (pwri _ ∷ ris) = open_first cek decrypt ris

module _ {W R : Type 0} (e : Crypto W R) where
  -- `match &ed.auth_attrs { … }`.
  unfoldable pub attributes_der : Option e.codecs.Attributes → Outcome Bytes
  attributes_der none = ok []
  attributes_der (some attrs) = ok_or invalid_enveloped_data (e.codecs.encode_attributes attrs)

  unfoldable pub decrypt_auth_enveloped_kemri : Bytes → PrivateKey → Certificate → Outcome Bytes
  unfolding attributes_der get_cek Cea.decrypt
  decrypt_auth_enveloped_kemri der private_key cert = do
    ed ← ok_or invalid_enveloped_data (e.codecs.decode_auth_enveloped der)
    ct ← ok_or invalid_enveloped_data (e.contents.encode_content ed.auth_encrypted_content)
    aad ← attributes_der ed.auth_attrs
    open_first (λ o. get_cek e o private_key cert)
        (λ key.
          Cea.decrypt e.kems.der e.contents e.symm key (e.kems.der.octets ed.mac) ct (some aad))
        ed.recip_infos

  unfoldable pub decrypt_enveloped_kemri : Bytes → PrivateKey → Certificate → Outcome Bytes
  unfolding get_cek Cea.decrypt
  decrypt_enveloped_kemri der private_key cert = do
    ed ← ok_or invalid_enveloped_data (e.codecs.decode_enveloped der)
    ct ← ok_or invalid_enveloped_data (e.contents.encode_content ed.encrypted_content)
    params ← ok_or invalid_enveloped_data ed.encrypted_content.parameters
    enc_params ← ok_or invalid_enveloped_data (e.contents.any_to_der params)
    os_iv ← ok_or invalid_enveloped_data (e.contents.decode_octets enc_params)
    open_first (λ o. get_cek e o private_key cert)
        (λ key. Cea.decrypt e.kems.der e.contents e.symm key (e.kems.der.octets os_iv) ct none)
        ed.recip_infos

  unfoldable pub decrypt_kemri : Bytes → PrivateKey → Certificate → Outcome Bytes
  unfolding decrypt_enveloped_kemri decrypt_auth_enveloped_kemri
  decrypt_kemri message private_key cert =
      ok_or invalid_enveloped_data (e.codecs.decode_content_info message) >>= λ info.
      ok_or invalid_enveloped_data (e.contents.any_to_der info.1) >>= λ der.
      if e.codecs.same_oid info.0 e.codecs.id_enveloped_data
      then decrypt_enveloped_kemri der private_key cert
      else if e.codecs.same_oid info.0 e.codecs.id_ct_auth_enveloped_data
      then decrypt_auth_enveloped_kemri der private_key cert
      else err invalid_enveloped_data
