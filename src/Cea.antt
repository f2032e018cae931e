-- ===== src/Cea.antt =====
-- cea/: the encryption of contents by AES, over `openssl::symm` and the encoders of `cms` and `der`.
pub mod Correct
use qubitcrypt.Prelude.{
  ℕ, ◌%◌, ◌^◌, ◌==◌, Bool, true, false, not, String, Option, none, some, List, [], ◌∷◌, length,
  find, any, str_eq, same_bytes, if◌then◌else◌,
}
use qubitcrypt.Outcome.{
  Bytes, Outcome, ok, err, ok_or, map_err, ◌>>=◌, not_implemented, invalid_oid, invalid_aes_nonce,
  invalid_ciphertext, unknown,
}
use qubitcrypt.Effect
use qubitcrypt.Effect.{Eff, pure, attempt}
use qubitcrypt.Asn1.Der.{Der}

pub data CeaType : Type 0 where
  aes128_gcm aes192_gcm aes256_gcm aes128_cbc_pad aes192_cbc_pad aes256_cbc_pad : CeaType

unfoldable pub all : List CeaType
all = aes128_gcm ∷ aes192_gcm ∷ aes256_gcm ∷ aes128_cbc_pad ∷ aes192_cbc_pad ∷ aes256_cbc_pad ∷ []

unfoldable pub get_oid : CeaType → String
get_oid aes128_gcm = "2.16.840.1.101.3.4.1.6"
get_oid aes192_gcm = "2.16.840.1.101.3.4.1.26"
get_oid aes256_gcm = "2.16.840.1.101.3.4.1.46"
get_oid aes128_cbc_pad = "2.16.840.1.101.3.4.1.2"
get_oid aes192_cbc_pad = "2.16.840.1.101.3.4.1.22"
get_oid aes256_cbc_pad = "2.16.840.1.101.3.4.1.42"

unfoldable pub from_oid : String → Option CeaType
unfolding all get_oid
from_oid oid = find (λ t. str_eq (get_oid t) oid) all

-- The derived `PartialEq`, and `[CeaType; n]::contains`.
abbrev discriminant : CeaType → ℕ
discriminant aes128_gcm = 0
discriminant aes192_gcm = 1
discriminant aes256_gcm = 2
discriminant aes128_cbc_pad = 3
discriminant aes192_cbc_pad = 4
discriminant aes256_cbc_pad = 5

abbrev pub contains : List CeaType → CeaType → Bool
contains ts t = any (λ u. discriminant u == discriminant t) ts

-- The two alternatives that the matches of cea/aes.rs and `CeaInfo::new` tell apart.
abbrev pub is_gcm : CeaType → Bool
is_gcm aes128_gcm = true
is_gcm aes192_gcm = true
is_gcm aes256_gcm = true
is_gcm _ = false

pub record CeaInfo : Type 0 where
  pub cea_type : CeaType
  pub oid : String
  pub is_aad_supported : Bool

unfoldable pub cea_info : CeaType → CeaInfo
unfolding get_oid
cea_info t = record { cea_type = t; oid = get_oid t; is_aad_supported = is_gcm t }

pub data Cipher : Type 0 where
  aes_128_gcm aes_192_gcm aes_256_gcm aes_128_cbc aes_192_cbc aes_256_cbc : Cipher

-- `Aes::get_cipher`, and the first match of `Aes::decrypt`.
unfoldable pub get_cipher : CeaType → Cipher
get_cipher aes128_gcm = aes_128_gcm
get_cipher aes192_gcm = aes_192_gcm
get_cipher aes256_gcm = aes_256_gcm
get_cipher aes128_cbc_pad = aes_128_cbc
get_cipher aes192_cbc_pad = aes_192_cbc
get_cipher aes256_cbc_pad = aes_256_cbc

-- `openssl::symm` and `openssl::rand::rand_bytes`. Arguments are the cipher, the key, the nonce,
-- then the additional data with AEAD, and the text. `encrypt_aead` gives the ciphertext and the tag
-- that it puts into a buffer of sixteen bytes.
pub record Openssl (W : Type 0) : Type 0 where
  pub iv_len : Cipher → Option ℕ
  pub key_len : Cipher → ℕ
  pub encrypt_aead : Cipher → Bytes → Bytes → Bytes → Bytes → Option (Bytes × Bytes)
  pub decrypt_aead : Cipher → Bytes → Bytes → Bytes → Bytes → Bytes → Option Bytes
  pub encrypt : Cipher → Bytes → Bytes → Bytes → Option Bytes
  pub decrypt : Cipher → Bytes → Bytes → Bytes → Option Bytes
  pub rand_bytes : ℕ → W → Option Bytes × W

-- cea/asn1/aes_parameters.rs: the length of the tag is an `i8`, written as its byte.
pub record AesParameters (d : Der) : Type 0 where
  pub aes_nonce : d.OctetString
  pub aes_icv_len : ℕ

-- `cms::EncryptedContentInfo`, with its algorithm identifier in place, over the type of `Any`.
pub record EncryptedContentInfo (d : Der) (A : Type 0) : Type 0 where
  pub content_type : d.ObjectId
  pub algorithm : d.ObjectId
  pub parameters : Option A
  pub encrypted_content : Option d.OctetString

-- What the managers use of `der` and `cms`.
pub record Codecs (d : Der) : Type 1 where
  pub Any : Type 0
  pub any_from_der : Bytes → Option Any
  pub any_to_der : Any → Option Bytes
  pub encode_parameters : AesParameters d → Option Bytes
  pub decode_parameters : Bytes → Option (AesParameters d)
  pub encode_octets : d.OctetString → Option Bytes
  pub decode_octets : Bytes → Option d.OctetString
  pub encode_content : EncryptedContentInfo d Any → Option Bytes
  pub decode_content : Bytes → Option (EncryptedContentInfo d Any)
  pub id_data : d.ObjectId

abbrev or_zero : Option ℕ → ℕ
or_zero none = 0
or_zero (some n) = n

abbrev pub or_empty : Option Bytes → Bytes
or_empty none = []
or_empty (some b) = b

module _ {W : Type 0} (o : Openssl W) where
  -- `Aes::get_nonce`.
  unfoldable pub get_nonce : Cipher → Option Bytes → Eff W Bytes
  get_nonce cipher (some nonce) =
      if not (length nonce == or_zero (o.iv_len cipher))
      then pure (err unknown)
      else pure (ok nonce)
  get_nonce cipher none = attempt unknown (o.rand_bytes (or_zero (o.iv_len cipher)))

  unfoldable pub key_gen : CeaType → Eff W Bytes
  unfolding get_cipher
  key_gen t = attempt unknown (o.rand_bytes (o.key_len (get_cipher t)))

  unfoldable pub nonce_gen : CeaType → Eff W Bytes
  unfolding get_cipher get_nonce
  nonce_gen t = get_nonce (get_cipher t) none

module _ (d : Der) (c : Codecs d) where
  unfoldable pub parameters_new : Bytes → ℕ → Outcome (AesParameters d)
  parameters_new nonce icv_len = do
    aes_nonce ← ok_or invalid_aes_nonce (d.octet_string nonce)
    ok (record { aes_nonce = aes_nonce; aes_icv_len = icv_len })

  -- The match on the type in `to_content_info`.
  unfoldable pub encode_nonce : CeaType → Bytes → Outcome Bytes
  unfolding parameters_new
  encode_nonce t nonce =
      if is_gcm t
      then (do
        params ← map_err unknown (parameters_new nonce 16)
        ok_or unknown (c.encode_parameters params))
      else (do
        octets ← ok_or unknown (d.octet_string nonce)
        ok_or unknown (c.encode_octets octets))

  -- `if let Some(cid) = cid { cid.parse()… } else { ID_DATA }`.
  abbrev pub content_type_of : Option String → Outcome d.ObjectId
  content_type_of none = ok c.id_data
  content_type_of (some cid) = ok_or invalid_oid (d.parse_oid cid)

  unfoldable pub to_content_info : CeaType → Bytes → Bytes → Option String → Outcome Bytes
  unfolding get_oid encode_nonce
  to_content_info t ct nonce cid = do
    oid ← ok_or unknown (d.parse_oid (get_oid t))
    parameters ← encode_nonce t nonce
    any ← ok_or unknown (c.any_from_der parameters)
    content_type ← content_type_of cid
    octets ← ok_or unknown (d.octet_string ct)
    ok_or unknown (
        c.encode_content (record {
          content_type = content_type;
          algorithm = oid;
          parameters = some any;
          encrypted_content = some octets;
        }))

  -- The match on the type in `from_content_info`; `len() as i8` keeps the last byte.
  unfoldable pub decode_nonce : CeaType → Bytes → Option c.Any → Outcome Bytes
  decode_nonce t tag parameters = ok_or invalid_ciphertext parameters >>= λ any.
      ok_or invalid_ciphertext (c.any_to_der any) >>= λ der.
      if is_gcm t
      then (ok_or invalid_ciphertext (c.decode_parameters der) >>= λ params.
          if not (params.aes_icv_len == length tag % 2 ^ 8)
          then err invalid_ciphertext
          else ok (d.octets params.aes_nonce))
      else (ok_or invalid_ciphertext (c.decode_octets der) >>= λ params.
          if not (same_bytes (d.octets params) tag)
          then err invalid_ciphertext
          else ok (d.octets params))

  unfoldable pub from_content_info : Bytes → Bytes → Outcome (CeaType × Bytes × Bytes)
  unfolding from_oid decode_nonce
  from_content_info tag ct = do
    eci ← ok_or invalid_ciphertext (c.decode_content ct)
    alg ← ok_or invalid_ciphertext (from_oid (d.oid_to_string eci.algorithm))
    nonce ← decode_nonce alg tag eci.parameters
    content ← ok_or invalid_ciphertext eci.encrypted_content
    ok (alg, nonce, d.octets content)

  module _ {W : Type 0} (o : Openssl W) where
    -- The match on the type in `encrypt`: the ciphertext and the tag.
    unfoldable pub encrypt_with : CeaType → Bytes → Bytes → Bytes → Bytes → Outcome (Bytes × Bytes)
    unfolding get_cipher
    encrypt_with t key nonce aad plaintext =
        if is_gcm t
        then ok_or unknown (o.encrypt_aead (get_cipher t) key nonce aad plaintext)
        else (do ct ← ok_or unknown (o.encrypt (get_cipher t) key nonce plaintext); ok (ct, nonce))

    -- `Aes::encrypt`: the tag, which is the nonce for CBC, and the DER of the content.
    unfoldable pub encrypt :
        CeaType
        → Bytes
        → Option Bytes
        → Bytes
        → Option Bytes
        → Option String
        → Eff W (Bytes × Bytes)
    unfolding get_cipher get_nonce encrypt_with to_content_info
    encrypt t key nonce plaintext aad cid = Effect.◌>>=◌ (get_nonce o (get_cipher t) nonce) (λ n.
        pure (do
          out ← encrypt_with t key n (or_empty aad) plaintext
          content ← to_content_info t out.0 n cid
          ok (out.1, content)))

    -- `Aes::decrypt`.
    unfoldable pub decrypt : Bytes → Bytes → Bytes → Option Bytes → Outcome Bytes
    unfolding get_cipher from_content_info
    decrypt key tag ciphertext aad = do
      parts ← from_content_info tag ciphertext
      if is_gcm parts.0
          then ok_or invalid_ciphertext
              (o.decrypt_aead (get_cipher parts.0) key parts.1 (or_empty aad) parts.2 tag)
          else ok_or invalid_ciphertext (o.decrypt (get_cipher parts.0) key parts.1 parts.2)

-- `CeaManager::new`; the manager and the `Aes` in it are their `CeaType`.
unfoldable pub new : CeaType → Outcome CeaType
unfolding all
new t = if contains all t then ok t else err not_implemented

-- The loop of `new_from_oid`, the provided method of the trait `Cea`.
unfoldable pub new_of : List CeaType → String → Outcome CeaType
unfolding get_oid new
new_of [] oid = err invalid_oid
new_of (t ∷ ts) oid = if str_eq (get_oid t) oid then new t else new_of ts oid

unfoldable pub new_from_oid : String → Outcome CeaType
unfolding new_of all
new_from_oid oid = new_of all oid
