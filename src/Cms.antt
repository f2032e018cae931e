-- ===== src/Cms.antt =====
-- cms/: enveloped and authenticated-enveloped messages with recipients that hold KEM keys. The
-- structs of the `cms` crate, and what the code calls of it, of `der` and of `x509_cert`.
pub mod Kemri
pub mod Decrypt
pub mod Sealed
pub mod Builder
pub mod Content
use qubitcrypt.Prelude.{ℕ, Bool, Option, List}
use qubitcrypt.Outcome.{Bytes}
use qubitcrypt.Asn1.Der.{Der}
use qubitcrypt.Kem.Manager as KemManager
use qubitcrypt.Dsa.Manager as DsaManager
use qubitcrypt.Keys as Keys
use qubitcrypt.Keys.PublicKey as Public
use qubitcrypt.Certificate.{Certificate, Extension, X509}
use qubitcrypt.Store.{RecipientIdentifier}
use qubitcrypt.Kdf.{Crates}
use qubitcrypt.Wrap.{OpensslAes}
use qubitcrypt.Cea.{Openssl, EncryptedContentInfo}
use qubitcrypt.Cea as Cea

-- `spki::AlgorithmIdentifier`, over the types of object identifiers and of `Any`.
pub record AlgorithmIdentifier (O A : Type 0) : Type 0 where
  pub oid : O
  pub parameters : Option A

-- cms/asn1/kemri.rs. `kek_length` is a `u16`; `UserKeyingMaterial` and `EncryptedKey` are octets.
pub record KemRecipientInfo (O A S : Type 0) : Type 0 where
  pub version : ℕ
  pub rid : RecipientIdentifier
  pub kem : AlgorithmIdentifier O A
  pub kem_ct : S
  pub kdf : AlgorithmIdentifier O A
  pub kek_length : ℕ
  pub ukm : Option S
  pub wrap : AlgorithmIdentifier O A
  pub encrypted_key : S

pub record CmsOriForKemOtherInfo (O A S : Type 0) : Type 0 where
  pub wrap : AlgorithmIdentifier O A
  pub kek_length : ℕ
  pub ukm : Option S

-- `cms::enveloped_data::OtherRecipientInfo`, and `RecipientInfo`, whose other kinds are their DER.
pub record OtherRecipientInfo (O A : Type 0) : Type 0 where
  pub ori_type : O
  pub ori_value : A

pub data RecipientInfo (O A : Type 0) : Type 0 where
  ori : OtherRecipientInfo O A → RecipientInfo O A
  ktri kari kekri pwri : Bytes → RecipientInfo O A

module _ (d : Der) (c : Cea.Codecs d) where
  abbrev pub Recipient : Type 0
  Recipient = RecipientInfo d.ObjectId c.Any

  abbrev pub Kemri : Type 0
  Kemri = KemRecipientInfo d.ObjectId c.Any d.OctetString

  abbrev pub OtherInfo : Type 0
  OtherInfo = CmsOriForKemOtherInfo d.ObjectId c.Any d.OctetString

  -- `cms::enveloped_data::EnvelopedData`, and
  -- cms/asn1/auth_env_data.rs; `Attributes` and `OriginatorInfo` are parameters.
  pub record EnvelopedData (Originator Attributes : Type 0) : Type 0 where
    pub version : ℕ
    pub originator_info : Option Originator
    pub recip_infos : List Recipient
    pub encrypted_content : EncryptedContentInfo d c.Any
    pub unprotected_attrs : Option Attributes

  pub record AuthEnvelopedData (Originator Attributes : Type 0) : Type 0 where
    pub version : ℕ
    pub originator_info : Option Originator
    pub recip_infos : List Recipient
    pub auth_encrypted_content : EncryptedContentInfo d c.Any
    pub auth_attrs : Option Attributes
    pub mac : d.OctetString
    pub unauth_attrs : Option Attributes

  -- What the code calls of the crates. `recipient_infos` is `RecipientInfos::try_from`, which puts
  -- a set in order. A `ContentInfo` is its type and its content.
  pub record Codecs : Type 1 where
    pub Originator : Type 0
    pub Attribute : Type 0
    pub Attributes : Type 0
    pub no_attributes : Attributes
    pub insert : Attribute → Attributes → Option Attributes
    pub encode_attributes : Attributes → Option Bytes
    pub encode_other_info : OtherInfo → Option Bytes
    pub encode_kemri : Kemri → Option Bytes
    pub decode_kemri : Bytes → Option Kemri
    pub recipient_infos : List Recipient → Option (List Recipient)
    pub decode_enveloped : Bytes → Option (EnvelopedData Originator Attributes)
    pub encode_auth_enveloped : AuthEnvelopedData Originator Attributes → Option Bytes
    pub decode_auth_enveloped : Bytes → Option (AuthEnvelopedData Originator Attributes)
    pub encode_content_info : d.ObjectId × c.Any → Option Bytes
    pub decode_content_info : Bytes → Option (d.ObjectId × c.Any)
    pub same_oid : d.ObjectId → d.ObjectId → Bool
    pub id_enveloped_data : d.ObjectId
    pub id_ct_auth_enveloped_data : d.ObjectId

-- All that the messages use, with the readers of extensions of certificates.
pub record Crypto (W R : Type 0) : Type 1 where
  pub kems : KemManager.Primitives W R
  pub dsas : DsaManager.Primitives W R
  pub keys : Keys.Codecs kems.der
  pub kdfs : Crates
  pub aes : OpensslAes
  pub symm : Openssl W
  pub contents : Cea.Codecs kems.der
  pub codecs : Codecs kems.der contents
  pub subject_key_identifier : Bytes → Option Bytes
  pub authority_key_identifier : Bytes → Option (Option Bytes)
  pub key_usage : Bytes → Option Bool
  pub basic_constraints : Extension → Option Bool
  pub tbs_to_der : Certificate → Option Bytes

-- What the certificates use, with the keys of the crate.
abbrev pub x509 : {W R : Type 0} → Crypto W R → X509
x509 e = record {
  subject_key_identifier = e.subject_key_identifier;
  authority_key_identifier = e.authority_key_identifier;
  key_usage = e.key_usage;
  basic_constraints = e.basic_constraints;
  tbs_to_der = e.tbs_to_der;
  PublicKey = Public.PublicKey;
  from_der = Public.from_der e.kems.der e.keys;
  verify = Public.verify e.dsas;
}
