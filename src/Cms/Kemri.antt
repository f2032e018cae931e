-- ===== src/Cms/Kemri.antt =====
-- cms/asn1/kemri_builder.rs and `get_kek` and `get_cek` of cms/cms_util.rs: the content key for one
-- recipient, from its encapsulation to its recovery.
pub mod Recovered
pub mod Opened
use qubitcrypt.Prelude.{
  ℕ, String, Bool, true, false, not, ◌&&◌, Option, none, some, same_bytes, if◌then◌else◌,
}
use qubitcrypt.Outcome.{
  Bytes, Outcome, ok, err, panic, diverges, ok_or, map_err, ◌>>=◌, or_false, invalid_oid,
  invalid_enveloped_data, invalid_certificate, unknown,
}
use qubitcrypt.Effect
use qubitcrypt.Effect.{Eff, pure, map_error}
use qubitcrypt.Kem.Info.{KemInfo}
use qubitcrypt.Kem.Manager.{KemManager}
use qubitcrypt.Kem.Manager as KemManager
use qubitcrypt.Keys.PrivateKey.{PrivateKey}
use qubitcrypt.Keys.PrivateKey as Private
use qubitcrypt.Certificate.{Certificate, get_subject_key_identifier, get_public_key}
use qubitcrypt.Store.{RecipientIdentifier, issuer_and_serial_number, subject_key_identifier}
use qubitcrypt.Kdf as Kdf
use qubitcrypt.Wrap as Wrap
use qubitcrypt.Cms.{
  Crypto, x509, AlgorithmIdentifier, KemRecipientInfo, CmsOriForKemOtherInfo, OtherRecipientInfo,
  RecipientInfo, ori, Recipient,
}

module _ {W R : Type 0} (e : Crypto W R) where
  abbrev pub Oid : Type 0
  Oid = e.kems.der.ObjectId

  abbrev pub Octets : Type 0
  Octets = e.kems.der.OctetString

  abbrev pub Any : Type 0
  Any = e.contents.Any

  -- `Certificate::is_identified_by` of asn1/certificate.rs.
  unfoldable pub is_identified_by : Certificate → RecipientIdentifier → Outcome Bool
  unfolding get_subject_key_identifier
  is_identified_by cert (issuer_and_serial_number issuer serial) =
      ok (same_bytes cert.issuer issuer && same_bytes cert.serial_number serial)
  is_identified_by cert (subject_key_identifier ski) =
      or_false
        (get_subject_key_identifier (x509 e) cert >>= λ cert_ski. ok (same_bytes cert_ski ski))

  abbrev absent : Oid → AlgorithmIdentifier Oid Any
  absent oid = record { oid = oid; parameters = none }

  -- `CmsUtil::get_kek`.
  unfoldable pub get_kek : Bytes → String → String → ℕ → Option Octets → Outcome Bytes
  unfolding Kdf.new_from_oid Kdf.derive
  get_kek ss wrap_oid kdf_oid kek_length ukm = do
    wrap ← ok_or invalid_oid (e.kems.der.parse_oid wrap_oid)
    der_kdf_input ← ok_or invalid_enveloped_data (
        e.codecs.encode_other_info
          (record { wrap = absent wrap; kek_length = kek_length; ukm = ukm }))
    kdf ← Kdf.new_from_oid kdf_oid
    Kdf.derive e.kdfs kdf ss der_kdf_input kek_length none

  -- `CmsUtil::get_cek`, from where the recipient is decoded.
  unfoldable pub open_kemri :
      KemRecipientInfo Oid Any Octets → PrivateKey → Certificate → Outcome Bytes
  unfolding is_identified_by Private.decap get_kek Wrap.new_from_oid Wrap.unwrap
  open_kemri kemri private_key cert = is_identified_by cert kemri.rid >>= λ identified.
      if not identified then err invalid_certificate else (do
        ss ← Private.decap e.kems private_key (e.kems.der.octets kemri.kem_ct)
        kek ←
            get_kek ss (e.kems.der.oid_to_string kemri.wrap.oid)
              (e.kems.der.oid_to_string kemri.kdf.oid) kemri.kek_length kemri.ukm
        wrap ← Wrap.new_from_oid (e.kems.der.oid_to_string kemri.wrap.oid)
        Wrap.unwrap e.aes wrap kek (e.kems.der.octets kemri.encrypted_key))

  unfoldable pub get_cek : OtherRecipientInfo Oid Any → PrivateKey → Certificate → Outcome Bytes
  unfolding open_kemri
  get_cek o private_key cert = do
    ori_value ← ok_or invalid_enveloped_data (e.contents.any_to_der o.ori_value)
    kemri ← ok_or invalid_enveloped_data (e.codecs.decode_kemri ori_value)
    open_kemri kemri private_key cert

  pub record KemRecipientInfoBuilder : Type 0 where
    pub cert : Certificate
    pub kem : KemManager
    pub kdf_oid : String
    pub wrap_oid : String
    pub ukm : Option Octets

  unfoldable pub new :
      Certificate → KemManager → String → String → Option Octets → KemRecipientInfoBuilder
  new cert kem kdf_oid wrap_oid ukm = record {
    cert = cert;
    kem = kem;
    kdf_oid = kdf_oid;
    wrap_oid = wrap_oid;
    ukm = ukm;
  }

  abbrev id_ori_kem : String
  id_ori_kem = "1.2.840.113549.1.9.16.13.3"

  -- The part of `build` that wraps the content key under a shared secret. The errors of `build` are
  -- the `cms` crate's, which hold a text; they are written as the `Unknown` that both callers make
  -- of them.
  unfoldable pub wrap_cek :
      KemRecipientInfoBuilder → Bytes → Bytes → Outcome (Wrap.WrapType × Bytes)
  unfolding Wrap.new_from_oid Wrap.wrap_info Wrap.wrap get_kek
  wrap_cek b content_encryption_key ss = do
    wrap_man ← map_err unknown (Wrap.new_from_oid b.wrap_oid)
    kek ←
        map_err unknown
          (get_kek ss b.wrap_oid b.kdf_oid ((Wrap.wrap_info wrap_man).key_length) b.ukm)
    wrapped_key ← map_err unknown (Wrap.wrap e.aes wrap_man kek content_encryption_key)
    ok (wrap_man, wrapped_key)

  -- The part of `build` that encodes the recipient.
  unfoldable pub encode_recipient :
      KemRecipientInfoBuilder → ℕ → Bytes → Bytes → Outcome (Recipient e.kems.der e.contents)
  unfolding get_subject_key_identifier KemManager.operations
  encode_recipient b kek_length wrapped_key kem_ct = do
    skid ← map_err unknown (get_subject_key_identifier (x509 e) b.cert)
    kem_oid ←
        ok_or unknown (e.kems.der.parse_oid ((KemManager.operations e.kems b.kem).get_kem_info.oid))
    ct ← ok_or unknown (e.kems.der.octet_string kem_ct)
    kdf_oid ← ok_or unknown (e.kems.der.parse_oid b.kdf_oid)
    wrap_oid ← ok_or unknown (e.kems.der.parse_oid b.wrap_oid)
    encrypted_key ← ok_or unknown (e.kems.der.octet_string wrapped_key)
    oid_kem ← ok_or unknown (e.kems.der.parse_oid id_ori_kem)
    der ← ok_or unknown (
        e.codecs.encode_kemri (record {
          version = 0;
          rid = subject_key_identifier skid;
          kem = absent kem_oid;
          kem_ct = ct;
          kdf = absent kdf_oid;
          kek_length = kek_length;
          ukm = b.ukm;
          wrap = absent wrap_oid;
          encrypted_key = encrypted_key;
        }))
    ori_value ← ok_or unknown (e.contents.any_from_der der)
    ok (ori (record { ori_type = oid_kem; ori_value = ori_value }))

  -- `KemRecipientInfoBuilder::build`.
  unfoldable pub build : KemRecipientInfoBuilder → Bytes → Eff W (Recipient e.kems.der e.contents)
  unfolding get_public_key KemManager.operations Wrap.wrap_info wrap_cek encode_recipient
  build b content_encryption_key =
      Effect.◌>>=◌ (pure (map_err unknown (get_public_key (x509 e) b.cert))) (λ pk.
        Effect.◌>>=◌ (map_error unknown ((KemManager.operations e.kems b.kem).encap pk.key)) (λ out.
          pure (do
            key ← wrap_cek b content_encryption_key out.0
            encode_recipient b ((Wrap.wrap_info key.0).key_length) key.1 out.1)))
