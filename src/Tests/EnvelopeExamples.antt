-- ===== src/Tests/EnvelopeExamples.antt =====
-- The theorems on derivation, content encryption and messages over the small instance: a message for
-- the holder of an ML-KEM-768 key.
use qubitcrypt.Prelude.{
  false, ◌++◌, ◌==◌, if◌then◌else◌, arith, ℕ, ◌≡◌, refl, ◌↔◌, inl, inr, none, some, List, [], ◌∷◌,
  replicate, Memᴰ,
}
use qubitcrypt.Outcome.{Bytes, Outcome, ok, err, invalid_certificate}
use qubitcrypt.Kem.Algorithm as KemAlgorithm
use qubitcrypt.Kem.Info.{kem_info}
use qubitcrypt.Kem.Types
use qubitcrypt.Kem.Ml as Ml
use qubitcrypt.Kem.Trait as KemTrait
use qubitcrypt.Kem.Manager as KemManager
use qubitcrypt.Kem.Manager.{ml}
use qubitcrypt.Keys.PublicKey as Public
use qubitcrypt.Keys.Generators.{kem_generate}
use qubitcrypt.Certificate.{Certificate, get_subject_key_identifier, get_public_key}
use qubitcrypt.Kdf as Kdf
use qubitcrypt.Kdf.{KdfManager, kdf_info, get_kdf_info, hkdf_with_sha256, shake128}
use qubitcrypt.Kdf.Derived.{Derives, kdf-Derives}
use qubitcrypt.Wrap as Wrap
use qubitcrypt.Wrap.{aes128}
use qubitcrypt.Cea as Cea
use qubitcrypt.Cea.{aes128_gcm}
use qubitcrypt.Cea.Correct.{decrypt-encrypt}
use qubitcrypt.Cms.{
  OtherRecipientInfo, RecipientInfo, ktri, ori, Recipient, AuthEnvelopedData, x509,
}
use qubitcrypt.Cms.Kemri.{KemRecipientInfoBuilder, build, wrap_cek, encode_recipient, get_kek}
use qubitcrypt.Cms.Kemri.Opened.{Addresses, Yields, get_cek-build, get_cek-build_other}
use qubitcrypt.Cms.Decrypt.{open_first, decrypt_auth_enveloped_kemri}
use qubitcrypt.Cms.Decrypt.Searched.{Opens, open_first_iff}
use qubitcrypt.Cms.Sealed.{AuthEnvelopedDataBuilder, AeadOids, kem, seal}
use qubitcrypt.Cms.Sealed as Sealed
use qubitcrypt.Cms.Sealed.Roundtrip.{OthersDiffer, decrypt-seal}
use qubitcrypt.Tests.KeyExamples.{kem_pk, kem_sk}
use qubitcrypt.Tests.Messages.{
  der, toy_kdfs, toy_kdfs-IsLawful, toy_symm, toy_contents, toy_contents-IsLawful,
}
use qubitcrypt.Tests.Packing.{pack}
use qubitcrypt.Tests.Envelopes.{
  message_parts, toy_crypto, toy_crypto-IsLawful, toy_crypto-IsEncoder,
}

kdf-Derives_example :
    (m : KdfManager) × (Kdf.new shake128 ≡ ok m)
    × (get_kdf_info m ≡ kdf_info shake128)
    × Derives shake128 40 (Kdf.derive toy_kdfs m (1 ∷ 2 ∷ []) (3 ∷ []) 40 none)
kdf-Derives_example = kdf-Derives toy_kdfs toy_kdfs-IsLawful shake128 (1 ∷ 2 ∷ []) (3 ∷ []) 40 none

abbrev key : Bytes
key = replicate 16 5

abbrev nonce : Bytes
nonce = replicate 12 6

abbrev pub text : Bytes
text = 4 ∷ 2 ∷ []

abbrev content : Bytes
content = 9 ∷ 4 ∷ 14 ∷ 1 ∷ 16 ∷ 6 ∷ 6 ∷ 6 ∷ 6 ∷ 6 ∷ 6 ∷ 6 ∷ 6 ∷ 6 ∷ 6 ∷ 6 ∷ 6 ∷ 3 ∷ 1 ∷ 4 ∷ 2 ∷ []

decrypt-encrypt_example :
    Cea.decrypt toy_crypto.kems.der toy_contents toy_symm key
      (replicate 16 5)
      content
      (some (8 ∷ []))
    ≡ ok text
unfolding Cea.encrypt
decrypt-encrypt_example =
    decrypt-encrypt der toy_crypto-IsLawful.kems.der toy_contents toy_symm toy_contents-IsLawful
      aes128_gcm key (some nonce) text (some (8 ∷ [])) none 7 (replicate 16 5) content 7 refl

abbrev pub certificate : Bytes → Certificate
certificate skid = record {
  subject = 1 ∷ [];
  issuer = 1 ∷ [];
  serial_number = 1 ∷ [];
  extensions = some (record { extn_id = "2.5.29.14"; critical = false; extn_value = skid } ∷ []);
  spki_der = some (0 ∷ 5 ∷ []);
  public_key_oid = "2.16.840.1.101.3.4.4.2";
  signature = [];
  not_before = 0;
  not_after = 9;
  signature_oid = "1.2";
  tbs_signature_oid = "1.2";
}

abbrev pub builder : Bytes → KemRecipientInfoBuilder toy_crypto
builder skid = record {
  cert = certificate skid;
  kem = ml (kem_info Types.ml_kem768);
  kdf_oid = "1.2.840.113549.1.9.16.3.28";
  wrap_oid = "2.16.840.1.101.3.4.1.5";
  ukm = none;
}

pub skid_of :
    (skid : Bytes) → get_subject_key_identifier (x509 toy_crypto) (certificate skid) ≡ ok skid
unfolding get_subject_key_identifier
skid_of skid = refl

pub builder-Addresses : (skid : Bytes) → Addresses toy_crypto (builder skid) kem_pk
unfolding get_public_key Public.from_der Kdf.get_oid Wrap.get_oid KemManager.kem_manager
    KemTrait.new_from_oid
builder-Addresses skid = record {
  public_key = refl;
  kem = refl;
  kdf_type = hkdf_with_sha256;
  kdf_oid = refl;
  wrap_type = aes128;
  wrap_oid = refl;
}

abbrev cek : Bytes
cek = replicate 16 7

-- The recipient that is built for a certificate and a ciphertext.
abbrev recipient : ℕ → ℕ → Recipient toy_crypto.kems.der toy_crypto.contents
recipient skid ct = ori (record {
  ori_type = 1;
  ori_value = 2 ∷ 0 ∷ skid ∷ 5 ∷ 0 ∷ 0 ∷ 2 ∷ 16 ∷ 3 ∷ 1 ∷ ct ∷ 24 ∷ (cek ++ replicate 12 0);
})

get_cek-build_example : Yields toy_crypto (recipient 2 12) kem_sk (certificate (2 ∷ [])) (ok cek)
unfolding kem_generate build get_public_key Public.from_der Public.new KemManager.operations
    Ml.ml_kem Ml.key_gen_with_rng Ml.generate_at Ml.encap_with Ml.encapsulate_at wrap_cek
    encode_recipient get_kek Kdf.new_from_oid Kdf.derive Kdf.hkdf_derive Wrap.wrap Wrap.wrap_info
    Wrap.get_key_length Wrap.new_from_oid get_subject_key_identifier kem_info
get_cek-build_example =
    get_cek-build toy_crypto (builder (2 ∷ [])) toy_crypto-IsLawful KemAlgorithm.ml_kem768 5 kem_pk
      kem_sk 6 refl (builder-Addresses (2 ∷ [])) cek 7 (recipient 2 12) 8 refl

skid-differs : get_subject_key_identifier (x509 toy_crypto) (certificate (3 ∷ [])) ≡ ok (2 ∷ []) → ⊥
unfolding get_subject_key_identifier
skid-differs h = absurd (ground arith)

get_cek-build_other_example :
    Yields toy_crypto (recipient 3 12) kem_sk (certificate (2 ∷ [])) (err invalid_certificate)
unfolding build get_public_key Public.from_der Public.new KemManager.operations Ml.ml_kem
    Ml.encap_with Ml.encapsulate_at wrap_cek encode_recipient get_kek Kdf.new_from_oid Kdf.derive
    Kdf.hkdf_derive Wrap.wrap Wrap.wrap_info Wrap.get_key_length Wrap.new_from_oid
    get_subject_key_identifier kem_info
get_cek-build_other_example =
    get_cek-build_other toy_crypto (builder (3 ∷ [])) toy_crypto-IsLawful (certificate (2 ∷ []))
      (2 ∷ []) (skid_of (2 ∷ [])) skid-differs kem_sk cek 7 (recipient 3 12) 8 refl

abbrev loop_cek : OtherRecipientInfo ℕ ℕ → Outcome Bytes
loop_cek o = if o.ori_value == 4 then ok cek else err invalid_certificate

abbrev two_recipients : List (RecipientInfo ℕ ℕ)
two_recipients =
    ktri text
    ∷ ori (record { ori_type = 1; ori_value = 3 })
    ∷ ori (record { ori_type = 1; ori_value = 4 })
    ∷ []

open_first_iff_example : (open_first loop_cek (λ key. ok key) two_recipients ≡ ok cek) ↔ (
    (key : Bytes) × Opens loop_cek two_recipients key × (◌≡◌ {A = Outcome Bytes} (ok key) (ok cek)))
open_first_iff_example = open_first_iff loop_cek (λ key. ok key) two_recipients cek

abbrev pub ids : AeadOids
ids = record {
  id_aes_128_gcm = "2.16.840.1.101.3.4.1.6";
  id_aes_192_gcm = "2.16.840.1.101.3.4.1.26";
  id_aes_256_gcm = "2.16.840.1.101.3.4.1.46";
}

abbrev pub envelope : AuthEnvelopedDataBuilder toy_crypto
envelope = record {
  content_id = none;
  originator_info = none;
  recipient_infos = kem (builder (3 ∷ [])) ∷ kem (builder (2 ∷ [])) ∷ [];
  unencrypted_content = text;
  content_encryption_algorithm = Sealed.aes128_gcm;
  auth_attributes = some (8 ∷ []);
  unauth_attributes = none;
}

abbrev pub message : AuthEnvelopedData toy_crypto.kems.der toy_crypto.contents Bytes Bytes
message = record {
  version = 0;
  originator_info = none;
  recip_infos = recipient 3 14 ∷ recipient 2 15 ∷ [];
  auth_encrypted_content = record {
    content_type = 9;
    algorithm = 4;
    parameters = some (16 ∷ replicate 12 8);
    encrypted_content = some text;
  };
  auth_attrs = some (8 ∷ []);
  mac = cek;
  unauth_attrs = none;
}

pub envelope-OthersDiffer :
    OthersDiffer toy_crypto (builder (2 ∷ [])) (2 ∷ []) envelope.recipient_infos
envelope-OthersDiffer r m = elim m [
  | Memᴰ.head is ↦ inr (builder (3 ∷ []), is, skid-differs)
  | Memᴰ.tail n ↦ elim n [ Memᴰ.head is ↦ inl is | Memᴰ.tail k ↦ elim k [ ] ]
]

decrypt-seal_example :
    decrypt_auth_enveloped_kemri toy_crypto
      (pack (message_parts message))
      kem_sk
      (certificate (2 ∷ []))
    ≡ ok text
unfolding kem_generate seal Sealed.seal_with Sealed.build_all Sealed.build_recipient Sealed.assemble
    Sealed.additional_data Sealed.aead_oid build get_public_key Public.from_der Public.new
    KemManager.operations Ml.ml_kem Ml.key_gen_with_rng Ml.generate_at Ml.encap_with
    Ml.encapsulate_at wrap_cek encode_recipient get_kek Kdf.new_from_oid Kdf.derive Kdf.hkdf_derive
    Wrap.wrap Wrap.wrap_info Wrap.get_key_length Wrap.new_from_oid get_subject_key_identifier
    kem_info Cea.from_oid Cea.new Cea.key_gen Cea.nonce_gen Cea.get_nonce Cea.encrypt
    Cea.encrypt_with Cea.to_content_info Cea.encode_nonce Cea.get_oid Cea.get_cipher
decrypt-seal_example =
    decrypt-seal toy_crypto toy_crypto-IsLawful toy_crypto-IsEncoder KemAlgorithm.ml_kem768 5 kem_pk
      kem_sk 6 refl ids envelope (builder (2 ∷ [])) (2 ∷ []) (builder-Addresses (2 ∷ []))
      (skid_of (2 ∷ [])) (Memᴰ.tail (Memᴰ.head refl)) envelope-OthersDiffer 7 message 11 refl
      (pack (message_parts message)) refl
