-- ===== src/Tests/BuilderExamples.antt =====
-- The theorems on the builder of messages over the small instance.
use qubitcrypt.Prelude.{
  ℕ, ◌≡◌, refl, ap, sym, eq_of_some, ◌⊎◌, true, false, none, some, [], ◌∷◌, Memᴰ,
}
use qubitcrypt.Outcome.{Bytes, ok, err, ok_or, unknown}
use qubitcrypt.Effect.{pure, ◌>>=◌}
use qubitcrypt.Kem.Algorithm as KemAlgorithm
use qubitcrypt.Kem.Info.{kem_info}
use qubitcrypt.Kem.Ml as Ml
use qubitcrypt.Kem.Manager as KemManager
use qubitcrypt.Keys.PublicKey as Public
use qubitcrypt.Keys.Generators.{kem_generate}
use qubitcrypt.Certificate.{get_subject_key_identifier, get_public_key}
use qubitcrypt.Kdf as Kdf
use qubitcrypt.Wrap as Wrap
use qubitcrypt.Cea as Cea
use qubitcrypt.Cea.{aes128_gcm, aes256_cbc_pad}
use qubitcrypt.Cms.Kemri.{build, wrap_cek, encode_recipient, get_kek}
use qubitcrypt.Cms.Decrypt.{decrypt_kemri}
use qubitcrypt.Cms.Sealed.{ContentEncryptionAlgorithmAead, kem, seal}
use qubitcrypt.Cms.Sealed as Sealed
use qubitcrypt.Cms.Builder.{
  EnvelopedDataBuilder, ContentEncryptionAlgorithm, cbc_of, aead_of, new, content,
}
use qubitcrypt.Cms.Builder.Build.{
  Envelopes, build_enveloped, build_auth_enveloped, auth_new, add_all, add_kemris, add_foreigns,
  add_recipient_info,
}
use qubitcrypt.Cms.Builder.Build as Build
use qubitcrypt.Cms.Builder.Consistent.{started, stepped, by_content, Reached-supported}
use qubitcrypt.Cms.Builder.Ordered.{recipients, to_seal, build_auth_enveloped-refines}
use qubitcrypt.Cms.Builder.Delivered.{IsWrapping, decrypt_kemri-build}
use qubitcrypt.Cms.Content.{
  EnvelopedDataContent, AuthEnvelopedDataContent, from_bytes_for_kem_recipient,
  auth_from_bytes_for_kem_recipient,
}
use qubitcrypt.Cms.Content.Read.{from_bytes-not_der, auth_from_bytes-build}
use qubitcrypt.Tests.KeyExamples.{kem_pk, kem_sk}
use qubitcrypt.Tests.Packing.{pack}
use qubitcrypt.Tests.Envelopes.{
  message_parts, toy_crypto, toy_crypto-IsLawful, toy_crypto-IsEncoder,
}
use qubitcrypt.Tests.EnvelopeExamples.{
  text, ids, certificate, builder, builder-Addresses, skid_of, envelope-OthersDiffer, message,
}

abbrev enveloped : EnvelopedDataBuilder toy_crypto
enveloped = record {
  originator_info = none;
  plaintext = text;
  cea_type = aes128_gcm;
  unprotected_attributes = none;
  auth_attributes = some (8 ∷ []);
  kemri_builders = builder (3 ∷ []) ∷ builder (2 ∷ []) ∷ [];
  kek_builders = [];
  ktri_builders = [];
  kari_builders = [];
  pwri_builders = [];
  ori_builders = [];
  is_auth_enveloped = true;
}

abbrev plain : EnvelopedDataBuilder toy_crypto
plain = record {
  originator_info = none;
  plaintext = text;
  cea_type = aes256_cbc_pad;
  unprotected_attributes = none;
  auth_attributes = none;
  kemri_builders = [];
  kek_builders = [];
  ktri_builders = [];
  kari_builders = [];
  pwri_builders = [];
  ori_builders = [];
  is_auth_enveloped = false;
}

Reached-supported_example :
    ((false ≡ true) × (x : ContentEncryptionAlgorithmAead) × (aead_of aes256_cbc_pad ≡ ok x))
    ⊎ ((false ≡ false)
        × (plain.auth_attributes ≡ none)
        × (x : ContentEncryptionAlgorithm) × (cbc_of aes256_cbc_pad ≡ ok x))
unfolding new content
Reached-supported_example =
    Reached-supported toy_crypto plain
      (stepped (started aes256_cbc_pad false refl) (by_content text refl))

build_auth_enveloped-refines_example :
    build_auth_enveloped toy_crypto ids enveloped 7
    ≡ (do
      cea ← pure (aead_of enveloped.cea_type)
      sealed ←
          seal toy_crypto ids (to_seal toy_crypto enveloped cea (recipients toy_crypto enveloped))
      pure (ok_or unknown (toy_crypto.codecs.encode_auth_enveloped sealed)))
        7
build_auth_enveloped-refines_example = build_auth_enveloped-refines toy_crypto ids enveloped 7

abbrev toy_envelopes : Envelopes toy_crypto
toy_envelopes = record {
  Builder = ℕ;
  new = λ o p c a. some 0;
  add_recipient_info = λ b r. some b;
  build_with_rng = λ b r w. (err unknown, w);
  to_der = λ x. none;
  write = λ p b w. (none, w);
}

toy_crypto-IsWrapping : IsWrapping toy_crypto
toy_crypto-IsWrapping = record { info = λ x b h. read-back x b h; auth = refl; other = refl }
  where
    read-back :
        (x : ℕ × Bytes) (b : Bytes)
        → toy_crypto.codecs.encode_content_info x ≡ some b
        → toy_crypto.codecs.decode_content_info b ≡ some x
    read-back x b h = ap toy_crypto.codecs.decode_content_info (sym (eq_of_some h))

decrypt_kemri-build_example :
    decrypt_kemri toy_crypto (2 ∷ pack (message_parts message)) kem_sk (certificate (2 ∷ []))
    ≡ ok text
unfolding kem_generate seal Sealed.seal_with Sealed.build_all Sealed.build_recipient Sealed.assemble
    Sealed.additional_data Sealed.aead_oid build get_public_key Public.from_der Public.new
    KemManager.operations Ml.ml_kem Ml.key_gen_with_rng Ml.generate_at Ml.encap_with
    Ml.encapsulate_at wrap_cek encode_recipient get_kek Kdf.new_from_oid Kdf.derive Kdf.hkdf_derive
    Wrap.wrap Wrap.wrap_info Wrap.get_key_length Wrap.new_from_oid get_subject_key_identifier
    kem_info Cea.from_oid Cea.new Cea.key_gen Cea.nonce_gen Cea.get_nonce Cea.encrypt
    Cea.encrypt_with Cea.to_content_info Cea.encode_nonce Cea.get_oid Cea.get_cipher Build.build
    build_auth_enveloped auth_new add_all add_kemris add_foreigns add_recipient_info aead_of
    recipients
decrypt_kemri-build_example =
    decrypt_kemri-build toy_crypto toy_crypto-IsLawful toy_crypto-IsEncoder toy_crypto-IsWrapping
      KemAlgorithm.ml_kem768 5 kem_pk kem_sk 6 refl toy_envelopes ids enveloped (builder (2 ∷ []))
      (2 ∷ []) refl (builder-Addresses (2 ∷ [])) (skid_of (2 ∷ [])) (Memᴰ.tail (Memᴰ.head refl))
      envelope-OthersDiffer 7 (2 ∷ pack (message_parts message)) 11 refl

from_bytes-not_der_example :
    ((x : EnvelopedDataContent toy_crypto)
      → from_bytes_for_kem_recipient toy_crypto
          (λ b. some (2 ∷ pack (message_parts message)))
          []
          (certificate (2 ∷ []))
          kem_sk
        ≡ ok x
      → ⊥)
    × ((x : AuthEnvelopedDataContent toy_crypto)
        → auth_from_bytes_for_kem_recipient toy_crypto
            (λ b. some (2 ∷ pack (message_parts message)))
            []
            (certificate (2 ∷ []))
            kem_sk
          ≡ ok x
        → ⊥)
from_bytes-not_der_example =
    from_bytes-not_der toy_crypto (λ b. some (2 ∷ pack (message_parts message))) []
      (certificate (2 ∷ [])) kem_sk refl

auth_from_bytes-build_example :
    (x : AuthEnvelopedDataContent toy_crypto) × (auth_from_bytes_for_kem_recipient toy_crypto
        (λ b. none)
        (2 ∷ pack (message_parts message))
        (certificate (2 ∷ []))
        kem_sk
      ≡ ok x)
    × (x.content ≡ text)
    × (x.auth_attrs ≡ some (8 ∷ []))
    × (x.unprotected_attrs ≡ none)
    × (x.originator_info ≡ none)
unfolding kem_generate seal Sealed.seal_with Sealed.build_all Sealed.build_recipient Sealed.assemble
    Sealed.additional_data Sealed.aead_oid build get_public_key Public.from_der Public.new
    KemManager.operations Ml.ml_kem Ml.key_gen_with_rng Ml.generate_at Ml.encap_with
    Ml.encapsulate_at wrap_cek encode_recipient get_kek Kdf.new_from_oid Kdf.derive Kdf.hkdf_derive
    Wrap.wrap Wrap.wrap_info Wrap.get_key_length Wrap.new_from_oid get_subject_key_identifier
    kem_info Cea.from_oid Cea.new Cea.key_gen Cea.nonce_gen Cea.get_nonce Cea.encrypt
    Cea.encrypt_with Cea.to_content_info Cea.encode_nonce Cea.get_oid Cea.get_cipher Build.build
    build_auth_enveloped auth_new add_all add_kemris add_foreigns add_recipient_info aead_of
    recipients
auth_from_bytes-build_example =
    auth_from_bytes-build toy_crypto toy_crypto-IsLawful toy_crypto-IsEncoder toy_crypto-IsWrapping
      KemAlgorithm.ml_kem768 5 kem_pk kem_sk 6 refl toy_envelopes ids enveloped (builder (2 ∷ []))
      (2 ∷ []) refl (builder-Addresses (2 ∷ [])) (skid_of (2 ∷ [])) (Memᴰ.tail (Memᴰ.head refl))
      envelope-OthersDiffer 7 (2 ∷ pack (message_parts message)) 11 refl (λ b. none)
