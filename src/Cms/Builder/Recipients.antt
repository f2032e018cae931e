-- ===== src/Cms/Builder/Recipients.antt =====
-- cms/enveloped_data_builder.rs: the recipients that are added to a builder of messages.
use qubitcrypt.Prelude.{not, Option, [], ◌∷◌, ◌++◌, if◌then◌else◌}
use qubitcrypt.Outcome.{ok, err, invalid_certificate}
use qubitcrypt.Effect.{Eff, pure, after}
use qubitcrypt.Kem.Trait as Kem
use qubitcrypt.Kem.Manager.{kem_manager}
use qubitcrypt.Certificate.{Certificate, is_key_encipherment_enabled}
use qubitcrypt.Kdf as Kdf
use qubitcrypt.Kdf.{KdfType}
use qubitcrypt.Wrap as Wrap
use qubitcrypt.Wrap.{WrapType}
use qubitcrypt.Cms.{Crypto, x509}
use qubitcrypt.Cms.Kemri.{KemRecipientInfoBuilder, Octets}
use qubitcrypt.Cms.Kemri as Kemri
use qubitcrypt.Cms.Builder.{Done, Foreign, EnvelopedDataBuilder}

module _ {W R : Type 0} (e : Crypto W R) where
  abbrev pub push_kem : KemRecipientInfoBuilder e → EnvelopedDataBuilder e → EnvelopedDataBuilder e
  push_kem r b = record {
    originator_info = b.originator_info;
    plaintext = b.plaintext;
    cea_type = b.cea_type;
    unprotected_attributes = b.unprotected_attributes;
    auth_attributes = b.auth_attributes;
    kemri_builders = b.kemri_builders ++ (r ∷ []);
    kek_builders = b.kek_builders;
    ktri_builders = b.ktri_builders;
    kari_builders = b.kari_builders;
    pwri_builders = b.pwri_builders;
    ori_builders = b.ori_builders;
    is_auth_enveloped = b.is_auth_enveloped;
  }

  unfoldable pub kem_recipient :
      Certificate → KdfType → WrapType → Option (Octets e) → Eff (EnvelopedDataBuilder e) Done
  unfolding is_key_encipherment_enabled Kdf.get_oid Wrap.get_oid Kem.new_from_oid kem_manager
      Kemri.new
  kem_recipient cert kdf wrap_type ukm b =
      if not (is_key_encipherment_enabled (x509 e) cert)
      then (err invalid_certificate, b)
      else after (pure (Kem.new_from_oid kem_manager cert.public_key_oid) b) (λ kem b.
        (ok tt, push_kem (Kemri.new e cert kem (Kdf.get_oid kdf) (Wrap.get_oid wrap_type) ukm) b))

  unfoldable pub kek_recipient : Foreign e → Eff (EnvelopedDataBuilder e) Done
  kek_recipient r b = (
    ok tt,
    record {
      originator_info = b.originator_info;
      plaintext = b.plaintext;
      cea_type = b.cea_type;
      unprotected_attributes = b.unprotected_attributes;
      auth_attributes = b.auth_attributes;
      kemri_builders = b.kemri_builders;
      kek_builders = b.kek_builders ++ (r ∷ []);
      ktri_builders = b.ktri_builders;
      kari_builders = b.kari_builders;
      pwri_builders = b.pwri_builders;
      ori_builders = b.ori_builders;
      is_auth_enveloped = b.is_auth_enveloped;
    },
  )

  unfoldable pub ktri_recipient : Foreign e → Eff (EnvelopedDataBuilder e) Done
  ktri_recipient r b = (
    ok tt,
    record {
      originator_info = b.originator_info;
      plaintext = b.plaintext;
      cea_type = b.cea_type;
      unprotected_attributes = b.unprotected_attributes;
      auth_attributes = b.auth_attributes;
      kemri_builders = b.kemri_builders;
      kek_builders = b.kek_builders;
      ktri_builders = b.ktri_builders ++ (r ∷ []);
      kari_builders = b.kari_builders;
      pwri_builders = b.pwri_builders;
      ori_builders = b.ori_builders;
      is_auth_enveloped = b.is_auth_enveloped;
    },
  )

  unfoldable pub kari_recipient : Foreign e → Eff (EnvelopedDataBuilder e) Done
  kari_recipient r b = (
    ok tt,
    record {
      originator_info = b.originator_info;
      plaintext = b.plaintext;
      cea_type = b.cea_type;
      unprotected_attributes = b.unprotected_attributes;
      auth_attributes = b.auth_attributes;
      kemri_builders = b.kemri_builders;
      kek_builders = b.kek_builders;
      ktri_builders = b.ktri_builders;
      kari_builders = b.kari_builders ++ (r ∷ []);
      pwri_builders = b.pwri_builders;
      ori_builders = b.ori_builders;
      is_auth_enveloped = b.is_auth_enveloped;
    },
  )

  unfoldable pub pwri_recipient : Foreign e → Eff (EnvelopedDataBuilder e) Done
  pwri_recipient r b = (
    ok tt,
    record {
      originator_info = b.originator_info;
      plaintext = b.plaintext;
      cea_type = b.cea_type;
      unprotected_attributes = b.unprotected_attributes;
      auth_attributes = b.auth_attributes;
      kemri_builders = b.kemri_builders;
      kek_builders = b.kek_builders;
      ktri_builders = b.ktri_builders;
      kari_builders = b.kari_builders;
      pwri_builders = b.pwri_builders ++ (r ∷ []);
      ori_builders = b.ori_builders;
      is_auth_enveloped = b.is_auth_enveloped;
    },
  )

  unfoldable pub ori_recipient : Foreign e → Eff (EnvelopedDataBuilder e) Done
  ori_recipient r b = (
    ok tt,
    record {
      originator_info = b.originator_info;
      plaintext = b.plaintext;
      cea_type = b.cea_type;
      unprotected_attributes = b.unprotected_attributes;
      auth_attributes = b.auth_attributes;
      kemri_builders = b.kemri_builders;
      kek_builders = b.kek_builders;
      ktri_builders = b.ktri_builders;
      kari_builders = b.kari_builders;
      pwri_builders = b.pwri_builders;
      ori_builders = b.ori_builders ++ (r ∷ []);
      is_auth_enveloped = b.is_auth_enveloped;
    },
  )
