-- ===== src/Cms/Builder/Consistent.antt =====
-- cms/enveloped_data_builder.rs: what holds of a builder after any operations.
use qubitcrypt.Effect.{pure, after}
use qubitcrypt.Kdf as Kdf
use qubitcrypt.Wrap as Wrap
use qubitcrypt.Cms.Kemri as Kemri
use qubitcrypt.Prelude.{
  ◌∙◌, ◌≡◌, refl, subst, ◌⊎◌, inl, inr, Bool, true, false, Option, none, Bool-cases, arith,
}
use qubitcrypt.Outcome.{Bytes, Outcome, ok, err, panic, diverges, ok-injective}
use qubitcrypt.Kem.Trait as Kem
use qubitcrypt.Kem.Manager.{KemManager, kem_manager}
use qubitcrypt.Certificate.{Certificate, is_key_encipherment_enabled}
use qubitcrypt.Kdf.{KdfType}
use qubitcrypt.Wrap.{WrapType}
use qubitcrypt.Cea.{
  CeaType, aes128_gcm, aes192_gcm, aes256_gcm, aes128_cbc_pad, aes192_cbc_pad, aes256_cbc_pad,
  is_gcm,
}
use qubitcrypt.Cms.{Crypto, x509}
use qubitcrypt.Cms.Kemri.{Octets, KemRecipientInfoBuilder}
use qubitcrypt.Cms.Sealed.{ContentEncryptionAlgorithmAead}
use qubitcrypt.Cms.Builder.{
  Done, Foreign, EnvelopedDataBuilder, ContentEncryptionAlgorithm, cbc_of, aead_of, new,
  unprotected_attribute, auth_attribute, content, originator_info,
}
use qubitcrypt.Cms.Builder.Recipients.{
  push_kem, kem_recipient, kek_recipient, ktri_recipient, kari_recipient, pwri_recipient,
  ori_recipient,
}

module _ {W R : Type 0} (e : Crypto W R) where
  -- One operation on a builder, whatever its result: the builder that it leaves.
  pub data Step (b : EnvelopedDataBuilder e) : EnvelopedDataBuilder e → Type 0 where
    by_unprotected :
        (a : e.codecs.Attribute) {b' : EnvelopedDataBuilder e}
        → (unprotected_attribute e a b).1 ≡ b'
        → Step b b'
    by_auth :
        (a : e.codecs.Attribute) {b' : EnvelopedDataBuilder e}
        → (auth_attribute e a b).1 ≡ b'
        → Step b b'
    by_content : (c : Bytes) {b' : EnvelopedDataBuilder e} → (content e c b).1 ≡ b' → Step b b'
    by_originator :
        (o : e.codecs.Originator) {b' : EnvelopedDataBuilder e}
        → (originator_info e o b).1 ≡ b'
        → Step b b'
    by_kem :
        (cert : Certificate) (k : KdfType) (t : WrapType) (u : Option (Octets e))
        {b' : EnvelopedDataBuilder e}
        → (kem_recipient e cert k t u b).1 ≡ b'
        → Step b b'
    by_kek :
        (r : Foreign e) {b' : EnvelopedDataBuilder e} → (kek_recipient e r b).1 ≡ b' → Step b b'
    by_ktri :
        (r : Foreign e) {b' : EnvelopedDataBuilder e} → (ktri_recipient e r b).1 ≡ b' → Step b b'
    by_kari :
        (r : Foreign e) {b' : EnvelopedDataBuilder e} → (kari_recipient e r b).1 ≡ b' → Step b b'
    by_pwri :
        (r : Foreign e) {b' : EnvelopedDataBuilder e} → (pwri_recipient e r b).1 ≡ b' → Step b b'
    by_ori :
        (r : Foreign e) {b' : EnvelopedDataBuilder e} → (ori_recipient e r b).1 ≡ b' → Step b b'

  pub data Reached : EnvelopedDataBuilder e → Type 0 where
    started : (t : CeaType) (a : Bool) {b : EnvelopedDataBuilder e} → new e t a ≡ ok b → Reached b
    stepped : {b b' : EnvelopedDataBuilder e} → Reached b → Step b b' → Reached b'

  -- The type of encryption goes with the kind of message, and only an authenticated one has
  -- authenticated attributes.
  pub record IsConsistent (b : EnvelopedDataBuilder e) : Type 0 where
    pub type : is_gcm b.cea_type ≡ b.is_auth_enveloped
    pub attributes : b.is_auth_enveloped ≡ false → b.auth_attributes ≡ none

  new-IsConsistent :
      (t : CeaType) (a : Bool) (b : EnvelopedDataBuilder e) → new e t a ≡ ok b → IsConsistent b
  unfolding new
  new-IsConsistent aes128_gcm true b h =
      subst IsConsistent (ok-injective h) (record { type = refl; attributes = λ _. refl })
  new-IsConsistent aes192_gcm true b h =
      subst IsConsistent (ok-injective h) (record { type = refl; attributes = λ _. refl })
  new-IsConsistent aes256_gcm true b h =
      subst IsConsistent (ok-injective h) (record { type = refl; attributes = λ _. refl })
  new-IsConsistent aes128_cbc_pad false b h =
      subst IsConsistent (ok-injective h) (record { type = refl; attributes = λ _. refl })
  new-IsConsistent aes192_cbc_pad false b h =
      subst IsConsistent (ok-injective h) (record { type = refl; attributes = λ _. refl })
  new-IsConsistent aes256_cbc_pad false b h =
      subst IsConsistent (ok-injective h) (record { type = refl; attributes = λ _. refl })
  new-IsConsistent aes128_gcm false b h = absurd (ground arith)
  new-IsConsistent aes192_gcm false b h = absurd (ground arith)
  new-IsConsistent aes256_gcm false b h = absurd (ground arith)
  new-IsConsistent aes128_cbc_pad true b h = absurd (ground arith)
  new-IsConsistent aes192_cbc_pad true b h = absurd (ground arith)
  new-IsConsistent aes256_cbc_pad true b h = absurd (ground arith)

  true_is_not_false : true ≡ false → ⊥
  true_is_not_false h = ground arith

  auth_attribute-IsConsistent :
      (a : e.codecs.Attribute) (b : EnvelopedDataBuilder e)
      → IsConsistent b
      → IsConsistent (auth_attribute e a b).1
  unfolding auth_attribute
  auth_attribute-IsConsistent a b c = elim (Bool-cases b.is_auth_enveloped) [
    | inl auth ↦
        rw (auth) (record { type = c.type ∙ auth; attributes = λ h. absurd (true_is_not_false h) })
    | inr plain ↦
        rw (plain) (record { type = c.type ∙ plain; attributes = λ _. c.attributes plain })
  ]

  pushed-IsConsistent :
      (r : Outcome KemManager) (f : KemManager → KemRecipientInfoBuilder e)
      (b : EnvelopedDataBuilder e)
      → IsConsistent b
      → IsConsistent (after {B = Done} (pure r b) (λ kem b'. (ok tt, push_kem e (f kem) b'))).1
  pushed-IsConsistent (ok kem) f b c = record { type = c.type; attributes = c.attributes }
  pushed-IsConsistent (err x) f b c = c
  pushed-IsConsistent panic f b c = c
  pushed-IsConsistent diverges f b c = c

  kem_recipient-IsConsistent :
      (cert : Certificate) (k : KdfType) (t : WrapType) (u : Option (Octets e))
      (b : EnvelopedDataBuilder e)
      → IsConsistent b
      → IsConsistent (kem_recipient e cert k t u b).1
  unfolding kem_recipient
  kem_recipient-IsConsistent cert k t u b c =
      elim (Bool-cases (is_key_encipherment_enabled (x509 e) cert)) [
        | inr off ↦ rw (off) c
        | inl on ↦ rw (on) (
            pushed-IsConsistent (Kem.new_from_oid kem_manager cert.public_key_oid)
              (λ kem. Kemri.new e cert kem (Kdf.get_oid k) (Wrap.get_oid t) u) b c)
      ]

  Step-IsConsistent : (b b' : EnvelopedDataBuilder e) → Step b b' → IsConsistent b → IsConsistent b'
  unfolding unprotected_attribute content originator_info kek_recipient ktri_recipient
      kari_recipient pwri_recipient ori_recipient
  Step-IsConsistent b b' (by_auth a h) c = subst IsConsistent h (auth_attribute-IsConsistent a b c)
  Step-IsConsistent b b' (by_kem cert k t u h) c =
      subst IsConsistent h (kem_recipient-IsConsistent cert k t u b c)
  Step-IsConsistent b b' (by_unprotected a h) c =
      subst IsConsistent h (record { type = c.type; attributes = c.attributes })
  Step-IsConsistent b b' (by_content a h) c =
      subst IsConsistent h (record { type = c.type; attributes = c.attributes })
  Step-IsConsistent b b' (by_originator a h) c =
      subst IsConsistent h (record { type = c.type; attributes = c.attributes })
  Step-IsConsistent b b' (by_kek a h) c =
      subst IsConsistent h (record { type = c.type; attributes = c.attributes })
  Step-IsConsistent b b' (by_ktri a h) c =
      subst IsConsistent h (record { type = c.type; attributes = c.attributes })
  Step-IsConsistent b b' (by_kari a h) c =
      subst IsConsistent h (record { type = c.type; attributes = c.attributes })
  Step-IsConsistent b b' (by_pwri a h) c =
      subst IsConsistent h (record { type = c.type; attributes = c.attributes })
  Step-IsConsistent b b' (by_ori a h) c =
      subst IsConsistent h (record { type = c.type; attributes = c.attributes })

  Reached-IsConsistent : (b : EnvelopedDataBuilder e) → Reached b → IsConsistent b
  Reached-IsConsistent b (started t a h) = new-IsConsistent t a b h
  Reached-IsConsistent b (stepped {b = b₀} r s) =
      Step-IsConsistent b₀ b s (Reached-IsConsistent b₀ r)

  aead_of-gcm :
      (t : CeaType) → is_gcm t ≡ true → (x : ContentEncryptionAlgorithmAead) × (aead_of t ≡ ok x)
  unfolding aead_of
  aead_of-gcm aes128_gcm h = (_, refl)
  aead_of-gcm aes192_gcm h = (_, refl)
  aead_of-gcm aes256_gcm h = (_, refl)
  aead_of-gcm aes128_cbc_pad h = absurd (ground arith)
  aead_of-gcm aes192_cbc_pad h = absurd (ground arith)
  aead_of-gcm aes256_cbc_pad h = absurd (ground arith)

  cbc_of-cbc :
      (t : CeaType) → is_gcm t ≡ false → (x : ContentEncryptionAlgorithm) × (cbc_of t ≡ ok x)
  unfolding cbc_of
  cbc_of-cbc aes128_gcm h = absurd (ground arith)
  cbc_of-cbc aes192_gcm h = absurd (ground arith)
  cbc_of-cbc aes256_gcm h = absurd (ground arith)
  cbc_of-cbc aes128_cbc_pad h = (_, refl)
  cbc_of-cbc aes192_cbc_pad h = (_, refl)
  cbc_of-cbc aes256_cbc_pad h = (_, refl)

  -- After any operations on a builder that `new` gave, failed ones included, it is for an authenticated
  -- message and its type is one that `build_auth_enveloped` knows, or it is not, its type is one that
  -- `build_enveloped` knows, and it has no authenticated attributes.
  pub Reached-supported :
      (b : EnvelopedDataBuilder e)
      → Reached b
      → ((b.is_auth_enveloped ≡ true)
          × (x : ContentEncryptionAlgorithmAead) × (aead_of b.cea_type ≡ ok x))
        ⊎ ((b.is_auth_enveloped ≡ false)
            × (b.auth_attributes ≡ none)
            × (x : ContentEncryptionAlgorithm) × (cbc_of b.cea_type ≡ ok x))
  Reached-supported b r =
      let c = Reached-IsConsistent b r in
      elim (Bool-cases b.is_auth_enveloped) [
        | inl auth ↦ let (x, known) = aead_of-gcm b.cea_type (c.type ∙ auth) in inl (auth, x, known)
        | inr plain ↦
            let (x, known) = cbc_of-cbc b.cea_type (c.type ∙ plain) in
            inr (plain, c.attributes plain, x, known)
      ]
