-- ===== src/Oids/DsaTypes.antt =====
-- dsa/common/dsa_type.rs: `DsaType::from_oid` against `get_oid`.
use qubitcrypt.Prelude.{
  ◌≡◌, refl, sym, ap, ◌∙◌, ◌↔◌, String, some, str_eq, eq_iff, find-passes, eq_of_some,
}
use qubitcrypt.Dsa.Types.{DsaType, get_oid, from_oid, all}
use qubitcrypt.Dsa.Types.{
  rsa2048_pss_sha256, rsa2048_pkcs15_sha256, rsa3072_pss_sha512, rsa3072_pkcs15_sha512,
  ecdsa_p256_sha256, ecdsa_p256_sha512, ecdsa_p384_sha512, ecdsa_brainpool_p256r1_sha512,
  ecdsa_brainpool_p256r1_sha256, ecdsa_brainpool_p384r1_sha512, ed25519_sha512, ed448_sha512,
  ml_dsa44, ml_dsa65, ml_dsa87, ml_dsa44_rsa2048_pss_sha256, ml_dsa44_rsa2048_pkcs15_sha256,
  ml_dsa44_ed25519_sha512, ml_dsa44_ecdsa_p256_sha256, ml_dsa44_ecdsa_brainpool_p256r1_sha256,
  ml_dsa65_rsa3072_pss_sha512, ml_dsa65_rsa3072_pkcs15_sha512, ml_dsa65_ecdsa_p256_sha512,
  ml_dsa65_ecdsa_brainpool_p256r1_sha512, ml_dsa65_ed25519_sha512, ml_dsa87_ecdsa_p384_sha512,
  ml_dsa87_ecdsa_brainpool_p384r1_sha512, ml_dsa87_ed448_sha512, slh_dsa_sha2_128s,
  slh_dsa_sha2_128f, slh_dsa_sha2_192s, slh_dsa_sha2_192f, slh_dsa_sha2_256s, slh_dsa_sha2_256f,
  slh_dsa_shake128s, slh_dsa_shake128f, slh_dsa_shake192s, slh_dsa_shake192f, slh_dsa_shake256s,
  slh_dsa_shake256f,
}

-- Of the types that share an object identifier, the first one in `all`.
unfoldable pub first_dsa_type : DsaType → DsaType
first_dsa_type rsa3072_pss_sha512 = rsa2048_pss_sha256
first_dsa_type ecdsa_brainpool_p256r1_sha256 = ecdsa_p256_sha256
first_dsa_type ecdsa_p384_sha512 = ecdsa_p256_sha512
first_dsa_type ecdsa_brainpool_p256r1_sha512 = ecdsa_p256_sha512
first_dsa_type ecdsa_brainpool_p384r1_sha512 = ecdsa_p256_sha512
first_dsa_type t = t

dsa_type_from_oid-get_oid : (t : DsaType) → from_oid (get_oid t) ≡ some (first_dsa_type t)
unfolding from_oid get_oid first_dsa_type
dsa_type_from_oid-get_oid rsa2048_pss_sha256 = refl
dsa_type_from_oid-get_oid rsa2048_pkcs15_sha256 = refl
dsa_type_from_oid-get_oid rsa3072_pss_sha512 = refl
dsa_type_from_oid-get_oid rsa3072_pkcs15_sha512 = refl
dsa_type_from_oid-get_oid ecdsa_p256_sha256 = refl
dsa_type_from_oid-get_oid ecdsa_p256_sha512 = refl
dsa_type_from_oid-get_oid ecdsa_p384_sha512 = refl
dsa_type_from_oid-get_oid ecdsa_brainpool_p256r1_sha512 = refl
dsa_type_from_oid-get_oid ecdsa_brainpool_p256r1_sha256 = refl
dsa_type_from_oid-get_oid ecdsa_brainpool_p384r1_sha512 = refl
dsa_type_from_oid-get_oid ed25519_sha512 = refl
dsa_type_from_oid-get_oid ed448_sha512 = refl
dsa_type_from_oid-get_oid ml_dsa44 = refl
dsa_type_from_oid-get_oid ml_dsa65 = refl
dsa_type_from_oid-get_oid ml_dsa87 = refl
dsa_type_from_oid-get_oid ml_dsa44_rsa2048_pss_sha256 = refl
dsa_type_from_oid-get_oid ml_dsa44_rsa2048_pkcs15_sha256 = refl
dsa_type_from_oid-get_oid ml_dsa44_ed25519_sha512 = refl
dsa_type_from_oid-get_oid ml_dsa44_ecdsa_p256_sha256 = refl
dsa_type_from_oid-get_oid ml_dsa44_ecdsa_brainpool_p256r1_sha256 = refl
dsa_type_from_oid-get_oid ml_dsa65_rsa3072_pss_sha512 = refl
dsa_type_from_oid-get_oid ml_dsa65_rsa3072_pkcs15_sha512 = refl
dsa_type_from_oid-get_oid ml_dsa65_ecdsa_p256_sha512 = refl
dsa_type_from_oid-get_oid ml_dsa65_ecdsa_brainpool_p256r1_sha512 = refl
dsa_type_from_oid-get_oid ml_dsa65_ed25519_sha512 = refl
dsa_type_from_oid-get_oid ml_dsa87_ecdsa_p384_sha512 = refl
dsa_type_from_oid-get_oid ml_dsa87_ecdsa_brainpool_p384r1_sha512 = refl
dsa_type_from_oid-get_oid ml_dsa87_ed448_sha512 = refl
dsa_type_from_oid-get_oid slh_dsa_sha2_128s = refl
dsa_type_from_oid-get_oid slh_dsa_sha2_128f = refl
dsa_type_from_oid-get_oid slh_dsa_sha2_192s = refl
dsa_type_from_oid-get_oid slh_dsa_sha2_192f = refl
dsa_type_from_oid-get_oid slh_dsa_sha2_256s = refl
dsa_type_from_oid-get_oid slh_dsa_sha2_256f = refl
dsa_type_from_oid-get_oid slh_dsa_shake128s = refl
dsa_type_from_oid-get_oid slh_dsa_shake128f = refl
dsa_type_from_oid-get_oid slh_dsa_shake192s = refl
dsa_type_from_oid-get_oid slh_dsa_shake192f = refl
dsa_type_from_oid-get_oid slh_dsa_shake256s = refl
dsa_type_from_oid-get_oid slh_dsa_shake256f = refl

dsa_type_from_oid_sound : (s : String) (t : DsaType) → from_oid s ≡ some t → get_oid t ≡ s
unfolding from_oid
dsa_type_from_oid_sound s t h =
    (eq_iff (get_oid t) s).0 (find-passes (λ x. str_eq (get_oid x) s) all t h)

-- `from_oid` returns a type exactly when the identifier is the type's and the type is the first
-- one that has it.
pub dsa_type_from_oid_iff :
    (s : String) (t : DsaType) → (from_oid s ≡ some t) ↔ ((get_oid t ≡ s) × (first_dsa_type t ≡ t))
dsa_type_from_oid_iff s t = (
  (λ h.
      let same : get_oid t ≡ s = dsa_type_from_oid_sound s t h in
      (same, eq_of_some (sym (dsa_type_from_oid-get_oid t) ∙ (ap from_oid same ∙ h)))),
  (λ h. ap from_oid (sym h.0) ∙ (dsa_type_from_oid-get_oid t ∙ ap some h.1)),
)
