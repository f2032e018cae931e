-- ===== src/Oids/KemTypes.antt =====
-- kem/common/kem_type.rs: `KemType::from_oid` against `get_oid`.
use qubitcrypt.Prelude.{
  ◌≡◌, refl, sym, ap, ◌∙◌, ◌↔◌, String, some, str_eq, eq_iff, find-passes, eq_of_some,
}
use qubitcrypt.Kem.Types.{KemType, get_oid, from_oid, all}
use qubitcrypt.Kem.Types.{
  p256, p384, x25519, brainpool_p256r1, brainpool_p384r1, x448, rsa_oaep2048, rsa_oaep3072,
  rsa_oaep4096, ml_kem512, ml_kem768, ml_kem1024, ml_kem512_p256, ml_kem512_brainpool_p256r1,
  ml_kem512_x25519, ml_kem512_rsa2048, ml_kem512_rsa3072, ml_kem768_p256, ml_kem768_rsa2048,
  ml_kem768_rsa3072, ml_kem768_rsa4096, ml_kem768_x25519, ml_kem768_p384,
  ml_kem768_brainpool_p256r1, ml_kem1024_p384, ml_kem1024_brainpool_p384r1, ml_kem1024_x448, xwing,
}

-- Of the types that share an object identifier, the first one in `all`.
unfoldable pub first_kem_type : KemType → KemType
first_kem_type rsa_oaep3072 = rsa_oaep2048
first_kem_type rsa_oaep4096 = rsa_oaep2048
first_kem_type t = t

kem_type_from_oid-get_oid : (t : KemType) → from_oid (get_oid t) ≡ some (first_kem_type t)
unfolding from_oid get_oid first_kem_type
kem_type_from_oid-get_oid p256 = refl
kem_type_from_oid-get_oid p384 = refl
kem_type_from_oid-get_oid x25519 = refl
kem_type_from_oid-get_oid brainpool_p256r1 = refl
kem_type_from_oid-get_oid brainpool_p384r1 = refl
kem_type_from_oid-get_oid x448 = refl
kem_type_from_oid-get_oid rsa_oaep2048 = refl
kem_type_from_oid-get_oid rsa_oaep3072 = refl
kem_type_from_oid-get_oid rsa_oaep4096 = refl
kem_type_from_oid-get_oid ml_kem512 = refl
kem_type_from_oid-get_oid ml_kem768 = refl
kem_type_from_oid-get_oid ml_kem1024 = refl
kem_type_from_oid-get_oid ml_kem512_p256 = refl
kem_type_from_oid-get_oid ml_kem512_brainpool_p256r1 = refl
kem_type_from_oid-get_oid ml_kem512_x25519 = refl
kem_type_from_oid-get_oid ml_kem512_rsa2048 = refl
kem_type_from_oid-get_oid ml_kem512_rsa3072 = refl
kem_type_from_oid-get_oid ml_kem768_p256 = refl
kem_type_from_oid-get_oid ml_kem768_rsa2048 = refl
kem_type_from_oid-get_oid ml_kem768_rsa3072 = refl
kem_type_from_oid-get_oid ml_kem768_rsa4096 = refl
kem_type_from_oid-get_oid ml_kem768_x25519 = refl
kem_type_from_oid-get_oid ml_kem768_p384 = refl
kem_type_from_oid-get_oid ml_kem768_brainpool_p256r1 = refl
kem_type_from_oid-get_oid ml_kem1024_p384 = refl
kem_type_from_oid-get_oid ml_kem1024_brainpool_p384r1 = refl
kem_type_from_oid-get_oid ml_kem1024_x448 = refl
kem_type_from_oid-get_oid xwing = refl

kem_type_from_oid_sound : (s : String) (t : KemType) → from_oid s ≡ some t → get_oid t ≡ s
unfolding from_oid
kem_type_from_oid_sound s t h =
    (eq_iff (get_oid t) s).0 (find-passes (λ x. str_eq (get_oid x) s) all t h)

-- `from_oid` returns a type exactly when the identifier is the type's and the type is the first
-- one that has it.
pub kem_type_from_oid_iff :
    (s : String) (t : KemType) → (from_oid s ≡ some t) ↔ ((get_oid t ≡ s) × (first_kem_type t ≡ t))
kem_type_from_oid_iff s t = (
  (λ h.
      let same : get_oid t ≡ s = kem_type_from_oid_sound s t h in
      (same, eq_of_some (sym (kem_type_from_oid-get_oid t) ∙ (ap from_oid same ∙ h)))),
  (λ h. ap from_oid (sym h.0) ∙ (kem_type_from_oid-get_oid t ∙ ap some h.1)),
)
