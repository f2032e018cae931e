-- ===== src/Oids/Kinds.antt =====
-- asn1/asn_util.rs: the four tests of an object identifier against each other.
use qubitcrypt.Prelude.{
  ◌≡◌, refl, subst, ap, ◌∙◌, true, false, ◌||◌, String, is_some, any, map, ◌⊎◌, inl, inr, not, sym,
  Option, none, List, [], ◌∷◌, any-map, str_eq, Option-cases, arith,
}
use qubitcrypt.Kem.Algorithm as Kem
use qubitcrypt.Kem.Algorithm.{KemAlgorithm}
use qubitcrypt.Dsa.Algorithm as Dsa
use qubitcrypt.Dsa.Algorithm.{DsaAlgorithm}
use qubitcrypt.Oids.{is_valid_kem_or_dsa_oid, is_composite_kem_or_dsa_oid, is_kem_oid, is_dsa_oid}
use qubitcrypt.Oids.Algorithms.{kem_algorithm_from_oid_iff, dsa_algorithm_from_oid_iff}

-- An identifier is valid exactly when it is that of a signature or of a KEM algorithm.
pub is_valid-is_kem_or_dsa : (s : String) → is_valid_kem_or_dsa_oid s ≡ is_dsa_oid s || is_kem_oid s
unfolding is_valid_kem_or_dsa_oid is_dsa_oid is_kem_oid Kem.from_oid Dsa.from_oid
is_valid-is_kem_or_dsa s =
    ap (λ b. b || any (λ x. str_eq x s) (map Kem.get_oid Kem.all))
      (any-map (λ x. str_eq x s) Dsa.get_oid Dsa.all)
    ∙ ap (λ b. is_some (Dsa.from_oid s) || b) (any-map (λ x. str_eq x s) Kem.get_oid Kem.all)

kem_oid-not_dsa : (a : KemAlgorithm) → is_dsa_oid (Kem.get_oid a) ≡ false
unfolding is_dsa_oid Kem.get_oid
kem_oid-not_dsa KemAlgorithm.ml_kem512 = refl
kem_oid-not_dsa KemAlgorithm.ml_kem768 = refl
kem_oid-not_dsa KemAlgorithm.ml_kem1024 = refl
kem_oid-not_dsa KemAlgorithm.ml_kem512_p256 = refl
kem_oid-not_dsa KemAlgorithm.ml_kem512_brainpool_p256r1 = refl
kem_oid-not_dsa KemAlgorithm.ml_kem512_x25519 = refl
kem_oid-not_dsa KemAlgorithm.ml_kem512_rsa2048 = refl
kem_oid-not_dsa KemAlgorithm.ml_kem512_rsa3072 = refl
kem_oid-not_dsa KemAlgorithm.ml_kem768_p256 = refl
kem_oid-not_dsa KemAlgorithm.ml_kem768_rsa2048 = refl
kem_oid-not_dsa KemAlgorithm.ml_kem768_rsa3072 = refl
kem_oid-not_dsa KemAlgorithm.ml_kem768_rsa4096 = refl
kem_oid-not_dsa KemAlgorithm.ml_kem768_x25519 = refl
kem_oid-not_dsa KemAlgorithm.ml_kem768_p384 = refl
kem_oid-not_dsa KemAlgorithm.ml_kem768_brainpool_p256r1 = refl
kem_oid-not_dsa KemAlgorithm.ml_kem1024_p384 = refl
kem_oid-not_dsa KemAlgorithm.ml_kem1024_brainpool_p384r1 = refl
kem_oid-not_dsa KemAlgorithm.ml_kem1024_x448 = refl

-- No identifier is both a KEM's and a signature's.
pub kem_dsa-disjoint : (s : String) → is_kem_oid s ≡ true → is_dsa_oid s ≡ false
unfolding is_kem_oid
kem_dsa-disjoint s h = elim (Option-cases (Kem.from_oid s)) [
  | inl e ↦ absurd (ground arith)
  | inr (a, e) ↦
      subst (λ x. is_dsa_oid x ≡ false) ((kem_algorithm_from_oid_iff s a).0 e) (kem_oid-not_dsa a)
]

-- The identifiers of ML-KEM and of ML-DSA.
abbrev pub plain_oids : List String
plain_oids =
    "2.16.840.1.101.3.4.4.1" ∷ "2.16.840.1.101.3.4.4.2" ∷ "2.16.840.1.101.3.4.4.3"
    ∷ "2.16.840.1.101.3.4.3.17" ∷ "2.16.840.1.101.3.4.3.18" ∷ "2.16.840.1.101.3.4.3.19" ∷ []

-- The test for composites is true of each identifier of an algorithm but these six.
abbrev pub Marked : String → Type 0
Marked s = is_composite_kem_or_dsa_oid s ≡ not (any (λ x. str_eq x s) plain_oids)

kem-Marked : (a : KemAlgorithm) → Marked (Kem.get_oid a)
unfolding is_composite_kem_or_dsa_oid Kem.get_oid
kem-Marked KemAlgorithm.ml_kem512 = refl
kem-Marked KemAlgorithm.ml_kem768 = refl
kem-Marked KemAlgorithm.ml_kem1024 = refl
kem-Marked KemAlgorithm.ml_kem512_p256 = refl
kem-Marked KemAlgorithm.ml_kem512_brainpool_p256r1 = refl
kem-Marked KemAlgorithm.ml_kem512_x25519 = refl
kem-Marked KemAlgorithm.ml_kem512_rsa2048 = refl
kem-Marked KemAlgorithm.ml_kem512_rsa3072 = refl
kem-Marked KemAlgorithm.ml_kem768_p256 = refl
kem-Marked KemAlgorithm.ml_kem768_rsa2048 = refl
kem-Marked KemAlgorithm.ml_kem768_rsa3072 = refl
kem-Marked KemAlgorithm.ml_kem768_rsa4096 = refl
kem-Marked KemAlgorithm.ml_kem768_x25519 = refl
kem-Marked KemAlgorithm.ml_kem768_p384 = refl
kem-Marked KemAlgorithm.ml_kem768_brainpool_p256r1 = refl
kem-Marked KemAlgorithm.ml_kem1024_p384 = refl
kem-Marked KemAlgorithm.ml_kem1024_brainpool_p384r1 = refl
kem-Marked KemAlgorithm.ml_kem1024_x448 = refl

dsa-Marked : (a : DsaAlgorithm) → Marked (Dsa.get_oid a)
unfolding is_composite_kem_or_dsa_oid Dsa.get_oid
dsa-Marked DsaAlgorithm.ml_dsa44 = refl
dsa-Marked DsaAlgorithm.ml_dsa65 = refl
dsa-Marked DsaAlgorithm.ml_dsa87 = refl
dsa-Marked DsaAlgorithm.ml_dsa44_rsa2048_pss_sha256 = refl
dsa-Marked DsaAlgorithm.ml_dsa44_rsa2048_pkcs15_sha256 = refl
dsa-Marked DsaAlgorithm.ml_dsa44_ed25519_sha512 = refl
dsa-Marked DsaAlgorithm.ml_dsa44_ecdsa_p256_sha256 = refl
dsa-Marked DsaAlgorithm.ml_dsa44_ecdsa_brainpool_p256r1_sha256 = refl
dsa-Marked DsaAlgorithm.ml_dsa65_rsa3072_pss_sha512 = refl
dsa-Marked DsaAlgorithm.ml_dsa65_rsa3072_pkcs15_sha512 = refl
dsa-Marked DsaAlgorithm.ml_dsa65_ecdsa_p256_sha512 = refl
dsa-Marked DsaAlgorithm.ml_dsa65_ecdsa_brainpool_p256r1_sha512 = refl
dsa-Marked DsaAlgorithm.ml_dsa65_ed25519_sha512 = refl
dsa-Marked DsaAlgorithm.ml_dsa87_ecdsa_p384_sha512 = refl
dsa-Marked DsaAlgorithm.ml_dsa87_ecdsa_brainpool_p384r1_sha512 = refl
dsa-Marked DsaAlgorithm.ml_dsa87_ed448_sha512 = refl
dsa-Marked DsaAlgorithm.slh_dsa_sha2_128s = refl
dsa-Marked DsaAlgorithm.slh_dsa_sha2_128f = refl
dsa-Marked DsaAlgorithm.slh_dsa_sha2_192s = refl
dsa-Marked DsaAlgorithm.slh_dsa_sha2_192f = refl
dsa-Marked DsaAlgorithm.slh_dsa_sha2_256s = refl
dsa-Marked DsaAlgorithm.slh_dsa_sha2_256f = refl
dsa-Marked DsaAlgorithm.slh_dsa_shake128s = refl
dsa-Marked DsaAlgorithm.slh_dsa_shake128f = refl
dsa-Marked DsaAlgorithm.slh_dsa_shake192s = refl
dsa-Marked DsaAlgorithm.slh_dsa_shake192f = refl
dsa-Marked DsaAlgorithm.slh_dsa_shake256s = refl
dsa-Marked DsaAlgorithm.slh_dsa_shake256f = refl

-- The identifier is that of an algorithm that the crate offers.
abbrev pub Offered : String → Type 0
Offered s = ((a : KemAlgorithm) × (Kem.get_oid a ≡ s)) ⊎ ((a : DsaAlgorithm) × (Dsa.get_oid a ≡ s))

pub valid-Offered : (s : String) → is_valid_kem_or_dsa_oid s ≡ true → Offered s
unfolding is_dsa_oid is_kem_oid
valid-Offered s h = elim (Option-cases (Dsa.from_oid s)) [
  | inr (a, e) ↦ inr (a, (dsa_algorithm_from_oid_iff s a).0 e)
  | inl e ↦ elim (Option-cases (Kem.from_oid s)) [
    | inr (a, f) ↦ inl (a, (kem_algorithm_from_oid_iff s a).0 f)
    | inl f ↦
        absurd (neither (Dsa.from_oid s) (Kem.from_oid s) e f (sym (is_valid-is_kem_or_dsa s) ∙ h))
  ]
]
  where
    neither :
        (d : Option DsaAlgorithm) (k : Option KemAlgorithm)
        → d ≡ none
        → k ≡ none
        → (is_some d || is_some k) ≡ true
        → ⊥
    neither d k e f h = ground arith

pub Offered-Marked : (s : String) → Offered s → Marked s
Offered-Marked s (inl (a, e)) = subst Marked e (kem-Marked a)
Offered-Marked s (inr (a, e)) = subst Marked e (dsa-Marked a)
