-- ===== src/Keys/Kinds.antt =====
-- asn1/public_key.rs and asn1/private_key.rs: the operations of a key of the other kind.
use qubitcrypt.Prelude.{
  ◌≡◌, refl, sym, ◌∙◌, true, false, ◌||◌, String, ◌⊎◌, inl, inr, Bool-cases, arith,
}
use qubitcrypt.Outcome.{Bytes, err, unsupported_operation}
use qubitcrypt.Kem.Manager as KemManager
use qubitcrypt.Kem.Algorithm as Kem
use qubitcrypt.Kem.Algorithm.{KemAlgorithm}
use qubitcrypt.Dsa.Manager as DsaManager
use qubitcrypt.Dsa.Algorithm as Dsa
use qubitcrypt.Dsa.Algorithm.{DsaAlgorithm}
use qubitcrypt.Oids.{is_valid_kem_or_dsa_oid, is_kem_oid, is_dsa_oid}
use qubitcrypt.Oids.Kinds.{is_valid-is_kem_or_dsa, kem_dsa-disjoint}
use qubitcrypt.Oids.Algorithms.{kem_algorithm_from_oid_iff, dsa_algorithm_from_oid_iff}
use qubitcrypt.Keys.PublicKey.{PublicKey}
use qubitcrypt.Keys.PublicKey as Public
use qubitcrypt.Keys.PrivateKey.{PrivateKey}
use qubitcrypt.Keys.PrivateKey as Private

pub algorithm-is_kem_oid : (a : KemAlgorithm) → is_kem_oid (Kem.get_oid a) ≡ true
unfolding is_kem_oid
algorithm-is_kem_oid a = rw ((kem_algorithm_from_oid_iff (Kem.get_oid a) a).1 refl) refl

pub algorithm-is_dsa_oid : (a : DsaAlgorithm) → is_dsa_oid (Dsa.get_oid a) ≡ true
unfolding is_dsa_oid
algorithm-is_dsa_oid a = rw ((dsa_algorithm_from_oid_iff (Dsa.get_oid a) a).1 refl) refl

dsa_oid-not_kem : (s : String) → is_dsa_oid s ≡ true → is_kem_oid s ≡ false
dsa_oid-not_kem s h = elim (Bool-cases (is_kem_oid s)) [
  | inl e ↦ absurd (let no : is_dsa_oid s ≡ false = kem_dsa-disjoint s e in ground (arith, no, h))
  | inr e ↦ e
]

pub valid-kem_or_dsa :
    (s : String)
    → is_valid_kem_or_dsa_oid s ≡ true
    → ((is_dsa_oid s ≡ true) × (is_kem_oid s ≡ false))
      ⊎ ((is_kem_oid s ≡ true) × (is_dsa_oid s ≡ false))
valid-kem_or_dsa s valid = elim (Bool-cases (is_dsa_oid s)) [
  | inl e ↦ inl (e, dsa_oid-not_kem s e)
  | inr e ↦
      let either : is_dsa_oid s || is_kem_oid s ≡ true = sym (is_valid-is_kem_or_dsa s) ∙ valid in
      inr (ground (arith, either, e), e)
]

module _ {W R : Type 0} (kems : KemManager.Primitives W R) (dsas : DsaManager.Primitives W R) where
  -- A pair of keys with one identifier of the crate's is for signatures or for encapsulation. The
  -- keys of a signature scheme neither encapsulate nor decapsulate, the keys of a KEM neither verify nor
  -- sign: each of these calls gives `UnsupportedOperation` and draws on no entropy.
  pub other_kind-unsupported :
      (pk : PublicKey) (sk : PrivateKey)
      → pk.oid ≡ sk.oid
      → is_valid_kem_or_dsa_oid sk.oid ≡ true
      → (w : W) (msg sig ct : Bytes)
      → ((is_dsa_oid sk.oid ≡ true)
          × (Public.encap kems pk w ≡ (err unsupported_operation, w))
          × (Private.decap kems sk ct ≡ err unsupported_operation))
        ⊎ ((is_kem_oid sk.oid ≡ true)
            × (Public.verify dsas pk msg sig ≡ err unsupported_operation)
            × (Private.sign dsas sk msg w ≡ (err unsupported_operation, w)))
  unfolding Public.encap Private.decap Public.verify Private.sign
  other_kind-unsupported pk sk same valid w msg sig ct = elim (valid-kem_or_dsa sk.oid valid) [
    | inl (e, f) ↦ inl (e, rw (same, f) refl, rw (e) refl)
    | inr (e, f) ↦ inr (e, rw (same, f) refl, rw (f) refl)
  ]
