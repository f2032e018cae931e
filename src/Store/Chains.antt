-- ===== src/Store/Chains.antt =====
-- cms/directory_cert_store.rs: `find_parent` against chains of certificates.
pub mod Loops
pub mod Termination
use qubitcrypt.Prelude.{
  ℕ, zero, suc, Bool, true, false, ◌≡◌, ◌≢◌, ◌⊎◌, inl, inr, refl, not, ap, ◌∙◌, Memᴰ, Option, none,
  some, arith, Bool-cases, if◌then◌else◌,
}
use qubitcrypt.Outcome.{Outcome, ok, ◌>>=◌}
use qubitcrypt.Certificate.{Certificate, X509, is_valid, verify_child}
use qubitcrypt.Store.{
  DirectoryCertificateStore, among_anchors, among_entities, find_parent, or_else,
}
use qubitcrypt.Store.Chains.Loops.{
  guard-some, guard-none, or_else-some, or_else-none, anchors-some, anchors-none, entities-some,
  entities-none,
}

module _ (x : X509) (now : ℕ) (s : DirectoryCertificateStore) where
  -- Certificates of the store, each valid and each the verified child of the next, up to a valid
  -- trust anchor.
  pub data Chain : Certificate → Certificate → Type 0 where
    anchored :
        {cert ta : Certificate}
        → is_valid now cert ≡ true
        → Memᴰ ta s.ta_certificates
        → is_valid now ta ≡ true
        → verify_child x ta cert ≡ ok true
        → Chain cert ta
    through :
        {cert ee ta : Certificate}
        → is_valid now cert ≡ true
        → Memᴰ ee s.ee_certificates
        → verify_child x ee cert ≡ ok true
        → Chain ee ta
        → Chain cert ta

  Chain-is_valid : {cert ta : Certificate} → Chain cert ta → is_valid now cert ≡ true
  Chain-is_valid (anchored v m w e) = v
  Chain-is_valid (through v m e c) = v

  -- A certificate that the search returns is the trust anchor of a chain from the one that it was
  -- asked for.
  pub find_parent_sound :
      (n : ℕ) (cert ta : Certificate) → find_parent x now s n cert ≡ ok (some ta) → Chain cert ta
  unfolding find_parent
  find_parent_sound zero cert ta h = absurd (ground arith)
  find_parent_sound (suc n) cert ta h =
      let (v, r) = guard-some (is_valid now cert) _ ta h in
      elim (or_else-some (among_anchors x now s.ta_certificates cert)
        (among_entities x now (find_parent x now s n) s.ee_certificates cert) ta r) [
          | inl e ↦
              let (m, w, c) = anchors-some x now s.ta_certificates cert ta e in anchored v m w c
          | inr e ↦
              let p = entities-some x now (find_parent x now s n) s.ee_certificates cert ta e in
              through v p.listed p.verifies (find_parent_sound n p.ee ta p.leads)
        ]

  -- When the search ends without a certificate there is no chain from the one that it was asked for.
  pub find_parent_complete :
      (n : ℕ) (cert ta : Certificate) → find_parent x now s n cert ≡ ok none → Chain cert ta → ⊥
  unfolding find_parent
  find_parent_complete zero cert ta h c = absurd (ground arith)
  find_parent_complete (suc n) cert ta h (anchored v m w e) =
      let r = guard-none (is_valid now cert) _ v h in
      let (none_anchors, none_entities) =
        or_else-none (among_anchors x now s.ta_certificates cert) _ r in
      anchors-none x now s.ta_certificates cert ta m w e none_anchors
  find_parent_complete (suc n) cert ta h (through {ee = ee} v m e c) =
      let r = guard-none (is_valid now cert) _ v h in
      let (none_anchors, none_entities) =
        or_else-none (among_anchors x now s.ta_certificates cert) _ r in
      find_parent_complete n ee ta
        (entities-none x now (find_parent x now s n) s.ee_certificates cert ee m (Chain-is_valid c)
          e none_entities)
        c
