-- ===== src/Store/Chains/Termination.antt =====
-- cms/directory_cert_store.rs: when `find_parent` ends.
use qubitcrypt.Prelude.{ℕ, zero, suc, true, ◌≡◌, refl, ap, List, ◌∷◌, Option, none}
use qubitcrypt.Outcome.{Outcome, ok, diverges, ◌>>=◌}
use qubitcrypt.Certificate.{Certificate, X509, is_valid, verify_child}
use qubitcrypt.Store.{
  DirectoryCertificateStore, among_anchors, among_entities, find_parent, or_else,
}

-- The search ends, with a certificate or without.
abbrev pub Ends : Outcome (Option Certificate) → Type 0
Ends r = (o : Option Certificate) × (r ≡ ok o)

module _ (x : X509) (now : ℕ) where
  -- When no trust anchor of the store verifies a valid certificate that comes first among its
  -- entities and verifies itself, no fuel is enough: the recursion of the code has no end.
  pub find_parent_diverges :
      (c : Certificate) (tas ees : List Certificate)
      → is_valid now c ≡ true
      → among_anchors x now tas c ≡ ok none
      → verify_child x c c ≡ ok true
      → (n : ℕ)
      → find_parent x now (record { ta_certificates = tas; ee_certificates = c ∷ ees }) n c
        ≡ diverges
  unfolding find_parent among_entities
  find_parent_diverges c tas ees v a own zero = refl
  find_parent_diverges c tas ees v a own (suc n) =
      let s : DirectoryCertificateStore = record {
        ta_certificates = tas;
        ee_certificates = c ∷ ees;
      } in
      rw (v, a, own)
        (ap (λ r. r >>= λ found. or_else found (among_entities x now (find_parent x now s n) ees c))
          (find_parent_diverges c tas ees v a own n))
