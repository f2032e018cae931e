-- ===== src/Store/Classified.antt =====
-- cms/directory_cert_store.rs: which certificates `new` puts where.
use qubitcrypt.Prelude.{
  ℕ, Bool, true, false, ◌≡◌, refl, sym, subst, List, [], ◌∷◌, Memᴰ, Option, none, some, arith,
}
use qubitcrypt.Outcome.{or_false, ok, err, panic, diverges, >>=-returns, ok-injective}
use qubitcrypt.Certificate.{Certificate, X509, is_valid, verify_self_signed}
use qubitcrypt.Store.{
  DirectoryCertificateStore, Entry, unreadable, no_text, file, classify, read_entries, new,
}

module _ (x : X509) (now : ℕ) where
  -- Every certificate is valid; the anchors are signed by themselves, and the others are not.
  pub record IsClassified (s : DirectoryCertificateStore) : Type 0 where
    pub anchors :
        (c : Certificate)
        → Memᴰ c s.ta_certificates
        → (is_valid now c ≡ true) × (or_false (verify_self_signed x c) ≡ ok true)
    pub entities :
        (c : Certificate)
        → Memᴰ c s.ee_certificates
        → (is_valid now c ≡ true) × (or_false (verify_self_signed x c) ≡ ok false)

  classify-IsClassified :
      (cert : Certificate) (v own : Bool) (s : DirectoryCertificateStore)
      → is_valid now cert ≡ v
      → or_false (verify_self_signed x cert) ≡ ok own
      → IsClassified s
      → IsClassified (classify cert v own s)
  classify-IsClassified cert true true s e f i = record {
    anchors = λ c m. elim m [
      | Memᴰ.head same ↦
          subst (λ y. (is_valid now y ≡ true) × (or_false (verify_self_signed x y) ≡ ok true))
            (sym same) (e, f)
      | Memᴰ.tail m' ↦ i.anchors c m'
    ];
    entities = i.entities;
  }
  classify-IsClassified cert true false s e f i = record {
    anchors = i.anchors;
    entities = λ c m. elim m [
      | Memᴰ.head same ↦
          subst (λ y. (is_valid now y ≡ true) × (or_false (verify_self_signed x y) ≡ ok false))
            (sym same) (e, f)
      | Memᴰ.tail m' ↦ i.entities c m'
    ];
  }
  classify-IsClassified cert false own s e f i = i

  read_entries-IsClassified :
      (es : List Entry) (s : DirectoryCertificateStore)
      → read_entries x now es ≡ ok s
      → IsClassified s
  unfolding read_entries
  read_entries-IsClassified [] s h =
      subst IsClassified (ok-injective h)
        (record { anchors = λ c m. elim m [ ]; entities = λ c m. elim m [ ] })
  read_entries-IsClassified (unreadable ∷ es) s h = absurd (ground arith)
  read_entries-IsClassified (no_text ∷ es) s h = absurd (ground arith)
  read_entries-IsClassified (file (ok cert) ∷ es) s h =
      let (own, e, r) = >>=-returns (or_false (verify_self_signed x cert)) _ h in
      let (s', e', r') = >>=-returns (read_entries x now es) _ r in
      subst IsClassified (ok-injective r') (
        classify-IsClassified cert (is_valid now cert) own s' refl e
          (read_entries-IsClassified es s' e'))
  read_entries-IsClassified (file (err e) ∷ es) s h = read_entries-IsClassified es s h
  read_entries-IsClassified (file panic ∷ es) s h = absurd (ground arith)
  read_entries-IsClassified (file diverges ∷ es) s h = absurd (ground arith)

  -- In a store that `new` makes, every certificate is valid at that time; the trust anchors are
  -- signed by themselves as far as `verify_self_signed` tells, and the other certificates are not.
  pub new-IsClassified :
      (es : Option (List Entry)) (s : DirectoryCertificateStore)
      → new x now es ≡ ok s
      → IsClassified s
  unfolding new
  new-IsClassified none s h = absurd (ground arith)
  new-IsClassified (some es) s h = read_entries-IsClassified es s h
