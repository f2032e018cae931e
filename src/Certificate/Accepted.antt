-- ===== src/Certificate/Accepted.antt =====
-- asn1/certificate.rs: what `verify_child` and `verify_self_signed` accept.
use qubitcrypt.Prelude.{
  ◌≡◌, ◌↔◌, ◌∙◌, ap, refl, subst, Bool, true, false, Bool-cases, inl, inr, Option, List, [], ◌∷◌,
  none, some, not, str_eq, same_bytes, same_bytes_eq, same_bytes_refl, arith, if◌then◌else◌,
}
use qubitcrypt.Outcome.{
  Bytes, Outcome, ok, err, panic, diverges, QubitCryptError, or_false, >>=-returns, ok_or,
  ok_or-eq-ok, map_err-eq-ok, invalid_certificate,
}
use qubitcrypt.Certificate.{
  Certificate, Extension, X509, get_public_key, get_subject_key_identifier, with_extensions,
  compare_akid, akid_matches, check_akid, verify_child, verify_signed, verify_own,
  verify_self_signed,
}

-- A guard that answers false before its body lets through only what passes it.
guard-passes :
    (b : Bool) (r : Outcome Bool)
    → (if not b then ok false else r) ≡ ok true
    → (b ≡ true) × (r ≡ ok true)
guard-passes true r h = (refl, h)
guard-passes false r h = absurd (ground arith)

-- A result that is false when it is an error is true only of a success.
or_false-eq-true : (r : Outcome Bool) → or_false r ≡ ok true → r ≡ ok true
or_false-eq-true (ok b) h = h
or_false-eq-true (err e) h = absurd (ground arith)
or_false-eq-true panic h = absurd (ground arith)
or_false-eq-true diverges h = absurd (ground arith)

module _ (x : X509) where
  -- Every authority key identifier of a list of extensions is decoded and names the key `skid`.
  pub data EachNames (skid : Bytes) : List Extension → Type 0 where
    no_more : EachNames skid []
    other :
        {e : Extension} {es : List Extension}
        → str_eq e.extn_id "2.5.29.35" ≡ false
        → EachNames skid es
        → EachNames skid (e ∷ es)
    names :
        {e : Extension} {es : List Extension}
        → str_eq e.extn_id "2.5.29.35" ≡ true
        → x.authority_key_identifier e.extn_value ≡ some (some skid)
        → EachNames skid es
        → EachNames skid (e ∷ es)

  -- The parent has no readable subject key identifier, or the child has no extensions, or each of
  -- the child's authority key identifiers names the parent's.
  pub data Identified (parent : Certificate) : Option (List Extension) → Type 0 where
    no_skid :
        {exts : Option (List Extension)} (e : QubitCryptError)
        → get_subject_key_identifier x parent ≡ err e
        → Identified parent exts
    no_extensions : Identified parent none
    by_skid :
        {es : List Extension} (skid : Bytes)
        → get_subject_key_identifier x parent ≡ ok skid
        → EachNames skid es
        → Identified parent (some es)

  compare-names :
      (skid : Bytes) (e : Extension) (es : List Extension) (akid : Option Bytes)
      → str_eq e.extn_id "2.5.29.35" ≡ true
      → x.authority_key_identifier e.extn_value ≡ some akid
      → (akid_matches x skid es ≡ ok true → EachNames skid es)
      → compare_akid x skid akid (akid_matches x skid es) ≡ ok true
      → EachNames skid (e ∷ es)
  compare-names skid e es none is read rest h = absurd (ground arith)
  compare-names skid e es (some k) is read rest h =
      let (same, r) = both (same_bytes k skid) (akid_matches x skid es) h in
      names is (read ∙ ap (λ b. some (some b)) (same_bytes_eq k skid same)) (rest r)
    where
      both :
          (b : Bool) (r : Outcome Bool)
          → (if b then r else ok false) ≡ ok true
          → (b ≡ true) × (r ≡ ok true)
      both true r h = (refl, h)
      both false r h = absurd (ground arith)

  akid_matches-EachNames :
      (skid : Bytes) (es : List Extension) → akid_matches x skid es ≡ ok true → EachNames skid es
  unfolding akid_matches
  akid_matches-EachNames skid [] h = no_more
  akid_matches-EachNames skid (e ∷ es) h = elim (Bool-cases (str_eq e.extn_id "2.5.29.35")) [
    | inl is ↦
        let (akid, e₁, r₁) =
          >>=-returns (ok_or invalid_certificate (x.authority_key_identifier e.extn_value)) _
            (rw (is) at h) in
        compare-names skid e es akid is (ok_or-eq-ok invalid_certificate _ e₁)
          (akid_matches-EachNames skid es) r₁
    | inr is ↦ other is (akid_matches-EachNames skid es (rw (is) at h))
  ]

  check_akid-Identified :
      (parent : Certificate) (skid : Outcome Bytes) (exts : Option (List Extension))
      → get_subject_key_identifier x parent ≡ skid
      → check_akid x skid exts ≡ ok true
      → Identified parent exts
  unfolding check_akid
  check_akid-Identified parent (ok skid) none is h = no_extensions
  check_akid-Identified parent (ok skid) (some es) is h =
      by_skid skid is (akid_matches-EachNames skid es h)
  check_akid-Identified parent (err e) exts is h = no_skid e is
  check_akid-Identified parent panic exts is h = absurd (ground arith)
  check_akid-Identified parent diverges exts is h = absurd (ground arith)

  -- A child that is accepted names the parent's subject as its issuer; its signed part is signed by the
  -- parent's public key; and the parent has no readable subject key identifier, or the child has no
  -- extensions, or each authority key identifier of the child names the subject key identifier of the
  -- parent.
  pub verify_child_sound :
      (parent child : Certificate)
      → verify_child x parent child ≡ ok true
      → (parent.subject ≡ child.issuer)
        × Identified parent child.extensions
        × (msg : Bytes) × (pk : x.PublicKey) × (x.tbs_to_der child ≡ some msg)
        × (get_public_key x parent ≡ ok pk)
        × (x.verify pk msg child.signature ≡ ok true)
  unfolding verify_child verify_signed
  verify_child_sound parent child h =
      let (same, r₀) = guard-passes (same_bytes parent.subject child.issuer) _ h in
      let (b, e₁, r₁) =
        >>=-returns (check_akid x (get_subject_key_identifier x parent) child.extensions) _ r₀ in
      let (passes, r₂) = guard-passes b _ r₁ in
      let (msg, e₂, r₃) = >>=-returns (ok_or invalid_certificate (x.tbs_to_der child)) _ r₂ in
      let (pk, e₃, r₄) = >>=-returns (get_public_key x parent) _ r₃ in
      (
        same_bytes_eq parent.subject child.issuer same,
        check_akid-Identified parent (get_subject_key_identifier x parent) child.extensions refl
            (e₁ ∙ ap ok passes),
        msg,
        pk,
        ok_or-eq-ok invalid_certificate (x.tbs_to_der child) e₂,
        e₃,
        map_err-eq-ok invalid_certificate (x.verify pk msg child.signature) r₄,
      )

  -- Whether there are extensions.
  with_extensions-ok :
      (exts : Option (List Extension)) (r : Outcome Bool)
      → with_extensions x exts (λ es. r) (ok false) ≡ ok true
      → (es : List Extension) × (exts ≡ some es) × (r ≡ ok true)
  with_extensions-ok none r h = absurd (ground arith)
  with_extensions-ok (some es) r h = (es, refl, h)

  ok-with_extensions :
      (exts : Option (List Extension)) (es : List Extension) (r : Outcome Bool)
      → exts ≡ some es
      → r ≡ ok true
      → with_extensions x exts (λ es. r) (ok false) ≡ ok true
  ok-with_extensions none es r e h = absurd (ground arith)
  ok-with_extensions (some es) fs r e h = h

  -- A certificate counts as self-signed exactly when it has extensions, whatever they are, names its
  -- subject as its issuer, and its signed part is signed by its own public key.
  pub verify_self_signed_iff :
      (c : Certificate)
      → (verify_self_signed x c ≡ ok true) ↔ (
          (es : List Extension) × (msg : Bytes) × (pk : x.PublicKey) × (c.extensions ≡ some es)
          × (c.subject ≡ c.issuer)
          × (x.tbs_to_der c ≡ some msg)
          × (get_public_key x c ≡ ok pk)
          × (x.verify pk msg c.signature ≡ ok true))
  unfolding verify_self_signed verify_own
  verify_self_signed_iff c = (
    λ h.
        let (es, there, r) = with_extensions-ok c.extensions (verify_own x c) h in
        let (same, r₀) = guard-passes (same_bytes c.subject c.issuer) _ r in
        let (msg, e₁, r₁) = >>=-returns (ok_or invalid_certificate (x.tbs_to_der c)) _ r₀ in
        let (pk, e₂, r₂) = >>=-returns (get_public_key x c) _ r₁ in
        (
          es,
          msg,
          pk,
          there,
          same_bytes_eq c.subject c.issuer same,
          ok_or-eq-ok invalid_certificate (x.tbs_to_der c) e₁,
          e₂,
          or_false-eq-true (x.verify pk msg c.signature) r₂,
        ),
    λ (es, msg, pk, there, named, signed, key, verified).
        ok-with_extensions c.extensions es (verify_own x c) there (
          rw
            (
              subst (λ i. same_bytes c.subject i ≡ true) named (same_bytes_refl c.subject),
              signed,
              key,
              verified,
            )
            refl),
  )
