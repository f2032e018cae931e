-- ===== src/CertBuilder/Validated.antt =====
-- asn1/cert_builder.rs: what `CertValidity::new` lets through.
use qubitcrypt.Prelude.{
  ℕ, ◌<◌, ◌≤◌, ◌≡◌, refl, ap, ◌∙◌, String, Bool, true, false, Option, none, some, leb, ltb,
  if◌then◌else◌, arith, ◌⊎◌, inl, inr,
}
use qubitcrypt.Outcome.{
  >>=-returns, Outcome, ok, err, ok_or, ok_or-eq-ok, map_err, map_err-eq-ok, ok-injective,
  QubitCryptError, invalid_not_before, invalid_not_after,
}
use qubitcrypt.Effect.{Eff, pure, after-pure-returns}
use qubitcrypt.CertBuilder.{
  Clock, CertValidity, date_time_to_asn, validity_from, started_at, validity_new,
}

leb-false : (a b : ℕ) → leb a b ≡ false → b < a
leb-false a b h = ground arith

ltb-false : (a b : ℕ) → ltb a b ≡ false → b ≤ a
ltb-false a b h = ground arith

-- A test that is an error when it holds did not hold.
refuted :
    {A : Type 0} (b : Bool) (x : QubitCryptError) (r : Outcome A) {a : A}
    → (if b then err x else r) ≡ ok a
    → (b ≡ false) × (r ≡ ok a)
refuted true x r h = absurd (ground arith)
refuted false x r h = (refl, h)

refuted_call :
    {W A : Type 0} (b : Bool) (x : QubitCryptError) (m : Eff W A) {a : A} {w w' : W}
    → (if b then pure (err x) else m) w ≡ (ok a, w')
    → (b ≡ false) × (m w ≡ (ok a, w'))
refuted_call true x m h = absurd (ground arith)
refuted_call false x m h = (refl, h)

module _ {W : Type 0} (c : Clock W) where
  validity_from-made :
      (start : ℕ) (dt : c.UtcTime) (v : CertValidity c)
      → validity_from c start dt ≡ ok v
      → (date_time_to_asn c start ≡ ok v.not_before) × (dt ≡ v.not_after)
  unfolding validity_from
  validity_from-made start dt v h =
      let (begun, e, r) = >>=-returns (map_err invalid_not_before (date_time_to_asn c start)) _ h in
      let made = ok-injective r in
      (
        map_err-eq-ok invalid_not_before _ e ∙ ap (λ x. ok x.not_before) made,
        ap (λ x. x.not_after) made,
      )

  -- Where a validity begins: at the time that was asked for, or at that of the clock.
  abbrev pub Begins : Option String → W → ℕ → Type 0
  Begins begins w start =
      ((begins ≡ none) × (start ≡ (c.now w).0))
      ⊎ ((text : String) × (begins ≡ some text) × (c.parse_from_rfc3339 text ≡ some start))

  started_at-made :
      (begins : Option String) (stop : ℕ) (dt : c.UtcTime) (w : W) (v : CertValidity c) (w' : W)
      → started_at c begins stop dt w ≡ (ok v, w')
      → (start : ℕ) × Begins begins w start
        × (start ≤ stop)
        × (date_time_to_asn c start ≡ ok v.not_before)
        × (dt ≡ v.not_after)
  unfolding started_at
  started_at-made none stop dt w v w' h =
      let start = (c.now w).0 in
      let (e, r) =
        refuted (ltb stop start) invalid_not_after (validity_from c start dt) (ap (λ x. x.0) h) in
      let (begun, ended) = validity_from-made start dt v r in
      (start, inl (refl, refl), ltb-false stop start e, begun, ended)
  started_at-made (some text) stop dt w v w' h =
      let (start, e₁, r₁) =
        after-pure-returns (ok_or invalid_not_before (c.parse_from_rfc3339 text)) w _ h in
      let (e, r) =
        refuted (ltb stop start) invalid_not_before (validity_from c start dt) (ap (λ x. x.0) r₁) in
      let (begun, ended) = validity_from-made start dt v r in
      (
        start,
        inr (text, refl, ok_or-eq-ok invalid_not_before _ e₁),
        ltb-false stop start e,
        begun,
        ended,
      )

  -- A validity that new returns holds the start and the end that were asked for, the start being the
  -- time of the clock where none was asked for; the end is after the time of the clock, and not before
  -- the start.
  pub validity_new_ordered :
      (begins : Option String) (ends : String) (w : W) (v : CertValidity c) (w' : W)
      → validity_new c begins ends w ≡ (ok v, w')
      → (start : ℕ) × (stop : ℕ) × (c.parse_from_rfc3339 ends ≡ some stop)
        × Begins begins (c.now w).1 start
        × ((c.now w).0 < stop)
        × (start ≤ stop)
        × (date_time_to_asn c start ≡ ok v.not_before)
        × (date_time_to_asn c stop ≡ ok v.not_after)
  unfolding validity_new
  validity_new_ordered begins ends w v w' h =
      let (stop, e₁, r₁) =
        after-pure-returns (ok_or invalid_not_after (c.parse_from_rfc3339 ends)) w _ h in
      let (e, r₂) = refuted_call (leb stop (c.now w).0) invalid_not_after _ {w = (c.now w).1} r₁ in
      let (dt, e₃, r₃) =
        after-pure-returns (map_err invalid_not_after (date_time_to_asn c stop)) (c.now w).1 _ r₂ in
      let (start, begun, order, e₄, same) = started_at-made begins stop dt (c.now w).1 v w' r₃ in
      (
        start,
        stop,
        ok_or-eq-ok invalid_not_after _ e₁,
        begun,
        leb-false stop (c.now w).0 e,
        order,
        e₄,
        map_err-eq-ok invalid_not_after _ e₃ ∙ ap (λ x. ok x) same,
      )
