-- ===== src/Store/Chains/Loops.antt =====
-- cms/directory_cert_store.rs: what the two loops of `find_parent` return.
use qubitcrypt.Prelude.{
  eq_of_some, ℕ, Bool, true, false, ◌≡◌, ◌⊎◌, inl, inr, refl, sym, subst, not, List, [], ◌∷◌, Memᴰ,
  Option, none, some, arith, if◌then◌else◌,
}
use qubitcrypt.Outcome.{or_false, ok-injective, Outcome, ok, err, panic, diverges, ◌>>=◌}
use qubitcrypt.Certificate.{Certificate, X509, is_valid, verify_child}
use qubitcrypt.Store.{among_anchors, among_entities, or_else}

module _ {A : Type 0} where
  pub guard-some :
      (v : Bool) (r : Outcome (Option A)) (a : A)
      → (if not v then ok none else r) ≡ ok (some a)
      → (v ≡ true) × (r ≡ ok (some a))
  guard-some true r a h = (refl, h)
  guard-some false r a h = absurd (ground arith)

  pub guard-none :
      (v : Bool) (r : Outcome (Option A))
      → v ≡ true
      → (if not v then ok none else r) ≡ ok none
      → r ≡ ok none
  guard-none true r e h = h
  guard-none false r e h = absurd (ground arith)

  pub or_else-some :
      (r rest : Outcome (Option A)) (a : A)
      → (r >>= λ found. or_else found rest) ≡ ok (some a)
      → (r ≡ ok (some a)) ⊎ (rest ≡ ok (some a))
  or_else-some (ok (some b)) rest a h = inl h
  or_else-some (ok none) rest a h = inr h
  or_else-some (err e) rest a h = absurd (ground arith)
  or_else-some panic rest a h = absurd (ground arith)
  or_else-some diverges rest a h = absurd (ground arith)

  pub or_else-none :
      (r rest : Outcome (Option A))
      → (r >>= λ found. or_else found rest) ≡ ok none
      → (r ≡ ok none) × (rest ≡ ok none)
  or_else-none (ok (some b)) rest h = absurd (ground arith)
  or_else-none (ok none) rest h = (refl, h)
  or_else-none (err e) rest h = absurd (ground arith)
  or_else-none panic rest h = absurd (ground arith)
  or_else-none diverges rest h = absurd (ground arith)

-- One round of a loop: the certificate is passed over, or it is valid and verifies the child.
module _ (x : X509) where
  abbrev round :
      Bool
      → Outcome Bool
      → Outcome (Option Certificate)
      → Outcome (Option Certificate)
      → Outcome (Option Certificate)
  round v r hit rest = if not v then rest else or_false r >>= λ result. if result then hit else rest

  round-some :
      (v : Bool) (r : Outcome Bool) (hit rest : Outcome (Option Certificate)) (a : Certificate)
      → round v r hit rest ≡ ok (some a)
      → (rest ≡ ok (some a)) ⊎ ((v ≡ true) × (r ≡ ok true) × (hit ≡ ok (some a)))
  round-some false r hit rest a h = inl h
  round-some true (ok true) hit rest a h = inr (refl, refl, h)
  round-some true (ok false) hit rest a h = inl h
  round-some true (err e) hit rest a h = inl h
  round-some true panic hit rest a h = absurd (ground arith)
  round-some true diverges hit rest a h = absurd (ground arith)

  -- A round that ends without a certificate has hit nothing, or what it hit has none, and where
  -- `hit` goes on to `rest` then so has `rest`.
  round-none :
      (v : Bool) (r : Outcome Bool) (hit rest : Outcome (Option Certificate))
      → (hit ≡ ok none → rest ≡ ok none)
      → round v r hit rest ≡ ok none
      → (rest ≡ ok none) × (v ≡ true → r ≡ ok true → hit ≡ ok none)
  round-none false r hit rest on h = (h, λ v e. absurd (ground arith))
  round-none true (ok true) hit rest on h = (on h, λ v e. h)
  round-none true (ok false) hit rest on h = (h, λ v e. absurd (ground arith))
  round-none true (err e) hit rest on h = (h, λ v e. absurd (ground arith))
  round-none true panic hit rest on h = absurd (ground arith)
  round-none true diverges hit rest on h = absurd (ground arith)

module _ (x : X509) (now : ℕ) where
  pub anchors-some :
      (tas : List Certificate) (cert ta : Certificate)
      → among_anchors x now tas cert ≡ ok (some ta)
      → Memᴰ ta tas × (is_valid now ta ≡ true) × (verify_child x ta cert ≡ ok true)
  unfolding among_anchors
  anchors-some [] cert ta h = absurd (ground arith)
  anchors-some (t ∷ tas) cert ta h =
      elim (round-some x (is_valid now t) (verify_child x t cert) (ok (some t))
        (among_anchors x now tas cert) ta h) [
          | inl e ↦ let (m, v, c) = anchors-some tas cert ta e in (Memᴰ.tail m, v, c)
          | inr (v, c, e) ↦
              let same : t ≡ ta = eq_of_some (ok-injective e) in
              (
                Memᴰ.head (sym same),
                subst (λ y. is_valid now y ≡ true) same v,
                subst (λ y. verify_child x y cert ≡ ok true) same c,
              )
        ]

  pub anchors-none :
      (tas : List Certificate) (cert ta : Certificate)
      → Memᴰ ta tas
      → is_valid now ta ≡ true
      → verify_child x ta cert ≡ ok true
      → among_anchors x now tas cert ≡ ok none
      → ⊥
  unfolding among_anchors
  anchors-none [] cert ta m v c h = elim m [ ]
  anchors-none (t ∷ tas) cert ta m v c h =
      let (rest, hit) =
        round-none x (is_valid now t) (verify_child x t cert) (ok (some t))
          (among_anchors x now tas cert) (λ e. absurd (ground arith)) h in
      elim m [
        | Memᴰ.head same ↦
            let e =
              hit (subst (λ y. is_valid now y ≡ true) same v)
                (subst (λ y. verify_child x y cert ≡ ok true) same c) in
            absurd (ground arith)
        | Memᴰ.tail m' ↦ anchors-none tas cert ta m' v c rest
      ]

  -- An entity of the list that verifies the certificate and whose own parent is `ta`.
  pub record Parent (parent_of : Certificate → Outcome (Option Certificate))
      (ees : List Certificate) (cert ta : Certificate) : Type 0 where
    pub ee : Certificate
    pub listed : Memᴰ ee ees
    pub valid : is_valid now ee ≡ true
    pub verifies : verify_child x ee cert ≡ ok true
    pub leads : parent_of ee ≡ ok (some ta)

  abbrev later :
      {parent_of : Certificate → Outcome (Option Certificate)} {e : Certificate}
      {es : List Certificate} {cert ta : Certificate}
      → Parent parent_of es cert ta
      → Parent parent_of (e ∷ es) cert ta
  later p = record {
    ee = p.ee;
    listed = Memᴰ.tail p.listed;
    valid = p.valid;
    verifies = p.verifies;
    leads = p.leads;
  }

  pub entities-some :
      (parent_of : Certificate → Outcome (Option Certificate)) (ees : List Certificate)
      (cert ta : Certificate)
      → among_entities x now parent_of ees cert ≡ ok (some ta)
      → Parent parent_of ees cert ta
  unfolding among_entities
  entities-some parent_of [] cert ta h = absurd (ground arith)
  entities-some parent_of (e ∷ es) cert ta h =
      let rest : Outcome (Option Certificate) = among_entities x now parent_of es cert in
      elim (round-some x (is_valid now e) (verify_child x e cert)
        (parent_of e >>= λ found. or_else found rest) rest ta h) [
          | inl r ↦ later (entities-some parent_of es cert ta r)
          | inr (v, c, hit) ↦ elim (or_else-some (parent_of e) rest ta hit) [
            | inl p ↦ record { ee = e; listed = Memᴰ.head refl; valid = v; verifies = c; leads = p }
            | inr r ↦ later (entities-some parent_of es cert ta r)
          ]
        ]

  pub entities-none :
      (parent_of : Certificate → Outcome (Option Certificate)) (ees : List Certificate)
      (cert ee : Certificate)
      → Memᴰ ee ees
      → is_valid now ee ≡ true
      → verify_child x ee cert ≡ ok true
      → among_entities x now parent_of ees cert ≡ ok none
      → parent_of ee ≡ ok none
  unfolding among_entities
  entities-none parent_of [] cert ee m v c h = elim m [ ]
  entities-none parent_of (e ∷ es) cert ee m v c h =
      let rest : Outcome (Option Certificate) = among_entities x now parent_of es cert in
      let (later, hit) =
        round-none x (is_valid now e) (verify_child x e cert)
          (parent_of e >>= λ found. or_else found rest) rest
          (λ g. (or_else-none (parent_of e) rest g).1) h in
      elim m [
        | Memᴰ.head same ↦
            subst (λ y. parent_of y ≡ ok none) (sym same)
              (or_else-none (parent_of e) rest (
                hit (subst (λ y. is_valid now y ≡ true) same v)
                  (subst (λ y. verify_child x y cert ≡ ok true) same c))).0
        | Memᴰ.tail m' ↦ entities-none parent_of es cert ee m' v c later
      ]
