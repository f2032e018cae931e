-- ===== src/Store/Search.antt =====
-- cms/directory_cert_store.rs: what `find` returns.
use qubitcrypt.Prelude.{
  ℕ, Bool, true, false, ◌≡◌, ◌⊎◌, inl, inr, refl, ap, subst, ◌∙◌, ◌&&◌, and-true, List, [], ◌∷◌,
  Memᴰ, Option, none, some, eq_of_some, arith, if◌then◌else◌,
}
use qubitcrypt.Outcome.{Outcome, ok, err, panic, diverges, ◌>>=◌, >>=-returns, ok-injective}
use qubitcrypt.Certificate.{Certificate, X509, is_key_encipherment_enabled}
use qubitcrypt.Store.{
  DirectoryCertificateStore, RecipientIdentifier, is_named, find_parent, found_by, find_among, find,
}
use qubitcrypt.Store.Chains.{Chain, find_parent_sound}

found_by-some :
    (r : Outcome (Option Certificate)) (cert : Certificate) (rest : Outcome (Option Certificate))
    (c : Certificate)
    → (r >>= λ parent. found_by parent cert rest) ≡ ok (some c)
    → ((ta : Certificate) × (r ≡ ok (some ta)) × (cert ≡ c)) ⊎ (rest ≡ ok (some c))
found_by-some (ok (some ta)) cert rest c h = inl (ta, refl, eq_of_some (ok-injective h))
found_by-some (ok none) cert rest c h = inr h
found_by-some (err e) cert rest c h = absurd (ground arith)
found_by-some panic cert rest c h = absurd (ground arith)
found_by-some diverges cert rest c h = absurd (ground arith)

if-some :
    (b : Bool) (r rest : Outcome (Option Certificate)) (c : Certificate)
    → (if b then r else rest) ≡ ok (some c)
    → ((b ≡ true) × (r ≡ ok (some c))) ⊎ (rest ≡ ok (some c))
if-some true r rest c h = inl (refl, h)
if-some false r rest c h = inr h

module _ (x : X509) (now : ℕ) (s : DirectoryCertificateStore) where
  -- A certificate fit for the recipient: one of the list that bears the identifier, may encipher
  -- keys, and has a chain to a trust anchor of the store.
  pub record Fits (certs : List Certificate) (ri : RecipientIdentifier) (c : Certificate)
      : Type 0 where
    pub listed : Memᴰ c certs
    pub named : is_named x now ri c ≡ ok true
    pub enciphers : is_key_encipherment_enabled x c ≡ true
    pub anchor : Certificate
    pub chain : Chain x now s c anchor

  abbrev longer :
      {e : Certificate} {certs : List Certificate} {ri : RecipientIdentifier} {c : Certificate}
      → Fits certs ri c
      → Fits (e ∷ certs) ri c
  longer f = record {
    listed = Memᴰ.tail f.listed;
    named = f.named;
    enciphers = f.enciphers;
    anchor = f.anchor;
    chain = f.chain;
  }

  find_among-Fits :
      (n : ℕ) (certs : List Certificate) (ri : RecipientIdentifier) (c : Certificate)
      → find_among x now s n certs ri ≡ ok (some c)
      → Fits certs ri c
  unfolding find_among
  find_among-Fits n [] ri c h = absurd (ground arith)
  find_among-Fits n (e ∷ certs) ri c h =
      let rest : Outcome (Option Certificate) = find_among x now s n certs ri in
      let (named, e₁, r₁) = >>=-returns (is_named x now ri e) _ h in
      elim (if-some (named && is_key_encipherment_enabled x e) _ rest c r₁) [
        | inr r ↦ longer (find_among-Fits n certs ri c r)
        | inl (both, r) ↦ elim (found_by-some (find_parent x now s n e) e rest c r) [
          | inr r' ↦ longer (find_among-Fits n certs ri c r')
          | inl (ta, found, same) ↦
              subst (λ y. Fits (e ∷ certs) ri y) same
                (record {
                  listed = Memᴰ.head refl;
                  named = e₁ ∙ ap ok (and-true named (is_key_encipherment_enabled x e) both).0;
                  enciphers = (and-true named (is_key_encipherment_enabled x e) both).1;
                  anchor = ta;
                  chain = find_parent_sound x now s n e ta found;
                })
        ]
      ]

  -- A certificate that `find` returns is an end entity of the store that bears the recipient's
  -- identifier, may encipher keys, and has a chain of verified certificates to a trust anchor.
  pub find-Fits :
      (n : ℕ) (ri : RecipientIdentifier) (c : Certificate)
      → find x now s n ri ≡ ok (some c)
      → Fits s.ee_certificates ri c
  unfolding find
  find-Fits n ri c h = find_among-Fits n s.ee_certificates ri c h
