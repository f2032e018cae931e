-- ===== src/Kdf/Derived.antt =====
-- kdf/kdf_manager.rs: the manager of every type, and how many bytes it derives.
use qubitcrypt.Prelude.{
  ℕ, ◌*◌, ◌≤◌, ◌<◌, ◌≡◌, refl, sym, subst, Option, none, some, [], ◌∷◌, length, inl, inr, ◌⊎◌,
  arith,
}
use qubitcrypt.Outcome.{Bytes, Outcome, ok, err, ok_or, panic, diverges, invalid_hkdf_length}
use qubitcrypt.Kdf.{
  KdfType, hkdf_with_sha256, hkdf_with_sha384, hkdf_with_sha512, kmac128, kmac256, shake128,
  shake256, Sha2, sha256, sha384, sha512, Strength, v128, v256, Crates, KdfManager, kdf_info,
  get_kdf_info, new, derive, derive_key, get_oid, new_from_oid,
}

-- The length of a digest in bytes.
abbrev pub digest_length : Sha2 → ℕ
digest_length sha256 = 32
digest_length sha384 = 48
digest_length sha512 = 64

-- The documented behaviour of the crates: HKDF expands to any length up to 255 digests and refuses
-- a longer one, a sponge takes every input, and outputs have the length asked for.
pub record IsLawful (c : Crates) : Type 0 where
  pub hkdf_gives :
      (h : Sha2) (salt : Option Bytes) (ikm info : Bytes) (n : ℕ)
      → n ≤ 255 * digest_length h
      → (b : Bytes) × (c.hkdf h salt ikm info n ≡ some b) × (length b ≡ n)
  pub hkdf_refuses :
      (h : Sha2) (salt : Option Bytes) (ikm info : Bytes) (n : ℕ)
      → 255 * digest_length h < n
      → c.hkdf h salt ikm info n ≡ none
  pub kmac_length :
      (s : Strength) (key custom input : Bytes) (n : ℕ) → length (c.kmac s key custom input n) ≡ n
  pub writes :
      (s : Strength) (k : c.Shake s) (b : Bytes) → (k' : c.Shake s) × (c.write s k b ≡ some k')
  pub reads :
      (s : Strength) (k : c.Shake s) (n : ℕ)
      → (b : Bytes) × (c.read_exact s k n ≡ some b) × (length b ≡ n)

-- The digest of the types that are HKDF.
abbrev pub digest : KdfType → Option Sha2
digest hkdf_with_sha256 = some sha256
digest hkdf_with_sha384 = some sha384
digest hkdf_with_sha512 = some sha512
digest _ = none

-- Whether so many bytes can be derived.
abbrev pub Allows : Option Sha2 → ℕ → Type 0
Allows none n = 0 ≤ n
Allows (some h) n = n ≤ 255 * digest_length h

-- What a derivation of `n` bytes should give.
unfoldable pub Derives : KdfType → ℕ → Outcome Bytes → Type 0
Derives t n (ok b) = Allows (digest t) n × (length b ≡ n)
Derives t n (err e) = (e ≡ invalid_hkdf_length) × (Allows (digest t) n → ⊥)
Derives t n panic = ⊥
Derives t n diverges = ⊥

compare_length : (n m : ℕ) → (n ≤ m) ⊎ (m < n)
compare_length n m = ground arith

module _ (c : Crates) (l : IsLawful c) where
  hkdf-Derives :
      (t : KdfType) (h : Sha2)
      → digest t ≡ some h
      → (salt : Option Bytes) (ikm info : Bytes) (n : ℕ)
      → Derives t n (ok_or invalid_hkdf_length (c.hkdf h salt ikm info n))
  unfolding Derives
  hkdf-Derives t h e salt ikm info n = elim (compare_length n (255 * digest_length h)) [
    | inl short ↦
        let (b, gives, sized) = l.hkdf_gives h salt ikm info n short in
        subst (λ o. Derives t n (ok_or invalid_hkdf_length o)) (sym gives)
          (subst (λ d. Allows d n) (sym e) short, sized)
    | inr long ↦
        subst (λ o. Derives t n (ok_or invalid_hkdf_length o))
          (sym (l.hkdf_refuses h salt ikm info n long))
          (
            refl,
            λ a.
                let short : n ≤ 255 * digest_length h = subst (λ d. Allows d n) e a in
                omega (arith, short, long),
          )
  ]

  sponge-gives :
      (s : Strength) (ikm info : Bytes) (n : ℕ) (salt : Option Bytes)
      → (b : Bytes) × (derive_key c s ikm info n salt ≡ ok b) × (length b ≡ n)
  unfolding derive_key
  sponge-gives s ikm [] n none =
      let (k, e) = l.writes s (c.default s) ikm in
      let (b, f, sized) = l.reads s k n in (b, rw (e, f) refl, sized)
  sponge-gives s ikm (i ∷ is) n none =
      let (k, e) = l.writes s (c.default s) ikm in
      let (k', e') = l.writes s k (i ∷ is) in
      let (b, f, sized) = l.reads s k' n in (b, rw (e, e', f) refl, sized)
  sponge-gives s ikm [] n (some salt) =
      let (k₀, e₀) = l.writes s (c.default s) salt in
      let (k, e) = l.writes s k₀ ikm in
      let (b, f, sized) = l.reads s k n in (b, rw (e₀, e, f) refl, sized)
  sponge-gives s ikm (i ∷ is) n (some salt) =
      let (k₀, e₀) = l.writes s (c.default s) salt in
      let (k, e) = l.writes s k₀ ikm in
      let (k', e') = l.writes s k (i ∷ is) in
      let (b, f, sized) = l.reads s k' n in (b, rw (e₀, e, e', f) refl, sized)

  sponge-Derives :
      (t : KdfType) (s : Strength)
      → digest t ≡ none
      → (ikm info : Bytes) (n : ℕ) (salt : Option Bytes)
      → Derives t n (derive_key c s ikm info n salt)
  unfolding Derives
  sponge-Derives t s e ikm info n salt =
      let (b, gives, sized) = sponge-gives s ikm info n salt in
      subst (Derives t n) (sym gives)
        (subst (λ d. Allows d n) (sym e) (let z : 0 ≤ n = omega arith in z), sized)

  -- Each of the seven types has a manager with its information, and that derives exactly as many bytes as
  -- it is asked for; but HKDF asked for more than 255 digests fails with `InvalidHkdfLength`.
  pub kdf-Derives :
      (t : KdfType) (ikm info : Bytes) (n : ℕ) (salt : Option Bytes)
      → (m : KdfManager) × (new t ≡ ok m)
        × (get_kdf_info m ≡ kdf_info t)
        × Derives t n (derive c m ikm info n salt)
  unfolding new derive get_kdf_info Derives
  kdf-Derives hkdf_with_sha256 ikm info n salt =
      (_, refl, refl, hkdf-Derives hkdf_with_sha256 sha256 refl salt ikm info n)
  kdf-Derives hkdf_with_sha384 ikm info n salt =
      (_, refl, refl, hkdf-Derives hkdf_with_sha384 sha384 refl salt ikm info n)
  kdf-Derives hkdf_with_sha512 ikm info n salt =
      (_, refl, refl, hkdf-Derives hkdf_with_sha512 sha512 refl salt ikm info n)
  kdf-Derives kmac128 ikm info n salt =
      (_, refl, refl, (omega arith, l.kmac_length v128 ikm _ info n))
  kdf-Derives kmac256 ikm info n salt =
      (_, refl, refl, (omega arith, l.kmac_length v256 ikm _ info n))
  kdf-Derives shake128 ikm info n salt =
      (_, refl, refl, sponge-Derives shake128 v128 refl ikm info n salt)
  kdf-Derives shake256 ikm info n salt =
      (_, refl, refl, sponge-Derives shake256 v256 refl ikm info n salt)

pub kdf_new_from_oid-get_oid : (t : KdfType) → new_from_oid (get_oid t) ≡ new t
unfolding new_from_oid get_oid new
kdf_new_from_oid-get_oid hkdf_with_sha256 = refl
kdf_new_from_oid-get_oid hkdf_with_sha384 = refl
kdf_new_from_oid-get_oid hkdf_with_sha512 = refl
kdf_new_from_oid-get_oid kmac128 = refl
kdf_new_from_oid-get_oid kmac256 = refl
kdf_new_from_oid-get_oid shake128 = refl
kdf_new_from_oid-get_oid shake256 = refl
