-- ===== src/Utils/Lawful.antt =====
-- utils/openssl_utils.rs: the laws of openssl, and the pairs of keys that the file generates.
use qubitcrypt.Prelude.{
  ℕ, ◌-◌, ltb, ◌≡◌, refl, sym, ap, ◌∙◌, Bool, true, false, some, ◌++◌, replicate, length,
  if◌then◌else◌, arith,
}
use qubitcrypt.Outcome.{Bytes, ok, panic, ok_or, ok_or-eq-ok, >>=-returns, ok-injective, unknown}
use qubitcrypt.Effect.{attempt, after-returns, after-pure-returns, attempt-returns}
use qubitcrypt.Kem.Ec.{Nid}
use qubitcrypt.Dsa.Composite.{MessageDigest}
use qubitcrypt.Utils.{
  RawId, Openssl, compute_public_key, get_ec_key_from_sk, get_ec_key_from_pk, private_of, public_of,
  pad_bignum_to_length, get_sk_byte_len_ec_based, get_pk_sk_from_bignum_ec_based,
  get_key_pair_ec_based, get_key_pair_ec_based_with_rng, get_sk_bignum_ec_based, raw_pair,
  get_key_pair_pkey_based, get_keypair_pkey_based_with_rng, raw_secret,
}

-- The documented laws of openssl. Numbers are read big-endian, so that zeros in front are nothing;
-- points and raw keys are read as they were written; a key that was checked holds the components
-- that it was made of; Diffie-Hellman agrees, and what a private key signs its public key verifies.
pub record IsLawful {W R : Type 0} (o : Openssl W R) : Type 0 where
  pub padded : (n : ℕ) (x : o.BigNum) → o.from_slice (replicate n 0 ++ o.to_vec x) ≡ some x
  pub point_read :
      (g : o.Group) (p : o.Point g) (b : Bytes)
      → o.point_to_bytes g p ≡ some b
      → o.point_from_bytes g b ≡ some p
  pub made_of :
      (g : o.Group) (n : o.BigNum) (p : o.Point g) (k : o.EcPrivate g)
      → o.from_private_components g n p ≡ some k
      → o.public_key g k ≡ p
  pub public_made :
      (g : o.Group) (k : o.EcPrivate g)
      → (p : o.EcPublic g) × (q : o.Public) × (o.from_public_key g (o.public_key g k) ≡ some p)
        × (o.public_from_ec g p ≡ some q)
  pub private_made :
      (g : o.Group) (k : o.EcPrivate g) → (q : o.Private) × (o.private_from_ec g k ≡ some q)
  pub ec_agrees :
      (g : o.Group) (k l : o.EcPrivate g) (a b : o.Private) (p q : o.EcPublic g) (c d : o.Public)
      → o.private_from_ec g k ≡ some a
      → o.private_from_ec g l ≡ some b
      → o.from_public_key g (o.public_key g k) ≡ some p
      → o.from_public_key g (o.public_key g l) ≡ some q
      → o.public_from_ec g p ≡ some c
      → o.public_from_ec g q ≡ some d
      → o.derive a d ≡ o.derive b c
  pub ec_verifies :
      (g : o.Group) (k : o.EcPrivate g) (a : o.Private) (p : o.EcPublic g) (c : o.Public)
      → o.private_from_ec g k ≡ some a
      → o.from_public_key g (o.public_key g k) ≡ some p
      → o.public_from_ec g p ≡ some c
      → (md : MessageDigest) (m : Bytes) (w : W) (s : Bytes) (w' : W)
      → o.sign_digest md a m w ≡ (some s, w')
      → o.verify_digest md c m s ≡ some true
  pub generated_read :
      (i : RawId) (w : W) (k : o.Private) (w' : W) (b : Bytes)
      → o.generate_raw i w ≡ (some k, w')
      → o.raw_private_key k ≡ some b
      → o.private_key_from_raw_bytes b i ≡ some k
  pub raw_read :
      (i : RawId) (a : Bytes) (k : o.Private) (b : Bytes)
      → o.private_key_from_raw_bytes a i ≡ some k
      → o.raw_private_key k ≡ some b
      → o.private_key_from_raw_bytes b i ≡ some k
  pub raw_public :
      (i : RawId) (a : Bytes) (k : o.Private) (b : Bytes)
      → o.private_key_from_raw_bytes a i ≡ some k
      → o.raw_public_key k ≡ some b
      → (p : o.Public) × (o.public_key_from_raw_bytes b i ≡ some p)
  pub raw_agrees :
      (i : RawId) (x y : Bytes) (k l : o.Private) (a b : Bytes) (p q : o.Public)
      → o.private_key_from_raw_bytes x i ≡ some k
      → o.private_key_from_raw_bytes y i ≡ some l
      → o.raw_public_key k ≡ some a
      → o.raw_public_key l ≡ some b
      → o.public_key_from_raw_bytes a i ≡ some p
      → o.public_key_from_raw_bytes b i ≡ some q
      → o.derive k q ≡ o.derive l p
  pub raw_verifies :
      (i : RawId) (x : Bytes) (k : o.Private) (a : Bytes) (p : o.Public)
      → o.private_key_from_raw_bytes x i ≡ some k
      → o.raw_public_key k ≡ some a
      → o.public_key_from_raw_bytes a i ≡ some p
      → (m : Bytes) (w : W) (s : Bytes) (w' : W) → o.sign_oneshot k m w ≡ (some s, w')
      → o.verify_oneshot p m s ≡ some true

module _ {W R : Type 0} (o : Openssl W R) where
  -- A pair of byte strings that stands for a key of a curve.
  pub record EcPair (n : Nid) (pk sk : Bytes) : Type 0 where
    pub group : o.Group
    pub curve : o.from_curve_name n ≡ some group
    pub number : o.BigNum
    pub point : o.Point group
    pub key : o.EcPrivate group
    pub read : o.from_slice sk ≡ some number
    pub multiplied : o.mul_generator group number ≡ some point
    pub made : o.from_private_components group number point ≡ some key
    pub written : o.point_to_bytes group point ≡ some pk

  pub record RawPair (i : RawId) (pk sk : Bytes) : Type 0 where
    pub key : o.Private
    pub read : o.private_key_from_raw_bytes sk i ≡ some key
    pub public : o.raw_public_key key ≡ some pk

  module _ (l : IsLawful o) where
    -- The padding of a private key is undone by its reading.
    from_slice-pad :
        (x : o.BigNum) (n : ℕ) (b : Bytes)
        → pad_bignum_to_length o x n ≡ ok b
        → o.from_slice b ≡ some x
    unfolding pad_bignum_to_length
    from_slice-pad x n b h =
        ap o.from_slice (sym (padded_is (ltb n (length (o.to_vec x))) h))
        ∙ l.padded (n - length (o.to_vec x)) x
      where
        padded_is : (t : Bool) {r c : Bytes} → (if t then panic else ok r) ≡ ok c → r ≡ c
        padded_is true e = absurd (ground arith)
        padded_is false e = ok-injective e

    bignum-EcPair :
        (n : Nid) (g : o.Group) (x : o.BigNum) (pk sk : Bytes)
        → o.from_curve_name n ≡ some g
        → get_pk_sk_from_bignum_ec_based o g x ≡ ok (pk, sk)
        → EcPair n pk sk
    unfolding get_pk_sk_from_bignum_ec_based compute_public_key
    bignum-EcPair n g x pk sk curve h =
        let (p, e₁, r₁) = >>=-returns (ok_or unknown (o.mul_generator g x)) _ h in
        let (k, e₂, r₂) = >>=-returns (ok_or unknown (o.from_private_components g x p)) _ r₁ in
        let (b, e₃, r₃) = >>=-returns (ok_or unknown (o.point_to_bytes g p)) _ r₂ in
        let (len, e₄, r₄) = >>=-returns (get_sk_byte_len_ec_based o g) _ r₃ in
        let (s, e₅, r₅) = >>=-returns (pad_bignum_to_length o x len) _ r₄ in
        let both = ok-injective r₅ in
        record {
          group = g;
          curve = curve;
          number = x;
          point = p;
          key = k;
          read = ap o.from_slice (sym (ap (λ y. y.1) both)) ∙ from_slice-pad x len s e₅;
          multiplied = ok_or-eq-ok unknown _ e₁;
          made = ok_or-eq-ok unknown _ e₂;
          written = ok_or-eq-ok unknown _ e₃ ∙ ap (λ y. some y.0) both;
        }

    pub generated-EcPair :
        (n : Nid) (w : W) (pk sk : Bytes) (w' : W)
        → get_key_pair_ec_based o n w ≡ (ok (pk, sk), w')
        → EcPair n pk sk
    unfolding get_key_pair_ec_based
    generated-EcPair n w pk sk w' h =
        let (g, e₁, r₁) = after-pure-returns (ok_or unknown (o.from_curve_name n)) w _ h in
        let (k, v, e₂, r₂) = after-returns (attempt unknown (o.generate g) w) _ r₁ in
        bignum-EcPair n g (o.private_key g k) pk sk (ok_or-eq-ok unknown _ e₁) (ap (λ x. x.0) r₂)

    pub generated_with_rng-EcPair :
        (fuel : ℕ) (n : Nid) (r : R) (pk sk : Bytes) (r' : R)
        → get_key_pair_ec_based_with_rng o fuel n r ≡ (ok (pk, sk), r')
        → EcPair n pk sk
    unfolding get_key_pair_ec_based_with_rng
    generated_with_rng-EcPair fuel n r pk sk r' h =
        let (g, e₁, r₁) = after-pure-returns (ok_or unknown (o.from_curve_name n)) r _ h in
        let (x, v, e₂, r₂) = after-returns (get_sk_bignum_ec_based o fuel g r) _ r₁ in
        bignum-EcPair n g x pk sk (ok_or-eq-ok unknown _ e₁) (ap (λ x. x.0) r₂)

    raw_pair-parts :
        (k : o.Private) (pk sk : Bytes)
        → raw_pair o k ≡ ok (pk, sk)
        → (o.raw_public_key k ≡ some pk) × (o.raw_private_key k ≡ some sk)
    unfolding raw_pair
    raw_pair-parts k pk sk h =
        let (p, e₁, r₁) = >>=-returns (ok_or unknown (o.raw_public_key k)) _ h in
        let (s, e₂, r₂) = >>=-returns (ok_or unknown (o.raw_private_key k)) _ r₁ in
        let both = ok-injective r₂ in
        (
          ok_or-eq-ok unknown _ e₁ ∙ ap (λ y. some y.0) both,
          ok_or-eq-ok unknown _ e₂ ∙ ap (λ y. some y.1) both,
        )

    pub generated-RawPair :
        (i : RawId) (w : W) (pk sk : Bytes) (w' : W)
        → get_key_pair_pkey_based o i w ≡ (ok (pk, sk), w')
        → RawPair i pk sk
    unfolding get_key_pair_pkey_based
    generated-RawPair i w pk sk w' h =
        let (k, v, e, r) = after-returns (attempt unknown (o.generate_raw i) w) _ h in
        let (public, private) = raw_pair-parts k pk sk (ap (λ x. x.0) r) in
        record {
          key = k;
          read =
              l.generated_read i w k v sk (attempt-returns unknown (o.generate_raw i) w e) private;
          public = public;
        }

    pub generated_with_rng-RawPair :
        (i : RawId) (r : R) (pk sk : Bytes) (r' : R)
        → get_keypair_pkey_based_with_rng o i r ≡ (ok (pk, sk), r')
        → RawPair i pk sk
    unfolding get_keypair_pkey_based_with_rng
    generated_with_rng-RawPair i r pk sk r' h =
        let (s, v, e₁, r₁) = after-returns (raw_secret o i r) _ h in
        let (k, e₂, r₂) =
          >>=-returns (ok_or unknown (o.private_key_from_raw_bytes s i)) _ (ap (λ x. x.0) r₁) in
        let (public, private) = raw_pair-parts k pk sk r₂ in
        record {
          key = k;
          read = l.raw_read i s k sk (ok_or-eq-ok unknown _ e₂) private;
          public = public;
        }

    -- The private key that is read of a pair, and the public key that is read of a point.
    pub private_of-pair :
        (n : Nid) (pk sk : Bytes) (p : EcPair n pk sk)
        → (a : o.Private) × (o.private_from_ec p.group p.key ≡ some a)
          × (private_of o p.group sk ≡ ok a)
    unfolding private_of get_ec_key_from_sk compute_public_key
    private_of-pair n pk sk p =
        let (a, e) = l.private_made p.group p.key in
        (a, e, rw (p.read, p.multiplied, p.made, e) refl)

    pub public_of-point :
        (g : o.Group) (k : o.EcPrivate g) (b : Bytes)
        → o.point_to_bytes g (o.public_key g k) ≡ some b
        → (p : o.EcPublic g) × (c : o.Public) × (o.from_public_key g (o.public_key g k) ≡ some p)
          × (o.public_from_ec g p ≡ some c)
          × (public_of o g b ≡ ok c)
    unfolding public_of get_ec_key_from_pk
    public_of-point g k b h =
        let (p, c, e, f) = l.public_made g k in
        (p, c, e, f, rw (l.point_read g (o.public_key g k) b h, e, f) refl)

    pub EcPair-written :
        (n : Nid) (pk sk : Bytes) (p : EcPair n pk sk)
        → o.point_to_bytes p.group (o.public_key p.group p.key) ≡ some pk
    EcPair-written n pk sk p =
        ap (o.point_to_bytes p.group) (l.made_of p.group p.number p.point p.key p.made) ∙ p.written
