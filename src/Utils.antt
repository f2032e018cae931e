-- ===== src/Utils.antt =====
-- utils/openssl_utils.rs: elliptic curves over the openssl crate. `BigNumContext::new`,
-- `BigNum::new` and `EcPoint::new` only allocate, and are left out. The errors of the file are
-- boxed, and every caller replaces them: they are written as `Unknown`.
pub mod Filled
pub mod Lawful
pub mod Exchanged
pub mod Signed
pub mod Sampling
use qubitcrypt.Prelude.{
  ℕ, zero, suc, ◌+◌, ◌-◌, ◌/◌, Bool, true, false, ◌&&◌, ltb, Option, ◌++◌, length, replicate,
  if◌then◌else◌,
}
use qubitcrypt.Outcome.{Bytes, Outcome, ok, panic, diverges, ok_or, ◌>>=◌, unknown}
use qubitcrypt.Effect
use qubitcrypt.Effect.{Eff, pure, attempt, infallible}
use qubitcrypt.Kem.Ec.{Nid}
use qubitcrypt.Dsa.Composite.{MessageDigest}

-- The values of `openssl::pkey::Id` that the file matches on.
pub data RawId : Type 0 where
  x448 x25519 ed25519 ed448 : RawId

-- What the file calls of openssl and of `CryptoRngCore`. Points and keys belong to the group that
-- their constructors are given. `derive` is `Deriver::new`, `set_peer` and `derive_to_vec`;
-- `sign_digest` is `Signer::new`, `update` and `sign_to_vec`, `verify_digest` the same of
-- `Verifier`; the oneshot operations are those without a digest.
pub record Openssl (W R : Type 0) : Type 1 where
  pub BigNum : Type 0
  pub from_slice : Bytes → Option BigNum
  pub from_u32 : ℕ → Option BigNum
  pub to_vec : BigNum → Bytes
  pub num_bits : BigNum → ℕ
  pub less : BigNum → BigNum → Bool
  pub at_least : BigNum → BigNum → Bool
  pub Group : Type 0
  pub from_curve_name : Nid → Option Group
  pub order : Group → Option BigNum
  pub Point : Group → Type 0
  pub mul_generator : (g : Group) → BigNum → Option (Point g)
  pub point_from_bytes : (g : Group) → Bytes → Option (Point g)
  pub point_to_bytes : (g : Group) → Point g → Option Bytes
  pub EcPrivate : Group → Type 0
  pub EcPublic : Group → Type 0
  pub generate : (g : Group) → W → Option (EcPrivate g) × W
  pub from_private_components : (g : Group) → BigNum → Point g → Option (EcPrivate g)
  pub from_public_key : (g : Group) → Point g → Option (EcPublic g)
  pub private_key : (g : Group) → EcPrivate g → BigNum
  pub public_key : (g : Group) → EcPrivate g → Point g
  pub Private : Type 0
  pub Public : Type 0
  pub private_from_ec : (g : Group) → EcPrivate g → Option Private
  pub public_from_ec : (g : Group) → EcPublic g → Option Public
  pub generate_raw : RawId → W → Option Private × W
  pub private_key_from_raw_bytes : Bytes → RawId → Option Private
  pub public_key_from_raw_bytes : Bytes → RawId → Option Public
  pub raw_public_key : Private → Option Bytes
  pub raw_private_key : Private → Option Bytes
  pub derive : Private → Public → Option Bytes
  pub sign_digest : MessageDigest → Private → Bytes → W → Option Bytes × W
  pub verify_digest : MessageDigest → Public → Bytes → Bytes → Option Bool
  pub sign_oneshot : Private → Bytes → W → Option Bytes × W
  pub verify_oneshot : Public → Bytes → Bytes → Option Bool
  pub fill_bytes : ℕ → R → Bytes × R

module _ {W R : Type 0} (o : Openssl W R) where
  unfoldable pub compute_public_key : (g : o.Group) → o.BigNum → Outcome (o.Point g)
  compute_public_key group private_key_bn = ok_or unknown (o.mul_generator group private_key_bn)

  -- The callers of the next two look the group of the curve up, as these do.
  unfoldable pub get_ec_key_from_sk : (g : o.Group) → Bytes → Outcome (o.EcPrivate g)
  unfolding compute_public_key
  get_ec_key_from_sk group sk = do
    sk_n ← ok_or unknown (o.from_slice sk)
    pk_p ← compute_public_key group sk_n
    ok_or unknown (o.from_private_components group sk_n pk_p)

  unfoldable pub get_ec_key_from_pk : (g : o.Group) → Bytes → Outcome (o.EcPublic g)
  get_ec_key_from_pk group pk = do
    pk_point ← ok_or unknown (o.point_from_bytes group pk)
    ok_or unknown (o.from_public_key group pk_point)

  -- `get_ec_key_from_sk` and `get_ec_key_from_pk` with the `PKey::from_ec_key` after them.
  unfoldable pub private_of : (g : o.Group) → Bytes → Outcome o.Private
  unfolding get_ec_key_from_sk
  private_of group sk = do
    key ← get_ec_key_from_sk group sk
    ok_or unknown (o.private_from_ec group key)

  unfoldable pub public_of : (g : o.Group) → Bytes → Outcome o.Public
  unfolding get_ec_key_from_pk
  public_of group pk = do
    key ← get_ec_key_from_pk group pk
    ok_or unknown (o.public_from_ec group key)

  unfoldable pub encaps_ec_based : Nid → Bytes → Eff W (Bytes × Bytes)
  unfolding public_of
  encaps_ec_based nid pk = Effect.◌>>=◌ (pure (ok_or unknown (o.from_curve_name nid))) (λ group.
      Effect.◌>>=◌ (pure (public_of group pk)) (λ peer.
        Effect.◌>>=◌ (attempt unknown (o.generate group)) (λ ephemeral_key. pure (do
          es ← ok_or unknown (o.private_from_ec group ephemeral_key)
          ss ← ok_or unknown (o.derive es peer)
          ct ← ok_or unknown (o.point_to_bytes group (o.public_key group ephemeral_key))
          ok (ss, ct)))))

  unfoldable pub decaps_ec_based : Nid → Bytes → Bytes → Outcome Bytes
  unfolding private_of public_of
  decaps_ec_based nid sk ct = do
    group ← ok_or unknown (o.from_curve_name nid)
    key ← private_of group sk
    peer ← public_of group ct
    ok_or unknown (o.derive key peer)

  unfoldable pub pad_bignum_to_length : o.BigNum → ℕ → Outcome Bytes
  pad_bignum_to_length bn desired_length =
      let bn_bytes = o.to_vec bn in
      if ltb desired_length (length bn_bytes)
      then panic
      else ok (replicate (desired_length - length bn_bytes) 0 ++ bn_bytes)

  unfoldable pub get_sk_byte_len_ec_based : o.Group → Outcome ℕ
  get_sk_byte_len_ec_based group = do
    order ← ok_or unknown (o.order group)
    ok ((o.num_bits order + 7) / 8)

  -- `d_candidate >= BigNum::from_u32(1)? && d_candidate < order`.
  unfoldable pub is_in_range : o.BigNum → o.BigNum → Outcome Bool
  is_in_range order candidate = do
    one ← ok_or unknown (o.from_u32 1)
    ok (o.at_least candidate one && o.less candidate order)

  -- The loop of `get_sk_bignum_ec_based`, which draws at most `fuel` candidates.
  unfoldable pub draw_candidates : ℕ → ℕ → o.BigNum → Eff R o.BigNum
  unfolding is_in_range
  draw_candidates zero byte_len order = pure diverges
  draw_candidates (suc fuel) byte_len order =
      Effect.◌>>=◌ (infallible (o.fill_bytes byte_len)) (λ private_key_bytes.
        Effect.◌>>=◌ (pure (ok_or unknown (o.from_slice private_key_bytes))) (λ d_candidate.
          Effect.◌>>=◌ (pure (is_in_range order d_candidate)) (λ accepted. elim accepted [
            | true ↦ pure (ok d_candidate)
            | false ↦ draw_candidates fuel byte_len order
          ])))

  unfoldable pub get_sk_bignum_ec_based : ℕ → o.Group → Eff R o.BigNum
  unfolding get_sk_byte_len_ec_based draw_candidates
  get_sk_bignum_ec_based fuel group = Effect.◌>>=◌ (pure (ok_or unknown (o.order group))) (λ order.
      Effect.◌>>=◌ (pure (get_sk_byte_len_ec_based group))
        (λ byte_len. draw_candidates fuel byte_len order))

  unfoldable pub get_pk_sk_from_bignum_ec_based : (g : o.Group) → o.BigNum → Outcome (Bytes × Bytes)
  unfolding compute_public_key get_sk_byte_len_ec_based pad_bignum_to_length
  get_pk_sk_from_bignum_ec_based group private_key_bn = do
    pk_point ← compute_public_key group private_key_bn
    _ ← ok_or unknown (o.from_private_components group private_key_bn pk_point)
    pks ← ok_or unknown (o.point_to_bytes group pk_point)
    byte_len ← get_sk_byte_len_ec_based group
    sks ← pad_bignum_to_length private_key_bn byte_len
    ok (pks, sks)

  unfoldable pub get_key_pair_ec_based : Nid → Eff W (Bytes × Bytes)
  unfolding get_pk_sk_from_bignum_ec_based
  get_key_pair_ec_based nid = Effect.◌>>=◌ (pure (ok_or unknown (o.from_curve_name nid))) (λ group.
      Effect.◌>>=◌ (attempt unknown (o.generate group))
        (λ ec_key. pure (get_pk_sk_from_bignum_ec_based group (o.private_key group ec_key))))

  unfoldable pub get_key_pair_ec_based_with_rng : ℕ → Nid → Eff R (Bytes × Bytes)
  unfolding get_sk_bignum_ec_based get_pk_sk_from_bignum_ec_based
  get_key_pair_ec_based_with_rng fuel nid =
      Effect.◌>>=◌ (pure (ok_or unknown (o.from_curve_name nid))) (λ group.
        Effect.◌>>=◌ (get_sk_bignum_ec_based fuel group)
          (λ private_key_bn. pure (get_pk_sk_from_bignum_ec_based group private_key_bn)))

  -- `raw_public_key` and `raw_private_key` of a key, the end of both generators of raw keys.
  unfoldable pub raw_pair : o.Private → Outcome (Bytes × Bytes)
  raw_pair key = do
    pk ← ok_or unknown (o.raw_public_key key)
    sk ← ok_or unknown (o.raw_private_key key)
    ok (pk, sk)

  unfoldable pub get_key_pair_pkey_based : RawId → Eff W (Bytes × Bytes)
  unfolding raw_pair
  get_key_pair_pkey_based id =
      Effect.◌>>=◌ (attempt unknown (o.generate_raw id)) (λ key. pure (raw_pair key))

  -- The random bytes of `get_keypair_pkey_based_with_rng`, as many as the curve has.
  unfoldable pub raw_secret : RawId → Eff R Bytes
  raw_secret x448 = infallible (o.fill_bytes 56)
  raw_secret x25519 = infallible (o.fill_bytes 32)
  raw_secret _ = pure panic

  unfoldable pub get_keypair_pkey_based_with_rng : RawId → Eff R (Bytes × Bytes)
  unfolding raw_secret raw_pair
  get_keypair_pkey_based_with_rng id =
      Effect.◌>>=◌ (raw_secret id)
        (λ sk. pure (ok_or unknown (o.private_key_from_raw_bytes sk id) >>= raw_pair))

  unfoldable pub encaps_pkey_based : Bytes → RawId → Eff W (Bytes × Bytes)
  unfolding get_key_pair_pkey_based
  encaps_pkey_based pk id = Effect.◌>>=◌ (get_key_pair_pkey_based id) (λ pair. pure (do
    esk ← ok_or unknown (o.private_key_from_raw_bytes pair.1 id)
    peer ← ok_or unknown (o.public_key_from_raw_bytes pk id)
    ss ← ok_or unknown (o.derive esk peer)
    ct ← ok_or unknown (o.raw_public_key esk)
    ok (ss, ct)))

  unfoldable pub decaps_pkey_based : Bytes → Bytes → RawId → Outcome Bytes
  decaps_pkey_based sk ct id = do
    key ← ok_or unknown (o.private_key_from_raw_bytes sk id)
    peer ← ok_or unknown (o.public_key_from_raw_bytes ct id)
    ok_or unknown (o.derive key peer)

  unfoldable pub get_pk_from_sk_ec_based : Bytes → Nid → Outcome Bytes
  unfolding compute_public_key
  get_pk_from_sk_ec_based sk nid = do
    group ← ok_or unknown (o.from_curve_name nid)
    private_key_bn ← ok_or unknown (o.from_slice sk)
    pk_point ← compute_public_key group private_key_bn
    ok_or unknown (o.point_to_bytes group pk_point)

  unfoldable pub get_pk_from_sk_pkey_based : Bytes → RawId → Outcome Bytes
  get_pk_from_sk_pkey_based sk id = do
    key ← ok_or unknown (o.private_key_from_raw_bytes sk id)
    ok_or unknown (o.raw_public_key key)

  unfoldable pub sign_ec_based : Nid → Bytes → Bytes → MessageDigest → Eff W Bytes
  unfolding private_of
  sign_ec_based id sk msg digest =
      Effect.◌>>=◌ (pure (ok_or unknown (o.from_curve_name id) >>= (λ group. private_of group sk)))
        (λ pkey. attempt unknown (o.sign_digest digest pkey msg))

  unfoldable pub sign_pkey_based : RawId → Bytes → Bytes → Eff W Bytes
  sign_pkey_based id sk msg =
      Effect.◌>>=◌ (pure (ok_or unknown (o.private_key_from_raw_bytes sk id)))
        (λ key. attempt unknown (o.sign_oneshot key msg))

  unfoldable pub verify_ec_based : Nid → Bytes → Bytes → Bytes → MessageDigest → Outcome Bool
  unfolding public_of
  verify_ec_based id pk msg signature digest = do
    group ← ok_or unknown (o.from_curve_name id)
    pkey ← public_of group pk
    ok_or unknown (o.verify_digest digest pkey msg signature)

  unfoldable pub verify_pkey_based : RawId → Bytes → Bytes → Bytes → Outcome Bool
  verify_pkey_based id pk msg signature = do
    pkey ← ok_or unknown (o.public_key_from_raw_bytes pk id)
    ok_or unknown (o.verify_oneshot pkey msg signature)
