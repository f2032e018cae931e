-- ===== src/Dsa/Ec/Correct.antt =====
-- dsa/ec_dsa.rs: signing by a generated key against verification.
use qubitcrypt.Prelude.{Option-cases, inl, inr, ◌≡◌, ap, Bool, true, none, some}
use qubitcrypt.Outcome.{
  Bytes, Outcome, ok, map_err, key_pair_generation_failed, signature_failed,
  signature_verification_failed, invalid_private_key,
}
use qubitcrypt.Effect.{Eff, pure, map_error-returns, err-returns}
use qubitcrypt.Kem.Ec.{Nid}
use qubitcrypt.Dsa.Trait.{Agrees, IsCorrect}
use qubitcrypt.Dsa.Composite.{MessageDigest}
use qubitcrypt.Dsa.Ec.{
  EdId, OpensslUtils, EcDsaManager, key_gen, key_gen_with_rng, sign, verify, get_public_key, ec_dsa,
}

-- A pair of keys of a curve: its signatures verify, and its public key is computed.
pub record Pair {W : Type 0} (sign : Bytes → Bytes → Eff W Bytes)
    (verify : Bytes → Bytes → Bytes → Outcome Bool) (public : Bytes → Outcome Bytes) (pk sk : Bytes)
    : Type 0 where
  pub signed :
      (msg : Bytes) (w : W) (sig : Bytes) (w' : W)
      → sign sk msg w ≡ (ok sig, w')
      → verify pk msg sig ≡ ok true
  pub derived : public sk ≡ ok pk

-- What the module asks of the interface: on each curve a generated pair of keys signs, verifies and is derived.
pub record IsLawful {W R : Type 0} (u : OpensslUtils W R) : Type 0 where
  pub ec :
      (n : Nid) (md : MessageDigest) (w : W) (pk sk : Bytes) (w' : W)
      → u.get_key_pair_ec_based n w ≡ (ok (pk, sk), w')
      → Pair
          (λ k m. u.sign_ec_based n k m md)
          (λ k m s. u.verify_ec_based n k m s md)
          (λ k. u.get_pk_from_sk_ec_based k n)
          pk
          sk
  pub ec_with_rng :
      (n : Nid) (md : MessageDigest) (r : R) (pk sk : Bytes) (r' : R)
      → u.get_key_pair_ec_based_with_rng n r ≡ (ok (pk, sk), r')
      → Pair
          (λ k m. u.sign_ec_based n k m md)
          (λ k m s. u.verify_ec_based n k m s md)
          (λ k. u.get_pk_from_sk_ec_based k n)
          pk
          sk
  pub pkey :
      (i : EdId) (w : W) (pk sk : Bytes) (w' : W)
      → u.get_key_pair_pkey_based i w ≡ (ok (pk, sk), w')
      → Pair
          (u.sign_pkey_based i)
          (u.verify_pkey_based i)
          (λ k. u.get_pk_from_sk_pkey_based k i)
          pk
          sk
  pub ed :
      (i : EdId) (r : R) (pk sk : Bytes) (r' : R)
      → pure {W = R} (ok (u.generate_ed i r).0) (u.generate_ed i r).1 ≡ (ok (pk, sk), r')
      → Pair
          (u.sign_pkey_based i)
          (u.verify_pkey_based i)
          (λ k. u.get_pk_from_sk_pkey_based k i)
          pk
          sk

module _ {W R : Type 0} (u : OpensslUtils W R) (l : IsLawful u) where
  nid-Agrees :
      (m : EcDsaManager) (n : Nid) (pk sk : Bytes)
      → m.ec_based_nid ≡ some n
      → Pair
          (λ k t. u.sign_ec_based n k t m.digest)
          (λ k t s. u.verify_ec_based n k t s m.digest)
          (λ k. u.get_pk_from_sk_ec_based k n)
          pk
          sk
      → Agrees (ec_dsa u m) pk sk
  unfolding ec_dsa sign verify get_public_key
  nid-Agrees m n pk sk e p = record {
    signed = λ msg w sig w' h. rw (e) (
        ap (map_err signature_verification_failed) (
          p.signed msg w sig w' (
            map_error-returns signature_failed (u.sign_ec_based n sk msg m.digest w)
              (rw (e) at h))));
    public = rw (e) (ap (map_err invalid_private_key) p.derived);
  }

  id-Agrees :
      (m : EcDsaManager) (i : EdId) (pk sk : Bytes)
      → m.ec_based_nid ≡ none
      → m.pk_based_id ≡ some i
      → Pair
          (u.sign_pkey_based i)
          (u.verify_pkey_based i)
          (λ k. u.get_pk_from_sk_pkey_based k i)
          pk
          sk
      → Agrees (ec_dsa u m) pk sk
  unfolding ec_dsa sign verify get_public_key
  id-Agrees m i pk sk e f p = record {
    signed = λ msg w sig w' h.
        rw (e, f)
          (ap (map_err signature_verification_failed) (
            p.signed msg w sig w' (
              map_error-returns signature_failed (u.sign_pkey_based i sk msg w) (rw (e, f) at h))));
    public = rw (e, f) (ap (map_err invalid_private_key) p.derived);
  }

  generated-Agrees :
      (m : EcDsaManager) (w : W) (pk sk : Bytes) (w' : W)
      → key_gen u m w ≡ (ok (pk, sk), w')
      → Agrees (ec_dsa u m) pk sk
  unfolding key_gen
  generated-Agrees m w pk sk w' h = elim (Option-cases m.ec_based_nid) [
    | inr (n, e) ↦ nid-Agrees m n pk sk e (
        l.ec n m.digest w pk sk w' (
          map_error-returns key_pair_generation_failed (u.get_key_pair_ec_based n w) (rw (e) at h)))
    | inl e ↦ elim (Option-cases m.pk_based_id) [
      | inr (i, f) ↦ id-Agrees m i pk sk e f (
          l.pkey i w pk sk w' (
            map_error-returns key_pair_generation_failed (u.get_key_pair_pkey_based i w)
              (rw (e, f) at h)))
      | inl f ↦ absurd (err-returns (rw (e, f) at h))
    ]
  ]

  generated_with_rng-Agrees :
      (m : EcDsaManager) (r : R) (pk sk : Bytes) (r' : R)
      → key_gen_with_rng u m r ≡ (ok (pk, sk), r')
      → Agrees (ec_dsa u m) pk sk
  unfolding key_gen_with_rng
  generated_with_rng-Agrees m r pk sk r' h = elim (Option-cases m.ec_based_nid) [
    | inr (n, e) ↦ nid-Agrees m n pk sk e (
        l.ec_with_rng n m.digest r pk sk r' (
          map_error-returns key_pair_generation_failed (u.get_key_pair_ec_based_with_rng n r)
            (rw (e) at h)))
    | inl e ↦ elim (Option-cases m.pk_based_id) [
      | inr (i, f) ↦ id-Agrees m i pk sk e f (l.ed i r pk sk r' (rw (e, f) at h))
      | inl f ↦ absurd (err-returns (rw (e, f) at h))
    ]
  ]

  pub ec_dsa-IsCorrect : (m : EcDsaManager) → IsCorrect (ec_dsa u m)
  unfolding ec_dsa
  ec_dsa-IsCorrect m = record {
    generated = generated-Agrees m;
    generated_with_rng = generated_with_rng-Agrees m;
  }
