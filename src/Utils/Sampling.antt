-- ===== src/Utils/Sampling.antt =====
-- utils/openssl_utils.rs: the loop of `get_sk_bignum_ec_based` against the draws that it makes.
use qubitcrypt.Prelude.{
  ℕ, zero, suc, ◌+◌, ◌/◌, ◌<◌, ◌≡◌, ◌↔◌, refl, subst, ap, true, false, ◌&&◌, Bool-cases, inl, inr,
  some, arith,
}
use qubitcrypt.Outcome.{ok, ok_or, ok_or-eq-ok, ok-injective, unknown}
use qubitcrypt.Effect.{after-pure-returns}
use qubitcrypt.Utils.{
  Openssl, is_in_range, draw_candidates, get_sk_byte_len_ec_based, get_sk_bignum_ec_based,
}

module _ {W R : Type 0} (o : Openssl W R) where
  -- From the generator's state `r`, after `k` numbers that are 0 or not below the order, the number
  -- `x` is drawn, which is neither, and the generator is left in the state `r'`.
  pub data Draws (len : ℕ) (order one : o.BigNum) : ℕ → R → o.BigNum → R → Type 0 where
    taken :
        {r : R} {x : o.BigNum}
        → o.from_slice (o.fill_bytes len r).0 ≡ some x
        → (o.at_least x one && o.less x order) ≡ true
        → Draws len order one 0 r x (o.fill_bytes len r).1
    passed_over :
        {k : ℕ} {r r' : R} {x y : o.BigNum}
        → o.from_slice (o.fill_bytes len r).0 ≡ some y
        → (o.at_least y one && o.less y order) ≡ false
        → Draws len order one k (o.fill_bytes len r).1 x r'
        → Draws len order one (suc k) r x r'

  module _ (len : ℕ) (order one : o.BigNum) (e : o.from_u32 1 ≡ some one) where
    found-Draws :
        (fuel : ℕ) (r : R) (x : o.BigNum) (r' : R)
        → draw_candidates o fuel len order r ≡ (ok x, r')
        → (k : ℕ) × (k < fuel) × Draws len order one k r x r'
    unfolding draw_candidates is_in_range
    found-Draws zero r x r' h = absurd (ground arith)
    found-Draws (suc fuel) r x r' h =
        let (y, e₁, r₁) =
          after-pure-returns (ok_or unknown (o.from_slice (o.fill_bytes len r).0))
            (o.fill_bytes len r).1 _ h in
        let read = ok_or-eq-ok unknown _ e₁ in
        elim (Bool-cases (o.at_least y one && o.less y order)) [
          | inl t ↦
              let ends = rw (e, t) at r₁ in
              (
                0,
                omega arith,
                subst (λ z. Draws len order one 0 r z r') (ok-injective (ap (λ q. q.0) ends))
                    (subst (λ z. Draws len order one 0 r y z) (ap (λ q. q.1) ends) (taken read t)),
              )
          | inr f ↦
              let (k, below, draws) =
                found-Draws fuel (o.fill_bytes len r).1 x r' (rw (e, f) at r₁) in
              (suc k, omega arith, passed_over read f draws)
        ]

    Draws-found :
        (fuel k : ℕ) (r : R) (x : o.BigNum) (r' : R)
        → k < fuel
        → Draws len order one k r x r'
        → draw_candidates o fuel len order r ≡ (ok x, r')
    unfolding draw_candidates is_in_range
    Draws-found zero k r x r' below d = absurd (omega arith)
    Draws-found (suc fuel) zero r x r' below (taken read t) = rw (read, e, t) refl
    Draws-found (suc fuel) (suc k) r x r' below (passed_over read f d) =
        rw (read, e, f) (Draws-found fuel k _ x r' (omega arith) d)

  -- In a group with an order, where 1 is a number, the search for a private key returns a number
  -- exactly when it is drawn after fewer numbers than the fuel that are 0 or not below the order: with
  -- enough fuel it returns the first number that is neither, and more fuel changes nothing.
  pub get_sk_bignum_iff :
      (group : o.Group) (order one : o.BigNum)
      → o.order group ≡ some order
      → o.from_u32 1 ≡ some one
      → (fuel : ℕ) (r : R) (x : o.BigNum) (r' : R)
      → (get_sk_bignum_ec_based o fuel group r ≡ (ok x, r'))
        ↔ ((k : ℕ) × (k < fuel) × Draws ((o.num_bits order + 7) / 8) order one k r x r')
  unfolding get_sk_bignum_ec_based get_sk_byte_len_ec_based
  get_sk_bignum_iff group order one has e fuel r x r' = (
    λ h. found-Draws ((o.num_bits order + 7) / 8) order one e fuel r x r' (rw (has) at h),
    λ d. rw (has) (Draws-found ((o.num_bits order + 7) / 8) order one e fuel d.0 r x r' d.1 d.2),
  )
