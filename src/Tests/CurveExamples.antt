-- ===== src/Tests/CurveExamples.antt =====
-- The search for a private key over the small instance of openssl: from the state 0 it passes over the
-- number 0 and takes 1.
use qubitcrypt.Prelude.{ℕ, ◌<◌, ◌≡◌, ◌↔◌, refl}
use qubitcrypt.Outcome.{ok}
use qubitcrypt.Kem.Ec.{nid_prime256v1}
use qubitcrypt.Utils.{
  get_sk_bignum_ec_based, get_sk_byte_len_ec_based, draw_candidates, is_in_range,
}
use qubitcrypt.Utils.Sampling.{Draws, get_sk_bignum_iff}
use qubitcrypt.Tests.Curves.{toy_openssl}

get_sk_bignum_iff_example :
    (get_sk_bignum_ec_based toy_openssl 4 nid_prime256v1 0 ≡ (ok 1, 2))
    ↔ ((k : ℕ) × (k < 4) × Draws toy_openssl 1 200 1 k 0 1 2)
get_sk_bignum_iff_example = get_sk_bignum_iff toy_openssl nid_prime256v1 200 1 refl refl 4 0 1 2

second_drawn : get_sk_bignum_ec_based toy_openssl 4 nid_prime256v1 0 ≡ (ok 1, 2)
unfolding get_sk_bignum_ec_based get_sk_byte_len_ec_based draw_candidates is_in_range
second_drawn = refl
