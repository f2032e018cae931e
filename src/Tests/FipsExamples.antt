-- ===== src/Tests/FipsExamples.antt =====
-- The theorems on ML-DSA and on the signature manager, over a toy crate: a signature is the key,
-- then the first byte of the message.
use qubitcrypt.Prelude.{
  ℕ, suc, ◌≡◌, refl, ap, sym, subst, ◌∙◌, true, Option, none, some, [], ◌∷◌, length, same_bytes,
  same_bytes_refl, eq_of_some,
}
use qubitcrypt.Outcome.{Bytes, ok}
use qubitcrypt.Dsa.Types.{ml_dsa65_ed25519_sha512}
use qubitcrypt.Dsa.Info.{dsa_info}
use qubitcrypt.Dsa.Fips.{FipsCrate}
use qubitcrypt.Dsa.Fips.Correct.{IsLawful}
use qubitcrypt.Dsa.Manager.{DsaManager, new}
use qubitcrypt.Dsa.Manager.Built.{info_of, dsa_new-returns}

abbrev pub first : Bytes → ℕ
first [] = 0
first (b ∷ bs) = b

abbrev pub read_one : Bytes → Option ℕ
read_one (n ∷ []) = some n
read_one _ = none

abbrev pub toy_fips : (P : Type 0) → FipsCrate P ℕ ℕ
toy_fips P = record {
  Pk = λ p. ℕ;
  Sk = λ p. ℕ;
  pk_len = λ p. 1;
  sk_len = λ p. 1;
  sig_len = λ p. 2;
  try_keygen_with_rng = λ p n. (some (n, n), suc n);
  pk_bytes = λ p k. k ∷ [];
  sk_bytes = λ p k. k ∷ [];
  try_pk = λ p. read_one;
  try_sk = λ p. read_one;
  try_sign = λ p k msg n. (some (k ∷ first msg ∷ []), suc n);
  verify = λ p k msg sig. same_bytes (k ∷ first msg ∷ []) sig;
  get_public_key = λ p k. k;
}

pub toy_fips-IsLawful : (P : Type 0) → IsLawful (toy_fips P)
toy_fips-IsLawful P = record {
  pk_length = λ p k. refl;
  sk_length = λ p k. refl;
  sig_length = λ p k m w s h. ap length (sym (eq_of_some h));
  pk_read = λ p k. refl;
  sk_read = λ p k. refl;
  verifies = λ p r keys h m w s g.
      subst (λ k. same_bytes (k ∷ first m ∷ []) s ≡ true) (ap (λ k. k.0) (eq_of_some h))
        (subst (λ t. same_bytes (r ∷ first m ∷ []) t ≡ true)
          (subst (λ k. (k ∷ first m ∷ []) ≡ s) (sym (ap (λ k. k.1) (eq_of_some h))) (eq_of_some g))
          (same_bytes_refl (r ∷ first m ∷ [])));
  public = λ p r keys h. sym (ap (λ k. k.1) (eq_of_some h)) ∙ ap (λ k. k.0) (eq_of_some h);
}

dsa_new-returns_example :
    (m : DsaManager) × (new 5 ml_dsa65_ed25519_sha512 ≡ ok m)
    × (info_of m ≡ dsa_info ml_dsa65_ed25519_sha512)
dsa_new-returns_example = dsa_new-returns 3 ml_dsa65_ed25519_sha512
