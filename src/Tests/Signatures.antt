-- ===== src/Tests/Signatures.antt =====
-- A small signature scheme: a signature is the key, then the message.
use qubitcrypt.Prelude.{
  same_bytes, same_bytes_refl, ℕ, suc, ◌≡◌, ap, sym, subst, ◌∙◌, true, some, [], ◌∷◌, ◌++◌,
}
use qubitcrypt.Outcome.{Bytes, ok, ok-injective}
use qubitcrypt.Effect.{pair-returns, pure}
use qubitcrypt.Dsa.Info.{DsaInfo}
use qubitcrypt.Dsa.Trait.{Dsa, IsCorrect}
use qubitcrypt.Dsa.Composite.{Hasher}

module _ (info : DsaInfo) where
  abbrev pub toy_dsa : Dsa ℕ ℕ
  toy_dsa = record {
    key_gen = λ n. (ok (n ∷ [], n ∷ []), suc n);
    key_gen_with_rng = λ n. (ok (n ∷ [], n ∷ []), suc n);
    sign = λ sk msg n. (ok (sk ++ msg), suc n);
    verify = λ pk msg sig. ok (same_bytes (pk ++ msg) sig);
    get_dsa_info = info;
    get_public_key = λ sk. ok sk;
  }

  toy-agrees :
      (msg pk sk sig : Bytes) (n : ℕ) (w w' : ℕ)
      → sk ≡ pk
      → pure {W = ℕ} {A = Bytes} (ok (sk ++ msg)) n ≡ (ok sig, w')
      → ok (same_bytes (pk ++ msg) sig) ≡ ok true
  toy-agrees msg pk sk sig n w w' same signed = ap ok (
      subst (λ x. same_bytes (pk ++ msg) x ≡ true)
        (ap (λ k. k ++ msg) (sym same) ∙ ok-injective (ap (λ p. p.0) signed))
        (same_bytes_refl (pk ++ msg)))

  pub toy_dsa-IsCorrect : IsCorrect toy_dsa
  toy_dsa-IsCorrect = record {
    generated = λ w pk sk w' made.
        let (same_pk, same_sk) = pair-returns made in
        record {
          signed = λ msg n sig n' signed.
              toy-agrees msg pk sk sig (suc n) w n' (sym same_sk ∙ same_pk) signed;
          public = ap ok (sym same_sk ∙ same_pk);
        };
    generated_with_rng = λ w pk sk w' made.
        let (same_pk, same_sk) = pair-returns made in
        record {
          signed = λ msg n sig n' signed.
              toy-agrees msg pk sk sig (suc n) w n' (sym same_sk ∙ same_pk) signed;
          public = ap ok (sym same_sk ∙ same_pk);
        };
  }

-- The hash of a message is its first byte twice.
abbrev pub toy_hasher : Hasher
toy_hasher md [] = some []
toy_hasher md (b ∷ bs) = some (b ∷ b ∷ [])
