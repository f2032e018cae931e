-- ===== src/Tests/Kems.antt =====
-- Small instances of the code outside the crate that the KEMs call. The state of a generator is a
-- counter, and each draw is its value.
use qubitcrypt.Prelude.{
  ℕ, zero, suc, ◌+◌, ◌-◌, ◌≡◌, refl, ap, sym, ◌∙◌, Option, none, some, [], ◌∷◌, replicate, length,
  eq_of_some, arith,
}
use qubitcrypt.Outcome.{Bytes}
use qubitcrypt.Kem.Kdf.{Hashes, IsSized}
use qubitcrypt.Kem.Ml.{MlKemCrate}
use qubitcrypt.Kem.Ml.Correct as Ml
use qubitcrypt.Kem.Rsa.{RsaCrate}
use qubitcrypt.Kem.Rsa.Correct as Rsa
use qubitcrypt.Kem.Manager.{Primitives}
use qubitcrypt.Kem.Manager.Correct.{IsLawful}
use qubitcrypt.Tests.Codecs.{toy_der, toy_der-IsLawful}
use qubitcrypt.Tests.Curves.{sum, toy_openssl, toy_openssl-IsLawful}

abbrev pub draw : ℕ → ℕ × ℕ
draw n = (n, suc n)

abbrev pub toy_hashes : Hashes
toy_hashes = record {
  hkdf_sha256 = λ salt ikm info n. some (replicate n (sum ikm));
  hkdf_sha384 = λ salt ikm info n. some (replicate n (sum ikm));
  sha3_256 = λ b. replicate 32 (sum b);
  sha3_384 = λ b. replicate 48 (sum b);
  sha3_512 = λ b. replicate 64 (sum b);
}

length-replicate : (n b : ℕ) → length (replicate n b) ≡ n
length-replicate zero b = refl
length-replicate (suc n) b = ap suc (length-replicate n b)

pub toy_hashes-IsSized : IsSized toy_hashes
toy_hashes-IsSized = record {
  sha256_gives = λ ikm info. (replicate 32 (sum ikm), refl);
  sha256_length = λ ikm info b h. ap length (sym (eq_of_some h)) ∙ length-replicate 32 (sum ikm);
  sha384_gives = λ ikm info. (replicate 48 (sum ikm), refl);
  sha384_length = λ ikm info b h. ap length (sym (eq_of_some h)) ∙ length-replicate 48 (sum ikm);
  sha3_256_length = λ b. length-replicate 32 (sum b);
  sha3_384_length = λ b. length-replicate 48 (sum b);
  sha3_512_length = λ b. length-replicate 64 (sum b);
}

abbrev one : ℕ → Bytes
one n = n ∷ []

abbrev read_one : Bytes → Option ℕ
read_one (n ∷ []) = some n
read_one _ = none

-- A ciphertext is the secret shifted by the key.
abbrev toy_ml : MlKemCrate ℕ
toy_ml = record {
  Ek = λ p. ℕ;
  Dk = λ p. ℕ;
  Ct = λ p. ℕ;
  generate = λ p n. ((n, n), suc n);
  generate_deterministic = λ p seed z. (sum seed, sum seed);
  ek_bytes = λ p. one;
  dk_bytes = λ p. one;
  ct_bytes = λ p. one;
  read_ek = λ p. read_one;
  read_dk = λ p. read_one;
  read_ct = λ p. read_one;
  encapsulate = λ p k n. (some (n + k, one n), suc n);
  decapsulate = λ p k c. some (one (c - k));
}

shifted-back : (n k : ℕ) → (n + k) - k ≡ n
shifted-back n k = omega arith

toy_ml-IsLawful : Ml.IsLawful toy_ml
toy_ml-IsLawful = record {
  ek_read = λ p k. refl;
  dk_read = λ p k. refl;
  ct_read = λ p k. refl;
  agrees = λ p r r₁ out h.
      ap (λ o. some (one (o.0 - r))) (sym (eq_of_some h))
      ∙ (ap (λ n. some (one n)) (shifted-back r₁ r) ∙ ap (λ o. some o.1) (eq_of_some h));
}

-- Encryption puts the key before the message.
abbrev strip : Bytes → Option Bytes
strip [] = none
strip (k ∷ m) = some m

abbrev toy_rsa : RsaCrate ℕ
toy_rsa = record {
  PrivKey = ℕ;
  PubKey = ℕ;
  generate = λ bits n. (some n, suc n);
  to_public_key = λ k. k;
  private_to_der = λ k. some (one k);
  public_to_der = λ k. some (one k);
  private_from_der = read_one;
  public_from_der = read_one;
  fill_bytes = λ len n. (replicate len n, suc n);
  encrypt = λ k m n. (some (k ∷ m), suc n);
  decrypt = λ k c. strip c;
}

toy_rsa-IsLawful : Rsa.IsLawful toy_rsa
toy_rsa-IsLawful = record {
  private_read = λ k b h. ap read_one (sym (eq_of_some h));
  public_read = λ k b h. ap read_one (sym (eq_of_some h));
  decrypts = λ k m ct r r' h. ap strip (sym (eq_of_some (ap (λ x. x.0) h)));
}

abbrev pub toy : Primitives ℕ ℕ
toy = record {
  der = toy_der;
  hashes = toy_hashes;
  from_entropy = draw;
  ml_kem_crate = toy_ml;
  openssl = toy_openssl;
  candidates = 4;
  rsa_crate = toy_rsa;
}

pub toy-IsLawful : IsLawful toy
toy-IsLawful = record {
  der = toy_der-IsLawful;
  ml_kem_crate = toy_ml-IsLawful;
  openssl = toy_openssl-IsLawful;
  rsa_crate = toy_rsa-IsLawful;
}
