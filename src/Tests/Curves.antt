-- ===== src/Tests/Curves.antt =====
-- A small instance of openssl. Numbers, points and keys are numbers, a point is written as one byte,
-- a secret is the sum of two keys, and a signature is the key, then the first byte of the message.
use qubitcrypt.Prelude.{
  ℕ, zero, suc, ◌+◌, ◌≡◌, refl, ap, sym, subst, ◌∙◌, true, Option, some, [], ◌∷◌, ◌++◌, replicate,
  same_bytes, same_bytes_refl, eq_of_some, leb, ltb, arith,
}
use qubitcrypt.Outcome.{Bytes}
use qubitcrypt.Kem.Ec.{Nid}
use qubitcrypt.Dsa.Ec.{EdId}
use qubitcrypt.Utils.{Openssl}
use qubitcrypt.Utils.Lawful.{IsLawful}
use qubitcrypt.Utils.Signed.{ReadsEd}
use qubitcrypt.Tests.FipsExamples.{first, read_one}

abbrev pub sum : Bytes → ℕ
sum [] = 0
sum (b ∷ bs) = b + sum bs

sum-padded : (n x : ℕ) → sum (replicate n 0 ++ (x ∷ [])) ≡ x
sum-padded zero x = omega arith
sum-padded (suc n) x = omega (arith, sum-padded n x)

abbrev seal : ℕ → Bytes → Bytes
seal k m = k ∷ first m ∷ []

abbrev pub toy_openssl : Openssl ℕ ℕ
toy_openssl = record {
  BigNum = ℕ;
  from_slice = λ b. some (sum b);
  from_u32 = λ n. some n;
  to_vec = λ x. x ∷ [];
  num_bits = λ x. 8;
  less = ltb;
  at_least = λ x y. leb y x;
  Group = Nid;
  from_curve_name = λ n. some n;
  order = λ g. some 200;
  Point = λ g. ℕ;
  mul_generator = λ g x. some x;
  point_from_bytes = λ g. read_one;
  point_to_bytes = λ g p. some (p ∷ []);
  EcPrivate = λ g. ℕ;
  EcPublic = λ g. ℕ;
  generate = λ g n. (some n, suc n);
  from_private_components = λ g x p. some p;
  from_public_key = λ g p. some p;
  private_key = λ g k. k;
  public_key = λ g k. k;
  Private = ℕ;
  Public = ℕ;
  private_from_ec = λ g k. some k;
  public_from_ec = λ g k. some k;
  generate_raw = λ i n. (some n, suc n);
  private_key_from_raw_bytes = λ b i. read_one b;
  public_key_from_raw_bytes = λ b i. read_one b;
  raw_public_key = λ k. some (k ∷ []);
  raw_private_key = λ k. some (k ∷ []);
  derive = λ k p. some ((k + p) ∷ []);
  sign_digest = λ md k m n. (some (seal k m), suc n);
  verify_digest = λ md k m s. some (same_bytes (seal k m) s);
  sign_oneshot = λ k m n. (some (seal k m), suc n);
  verify_oneshot = λ k m s. some (same_bytes (seal k m) s);
  fill_bytes = λ n r. (r ∷ [], suc r);
}

exchanged :
    (a b c d : ℕ)
    → a ≡ c
    → b ≡ d
    → ◌≡◌ {A = Option Bytes} (some ((a + d) ∷ [])) (some ((b + c) ∷ []))
exchanged a b c d e f = ap (λ n. some (n ∷ [])) (omega arith)

sealed :
    (k l : ℕ) (m s : Bytes) (w w' : ℕ)
    → k ≡ l
    → ◌≡◌ {A = Option Bytes × ℕ} (some (seal k m), w) (some s, w')
    → ◌≡◌ {A = Option _} (some (same_bytes (seal l m) s)) (some true)
sealed k l m s w w' e h =
    ap (λ b. some b)
      (subst (λ t. same_bytes (seal l m) t ≡ true)
        (ap (λ n. seal n m) (sym e) ∙ eq_of_some (ap (λ x. x.0) h)) (same_bytes_refl (seal l m)))

pub toy_openssl-IsLawful : IsLawful toy_openssl
toy_openssl-IsLawful = record {
  padded = λ n x. ap (λ y. some y) (sum-padded n x);
  point_read = λ g p b h. ap read_one (sym (eq_of_some h));
  made_of = λ g n p k h. sym (eq_of_some h);
  public_made = λ g k. (k, k, refl, refl);
  private_made = λ g k. (k, refl);
  ec_agrees = λ g k l a b p q c d h₁ h₂ h₃ h₄ h₅ h₆.
      exchanged a b c d (sym (eq_of_some h₁) ∙ (eq_of_some h₃ ∙ eq_of_some h₅))
        (sym (eq_of_some h₂) ∙ (eq_of_some h₄ ∙ eq_of_some h₆));
  ec_verifies = λ g k a p c h₁ h₂ h₃ md m w s w' h.
      sealed a c m s (suc w) w' (sym (eq_of_some h₁) ∙ (eq_of_some h₂ ∙ eq_of_some h₃)) h;
  generated_read = λ i w k w' b h g. ap read_one (sym (eq_of_some g));
  raw_read = λ i a k b h g. ap read_one (sym (eq_of_some g));
  raw_public = λ i a k b h g. (k, ap read_one (sym (eq_of_some g)));
  raw_agrees = λ i x y k l a b p q h₁ h₂ h₃ h₄ h₅ h₆.
      exchanged k l p q (eq_of_some (ap read_one (eq_of_some h₃) ∙ h₅))
        (eq_of_some (ap read_one (eq_of_some h₄) ∙ h₆));
  raw_verifies = λ i x k a p h₁ h₂ h₃ m w s w' h.
      sealed k p m s (suc w) w' (eq_of_some (ap read_one (eq_of_some h₂) ∙ h₃)) h;
}

abbrev pub toy_generate_ed : EdId → ℕ → (Bytes × Bytes) × ℕ
toy_generate_ed i n = ((n ∷ [], n ∷ []), suc n)

pub toy_generate_ed-ReadsEd : ReadsEd toy_openssl toy_generate_ed
toy_generate_ed-ReadsEd i r = (r, refl, refl)
