-- ===== src/Tests/WrapExamples.antt =====
-- The theorems on key wrapping over a toy cipher that pads with zeros.
use qubitcrypt.Prelude.{
  ◌≤◌, arith, ◌+◌, zero, suc, ℕ, ◌%◌, ◌<◌, ◌≡◌, ◌↔◌, refl, ap, sym, ◌∙◌, some, [], ◌∷◌, length,
  take, replicate, eq_of_some,
}
use qubitcrypt.Outcome.{Bytes, ok, panic}
use qubitcrypt.Wrap.{OpensslAes, aes128, get_key_length, wrap, unwrap}
use qubitcrypt.Wrap.Guards.{IsLawful, unwrap-wrap, unwrap_panics_iff}

abbrev resize : ℕ → Bytes → Bytes
resize zero m = []
resize (suc n) [] = 0 ∷ resize n []
resize (suc n) (b ∷ bs) = b ∷ resize n bs

length-resize : (n : ℕ) (m : Bytes) → length (resize n m) ≡ n
length-resize zero m = refl
length-resize (suc n) [] = ap suc (length-resize n [])
length-resize (suc n) (b ∷ bs) = ap suc (length-resize n bs)

take-resize : (m : Bytes) (n : ℕ) → length m ≤ n → take (length m) (resize n m) ≡ m
take-resize [] n h = refl
take-resize (b ∷ bs) zero h = absurd (omega arith)
take-resize (b ∷ bs) (suc n) h = ap (λ l. b ∷ l) (take-resize bs n (omega arith))

abbrev pub toy_aes : OpensslAes
toy_aes = record {
  EncryptKey = Bytes;
  DecryptKey = Bytes;
  new_encrypt = λ b. some b;
  new_decrypt = λ b. some b;
  wrap_key = λ k n m. some (resize n m);
  unwrap_key = λ k n c. some (take n c);
}

pub toy_aes-IsLawful : IsLawful toy_aes
toy_aes-IsLawful = record {
  wrapped_length = λ k n m c h. ap length (sym (eq_of_some h)) ∙ length-resize n m;
  unwraps = λ b k m c e h. (
    b,
    refl,
    ap (λ x. some (take (length m) x)) (sym (eq_of_some h))
        ∙ ap (λ x. some x) (take-resize m (length m + 8) (omega arith)),
  );
}

abbrev kek : Bytes
kek = replicate 16 3

abbrev key : Bytes
key = replicate 8 5

abbrev wrapped : Bytes
wrapped = resize 16 key

unwrap-wrap_example :
    (length key % 8 ≡ 0)
    × (length kek ≡ get_key_length aes128)
    × (length wrapped ≡ length key + 8)
    × (unwrap toy_aes aes128 kek wrapped ≡ ok key)
unfolding wrap get_key_length
unwrap-wrap_example = unwrap-wrap toy_aes toy_aes-IsLawful aes128 kek key wrapped refl

unwrap_panics_iff_example :
    (unwrap toy_aes aes128 kek (1 ∷ 2 ∷ []) ≡ panic)
    ↔ ((d : Bytes) × (toy_aes.new_decrypt kek ≡ some d) × (length {A = ℕ} (1 ∷ 2 ∷ []) < 8))
unwrap_panics_iff_example = unwrap_panics_iff toy_aes aes128 kek (1 ∷ 2 ∷ [])
