-- ===== src/Wrap/Guards.antt =====
-- wrap/aes_wrap.rs: `wrap` against `unwrap`, with the guards of both.
use qubitcrypt.Prelude.{
  ℕ, ◌+◌, ◌-◌, ◌%◌, ◌<◌, ◌≡◌, ◌↔◌, refl, Bool, true, false, not, ◌==◌, ==_iff, ltb, Option, none,
  some, length, if◌then◌else◌, arith,
}
use qubitcrypt.Outcome.{
  Bytes, Outcome, ok, err, panic, ok_or, ok_or-eq-ok, >>=-returns, ◌>>=◌, key_wrap_failed,
  key_unwrap_failed, QubitCryptError,
}
use qubitcrypt.Wrap.{WrapType, OpensslAes, get_key_length, wrap, unwrap}

-- RFC 3394 as OpenSSL documents it: a wrapped key is eight bytes longer, and is unwrapped by the same
-- key.
pub record IsLawful (a : OpensslAes) : Type 0 where
  pub wrapped_length :
      (k : a.EncryptKey) (n : ℕ) (m c : Bytes) → a.wrap_key k n m ≡ some c → length c ≡ n
  pub unwraps :
      (b : Bytes) (k : a.EncryptKey) (m c : Bytes)
      → a.new_encrypt b ≡ some k
      → a.wrap_key k (length m + 8) m ≡ some c
      → (d : a.DecryptKey) × (a.new_decrypt b ≡ some d) × (a.unwrap_key d (length m) c ≡ some m)

guard-returns :
    (b : Bool) (e : QubitCryptError) (r : Outcome Bytes) (c : Bytes)
    → (if not b then err e else r) ≡ ok c
    → (b ≡ true) × (r ≡ ok c)
guard-returns true e r c h = (refl, h)
guard-returns false e r c h = absurd (ground arith)

module _ (a : OpensslAes) where
  wrap-stages :
      (t : WrapType) (b m c : Bytes)
      → wrap a t b m ≡ ok c
      → (length m % 8 ≡ 0)
        × (length b ≡ get_key_length t)
        × (k : a.EncryptKey) × (a.new_encrypt b ≡ some k)
        × (a.wrap_key k (length m + 8) m ≡ some c)
  unfolding wrap
  wrap-stages t b m c h =
      let (e₁, r₁) = guard-returns (length m % 8 == 0) key_wrap_failed _ c h in
      let (e₂, r₂) = guard-returns (length b == get_key_length t) key_wrap_failed _ c r₁ in
      let (k, e₃, r₃) = >>=-returns (ok_or key_wrap_failed (a.new_encrypt b)) _ r₂ in
      (
        (==_iff (length m % 8) 0).0 e₁,
        (==_iff (length b) (get_key_length t)).0 e₂,
        k,
        ok_or-eq-ok key_wrap_failed (a.new_encrypt b) e₃,
        ok_or-eq-ok key_wrap_failed (a.wrap_key k (length m + 8) m) r₃,
      )

  unwrap-eq-ok_of :
      (t : WrapType) (b m c : Bytes) (d : a.DecryptKey)
      → a.new_decrypt b ≡ some d
      → length c ≡ length m + 8
      → a.unwrap_key d (length m) c ≡ some m
      → unwrap a t b c ≡ ok m
  unfolding unwrap
  unwrap-eq-ok_of t b m c d e₁ e₂ e₃ =
      let long : ltb (length c) 8 ≡ false = ground arith in
      let cut : length c - 8 ≡ length m = omega (arith, e₂) in rw (e₁, long, cut, e₃) refl

  -- `unwrap` panics exactly on an input shorter than eight bytes, under a key that is accepted.
  pub unwrap_panics_iff :
      (t : WrapType) (b c : Bytes)
      → (unwrap a t b c ≡ panic)
        ↔ ((d : a.DecryptKey) × (a.new_decrypt b ≡ some d) × (length c < 8))
  unfolding unwrap
  unwrap_panics_iff t b c = (to_short (a.new_decrypt b), λ (d, e, s). rw (e) (ground arith))
    where
      to_short :
          (o : Option a.DecryptKey)
          → (ok_or key_unwrap_failed o >>= λ key.
              if ltb (length c) 8
              then panic
              else ok_or key_unwrap_failed (a.unwrap_key key (length c - 8) c))
            ≡ panic
          → (d : a.DecryptKey) × (o ≡ some d) × (length c < 8)
      to_short none h = absurd (ground arith)
      to_short (some d) h = (d, refl, ground arith)

  module _ (l : IsLawful a) where
    -- What `wrap` returns: the wrapped key has a length that is a multiple of eight, the wrapping key has
    -- the length of the type, the output is eight bytes longer than the key, and `unwrap` with the same
    -- wrapping key returns the key that was wrapped.
    pub unwrap-wrap :
        (t : WrapType) (b m c : Bytes)
        → wrap a t b m ≡ ok c
        → (length m % 8 ≡ 0)
          × (length b ≡ get_key_length t)
          × (length c ≡ length m + 8)
          × (unwrap a t b c ≡ ok m)
    unwrap-wrap t b m c h =
        let (e₁, e₂, k, e₃, e₄) = wrap-stages t b m c h in
        let (d, f₁, f₂) = l.unwraps b k m c e₃ e₄ in
        let longer = l.wrapped_length k (length m + 8) m c e₄ in
        (e₁, e₂, longer, unwrap-eq-ok_of t b m c d f₁ longer f₂)
