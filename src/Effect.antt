-- ===== src/Effect.antt =====
-- Calls that read and change a state: the entropy of the machine that `from_entropy` and OpenSSL
-- draw on, or a caller's `impl CryptoRngCore`. The state is threaded in the order of the calls.
use qubitcrypt.Prelude.{◌≡◌, refl, Option, some, arith}
use qubitcrypt.Outcome.{Outcome, ok, err, panic, diverges, QubitCryptError, map_err, ok_or, unwrap}

abbrev pub Eff {ℓ} : Type 0 → Type ℓ → Type ℓ
Eff W A = W → Outcome A × W

abbrev pub after {ℓ κ} :
    {W : Type 0} {A : Type ℓ} {B : Type κ} → Outcome A × W → (A → Eff W B) → Outcome B × W
after (ok a, w) f = f a w
after (err e, w) f = (err e, w)
after (panic, w) f = (panic, w)
after (diverges, w) f = (diverges, w)

-- The `?` operator on such a call.
infixl 5 ◌>>=◌
abbrev pub ◌>>=◌ {ℓ κ} : {W : Type 0} {A : Type ℓ} {B : Type κ} → Eff W A → (A → Eff W B) → Eff W B
◌>>=◌ m f w = after (m w) f

-- A step that touches no state.
abbrev pub pure {ℓ} : {W : Type 0} {A : Type ℓ} → Outcome A → Eff W A
pure r w = (r, w)

-- `.map_err(|_| e)` on such a call.
abbrev pub map_error {ℓ} : {W : Type 0} {A : Type ℓ} → QubitCryptError → Eff W A → Eff W A
map_error e m w = (map_err e (m w).0, (m w).1)

module _ {ℓ} {W : Type 0} {A : Type ℓ} where
  -- `.map_err(|_| e)?`, `.unwrap()` and a plain use of what code outside the crate returns.
  abbrev pub attempt : QubitCryptError → (W → Option A × W) → Eff W A
  attempt e m w = (ok_or e (m w).0, (m w).1)

  abbrev pub unwrapped : (W → Option A × W) → Eff W A
  unwrapped m w = (unwrap (m w).0, (m w).1)

  abbrev pub infallible : (W → A × W) → Eff W A
  infallible m w = (ok (m w).0, (m w).1)

-- `let mut rng = ChaCha20Rng::from_entropy();` before a use of `rng`.
abbrev pub seeded {ℓ} : {W R : Type 0} {A : Type ℓ} → (W → R × W) → Eff R A → Eff W A
seeded from_entropy m w = ((m (from_entropy w).0).0, (from_entropy w).1)

-- Inversion of a chain of calls that went through: the first did, and the rest did from there.
pub after-returns {ℓ κ} :
    {W : Type 0} {A : Type ℓ} {B : Type κ} (r : Outcome A × W) (f : A → Eff W B) {b : B} {w₂ : W}
    → after r f ≡ (ok b, w₂)
    → (a : A) × (w₁ : W) × (r ≡ (ok a, w₁)) × (f a w₁ ≡ (ok b, w₂))
after-returns (ok a, w₁) f h = (a, w₁, refl, h)
after-returns (err x, w₁) f h = absurd (ground arith)
after-returns (panic, w₁) f h = absurd (ground arith)
after-returns (diverges, w₁) f h = absurd (ground arith)

-- The same for a step that touches no state.
pub after-pure-returns {ℓ κ} :
    {W : Type 0} {A : Type ℓ} {B : Type κ} (r : Outcome A) (w : W) (f : A → Eff W B) {b : B}
    {w₂ : W}
    → after (pure r w) f ≡ (ok b, w₂)
    → (a : A) × (r ≡ ok a) × (f a w ≡ (ok b, w₂))
after-pure-returns (ok a) w f h = (a, refl, h)
after-pure-returns (err x) w f h = absurd (ground arith)
after-pure-returns panic w f h = absurd (ground arith)
after-pure-returns diverges w f h = absurd (ground arith)

pub map_error-returns {ℓ} :
    {W : Type 0} {A : Type ℓ} (e : QubitCryptError) (r : Outcome A × W) {a : A} {w' : W}
    → ◌≡◌ {A = Outcome A × W} (map_err e r.0, r.1) (ok a, w')
    → r ≡ (ok a, w')
map_error-returns e (ok x, w) h = h
map_error-returns e (err x, w) h = absurd (ground arith)
map_error-returns e (panic, w) h = absurd (ground arith)
map_error-returns e (diverges, w) h = absurd (ground arith)

-- What a chain ends in, part by part.
pub pair-returns {ℓ κ} :
    {W : Type 0} {A : Type ℓ} {B : Type κ} {a a' : A} {b b' : B} {w w' : W}
    → pure {W = W} {A = A × B} (ok (a, b)) w ≡ (ok (a', b'), w')
    → (a ≡ a') × (b ≡ b')
pair-returns h = ground arith

module _ {ℓ} {W : Type 0} {A : Type ℓ} where
  pub attempt-returns :
      (e : QubitCryptError) (m : W → Option A × W) (w : W) {a : A} {w' : W}
      → attempt e m w ≡ (ok a, w')
      → m w ≡ (some a, w')
  attempt-returns e m w h = ground arith

  pub unwrapped-returns :
      (m : W → Option A × W) (w : W) {a : A} {w' : W}
      → unwrapped m w ≡ (ok a, w')
      → m w ≡ (some a, w')
  unwrapped-returns m w h = ground arith

  pub err-returns :
      {e : QubitCryptError} {a : A} {w w' : W} → pure {W = W} {A = A} (err e) w ≡ (ok a, w') → ⊥
  err-returns h = ground arith

  pub panic-returns : {a : A} {w w' : W} → pure {W = W} {A = A} panic w ≡ (ok a, w') → ⊥
  panic-returns h = ground arith

  pub seeded-returns :
      {R : Type 0} (from_entropy : W → R × W) (m : Eff R A) (w : W) {a : A} {w' : W}
      → seeded from_entropy m w ≡ (ok a, w')
      → m (from_entropy w).0 ≡ (ok a, (m (from_entropy w).0).1)
  seeded-returns from_entropy m w h = ground arith
