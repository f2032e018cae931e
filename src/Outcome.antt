-- ===== src/Outcome.antt =====
-- errors.rs: the crate's error type, and what a call of a Rust function can end in. A function
-- that returns `Result<T, QubitCryptError>` is one into `Outcome T`; `panic` stands for `panic!`,
-- a failed `unwrap` and a capacity overflow. `diverges` is a recursion deeper than the fuel of its
-- model: where a model has fuel, a theorem says how much of it is enough.
use qubitcrypt.Prelude.{ℕ, Bool, false, ◌≡◌, refl, ap, Option, none, some, List, arith}

pub data QubitCryptError : Type 0 where
  kdf_error file_read_error empty_content file_write_error invalid_recipient_info : QubitCryptError
  skid_not_found invalid_directory_path invalid_aes_nonce invalid_attribute : QubitCryptError
  key_wrap_failed key_unwrap_failed invalid_oid invalid_public_key : QubitCryptError
  invalid_private_key serialization_failed signature_verification_failed : QubitCryptError
  signature_failed invalid_signature key_pair_generation_failed missing_not_after : QubitCryptError
  missing_subject missing_public_key bad_private_key bad_public_key bad_subject : QubitCryptError
  invalid_hkdf_length bad_issuers_public_key bad_serial_number bad_extension : QubitCryptError
  invalid_not_before invalid_not_after invalid_certificate invalid_enveloped_data : QubitCryptError
  unsupported_operation not_implemented invalid_ciphertext encap_failed : QubitCryptError
  decap_failed unknown invalid_content : QubitCryptError
  unsupported_content_encryption_algorithm : QubitCryptError

abbrev pub Bytes : Type 0
Bytes = List ℕ

pub data Outcome {ℓ} (A : Type ℓ) : Type ℓ where
  ok : A → Outcome A
  err : QubitCryptError → Outcome A
  panic : Outcome A
  diverges : Outcome A

-- The `?` operator.
infixl 5 ◌>>=◌
abbrev pub ◌>>=◌ {ℓ κ} : {A : Type ℓ} {B : Type κ} → Outcome A → (A → Outcome B) → Outcome B
ok a >>= f = f a
err e >>= f = err e
panic >>= f = panic
diverges >>= f = diverges

module _ {ℓ} {A : Type ℓ} where
  -- `.map_err(|_| e)` on a result of the crate's own.
  abbrev pub map_err : QubitCryptError → Outcome A → Outcome A
  map_err e (ok a) = ok a
  map_err e (err _) = err e
  map_err e panic = panic
  map_err e diverges = diverges

  -- `.unwrap()` on a result of the crate's own.
  abbrev pub unwrap_result : Outcome A → Outcome A
  unwrap_result (ok a) = ok a
  unwrap_result (err _) = panic
  unwrap_result panic = panic
  unwrap_result diverges = diverges

  -- `.map_err(|_| e)?` and `.ok_or(e)?` on what code outside the crate returns.
  abbrev pub ok_or : QubitCryptError → Option A → Outcome A
  ok_or e none = err e
  ok_or e (some a) = ok a

  -- `.unwrap()` on what code outside the crate returns.
  abbrev pub unwrap : Option A → Outcome A
  unwrap none = panic
  unwrap (some a) = ok a

-- `.unwrap_or(false)`.
abbrev pub or_false : Outcome Bool → Outcome Bool
or_false (ok b) = ok b
or_false (err e) = ok false
or_false panic = panic
or_false diverges = diverges

-- `if let Ok(a) = r { f(a) } else { rest }`.
abbrev pub if_ok {ℓ κ} :
    {A : Type ℓ} {B : Type κ} → Outcome A → (A → Outcome B) → Outcome B → Outcome B
if_ok (ok a) f rest = f a
if_ok (err e) f rest = rest
if_ok panic f rest = panic
if_ok diverges f rest = diverges

-- Inversion of a chain that went through.
pub >>=-returns {ℓ κ} :
    {A : Type ℓ} {B : Type κ} (r : Outcome A) (rest : A → Outcome B) {out : B}
    → r >>= rest ≡ ok out
    → (mid : A) × (r ≡ ok mid) × (rest mid ≡ ok out)
>>=-returns (ok mid) rest ends = (mid, refl, ends)
>>=-returns (err e) rest ends = absurd (ground arith)
>>=-returns panic rest ends = absurd (ground arith)
>>=-returns diverges rest ends = absurd (ground arith)

pub ok_or-eq-ok {ℓ} :
    {A : Type ℓ} (e : QubitCryptError) (o : Option A) {a : A} → ok_or e o ≡ ok a → o ≡ some a
ok_or-eq-ok e none h = absurd (ground arith)
ok_or-eq-ok e (some a) h = ground arith

pub map_err-eq-ok {ℓ} :
    {A : Type ℓ} (e : QubitCryptError) (r : Outcome A) {a : A} → map_err e r ≡ ok a → r ≡ ok a
map_err-eq-ok e (ok x) h = h
map_err-eq-ok e (err x) h = absurd (ground arith)
map_err-eq-ok e panic h = absurd (ground arith)
map_err-eq-ok e diverges h = absurd (ground arith)

pub unwrap-eq-ok {ℓ} : {A : Type ℓ} (o : Option A) {a : A} → unwrap o ≡ ok a → o ≡ some a
unwrap-eq-ok none h = absurd (ground arith)
unwrap-eq-ok (some a) h = ground arith

pub ok-injective {ℓ} : {A : Type ℓ} {a b : A} → ok a ≡ ok b → a ≡ b
ok-injective h = ground arith

pub pair-injective {ℓ κ} :
    {A : Type ℓ} {B : Type κ} {a a' : A} {b b' : B}
    → ◌≡◌ {A = Outcome (A × B)} (ok (a, b)) (ok (a', b'))
    → (a ≡ a') × (b ≡ b')
pair-injective {A = A} {B = B} {a} {a'} {b} {b'} h =
    let same : ◌≡◌ {A = A × B} (a, b) (a', b') = ok-injective h in
    (ap (λ p. p.0) same, ap (λ p. p.1) same)
