-- ===== src/Certificate/Answers.antt =====
-- asn1/certificate.rs: the outcomes of `verify_child`.
use qubitcrypt.Prelude.{
  ◌≡◌, refl, Bool, true, false, not, Option, none, some, List, [], ◌∷◌, str_eq, same_bytes,
  if◌then◌else◌,
}
use qubitcrypt.Outcome.{
  Bytes, Outcome, ok, err, panic, diverges, ◌>>=◌, ok_or, map_err, QubitCryptError,
  invalid_certificate, skid_not_found,
}
use qubitcrypt.Certificate.{
  Certificate, Extension, X509, find_skid, with_extensions, get_subject_key_identifier,
  get_public_key, akid_matches, compare_akid, check_akid, verify_signed, verify_child,
}

-- Neither a panic nor a recursion without end.
abbrev pub answers {ℓ} : {A : Type ℓ} → Outcome A → Bool
answers (ok a) = true
answers (err e) = true
answers panic = false
answers diverges = false

-- The keys of asn1/public_key.rs return from `from_der` and `verify`.
pub record IsTotal (x : X509) : Type 0 where
  pub from_der : (b : Bytes) → answers (x.from_der b) ≡ true
  pub verify : (k : x.PublicKey) (msg sig : Bytes) → answers (x.verify k msg sig) ≡ true

>>=-answers :
    {A B : Type 0} (r : Outcome A) (f : A → Outcome B)
    → answers r ≡ true
    → ((a : A) → answers (f a) ≡ true)
    → answers (r >>= f) ≡ true
>>=-answers (ok a) f h g = g a
>>=-answers (err e) f h g = refl
>>=-answers panic f h g = h
>>=-answers diverges f h g = h

ok_or-answers : {A : Type 0} (e : QubitCryptError) (o : Option A) → answers (ok_or e o) ≡ true
ok_or-answers e none = refl
ok_or-answers e (some a) = refl

map_err-answers :
    {A : Type 0} (e : QubitCryptError) (r : Outcome A)
    → answers r ≡ true
    → answers (map_err e r) ≡ true
map_err-answers e (ok a) h = h
map_err-answers e (err _) h = refl
map_err-answers e panic h = h
map_err-answers e diverges h = h

if-answers :
    {A : Type 0} (b : Bool) (r q : Outcome A)
    → answers r ≡ true
    → answers q ≡ true
    → answers (if b then r else q) ≡ true
if-answers true r q h g = h
if-answers false r q h g = g

module _ (x : X509) where
  find_skid-answers : (es : List Extension) → answers (find_skid x es) ≡ true
  unfolding find_skid
  find_skid-answers [] = refl
  find_skid-answers (e ∷ es) =
      if-answers (str_eq e.extn_id "2.5.29.14") _ _
        (ok_or-answers invalid_certificate (x.subject_key_identifier e.extn_value))
        (find_skid-answers es)

  get_skid-answers : (c : Certificate) → answers (get_subject_key_identifier x c) ≡ true
  unfolding get_subject_key_identifier
  get_skid-answers c = of_extensions c.extensions
    where
      of_extensions :
          (o : Option (List Extension))
          → answers (with_extensions x o (find_skid x) (err skid_not_found)) ≡ true
      of_extensions none = refl
      of_extensions (some es) = find_skid-answers es

  compare_akid-answers :
      (skid : Bytes) (o : Option Bytes) (rest : Outcome Bool)
      → answers rest ≡ true
      → answers (compare_akid x skid o rest) ≡ true
  compare_akid-answers skid none rest h = refl
  compare_akid-answers skid (some k) rest h = if-answers (same_bytes k skid) rest (ok false) h refl

  akid_matches-answers :
      (skid : Bytes) (es : List Extension) → answers (akid_matches x skid es) ≡ true
  unfolding akid_matches
  akid_matches-answers skid [] = refl
  akid_matches-answers skid (e ∷ es) =
      if-answers (str_eq e.extn_id "2.5.29.35") _ _
        (>>=-answers (ok_or invalid_certificate (x.authority_key_identifier e.extn_value)) _
          (ok_or-answers invalid_certificate (x.authority_key_identifier e.extn_value))
          (λ o.
            compare_akid-answers skid o (akid_matches x skid es) (akid_matches-answers skid es)))
        (akid_matches-answers skid es)

  check_akid-answers :
      (r : Outcome Bytes) (o : Option (List Extension))
      → answers r ≡ true
      → answers (check_akid x r o) ≡ true
  unfolding check_akid
  check_akid-answers (ok skid) none h = refl
  check_akid-answers (ok skid) (some es) h = akid_matches-answers skid es
  check_akid-answers (err e) o h = refl
  check_akid-answers panic o h = h
  check_akid-answers diverges o h = h

  module _ (t : IsTotal x) where
    verify_signed-answers : (p c : Certificate) → answers (verify_signed x p c) ≡ true
    unfolding verify_signed get_public_key
    verify_signed-answers p c =
        >>=-answers (ok_or invalid_certificate (x.tbs_to_der c)) _
          (ok_or-answers invalid_certificate (x.tbs_to_der c))
          λ msg.
            >>=-answers (get_public_key x p) _
              (>>=-answers (ok_or invalid_certificate p.spki_der) _
                (ok_or-answers invalid_certificate p.spki_der)
                λ b. map_err-answers invalid_certificate (x.from_der b) (t.from_der b))
              λ pk.
                map_err-answers invalid_certificate (x.verify pk msg c.signature)
                  (t.verify pk msg c.signature)

    pub verify_child-answers : (p c : Certificate) → answers (verify_child x p c) ≡ true
    unfolding verify_child
    verify_child-answers p c = if-answers (not (same_bytes p.subject c.issuer)) _ _ refl (
        >>=-answers (check_akid x (get_subject_key_identifier x p) c.extensions) _
          (check_akid-answers (get_subject_key_identifier x p) c.extensions (get_skid-answers p))
          λ b. if-answers (not b) _ _ refl (verify_signed-answers p c))
