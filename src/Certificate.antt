-- ===== src/Certificate.antt =====
-- asn1/certificate.rs: what the certificate store asks of certificates.
pub mod Accepted
pub mod Answers
use qubitcrypt.Prelude.{
  ℕ, String, Bool, true, false, Option, none, some, List, [], ◌∷◌, ◌&&◌, not, leb, str_eq,
  same_bytes, if◌then◌else◌,
}
use qubitcrypt.Outcome.{
  Bytes, Outcome, ok, err, panic, diverges, ◌>>=◌, ok_or, or_false, map_err, invalid_certificate,
  skid_not_found,
}

pub record Extension : Type 0 where
  pub extn_id : String
  pub critical : Bool
  pub extn_value : Bytes

-- `x509_cert::Certificate` with what is read of it. Names and serial numbers are their DER, as is
-- what `to_der` gives for the public key. Times are seconds.
pub record Certificate : Type 0 where
  pub subject : Bytes
  pub issuer : Bytes
  pub serial_number : Bytes
  pub extensions : Option (List Extension)
  pub spki_der : Option Bytes
  pub public_key_oid : String
  pub signature : Bytes
  pub not_before : ℕ
  pub not_after : ℕ
  pub signature_oid : String
  pub tbs_signature_oid : String

-- The decoders of `x509_cert` for the values of extensions, and the public keys of
-- asn1/public_key.rs. `basic_constraints` decodes the whole extension, as the code does, and gives
-- its `cA`; `key_usage` gives the bit of key encipherment; `tbs_to_der` is `tbs_certificate.to_der`,
-- which encodes the fields of the certificate, its extensions among them.
pub record X509 : Type 1 where
  pub subject_key_identifier : Bytes → Option Bytes
  pub authority_key_identifier : Bytes → Option (Option Bytes)
  pub key_usage : Bytes → Option Bool
  pub basic_constraints : Extension → Option Bool
  pub tbs_to_der : Certificate → Option Bytes
  pub PublicKey : Type 0
  pub from_der : Bytes → Outcome PublicKey
  pub verify : PublicKey → Bytes → Bytes → Outcome Bool

module _ (x : X509) where
  -- The loop of `get_subject_key_identifier`.
  unfoldable pub find_skid : List Extension → Outcome Bytes
  find_skid [] = err skid_not_found
  find_skid (e ∷ es) =
      if str_eq e.extn_id "2.5.29.14"
      then ok_or invalid_certificate (x.subject_key_identifier e.extn_value)
      else find_skid es

  -- `if let Some(exts) = extensions { … } else { … }`.
  abbrev pub with_extensions {ℓ} :
      {X : Type ℓ} → Option (List Extension) → (List Extension → X) → X → X
  with_extensions none f x = x
  with_extensions (some es) f x = f es

  unfoldable pub get_subject_key_identifier : Certificate → Outcome Bytes
  unfolding find_skid
  get_subject_key_identifier c = with_extensions c.extensions find_skid (err skid_not_found)

  unfoldable pub get_public_key : Certificate → Outcome x.PublicKey
  get_public_key c = do
    pk_der ← ok_or invalid_certificate c.spki_der
    map_err invalid_certificate (x.from_der pk_der)

  abbrev is_authority : Option Bool → Bool → Bool
  is_authority (some true) rest = true
  is_authority (some false) rest = rest
  is_authority none rest = rest

  -- The loop of `verify_self_signed`: whether it leaves by its `break`.
  unfoldable pub finds_authority : List Extension → Bool
  finds_authority [] = false
  finds_authority (e ∷ es) =
      let rest = finds_authority es in
      if str_eq e.extn_id "2.5.29.19" then is_authority (x.basic_constraints e) rest else rest

  -- What `verify_self_signed` does after its loop.
  unfoldable pub verify_own : Certificate → Outcome Bool
  unfolding get_public_key
  verify_own c = if not (same_bytes c.subject c.issuer) then ok false else (do
    msg ← ok_or invalid_certificate (x.tbs_to_der c)
    pk ← get_public_key c
    or_false (x.verify pk msg c.signature))

  -- Nothing after the loop reads what it found.
  unfoldable pub verify_self_signed : Certificate → Outcome Bool
  unfolding finds_authority verify_own
  verify_self_signed c =
      with_extensions c.extensions (λ es. let found = finds_authority es in verify_own c) (ok false)

  abbrev pub compare_akid : Bytes → Option Bytes → Outcome Bool → Outcome Bool
  compare_akid skid none rest = ok false
  compare_akid skid (some k) rest = if same_bytes k skid then rest else ok false

  -- The loop of `verify_child`: whether each key identifier of the authority is the parent's.
  unfoldable pub akid_matches : Bytes → List Extension → Outcome Bool
  akid_matches skid [] = ok true
  akid_matches skid (e ∷ es) =
      let rest = akid_matches skid es in
      if str_eq e.extn_id "2.5.29.35"
      then (do
        akid ← ok_or invalid_certificate (x.authority_key_identifier e.extn_value)
        compare_akid skid akid rest)
      else rest

  -- `if let Ok(parent_skid) = …` around that loop.
  unfoldable pub check_akid : Outcome Bytes → Option (List Extension) → Outcome Bool
  unfolding akid_matches
  check_akid (ok skid) exts = with_extensions exts (akid_matches skid) (ok true)
  check_akid (err e) exts = ok true
  check_akid panic exts = panic
  check_akid diverges exts = diverges

  -- What `verify_child` does after its tests.
  unfoldable pub verify_signed : Certificate → Certificate → Outcome Bool
  unfolding get_public_key
  verify_signed parent child = do
    msg ← ok_or invalid_certificate (x.tbs_to_der child)
    pk ← get_public_key parent
    map_err invalid_certificate (x.verify pk msg child.signature)

  unfoldable pub verify_child : Certificate → Certificate → Outcome Bool
  unfolding get_subject_key_identifier check_akid verify_signed
  verify_child parent child =
      if not (same_bytes parent.subject child.issuer)
      then ok false
      else (check_akid (get_subject_key_identifier parent) child.extensions >>= λ matches.
          if not matches then ok false else verify_signed parent child)

  abbrev usage_or : Option Bool → Bool → Bool
  usage_or (some b) rest = b
  usage_or none rest = rest

  -- The loop of `is_key_encipherment_enabled`: the first usage that is decoded answers.
  unfoldable pub finds_key_encipherment : List Extension → Bool
  finds_key_encipherment [] = false
  finds_key_encipherment (e ∷ es) =
      let rest = finds_key_encipherment es in
      if str_eq e.extn_id "2.5.29.15" then usage_or (x.key_usage e.extn_value) rest else rest

  unfoldable pub is_key_encipherment_enabled : Certificate → Bool
  unfolding finds_key_encipherment
  is_key_encipherment_enabled c = with_extensions c.extensions finds_key_encipherment false

-- `is_valid` at the time `now`.
unfoldable pub is_valid : ℕ → Certificate → Bool
is_valid now c =
    if not (str_eq c.signature_oid c.tbs_signature_oid)
    then false
    else leb c.not_before now && leb now c.not_after
