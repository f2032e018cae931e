-- ===== src/Store.antt =====
-- cms/directory_cert_store.rs: the certificates of a directory, and the search for a recipient's.
pub mod Chains
pub mod Classified
pub mod Search
use qubitcrypt.Prelude.{
  ℕ, zero, suc, Bool, true, false, Option, none, some, List, [], ◌∷◌, ◌&&◌, same_bytes,
  if◌then◌else◌, not,
}
use qubitcrypt.Outcome.{
  or_false, Bytes, Outcome, ok, err, panic, diverges, ◌>>=◌, invalid_directory_path,
}
use qubitcrypt.Certificate.{
  Certificate, X509, is_valid, verify_self_signed, verify_child, get_subject_key_identifier,
  is_key_encipherment_enabled,
}

pub record DirectoryCertificateStore : Type 0 where
  pub ta_certificates : List Certificate
  pub ee_certificates : List Certificate

-- `cms::enveloped_data::RecipientIdentifier`.
pub data RecipientIdentifier : Type 0 where
  issuer_and_serial_number : Bytes → Bytes → RecipientIdentifier
  subject_key_identifier : Bytes → RecipientIdentifier

-- What `read_dir` gives for an entry: an error, a path that is no text, or a file with what
-- `Certificate::from_file` makes of it.
pub data Entry : Type 0 where
  unreadable no_text : Entry
  file : Outcome Certificate → Entry

-- The certificate that a search found, or the rest of the search.
abbrev pub or_else : {A : Type 0} → Option A → Outcome (Option A) → Outcome (Option A)
or_else (some a) rest = ok (some a)
or_else none rest = rest

-- `if parent.is_some() { return Some(cert); }`.
abbrev pub found_by :
    Option Certificate → Certificate → Outcome (Option Certificate) → Outcome (Option Certificate)
found_by (some parent) cert rest = ok (some cert)
found_by none cert rest = rest

-- A certificate goes to the front of the list of its kind: the trust anchors are those that are
-- valid and signed by themselves, the others are those that are only valid.
abbrev pub classify :
    Certificate → Bool → Bool → DirectoryCertificateStore → DirectoryCertificateStore
classify cert true true s = record s { ta_certificates = cert ∷ s.ta_certificates }
classify cert true false s = record s { ee_certificates = cert ∷ s.ee_certificates }
classify cert false _ s = s

-- `now` is the time at which the store is asked.
module _ (x : X509) (now : ℕ) where
  -- The loop of `new`; the certificates stand in the order of the entries.
  unfoldable pub read_entries : List Entry → Outcome DirectoryCertificateStore
  unfolding verify_self_signed is_valid
  read_entries [] = ok (record { ta_certificates = []; ee_certificates = [] })
  read_entries (unreadable ∷ es) = err invalid_directory_path
  read_entries (no_text ∷ es) = err invalid_directory_path
  read_entries (file (ok cert) ∷ es) = do
    is_self_signed ← or_false (verify_self_signed x cert)
    s ← read_entries es
    ok (classify cert (is_valid now cert) is_self_signed s)
  read_entries (file (err e) ∷ es) = read_entries es
  read_entries (file panic ∷ es) = panic
  read_entries (file diverges ∷ es) = diverges

  -- `new`: `none` for a path that is no directory or that cannot be listed.
  unfoldable pub new : Option (List Entry) → Outcome DirectoryCertificateStore
  unfolding read_entries
  new none = err invalid_directory_path
  new (some es) = read_entries es

  -- The first loop of `find_parent`.
  unfoldable pub among_anchors : List Certificate → Certificate → Outcome (Option Certificate)
  unfolding is_valid verify_child
  among_anchors [] cert = ok none
  among_anchors (ta ∷ tas) cert =
      let rest = among_anchors tas cert in
      if not (is_valid now ta)
      then rest
      else or_false (verify_child x ta cert) >>= λ result. if result then ok (some ta) else rest

  -- The second loop, over the call of `find_parent` on an entity that is the parent.
  unfoldable pub among_entities :
      (Certificate → Outcome (Option Certificate))
      → List Certificate
      → Certificate
      → Outcome (Option Certificate)
  unfolding is_valid verify_child
  among_entities parent_of [] cert = ok none
  among_entities parent_of (ee ∷ ees) cert =
      let rest = among_entities parent_of ees cert in
      if not (is_valid now ee)
      then rest
      else or_false (verify_child x ee cert) >>= λ result.
          if result then (parent_of ee >>= λ found. or_else found rest) else rest

  -- `find_parent`. The fuel bounds the depth of the recursion.
  unfoldable pub find_parent :
      DirectoryCertificateStore → ℕ → Certificate → Outcome (Option Certificate)
  unfolding among_anchors among_entities is_valid
  find_parent s zero cert = diverges
  find_parent s (suc n) cert =
      let deeper = find_parent s n in
      if not (is_valid now cert)
      then ok none
      else among_anchors s.ta_certificates cert >>= λ found.
          or_else found (among_entities deeper s.ee_certificates cert)

  -- The tests that `find` makes of a certificate before it looks for the parent.
  unfoldable pub is_named : RecipientIdentifier → Certificate → Outcome Bool
  unfolding get_subject_key_identifier
  is_named (issuer_and_serial_number issuer serial) cert =
      ok (same_bytes cert.serial_number serial && same_bytes cert.issuer issuer)
  is_named (subject_key_identifier ski) cert =
      or_false (get_subject_key_identifier x cert >>= λ cert_ski. ok (same_bytes cert_ski ski))

  -- The loops of `find`.
  unfoldable pub find_among :
      DirectoryCertificateStore
      → ℕ
      → List Certificate
      → RecipientIdentifier
      → Outcome (Option Certificate)
  unfolding is_named find_parent is_key_encipherment_enabled
  find_among s n [] ri = ok none
  find_among s n (cert ∷ certs) ri =
      let rest = find_among s n certs ri in
      is_named ri cert >>= λ named.
      if named && is_key_encipherment_enabled x cert
      then (find_parent s n cert >>= λ parent. found_by parent cert rest)
      else rest

  unfoldable pub find :
      DirectoryCertificateStore → ℕ → RecipientIdentifier → Outcome (Option Certificate)
  unfolding find_among
  find s n ri = find_among s n s.ee_certificates ri
