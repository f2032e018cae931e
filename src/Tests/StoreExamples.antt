-- ===== src/Tests/StoreExamples.antt =====
-- The theorems on certificates and stores at a root, a leaf, and a root without extensions, under
-- a toy signature: the key, then the message.
use qubitcrypt.Prelude.{
  false, ℕ, true, ◌≡◌, ◌↔◌, refl, Option, none, some, List, [], ◌∷◌, same_bytes, if◌then◌else◌,
}
use qubitcrypt.Outcome.{Bytes, Outcome, ok, err, diverges, bad_public_key}
use qubitcrypt.Certificate.{
  Extension, Certificate, X509, is_valid, get_public_key, find_skid, get_subject_key_identifier,
  akid_matches, check_akid, verify_signed, verify_child, verify_self_signed, finds_key_encipherment,
  is_key_encipherment_enabled,
}
use qubitcrypt.Certificate.Accepted.{Identified, verify_child_sound, verify_self_signed_iff}
use qubitcrypt.Store.{
  DirectoryCertificateStore, issuer_and_serial_number, among_anchors, among_entities, find_parent,
  is_named, find_among, find,
}
use qubitcrypt.Store.Classified.{IsClassified, new-IsClassified}
use qubitcrypt.Store.{new, read_entries, file}
use qubitcrypt.Certificate.{finds_authority, verify_own}
use qubitcrypt.Store.Chains.{Chain, find_parent_sound, find_parent_complete}
use qubitcrypt.Store.Chains.Termination.{find_parent_diverges}
use qubitcrypt.Store.Search.{Fits, find-Fits}

abbrev read_key : Bytes → Outcome ℕ
read_key (k ∷ []) = ok k
read_key _ = err bad_public_key

abbrev toy_x509 : X509
toy_x509 = record {
  subject_key_identifier = λ b. some b;
  authority_key_identifier = λ b. some (some b);
  key_usage = λ b. some true;
  basic_constraints = λ e. none;
  tbs_to_der = λ c. some c.subject;
  PublicKey = ℕ;
  from_der = read_key;
  verify = λ k msg sig. ok (same_bytes (k ∷ msg) sig);
}

abbrev certificate : Bytes → Bytes → ℕ → ℕ → Option (List Extension) → Certificate
certificate subject issuer key signer extensions = record {
  subject = subject;
  issuer = issuer;
  serial_number = 4 ∷ [];
  extensions = extensions;
  spki_der = some (key ∷ []);
  public_key_oid = "1.3";
  signature = signer ∷ subject;
  not_before = 10;
  not_after = 20;
  signature_oid = "1.2";
  tbs_signature_oid = "1.2";
}

abbrev usage : Extension
usage = record { extn_id = "2.5.29.15"; critical = true; extn_value = 1 ∷ [] }

abbrev root : Certificate
root = certificate (1 ∷ []) (1 ∷ []) 7 7 (some [])

abbrev leaf : Certificate
leaf = certificate (2 ∷ []) (1 ∷ []) 8 7 (some (usage ∷ []))

-- Signed by itself, and without extensions.
abbrev bare : Certificate
bare = certificate (3 ∷ []) (3 ∷ []) 9 9 none

abbrev store : DirectoryCertificateStore
store = record { ta_certificates = root ∷ []; ee_certificates = leaf ∷ [] }

-- A root with a subject key identifier, and a leaf that names it.
abbrev named_root : Certificate
named_root =
    certificate (1 ∷ []) (1 ∷ []) 7 7
      (some (record { extn_id = "2.5.29.14"; critical = false; extn_value = 6 ∷ [] } ∷ []))

abbrev named_leaf : Certificate
named_leaf =
    certificate (2 ∷ []) (1 ∷ []) 8 7
      (some (usage ∷ record { extn_id = "2.5.29.35"; critical = false; extn_value = 6 ∷ [] } ∷ []))

verify_child_sound_example :
    (named_root.subject ≡ named_leaf.issuer)
    × Identified toy_x509 named_root named_leaf.extensions
    × (msg : Bytes) × (pk : ℕ) × (toy_x509.tbs_to_der named_leaf ≡ some msg)
    × (get_public_key toy_x509 named_root ≡ ok pk)
    × (toy_x509.verify pk msg named_leaf.signature ≡ ok true)
unfolding verify_child verify_signed check_akid akid_matches get_subject_key_identifier find_skid
    get_public_key
verify_child_sound_example = verify_child_sound toy_x509 named_root named_leaf refl

verify_self_signed_iff_example : (verify_self_signed toy_x509 root ≡ ok true) ↔ (
    (es : List Extension) × (msg : Bytes) × (pk : ℕ) × (root.extensions ≡ some es)
    × (root.subject ≡ root.issuer)
    × (toy_x509.tbs_to_der root ≡ some msg)
    × (get_public_key toy_x509 root ≡ ok pk)
    × (toy_x509.verify pk msg root.signature ≡ ok true))
verify_self_signed_iff_example = verify_self_signed_iff toy_x509 root

find_parent_sound_example : Chain toy_x509 15 store leaf root
unfolding find_parent among_anchors among_entities is_valid verify_child verify_signed check_akid
    akid_matches get_subject_key_identifier find_skid get_public_key
find_parent_sound_example = find_parent_sound toy_x509 15 store 2 leaf root refl

-- Outside its time a certificate has no chain.
find_parent_complete_example : Chain toy_x509 30 store leaf root → ⊥
unfolding find_parent is_valid
find_parent_complete_example = find_parent_complete toy_x509 30 store 2 leaf root refl

abbrev rank_of : Bytes → ℕ
rank_of issuer = if same_bytes issuer (2 ∷ []) then 1 else 0

find_parent_diverges_example :
    find_parent toy_x509 15
      (record { ta_certificates = root ∷ []; ee_certificates = bare ∷ leaf ∷ [] })
      1000
      bare
    ≡ diverges
unfolding among_anchors is_valid verify_child verify_signed check_akid akid_matches
    get_subject_key_identifier find_skid get_public_key
find_parent_diverges_example =
    find_parent_diverges toy_x509 15 bare (root ∷ []) (leaf ∷ []) refl refl refl 1000

find-Fits_example :
    Fits toy_x509 15 store store.ee_certificates (issuer_and_serial_number (1 ∷ []) (4 ∷ [])) leaf
unfolding find find_among is_named is_key_encipherment_enabled finds_key_encipherment find_parent
    among_anchors among_entities is_valid verify_child verify_signed check_akid akid_matches
    get_subject_key_identifier find_skid get_public_key
find-Fits_example =
    find-Fits toy_x509 15 store 2 (issuer_and_serial_number (1 ∷ []) (4 ∷ [])) leaf refl

-- A root without extensions is no trust anchor for `new`.
abbrev mixed : DirectoryCertificateStore
mixed = record { ta_certificates = root ∷ []; ee_certificates = bare ∷ leaf ∷ [] }

new-IsClassified_example : IsClassified toy_x509 15 mixed
unfolding new read_entries is_valid verify_self_signed finds_authority verify_own get_public_key
new-IsClassified_example =
    new-IsClassified toy_x509 15
      (some (file (ok root) ∷ file (ok bare) ∷ file (err bad_public_key) ∷ file (ok leaf) ∷ []))
      mixed refl
