-- ===== src/Tests/KeyExamples.antt =====
-- The theorems on keys, at ML-KEM-768 and ML-DSA-44 over the toy crates.
use Prim.Native.Char.{code}
use Prim.Native.String.{◌∷◌}
use qubitcrypt.Prelude.{
  any, not, ◌==◌, zero, suc, ◌+◌, ℕ, ◌≡◌, refl, sym, ap, ◌∙◌, true, false, ◌⊎◌, String, Option,
  none, some, List, [], ◌∷◌, eq_of_some, str_eq, eq_iff, if◌then◌else◌, Bool-cases, inl, inr, arith,
}
use qubitcrypt.Outcome.{Bytes, ok, err, unsupported_operation}
use qubitcrypt.Asn1.Der.{Der}
use qubitcrypt.Kem.Algorithm as KemAlgorithm
use qubitcrypt.Kem.Ml as Ml
use qubitcrypt.Kem.Manager as KemManager
use qubitcrypt.Dsa.Algorithm as DsaAlgorithm
use qubitcrypt.Dsa.Manager as DsaManager
use qubitcrypt.Oids.{is_kem_oid, is_dsa_oid}
use qubitcrypt.Keys.{PublicKeyInfo, Codecs, IsLawful}
use qubitcrypt.Keys.PublicKey as Public
use qubitcrypt.Keys.PublicKey.{PublicKey}
use qubitcrypt.Keys.PrivateKey as Private
use qubitcrypt.Keys.PrivateKey.{PrivateKey}
use qubitcrypt.Keys.Generators.{kem_generate}
use qubitcrypt.Keys.Valid.{IsValid, public_new, public_key-IsValid, public_key_marked}
use qubitcrypt.Oids.Kinds.{Offered, plain_oids}
use qubitcrypt.Keys.Encoded.{public_key-round_trip, private_key-round_trip}
use qubitcrypt.Keys.Kinds.{other_kind-unsupported}
use qubitcrypt.Keys.Agreement.{keys_decap-encap}
use qubitcrypt.Tests.Codecs.{toy_der_with, toy_der_with-IsLawful}
use qubitcrypt.Tests.Kems
use qubitcrypt.Tests.ManagerExamples

-- Two identifiers, with the numbers that stand for them.
abbrev pub ml_kem768_oid : String
ml_kem768_oid = "2.16.840.1.101.3.4.4.2"

abbrev pub ml_dsa44_oid : String
ml_dsa44_oid = "2.16.840.1.101.3.4.3.17"

abbrev pub parse_two : String → Option ℕ
parse_two s =
    if str_eq s ml_kem768_oid then some 2 else if str_eq s ml_dsa44_oid then some 3 else none

abbrev pub text_of : ℕ → String
text_of n = if n == 2 then ml_kem768_oid else ml_dsa44_oid

parse_two-text : (s : String) (o : ℕ) → parse_two s ≡ some o → text_of o ≡ s
parse_two-text s o h = elim (Bool-cases (str_eq s ml_kem768_oid)) [
  | inl e ↦ ap text_of (sym (eq_of_some (rw (e) at h))) ∙ sym ((eq_iff s ml_kem768_oid).0 e)
  | inr e ↦ elim (Bool-cases (str_eq s ml_dsa44_oid)) [
    | inl f ↦ ap text_of (sym (eq_of_some (rw (e, f) at h))) ∙ sym ((eq_iff s ml_dsa44_oid).0 f)
    | inr f ↦ absurd (none-is_not_some (rw (e, f) at h))
  ]
]
  where
    none-is_not_some : {x : ℕ} → none ≡ some x → ⊥
    none-is_not_some h = ground arith

abbrev pub der : Der
der = toy_der_with parse_two text_of

abbrev info_of : List ℕ → Option (PublicKeyInfo der)
info_of [] = none
info_of (o ∷ b) = some (record { oid = o; parameters = none; public_key = b })

abbrev write_info : ℕ → Option Bytes → Bytes → Option Bytes
write_info o none b = some (o ∷ b)
write_info o (some p) b = none

-- A text of PEM is its bytes, each as so many letters, and then the tag.
abbrev pub unary : ℕ → String → String
unary zero rest = "b" ∷ rest
unary (suc n) rest = "a" ∷ unary n rest

abbrev pub write_pem : String → Bytes → String
write_pem tag [] = "c" ∷ tag
write_pem tag (n ∷ bs) = unary n (write_pem tag bs)

abbrev add_byte : ℕ → Option (String × Bytes) → Option (String × Bytes)
add_byte n none = none
add_byte n (some (tag, b)) = some (tag, n ∷ b)

abbrev letter :
    ℕ → ℕ → String → Option (String × Bytes) → Option (String × Bytes) → Option (String × Bytes)
letter c n s more next =
    if c == b'a' then more else if c == b'b' then add_byte n next else some (s, [])

abbrev pub read_pem : ℕ → String → Option (String × Bytes)
read_pem n String.[] = none
read_pem n (c ∷ s) = letter (code c) n s (read_pem (suc n) s) (read_pem 0 s)

read-unary : (k n : ℕ) (s : String) → read_pem k (unary n s) ≡ add_byte (n + k) (read_pem 0 s)
read-unary k zero s = ap (λ x. add_byte x (read_pem 0 s)) (let e : k ≡ 0 + k = omega arith in e)
read-unary k (suc n) s =
    read-unary (suc k) n s
    ∙ ap (λ x. add_byte x (read_pem 0 s)) (let e : n + suc k ≡ suc n + k = omega arith in e)

read-write_pem : (tag : String) (b : Bytes) → read_pem 0 (write_pem tag b) ≡ some (tag, b)
read-write_pem tag [] = refl
read-write_pem tag (n ∷ bs) =
    read-unary 0 n (write_pem tag bs)
    ∙ (ap (λ x. add_byte x (read_pem 0 (write_pem tag bs))) (let e : n + 0 ≡ n = omega arith in e)
        ∙ ap (add_byte n) (read-write_pem tag bs))

abbrev pub toy_codecs : Codecs der
toy_codecs = record {
  encode_public_info = λ k. write_info k.oid k.parameters k.public_key;
  decode_public_info = info_of;
  pem_encode = write_pem;
  pem_parse = read_pem 0;
  from_utf8 = λ c. none;
}

info_of-write_info :
    (o : ℕ) (p : Option Bytes) (k b : Bytes)
    → write_info o p k ≡ some b
    → info_of b ≡ some (record { oid = o; parameters = p; public_key = k })
info_of-write_info o none k b h = ap info_of (sym (eq_of_some h))
info_of-write_info o (some p) k b h = absurd (ground arith)

pub toy_codecs-IsLawful : IsLawful der toy_codecs
toy_codecs-IsLawful = record {
  public_info = λ k b h. info_of-write_info k.oid k.parameters k.public_key b h;
  pem = read-write_pem;
  oid_text = λ s o v h. parse_two-text s o h;
}

abbrev pub kem_pk : PublicKey
kem_pk = record { oid = ml_kem768_oid; key = 5 ∷ []; is_composite = false }

abbrev pub kem_sk : PrivateKey
kem_sk = record { oid = ml_kem768_oid; private_key = 5 ∷ []; is_composite = false }

kem_oid-IsValid : IsValid ml_kem768_oid false
unfolding Public.new
kem_oid-IsValid = public_key-IsValid der toy_codecs kem_pk (public_new ml_kem768_oid (5 ∷ []) refl)

-- A key of SLH-DSA is marked composite.
abbrev slh_pk : PublicKey
slh_pk = record { oid = "2.16.840.1.101.3.4.3.20"; key = 5 ∷ []; is_composite = true }

public_key_marked_example :
    Offered "2.16.840.1.101.3.4.3.20"
    × (true ≡ not (any (λ x. str_eq x "2.16.840.1.101.3.4.3.20") plain_oids))
unfolding Public.new
public_key_marked_example =
    public_key_marked der toy_codecs slh_pk (public_new "2.16.840.1.101.3.4.3.20" (5 ∷ []) refl)

public_key-round_trip_example :
    (Public.from_der der toy_codecs (2 ∷ 5 ∷ []) ≡ ok kem_pk)
    × (s : String) × (Public.to_pem der toy_codecs kem_pk ≡ ok s)
    × (Public.from_pem der toy_codecs s ≡ ok kem_pk)
unfolding Public.to_der
public_key-round_trip_example =
    public_key-round_trip der (toy_der_with-IsLawful parse_two text_of) toy_codecs
      toy_codecs-IsLawful kem_pk kem_oid-IsValid (2 ∷ 5 ∷ []) refl

private_key-round_trip_example :
    (Private.from_der der (2 ∷ 1 ∷ 5 ∷ []) ≡ ok kem_sk)
    × (Private.from_file der toy_codecs (some (2 ∷ 1 ∷ 5 ∷ [])) ≡ ok kem_sk)
    × (s : String) × (Private.to_pem der toy_codecs kem_sk ≡ ok s)
    × (Private.from_pem der toy_codecs s ≡ ok kem_sk)
unfolding Private.to_der
private_key-round_trip_example =
    private_key-round_trip der (toy_der_with-IsLawful parse_two text_of) toy_codecs
      toy_codecs-IsLawful kem_sk kem_oid-IsValid (2 ∷ 1 ∷ 5 ∷ []) refl

keys_decap-encap_example : Private.decap Kems.toy kem_sk (12 ∷ []) ≡ ok (7 ∷ [])
unfolding kem_generate Public.encap KemManager.operations Ml.ml_kem Ml.key_gen_with_rng
    Ml.generate_at Ml.encap_with Ml.encapsulate_at
keys_decap-encap_example =
    keys_decap-encap Kems.toy Kems.toy-IsLawful KemAlgorithm.ml_kem768 5 kem_pk kem_sk 6 refl 7
      (7 ∷ []) (12 ∷ []) 8 refl

abbrev dsa_pk : PublicKey
dsa_pk = record { oid = ml_dsa44_oid; key = 5 ∷ []; is_composite = false }

abbrev dsa_sk : PrivateKey
dsa_sk = record { oid = ml_dsa44_oid; private_key = 5 ∷ []; is_composite = false }

other_kind-unsupported_example :
    ((is_dsa_oid ml_kem768_oid ≡ true)
      × (Public.encap Kems.toy kem_pk 5 ≡ (err unsupported_operation, 5))
      × (Private.decap Kems.toy kem_sk [] ≡ err unsupported_operation))
    ⊎ ((is_kem_oid ml_kem768_oid ≡ true)
        × (Public.verify ManagerExamples.toy kem_pk [] [] ≡ err unsupported_operation)
        × (Private.sign ManagerExamples.toy kem_sk [] 5 ≡ (err unsupported_operation, 5)))
other_kind-unsupported_example =
    other_kind-unsupported Kems.toy ManagerExamples.toy kem_pk kem_sk refl kem_oid-IsValid.known 5
      [] [] []
