-- ===== src/Tests/Codecs.antt =====
-- A small codec in the place of the `der` and `pkcs8` crates: a pair is the length of its first
-- part, then the parts.
use qubitcrypt.Prelude.{
  ℕ, ◌≡◌, refl, ap, sym, eq_of_some, ◌∙◌, String, Option, none, some, [], ◌∷◌, ◌++◌, length, take,
  drop, take-append, drop-append, str_eq, if◌then◌else◌, arith,
}
use qubitcrypt.Outcome.{Bytes}
use qubitcrypt.Asn1.Der.{Der, IsLawful, PrivateKeyInfo}

abbrev pub join : Bytes × Bytes → Bytes
join (a, b) = length a ∷ (a ++ b)

abbrev pub split : Bytes → Option (Bytes × Bytes)
split [] = none
split (n ∷ rest) = some (take n rest, drop n rest)

pub split-join : (p : Bytes × Bytes) → split (join p) ≡ some p
split-join (a, b) =
    ap (λ x. some (x, drop (length a) (a ++ b))) (take-append a b)
    ∙ ap (λ y. some (a, y)) (drop-append a b)

abbrev pub join_optional : Option Bytes → Bytes
join_optional none = []
join_optional (some b) = 1 ∷ b

abbrev pub split_optional : Bytes → Option Bytes
split_optional [] = none
split_optional (_ ∷ b) = some b

split-join_optional : (o : Option Bytes) → split_optional (join_optional o) ≡ o
split-join_optional none = refl
split-join_optional (some b) = refl

abbrev write_with : ℕ → Option Bytes → Bytes → Option Bytes → Option Bytes
write_with oid none sk pk = some (oid ∷ join (sk, join_optional pk))
write_with oid (some _) sk pk = none

-- Keys with parameters are not encoded.
abbrev pub write_key : PrivateKeyInfo ℕ → Option Bytes
write_key k = write_with k.oid k.parameters k.private_key k.public_key

abbrev key_of : ℕ → Option (Bytes × Bytes) → Option (PrivateKeyInfo ℕ)
key_of oid none = none
key_of oid (some (sk, pk)) =
    some (record { oid = oid; parameters = none; private_key = sk; public_key = split_optional pk })

abbrev pub read_key : Bytes → Option (PrivateKeyInfo ℕ)
read_key [] = none
read_key (oid ∷ rest) = key_of oid (split rest)

read-write_with :
    (oid : ℕ) (parameters : Option Bytes) (sk : Bytes) (pk : Option Bytes) (b : Bytes)
    → write_with oid parameters sk pk ≡ some b
    → read_key b
      ≡ some (record { oid = oid; parameters = parameters; private_key = sk; public_key = pk })
read-write_with oid none sk pk b h =
    ap read_key (sym (eq_of_some h))
    ∙ (ap (key_of oid) (split-join (sk, join_optional pk))
        ∙ ap (λ o. some (record { oid = oid; parameters = none; private_key = sk; public_key = o }))
            (split-join_optional pk))
read-write_with oid (some p) sk pk b h = absurd (ground arith)

read-write : (k : PrivateKeyInfo ℕ) (b : Bytes) → write_key k ≡ some b → read_key b ≡ some k
read-write k b = read-write_with k.oid k.parameters k.private_key k.public_key b

-- A pair of keys is a pair of their bytes.
abbrev both : {A B C : Type 0} → (A → B → C) → Option A → Option B → Option C
both f (some a) (some b) = some (f a b)
both f _ _ = none

abbrev write_keys : PrivateKeyInfo ℕ × PrivateKeyInfo ℕ → Option Bytes
write_keys (k, l) = both (λ a b. join (a, b)) (write_key k) (write_key l)

abbrev read_parts : Option (Bytes × Bytes) → Option (PrivateKeyInfo ℕ × PrivateKeyInfo ℕ)
read_parts none = none
read_parts (some (a, b)) = both (λ k l. (k, l)) (read_key a) (read_key b)

abbrev read_keys : Bytes → Option (PrivateKeyInfo ℕ × PrivateKeyInfo ℕ)
read_keys b = read_parts (split b)

both-eq-some :
    {A B C : Type 0} (f : A → B → C) (o : Option A) (p : Option B) (c : C)
    → both f o p ≡ some c
    → (a : A) × (b : B) × (o ≡ some a) × (p ≡ some b) × (f a b ≡ c)
both-eq-some f (some a) (some b) c h = (a, b, refl, refl, eq_of_some h)
both-eq-some f (some a) none c h = absurd (ground arith)
both-eq-some f none p c h = absurd (ground arith)

read-write_keys :
    (p : PrivateKeyInfo ℕ × PrivateKeyInfo ℕ) (b : Bytes)
    → write_keys p ≡ some b
    → read_keys b ≡ some p
read-write_keys (k, l) b h =
    let (x, y, e, f, g) = both-eq-some (λ u v. join (u, v)) (write_key k) (write_key l) b h in
    ap read_keys (sym g)
    ∙ (ap read_parts (split-join (x, y)) ∙ rw (read-write k x e, read-write l y f) refl)

-- The identifiers that the tests use, as small numbers.
abbrev code_of : String → ℕ
code_of oid =
    if str_eq oid "2.16.840.1.101.3.4.4.2" then 2 else if str_eq oid "1.3.101.110" then 3 else 1

module _ (parse_oid : String → Option ℕ) (oid_to_string : ℕ → String) where
  abbrev pub toy_der_with : Der
  toy_der_with = record {
    ObjectId = ℕ;
    BitString = Bytes;
    OctetString = Bytes;
    parse_oid = parse_oid;
    oid_to_string = oid_to_string;
    encode_oid = λ o. some (6 ∷ 1 ∷ o ∷ []);
    bit_string = λ b. some b;
    bit_string_bytes = λ b. some b;
    octet_string = λ b. some b;
    octets = λ b. b;
    encode_key_info = write_key;
    decode_key_info = read_key;
    encode_bit_strings = λ p. some (join p);
    decode_bit_strings = split;
    encode_octet_strings = λ p. some (join p);
    decode_octet_strings = split;
    encode_key_infos = write_keys;
    decode_key_infos = read_keys;
  }

  pub toy_der_with-IsLawful : IsLawful toy_der_with
  toy_der_with-IsLawful = record {
    bits = λ b s h. ap some (sym (eq_of_some h));
    octet = λ b s h. sym (eq_of_some h);
    key_info = read-write;
    bit_strings = λ p b h. ap split (sym (eq_of_some h)) ∙ split-join p;
    octet_strings = λ p b h. ap split (sym (eq_of_some h)) ∙ split-join p;
    key_infos = read-write_keys;
  }

abbrev pub toy_der : Der
toy_der = toy_der_with (λ s. some (code_of s)) (λ o. "1")

pub toy_der-IsLawful : IsLawful toy_der
toy_der-IsLawful = toy_der_with-IsLawful (λ s. some (code_of s)) (λ o. "1")
