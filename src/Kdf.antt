-- ===== src/Kdf.antt =====
-- kdf/: the derivation of keys, over the `hkdf`, `tiny_keccak` and `sha3` crates.
pub mod Derived
use qubitcrypt.Prelude.{
  ℕ, ◌==◌, Bool, true, false, String, Option, none, some, List, [], ◌∷◌, find, any, str_eq,
  if◌then◌else◌,
}
use qubitcrypt.Outcome.{
  Bytes, Outcome, ok, err, ok_or, ◌>>=◌, not_implemented, invalid_oid, invalid_hkdf_length,
  kdf_error,
}

pub data KdfType : Type 0 where
  hkdf_with_sha256 hkdf_with_sha384 hkdf_with_sha512 kmac128 kmac256 shake128 shake256 : KdfType

unfoldable pub all : List KdfType
all =
    hkdf_with_sha256 ∷ hkdf_with_sha384 ∷ hkdf_with_sha512 ∷ kmac128 ∷ kmac256 ∷ shake128 ∷ shake256
    ∷ []

unfoldable pub get_oid : KdfType → String
get_oid hkdf_with_sha256 = "1.2.840.113549.1.9.16.3.28"
get_oid hkdf_with_sha384 = "1.2.840.113549.1.9.16.3.29"
get_oid hkdf_with_sha512 = "1.2.840.113549.1.9.16.3.30"
get_oid kmac128 = "2.16.840.1.101.3.4.2.21"
get_oid kmac256 = "2.16.840.1.101.3.4.2.22"
get_oid shake128 = "2.16.840.1.101.3.4.2.11"
get_oid shake256 = "2.16.840.1.101.3.4.2.12"

unfoldable pub from_oid : String → Option KdfType
unfolding all get_oid
from_oid oid = find (λ t. str_eq (get_oid t) oid) all

-- The derived `PartialEq`.
abbrev discriminant : KdfType → ℕ
discriminant hkdf_with_sha256 = 0
discriminant hkdf_with_sha384 = 1
discriminant hkdf_with_sha512 = 2
discriminant kmac128 = 3
discriminant kmac256 = 4
discriminant shake128 = 5
discriminant shake256 = 6

abbrev contains : List KdfType → KdfType → Bool
contains ts t = any (λ u. discriminant u == discriminant t) ts

pub record KdfInfo : Type 0 where
  pub kdf_type : KdfType
  pub oid : String

unfoldable pub kdf_info : KdfType → KdfInfo
unfolding get_oid
kdf_info t = record { kdf_type = t; oid = get_oid t }

pub data Sha2 : Type 0 where
  sha256 sha384 sha512 : Sha2

pub data Strength : Type 0 where
  v128 v256 : Strength

-- What the crates give. `hkdf h salt ikm info n` is `Hkdf::<h>::new(salt, ikm)`, then `expand` of
-- `info` into `n` bytes; `kmac s key custom input n` is a `Kmac` that is updated once and finalized
-- into `n` bytes; a `Shake` is written to, and its reader read for `n` bytes.
pub record Crates : Type 1 where
  pub hkdf : Sha2 → Option Bytes → Bytes → Bytes → ℕ → Option Bytes
  pub kmac : Strength → Bytes → Bytes → Bytes → ℕ → Bytes
  pub Shake : Strength → Type 0
  pub default : (s : Strength) → Shake s
  pub write : (s : Strength) → Shake s → Bytes → Option (Shake s)
  pub read_exact : (s : Strength) → Shake s → ℕ → Option Bytes

-- The structs `Hkdf`, `Kmac` and `Sha3Kdf` are their `KdfType`.
unfoldable pub hkdf_new : KdfType → Outcome KdfType
hkdf_new hkdf_with_sha256 = ok hkdf_with_sha256
hkdf_new hkdf_with_sha512 = ok hkdf_with_sha512
hkdf_new hkdf_with_sha384 = ok hkdf_with_sha384
hkdf_new _ = err not_implemented

unfoldable pub kmac_new : KdfType → Outcome KdfType
kmac_new kmac128 = ok kmac128
kmac_new kmac256 = ok kmac256
kmac_new _ = err not_implemented

unfoldable pub sha3_new : KdfType → Outcome KdfType
sha3_new shake128 = ok shake128
sha3_new shake256 = ok shake256
sha3_new _ = err not_implemented

abbrev or_empty : Option Bytes → Bytes
or_empty none = []
or_empty (some b) = b

module _ (c : Crates) where
  unfoldable pub hkdf_derive : KdfType → Bytes → Bytes → ℕ → Option Bytes → Outcome Bytes
  hkdf_derive hkdf_with_sha256 ikm info length salt =
      ok_or invalid_hkdf_length (c.hkdf sha256 salt ikm info length)
  hkdf_derive hkdf_with_sha512 ikm info length salt =
      ok_or invalid_hkdf_length (c.hkdf sha512 salt ikm info length)
  hkdf_derive hkdf_with_sha384 ikm info length salt =
      ok_or invalid_hkdf_length (c.hkdf sha384 salt ikm info length)
  hkdf_derive _ ikm info length salt = err not_implemented

  unfoldable pub kmac_derive : KdfType → Bytes → Bytes → ℕ → Option Bytes → Outcome Bytes
  kmac_derive kmac128 ikm info length salt = ok (c.kmac v128 ikm (or_empty salt) info length)
  kmac_derive kmac256 ikm info length salt = ok (c.kmac v256 ikm (or_empty salt) info length)
  kmac_derive _ ikm info length salt = err not_implemented

  abbrev write_salt : (s : Strength) → c.Shake s → Option Bytes → Outcome (c.Shake s)
  write_salt s shake none = ok shake
  write_salt s shake (some salt) = ok_or kdf_error (c.write s shake salt)

  abbrev write_info : (s : Strength) → c.Shake s → Bytes → Outcome (c.Shake s)
  write_info s shake [] = ok shake
  write_info s shake (b ∷ bs) = ok_or kdf_error (c.write s shake (b ∷ bs))

  -- The macro `derive_key!`.
  unfoldable pub derive_key : Strength → Bytes → Bytes → ℕ → Option Bytes → Outcome Bytes
  derive_key s ikm info length salt = do
    salted ← write_salt s (c.default s) salt
    keyed ← ok_or kdf_error (c.write s salted ikm)
    informed ← write_info s keyed info
    ok_or kdf_error (c.read_exact s informed length)

  unfoldable pub sha3_derive : KdfType → Bytes → Bytes → ℕ → Option Bytes → Outcome Bytes
  unfolding derive_key
  sha3_derive shake128 ikm info length salt = derive_key v128 ikm info length salt
  sha3_derive shake256 ikm info length salt = derive_key v256 ikm info length salt
  sha3_derive _ ikm info length salt = err not_implemented

pub data KdfManager : Type 0 where
  hkdf kmac sha3 : KdfType → KdfManager

-- `KdfManager::new`.
unfoldable pub new : KdfType → Outcome KdfManager
unfolding hkdf_new kmac_new sha3_new
new t =
    if contains (hkdf_with_sha256 ∷ hkdf_with_sha384 ∷ hkdf_with_sha512 ∷ []) t
    then (do m ← hkdf_new t; ok (hkdf m))
    else if contains (kmac128 ∷ kmac256 ∷ []) t
    then (do m ← kmac_new t; ok (kmac m))
    else if contains (shake128 ∷ shake256 ∷ []) t
    then (do m ← sha3_new t; ok (sha3 m))
    else err not_implemented

unfoldable pub get_kdf_info : KdfManager → KdfInfo
unfolding kdf_info
get_kdf_info (hkdf t) = kdf_info t
get_kdf_info (kmac t) = kdf_info t
get_kdf_info (sha3 t) = kdf_info t

unfoldable pub derive : Crates → KdfManager → Bytes → Bytes → ℕ → Option Bytes → Outcome Bytes
unfolding hkdf_derive kmac_derive sha3_derive
derive c (hkdf t) ikm info length salt = hkdf_derive c t ikm info length salt
derive c (kmac t) ikm info length salt = kmac_derive c t ikm info length salt
derive c (sha3 t) ikm info length salt = sha3_derive c t ikm info length salt

-- The loop of `new_from_oid`, the provided method of the trait `Kdf`.
unfoldable pub new_of : List KdfType → String → Outcome KdfManager
unfolding get_oid new
new_of [] oid = err invalid_oid
new_of (t ∷ ts) oid = if str_eq (get_oid t) oid then new t else new_of ts oid

unfoldable pub new_from_oid : String → Outcome KdfManager
unfolding new_of all
new_from_oid oid = new_of all oid
