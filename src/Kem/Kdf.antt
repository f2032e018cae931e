-- ===== src/Kem/Kdf.antt =====
-- kem/common/kdf.rs: the key derivation of the composite KEMs, over the hash crates.
use qubitcrypt.Prelude.{ℕ, ◌≡◌, refl, Option, none, some, length, replicate, arith}
use qubitcrypt.Outcome.{Bytes, Outcome, ok, unwrap}

-- `hkdf`, `sha2` and `sha3`: `Hkdf::new(salt, ikm).expand(info, okm)` with the length of `okm`, and
-- the digests.
pub record Hashes : Type 0 where
  pub hkdf_sha256 : Option Bytes → Bytes → Bytes → ℕ → Option Bytes
  pub hkdf_sha384 : Option Bytes → Bytes → Bytes → ℕ → Option Bytes
  pub sha3_256 : Bytes → Bytes
  pub sha3_384 : Bytes → Bytes
  pub sha3_512 : Bytes → Bytes

-- What the hash functions document: the lengths of their outputs, and that HKDF gives any output
-- of at most 255 blocks.
pub record IsSized (h : Hashes) : Type 0 where
  pub sha256_gives : (ikm info : Bytes) → (b : Bytes) × (h.hkdf_sha256 none ikm info 32 ≡ some b)
  pub sha256_length : (ikm info b : Bytes) → h.hkdf_sha256 none ikm info 32 ≡ some b → length b ≡ 32
  pub sha384_gives : (ikm info : Bytes) → (b : Bytes) × (h.hkdf_sha384 none ikm info 48 ≡ some b)
  pub sha384_length : (ikm info b : Bytes) → h.hkdf_sha384 none ikm info 48 ≡ some b → length b ≡ 48
  pub sha3_256_length : (b : Bytes) → length (h.sha3_256 b) ≡ 32
  pub sha3_384_length : (b : Bytes) → length (h.sha3_384 b) ≡ 48
  pub sha3_512_length : (b : Bytes) → length (h.sha3_512 b) ≡ 64

pub data KdfType : Type 0 where
  hkdf_sha256 sha3_256 hkdf_sha384 sha3_512 sha3_384 : KdfType

-- `Kdf::kdf`; a `Kdf` is its `KdfType`.
unfoldable pub kdf : Hashes → KdfType → Bytes → Outcome Bytes
kdf h hkdf_sha256 input = unwrap (h.hkdf_sha256 none input (replicate 32 0) 32)
kdf h sha3_256 input = ok (h.sha3_256 input)
kdf h hkdf_sha384 input = unwrap (h.hkdf_sha384 none input (replicate 48 0) 48)
kdf h sha3_384 input = ok (h.sha3_384 input)
kdf h sha3_512 input = ok (h.sha3_512 input)

-- The number of bytes that each derivation is to give.
abbrev pub output_len : KdfType → ℕ
output_len hkdf_sha256 = 32
output_len sha3_256 = 32
output_len hkdf_sha384 = 48
output_len sha3_384 = 48
output_len sha3_512 = 64

-- The derivation never panics, and gives as many bytes as its hash function has.
pub kdf-output_len :
    (h : Hashes)
    → IsSized h
    → (t : KdfType) (input : Bytes)
    → (b : Bytes) × (kdf h t input ≡ ok b) × (length b ≡ output_len t)
unfolding kdf
kdf-output_len h s hkdf_sha256 input =
    let (b, e) = s.sha256_gives input (replicate 32 0) in
    (b, ground arith, s.sha256_length input (replicate 32 0) b e)
kdf-output_len h s sha3_256 input = (h.sha3_256 input, refl, s.sha3_256_length input)
kdf-output_len h s hkdf_sha384 input =
    let (b, e) = s.sha384_gives input (replicate 48 0) in
    (b, ground arith, s.sha384_length input (replicate 48 0) b e)
kdf-output_len h s sha3_512 input = (h.sha3_512 input, refl, s.sha3_512_length input)
kdf-output_len h s sha3_384 input = (h.sha3_384 input, refl, s.sha3_384_length input)
