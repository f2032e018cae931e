-- ===== src/Kem/Manager/Lengths.antt =====
-- kem/common/config: the published lengths of composite keys, ciphertexts and secrets, against the
-- DER of what kem/composite_kem.rs puts into them.
use qubitcrypt.Prelude.{ℕ, suc, ◌+◌, ltb, if◌then◌else◌, ◌≡◌, refl, Option, none, some}
use qubitcrypt.Outcome.{Outcome, ok, err, not_implemented}
use qubitcrypt.Kem.Types.{KemType}
use qubitcrypt.Kem.Types.{
  ml_kem512, ml_kem768, ml_kem1024, rsa_oaep2048, rsa_oaep3072, rsa_oaep4096, p256, p384, x25519,
  brainpool_p256r1, brainpool_p384r1, x448, ml_kem512_p256, ml_kem512_brainpool_p256r1,
  ml_kem512_x25519, ml_kem512_rsa2048, ml_kem512_rsa3072, ml_kem768_p256, xwing, ml_kem768_rsa2048,
  ml_kem768_rsa3072, ml_kem768_rsa4096, ml_kem768_x25519, ml_kem768_p384,
  ml_kem768_brainpool_p256r1, ml_kem1024_p384, ml_kem1024_brainpool_p384r1, ml_kem1024_x448,
}
use qubitcrypt.Kem.Info.{kem_info}
use qubitcrypt.Kem.Kdf.{KdfType, output_len}
use qubitcrypt.Kem.Manager.{KemManager, composite, new_composite, new}
use qubitcrypt.Kem.Manager.Built.{info_of}

-- X.690: the length of the DER of a value with `n` bytes of content, below 64 KiB.
unfoldable pub der_len : ℕ → ℕ
der_len n = if ltb n 128 then 2 + n else if ltb n 256 then 3 + n else 4 + n

-- A SEQUENCE of two BIT STRINGs, each with its byte of unused bits, and one of two OCTET STRINGs.
unfoldable pub bit_strings_len : ℕ → ℕ → ℕ
unfolding der_len
bit_strings_len m n = der_len (der_len (1 + m) + der_len (1 + n))

unfoldable pub octet_strings_len : ℕ → ℕ → ℕ
unfolding der_len
octet_strings_len m n = der_len (der_len m + der_len n)

-- `f` on two published lengths.
abbrev both : (ℕ → ℕ → ℕ) → Option ℕ → Option ℕ → Option ℕ
both f (some m) (some n) = some (f m n)
both f _ _ = none

-- For fifteen types a composite manager with the published information of the type, whose lengths
-- are those of the DER of its parts and of the output of its derivation; for the thirteen others the
-- error NotImplemented.
unfoldable pub IsConsistent : KemType → Outcome KemManager → Type 0
unfolding info_of bit_strings_len octet_strings_len kem_info
IsConsistent ml_kem512 r = r ≡ err not_implemented
IsConsistent ml_kem768 r = r ≡ err not_implemented
IsConsistent ml_kem1024 r = r ≡ err not_implemented
IsConsistent rsa_oaep2048 r = r ≡ err not_implemented
IsConsistent rsa_oaep3072 r = r ≡ err not_implemented
IsConsistent rsa_oaep4096 r = r ≡ err not_implemented
IsConsistent p256 r = r ≡ err not_implemented
IsConsistent p384 r = r ≡ err not_implemented
IsConsistent x25519 r = r ≡ err not_implemented
IsConsistent brainpool_p256r1 r = r ≡ err not_implemented
IsConsistent brainpool_p384r1 r = r ≡ err not_implemented
IsConsistent x448 r = r ≡ err not_implemented
IsConsistent xwing r = r ≡ err not_implemented
IsConsistent t r =
    (trad : KemManager) × (pq : KemManager) × (k : KdfType) × (r
      ≡ ok (composite (kem_info t) trad pq k))
    × ((kem_info t).pk_byte_len
        ≡ both bit_strings_len (info_of pq).pk_byte_len (info_of trad).pk_byte_len)
    × ((kem_info t).ct_byte_len
        ≡ both octet_strings_len (info_of pq).ct_byte_len (info_of trad).ct_byte_len)
    × ((kem_info t).ss_byte_len ≡ output_len k)

-- `CompositeKemManager::new` over `KemManager::new` builds, for each of fifteen types, a manager with
-- that type's information, whose published lengths of public keys, ciphertexts and secrets are those of
-- the DER of its parts and of its derivation; for each of the thirteen other types it gives
-- NotImplemented.
pub new_composite-IsConsistent :
    (n : ℕ) (t : KemType) → IsConsistent t (new_composite (new (suc n)) t)
unfolding IsConsistent new new_composite
new_composite-IsConsistent n ml_kem512 = refl
new_composite-IsConsistent n ml_kem768 = refl
new_composite-IsConsistent n ml_kem1024 = refl
new_composite-IsConsistent n rsa_oaep2048 = refl
new_composite-IsConsistent n rsa_oaep3072 = refl
new_composite-IsConsistent n rsa_oaep4096 = refl
new_composite-IsConsistent n p256 = refl
new_composite-IsConsistent n p384 = refl
new_composite-IsConsistent n x25519 = refl
new_composite-IsConsistent n brainpool_p256r1 = refl
new_composite-IsConsistent n brainpool_p384r1 = refl
new_composite-IsConsistent n x448 = refl
new_composite-IsConsistent n ml_kem512_p256 = (_, _, _, refl, refl, refl, refl)
new_composite-IsConsistent n ml_kem512_brainpool_p256r1 = (_, _, _, refl, refl, refl, refl)
new_composite-IsConsistent n ml_kem512_x25519 = (_, _, _, refl, refl, refl, refl)
new_composite-IsConsistent n ml_kem512_rsa2048 = (_, _, _, refl, refl, refl, refl)
new_composite-IsConsistent n ml_kem512_rsa3072 = (_, _, _, refl, refl, refl, refl)
new_composite-IsConsistent n ml_kem768_p256 = (_, _, _, refl, refl, refl, refl)
new_composite-IsConsistent n xwing = refl
new_composite-IsConsistent n ml_kem768_rsa2048 = (_, _, _, refl, refl, refl, refl)
new_composite-IsConsistent n ml_kem768_rsa3072 = (_, _, _, refl, refl, refl, refl)
new_composite-IsConsistent n ml_kem768_rsa4096 = (_, _, _, refl, refl, refl, refl)
new_composite-IsConsistent n ml_kem768_x25519 = (_, _, _, refl, refl, refl, refl)
new_composite-IsConsistent n ml_kem768_p384 = (_, _, _, refl, refl, refl, refl)
new_composite-IsConsistent n ml_kem768_brainpool_p256r1 = (_, _, _, refl, refl, refl, refl)
new_composite-IsConsistent n ml_kem1024_p384 = (_, _, _, refl, refl, refl, refl)
new_composite-IsConsistent n ml_kem1024_brainpool_p384r1 = (_, _, _, refl, refl, refl, refl)
new_composite-IsConsistent n ml_kem1024_x448 = (_, _, _, refl, refl, refl, refl)
