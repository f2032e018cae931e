-- ===== src/Wrap.antt =====
-- wrap/: the wrapping of content keys by AES, over `openssl::aes`.
pub mod Guards
use qubitcrypt.Prelude.{
  ℕ, ◌+◌, ◌-◌, ◌%◌, Bool, true, false, not, ◌==◌, ltb, String, Option, List, [], ◌∷◌, length, find,
  any, str_eq, if◌then◌else◌,
}
use qubitcrypt.Outcome.{
  Bytes, Outcome, ok, err, panic, ok_or, ◌>>=◌, not_implemented, invalid_oid, key_wrap_failed,
  key_unwrap_failed,
}

pub data WrapType : Type 0 where
  aes128 aes256 : WrapType

unfoldable pub all : List WrapType
all = aes128 ∷ aes256 ∷ []

unfoldable pub get_oid : WrapType → String
get_oid aes128 = "2.16.840.1.101.3.4.1.5"
get_oid aes256 = "2.16.840.1.101.3.4.1.45"

unfoldable pub get_key_length : WrapType → ℕ
get_key_length aes128 = 16
get_key_length aes256 = 32

unfoldable pub from_oid : String → Option WrapType
unfolding all get_oid
from_oid oid = find (λ t. str_eq (get_oid t) oid) all

pub record WrapInfo : Type 0 where
  pub wrap_type : WrapType
  pub oid : String
  pub key_length : ℕ

-- `WrapInfo::new`, which is `get_wrap_info` of a manager: a manager is its `WrapType`.
unfoldable pub wrap_info : WrapType → WrapInfo
unfolding get_oid get_key_length
wrap_info t = record { wrap_type = t; oid = get_oid t; key_length = get_key_length t }

-- `AesKey`, and `wrap_key` and `unwrap_key` with the default initial value into a buffer of the
-- length that is given.
pub record OpensslAes : Type 1 where
  pub EncryptKey : Type 0
  pub DecryptKey : Type 0
  pub new_encrypt : Bytes → Option EncryptKey
  pub new_decrypt : Bytes → Option DecryptKey
  pub wrap_key : EncryptKey → ℕ → Bytes → Option Bytes
  pub unwrap_key : DecryptKey → ℕ → Bytes → Option Bytes

module _ (a : OpensslAes) where
  -- `Aes::wrap`.
  unfoldable pub wrap : WrapType → Bytes → Bytes → Outcome Bytes
  unfolding get_key_length
  wrap t wrapping_key key_to_wrap =
      if not (length key_to_wrap % 8 == 0)
      then err key_wrap_failed
      else if not (length wrapping_key == get_key_length t)
      then err key_wrap_failed
      else (do
        key ← ok_or key_wrap_failed (a.new_encrypt wrapping_key)
        ok_or key_wrap_failed (a.wrap_key key (length key_to_wrap + 8) key_to_wrap))

  -- `Aes::unwrap`: where `len() - 8` is below zero it overflows, and where overflow is not checked the
  -- allocation of so many bytes fails, so that both ways it panics.
  unfoldable pub unwrap : WrapType → Bytes → Bytes → Outcome Bytes
  unwrap t wrapping_key key_to_unwrap =
      ok_or key_unwrap_failed (a.new_decrypt wrapping_key) >>= λ key.
      if ltb (length key_to_unwrap) 8
      then panic
      else ok_or key_unwrap_failed (a.unwrap_key key (length key_to_unwrap - 8) key_to_unwrap)

-- `WrapManager::new`; the manager and the `Aes` in it are their `WrapType`.
abbrev discriminant : WrapType → ℕ
discriminant aes128 = 0
discriminant aes256 = 1

unfoldable pub new : WrapType → Outcome WrapType
unfolding all
new t = if any (λ u. discriminant u == discriminant t) all then ok t else err not_implemented

-- The loop of `new_from_oid`, the provided method of the trait `Wrap`.
unfoldable pub new_of : List WrapType → String → Outcome WrapType
unfolding get_oid new
new_of [] oid = err invalid_oid
new_of (t ∷ ts) oid = if str_eq (get_oid t) oid then new t else new_of ts oid

unfoldable pub new_from_oid : String → Outcome WrapType
unfolding new_of all
new_from_oid oid = new_of all oid
