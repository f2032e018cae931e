-- ===== src/Oids.antt =====
-- asn1/asn_util.rs: what kind of key an object identifier names.
pub mod KemTypes
pub mod DsaTypes
pub mod Algorithms
pub mod Kinds
pub mod Lookups
pub mod Offered
use qubitcrypt.Prelude.{Bool, false, ◌||◌, String, Option, none, some, any, map, str_eq, is_some}
use qubitcrypt.Kem.Types as KemType
use qubitcrypt.Dsa.Types as DsaType
use qubitcrypt.Kem.Algorithm as Kem
use qubitcrypt.Dsa.Algorithm as Dsa

-- `.contains(oid)` on the identifiers of a list.
unfoldable pub is_valid_kem_or_dsa_oid : String → Bool
unfolding Kem.all Kem.get_oid Dsa.all Dsa.get_oid
is_valid_kem_or_dsa_oid oid =
    any (λ x. str_eq x oid) (map Dsa.get_oid Dsa.all)
    || any (λ x. str_eq x oid) (map Kem.get_oid Kem.all)

-- `if let Some(t) = t { test(t) } else { false }`.
abbrev holds_of : {A : Type 0} → (A → Bool) → Option A → Bool
holds_of test none = false
holds_of test (some t) = test t

unfoldable pub is_composite_kem_or_dsa_oid : String → Bool
unfolding KemType.from_oid KemType.is_composite DsaType.from_oid DsaType.is_composite
is_composite_kem_or_dsa_oid oid =
    holds_of KemType.is_composite (KemType.from_oid oid)
    || holds_of DsaType.is_composite (DsaType.from_oid oid)

unfoldable pub is_kem_oid : String → Bool
unfolding Kem.from_oid
is_kem_oid oid = is_some (Kem.from_oid oid)

unfoldable pub is_dsa_oid : String → Bool
unfolding Dsa.from_oid
is_dsa_oid oid = is_some (Dsa.from_oid oid)
