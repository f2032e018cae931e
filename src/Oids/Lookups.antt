-- ===== src/Oids/Lookups.antt =====
-- kem/common/kem_trait.rs and dsa/common/dsa_trait.rs: `new_from_oid` against `from_oid`.
use qubitcrypt.Prelude.{◌≡◌, refl, String, Option, none, some, List, [], ◌∷◌, find, str_eq, arith}
use qubitcrypt.Outcome.{Outcome, err, invalid_oid}
use qubitcrypt.Kem.Types as KemTypes
use qubitcrypt.Kem.Types.{KemType}
use qubitcrypt.Kem.Trait as Kem
use qubitcrypt.Dsa.Types as DsaTypes
use qubitcrypt.Dsa.Types.{DsaType}
use qubitcrypt.Dsa.Trait as Dsa

-- `new` at the type that a lookup gives, or the error for an unknown identifier.
abbrev pub of_found : {T M : Type 0} → (T → Outcome M) → Option T → Outcome M
of_found new none = err invalid_oid
of_found new (some t) = new t

new_of-find :
    {M : Type 0} (new : KemType → Outcome M) (oid : String) (ts : List KemType)
    → Kem.new_of new ts oid ≡ of_found new (find (λ t. str_eq (KemTypes.get_oid t) oid) ts)
unfolding Kem.new_of
new_of-find new oid [] = refl
new_of-find new oid (t ∷ ts) = ground (arith, new_of-find new oid ts)

-- A KEM manager is made from an identifier by making it for the type that `KemType::from_oid`
-- returns, with the error `InvalidOid` when it returns none.
pub kem_new_from_oid-from_oid :
    {M : Type 0} (new : KemType → Outcome M) (oid : String)
    → Kem.new_from_oid new oid ≡ of_found new (KemTypes.from_oid oid)
unfolding Kem.new_from_oid KemTypes.from_oid
kem_new_from_oid-from_oid new oid = new_of-find new oid KemTypes.all

new_of-find_dsa :
    {M : Type 0} (new : DsaType → Outcome M) (oid : String) (ts : List DsaType)
    → Dsa.new_of new ts oid ≡ of_found new (find (λ t. str_eq (DsaTypes.get_oid t) oid) ts)
unfolding Dsa.new_of
new_of-find_dsa new oid [] = refl
new_of-find_dsa new oid (t ∷ ts) = ground (arith, new_of-find_dsa new oid ts)

-- A signature manager is made from an identifier by making it for the type that
-- `DsaType::from_oid` returns, with the error `InvalidOid` when it returns none.
pub dsa_new_from_oid-from_oid :
    {M : Type 0} (new : DsaType → Outcome M) (oid : String)
    → Dsa.new_from_oid new oid ≡ of_found new (DsaTypes.from_oid oid)
unfolding Dsa.new_from_oid DsaTypes.from_oid
dsa_new_from_oid-from_oid new oid = new_of-find_dsa new oid DsaTypes.all
