-- ===== src/Kem/Manager.antt =====
-- kem/kem_manager.rs, and `CompositeKemManager::new` of kem/composite_kem.rs: the manager of any
-- KEM, an enumeration of the managers of the four families.
pub mod Lengths
pub mod Correct
pub mod Built
use qubitcrypt.Prelude.{ℕ, zero, suc, List, [], ◌∷◌, if◌then◌else◌, String}
use qubitcrypt.Outcome.{Bytes, Outcome, ok, err, panic, diverges, ◌>>=◌, not_implemented}
use qubitcrypt.Asn1.Der.{Der}
use qubitcrypt.Kem.Types.{
  KemType, contains, p256, p384, x25519, brainpool_p256r1, brainpool_p384r1, x448, rsa_oaep2048,
  rsa_oaep3072, rsa_oaep4096, ml_kem512, ml_kem768, ml_kem1024, ml_kem512_p256,
  ml_kem512_brainpool_p256r1, ml_kem512_x25519, ml_kem512_rsa2048, ml_kem512_rsa3072,
  ml_kem768_p256, ml_kem768_rsa2048, ml_kem768_rsa3072, ml_kem768_rsa4096, ml_kem768_x25519,
  ml_kem768_p384, ml_kem768_brainpool_p256r1, ml_kem1024_p384, ml_kem1024_brainpool_p384r1,
  ml_kem1024_x448, xwing,
}
use qubitcrypt.Kem.Info.{KemInfo, kem_info}
use qubitcrypt.Kem.Kdf.{Hashes, KdfType, hkdf_sha256, sha3_256, hkdf_sha384, sha3_512, sha3_384}
use qubitcrypt.Kem.Trait.{Kem}
use qubitcrypt.Kem.Ml.{MlKemCrate, ml_kem}
use qubitcrypt.Kem.Ec.{EcKemManager, ec_kem}
use qubitcrypt.Utils.{Openssl}
use qubitcrypt.Utils.Filled.{kem_utils}
use qubitcrypt.Kem.Ec
use qubitcrypt.Kem.Rsa.{RsaCrate, rsa_kem}
use qubitcrypt.Kem.Composite.Operations.{kem}

-- The structs of the families stand in the constructors: the ML-KEM and RSA managers are their
-- `KemInfo`; the composite one holds two managers and its derivation.
pub data KemManager : Type 0 where
  ml : KemInfo → KemManager
  rsa : KemInfo → KemManager
  ec : EcKemManager → KemManager
  composite : KemInfo → KemManager → KemManager → KdfType → KemManager

unfoldable pub ml_kem_types : List KemType
ml_kem_types = ml_kem512 ∷ ml_kem768 ∷ ml_kem1024 ∷ []

unfoldable pub rsa_kem_types : List KemType
rsa_kem_types = rsa_oaep2048 ∷ rsa_oaep3072 ∷ rsa_oaep4096 ∷ []

unfoldable pub ec_kem_types : List KemType
ec_kem_types = p256 ∷ p384 ∷ x25519 ∷ brainpool_p256r1 ∷ brainpool_p384r1 ∷ x448 ∷ []

unfoldable pub composite_kem_types : List KemType
composite_kem_types =
    ml_kem768_rsa2048 ∷ ml_kem768_rsa3072 ∷ ml_kem768_rsa4096 ∷ ml_kem768_x25519 ∷ ml_kem768_p384
    ∷ ml_kem768_brainpool_p256r1 ∷ ml_kem1024_p384 ∷ ml_kem1024_brainpool_p384r1 ∷ ml_kem1024_x448
    ∷ []

-- One arm of `CompositeKemManager::new`: its two managers, the traditional one first.
abbrev pub pair :
    (KemType → Outcome KemManager) → KemType → KemType → KemType → KdfType → Outcome KemManager
pair new t trad pq k = do
  trad_kem ← new trad
  pq_kem ← new pq
  ok (composite (kem_info t) trad_kem pq_kem k)

-- `CompositeKemManager::new`, over the `KemManager::new` that it calls.
unfoldable pub new_composite : (KemType → Outcome KemManager) → KemType → Outcome KemManager
unfolding kem_info
new_composite new ml_kem512_p256 = pair new ml_kem512_p256 p256 ml_kem512 sha3_256
new_composite new ml_kem512_brainpool_p256r1 =
    pair new ml_kem512_brainpool_p256r1 brainpool_p256r1 ml_kem512 sha3_256
new_composite new ml_kem512_x25519 = pair new ml_kem512_x25519 x25519 ml_kem512 sha3_256
new_composite new ml_kem512_rsa2048 = pair new ml_kem512_rsa2048 rsa_oaep2048 ml_kem512 sha3_256
new_composite new ml_kem512_rsa3072 = pair new ml_kem512_rsa3072 rsa_oaep3072 ml_kem512 sha3_256
new_composite new ml_kem768_p256 = pair new ml_kem768_p256 p256 ml_kem768 sha3_384
new_composite new ml_kem768_rsa2048 = pair new ml_kem768_rsa2048 rsa_oaep2048 ml_kem768 hkdf_sha256
new_composite new ml_kem768_rsa3072 = pair new ml_kem768_rsa3072 rsa_oaep3072 ml_kem768 hkdf_sha256
new_composite new ml_kem768_rsa4096 = pair new ml_kem768_rsa4096 rsa_oaep4096 ml_kem768 hkdf_sha256
new_composite new ml_kem768_x25519 = pair new ml_kem768_x25519 x25519 ml_kem768 sha3_384
new_composite new ml_kem768_p384 = pair new ml_kem768_p384 p384 ml_kem768 hkdf_sha384
new_composite new ml_kem768_brainpool_p256r1 =
    pair new ml_kem768_brainpool_p256r1 brainpool_p256r1 ml_kem768 hkdf_sha384
new_composite new ml_kem1024_p384 = pair new ml_kem1024_p384 p384 ml_kem1024 sha3_512
new_composite new ml_kem1024_brainpool_p384r1 =
    pair new ml_kem1024_brainpool_p384r1 brainpool_p384r1 ml_kem1024 sha3_512
new_composite new ml_kem1024_x448 = pair new ml_kem1024_x448 x448 ml_kem1024 sha3_512
new_composite new _ = err not_implemented

-- `KemManager::new`. The fuel bounds the depth of composites in composites.
unfoldable pub new : ℕ → KemType → Outcome KemManager
unfolding contains ml_kem_types rsa_kem_types ec_kem_types composite_kem_types new_composite Ec.new
new zero t = diverges
new (suc n) t =
    if contains ml_kem_types t
    then ok (ml (kem_info t))
    else if contains rsa_kem_types t
    then ok (rsa (kem_info t))
    else if contains ec_kem_types t
    then (do m ← Ec.new t; ok (ec m))
    else if contains composite_kem_types t
    then new_composite (new n) t
    else panic

-- `KemManager::new` with fuel that is enough for every type.
unfoldable pub kem_manager : KemType → Outcome KemManager
unfolding new
kem_manager t = new 2 t

-- The code outside the crate that the managers call. `candidates` bounds the numbers that the search
-- for a private key of a curve draws before the model gives it up.
pub record Primitives (W R : Type 0) : Type 1 where
  pub der : Der
  pub hashes : Hashes
  pub from_entropy : W → R × W
  pub ml_kem_crate : MlKemCrate R
  pub openssl : Openssl W R
  pub candidates : ℕ
  pub rsa_crate : RsaCrate R

-- `impl Kem for KemManager`: each operation is that of the variant.
module _ {W R : Type 0} (p : Primitives W R) where
  unfoldable pub operations : KemManager → Kem W R
  operations (ml info) = ml_kem p.ml_kem_crate p.from_entropy info
  operations (rsa info) = rsa_kem p.rsa_crate p.from_entropy info
  operations (ec m) = ec_kem (kem_utils p.candidates p.openssl) m
  operations (composite info trad pq k) =
      kem p.der p.hashes info (operations trad) (operations pq) k
