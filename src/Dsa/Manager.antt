-- ===== src/Dsa/Manager.antt =====
-- dsa/dsa_manager.rs, and `CompositeDsaManager::new` of dsa/composite_dsa.rs: the manager of any
-- signature scheme, an enumeration of the managers of the five families.
pub mod Built
pub mod Correct
use qubitcrypt.Prelude.{ℕ, zero, suc, List, [], ◌∷◌, if◌then◌else◌}
use qubitcrypt.Outcome.{Bytes, Outcome, ok, err, panic, diverges, ◌>>=◌, not_implemented}
use qubitcrypt.Asn1.Der.{Der}
use qubitcrypt.Dsa.Types.{
  DsaType, contains, rsa2048_pss_sha256, rsa2048_pkcs15_sha256, rsa3072_pss_sha512,
  rsa3072_pkcs15_sha512, ecdsa_p256_sha256, ecdsa_p256_sha512, ecdsa_p384_sha512,
  ecdsa_brainpool_p256r1_sha512, ecdsa_brainpool_p256r1_sha256, ecdsa_brainpool_p384r1_sha512,
  ed25519_sha512, ed448_sha512, ml_dsa44, ml_dsa65, ml_dsa87, ml_dsa44_rsa2048_pss_sha256,
  ml_dsa44_rsa2048_pkcs15_sha256, ml_dsa44_ed25519_sha512, ml_dsa44_ecdsa_p256_sha256,
  ml_dsa44_ecdsa_brainpool_p256r1_sha256, ml_dsa65_rsa3072_pss_sha512,
  ml_dsa65_rsa3072_pkcs15_sha512, ml_dsa65_ecdsa_p256_sha512,
  ml_dsa65_ecdsa_brainpool_p256r1_sha512, ml_dsa65_ed25519_sha512, ml_dsa87_ecdsa_p384_sha512,
  ml_dsa87_ecdsa_brainpool_p384r1_sha512, ml_dsa87_ed448_sha512, slh_dsa_sha2_128s,
  slh_dsa_sha2_128f, slh_dsa_sha2_192s, slh_dsa_sha2_192f, slh_dsa_sha2_256s, slh_dsa_sha2_256f,
  slh_dsa_shake128s, slh_dsa_shake128f, slh_dsa_shake192s, slh_dsa_shake192f, slh_dsa_shake256s,
  slh_dsa_shake256f,
}
use qubitcrypt.Dsa.Info.{DsaInfo, dsa_info}
use qubitcrypt.Dsa.Trait.{Dsa}
use qubitcrypt.Dsa.Fips.{FipsCrate, MlSet, SlhSet, ml_set, slh_set, fips_dsa}
use qubitcrypt.Dsa.Rsa.{RsaCrates, rsa_dsa}
use qubitcrypt.Dsa.Ec
use qubitcrypt.Dsa.Ec.{EdId, EcDsaManager, ec_dsa}
use qubitcrypt.Utils.{Openssl}
use qubitcrypt.Utils.Filled.{dsa_utils}
use qubitcrypt.Dsa.Composite.{MessageDigest, sha256, sha512, Hasher, dsa}

-- The structs of the families stand in the constructors: the ML-DSA, RSA and SLH-DSA managers are
-- their `DsaInfo`; the composite one holds two managers and its digest.
pub data DsaManager : Type 0 where
  ml : DsaInfo → DsaManager
  rsa : DsaInfo → DsaManager
  ec : EcDsaManager → DsaManager
  composite : DsaInfo → DsaManager → DsaManager → MessageDigest → DsaManager
  slh : DsaInfo → DsaManager

unfoldable pub ml_dsa_types : List DsaType
ml_dsa_types = ml_dsa44 ∷ ml_dsa65 ∷ ml_dsa87 ∷ []

unfoldable pub rsa_dsa_types : List DsaType
rsa_dsa_types =
    rsa2048_pkcs15_sha256 ∷ rsa2048_pss_sha256 ∷ rsa3072_pkcs15_sha512 ∷ rsa3072_pss_sha512 ∷ []

unfoldable pub ec_dsa_types : List DsaType
ec_dsa_types =
    ecdsa_p256_sha256 ∷ ecdsa_p256_sha512 ∷ ecdsa_p384_sha512 ∷ ecdsa_brainpool_p256r1_sha512
    ∷ ecdsa_brainpool_p256r1_sha256 ∷ ecdsa_brainpool_p384r1_sha512 ∷ ed25519_sha512 ∷ ed448_sha512
    ∷ []

unfoldable pub composite_dsa_types : List DsaType
composite_dsa_types =
    ml_dsa44_rsa2048_pss_sha256 ∷ ml_dsa44_rsa2048_pkcs15_sha256 ∷ ml_dsa44_ed25519_sha512
    ∷ ml_dsa44_ecdsa_p256_sha256 ∷ ml_dsa44_ecdsa_brainpool_p256r1_sha256
    ∷ ml_dsa65_rsa3072_pss_sha512 ∷ ml_dsa65_rsa3072_pkcs15_sha512 ∷ ml_dsa65_ecdsa_p256_sha512
    ∷ ml_dsa65_ecdsa_brainpool_p256r1_sha512 ∷ ml_dsa65_ed25519_sha512 ∷ ml_dsa87_ecdsa_p384_sha512
    ∷ ml_dsa87_ecdsa_brainpool_p384r1_sha512 ∷ ml_dsa87_ed448_sha512 ∷ []

unfoldable pub slh_dsa_types : List DsaType
slh_dsa_types =
    slh_dsa_sha2_128s ∷ slh_dsa_sha2_128f ∷ slh_dsa_sha2_192s ∷ slh_dsa_sha2_192f
    ∷ slh_dsa_sha2_256s ∷ slh_dsa_sha2_256f ∷ slh_dsa_shake128s ∷ slh_dsa_shake128f
    ∷ slh_dsa_shake192s ∷ slh_dsa_shake192f ∷ slh_dsa_shake256s ∷ slh_dsa_shake256f ∷ []

-- One arm of `CompositeDsaManager::new`: its two managers, the traditional one first.
abbrev pub pair :
    (DsaType → Outcome DsaManager)
    → DsaType
    → DsaType
    → DsaType
    → MessageDigest
    → Outcome DsaManager
pair new t trad pq md = do
  trad_dsa ← new trad
  pq_dsa ← new pq
  ok (composite (dsa_info t) trad_dsa pq_dsa md)

-- `CompositeDsaManager::new`, over the `DsaManager::new` that it calls.
unfoldable pub new_composite : (DsaType → Outcome DsaManager) → DsaType → Outcome DsaManager
unfolding dsa_info
new_composite new ml_dsa44_rsa2048_pss_sha256 =
    pair new ml_dsa44_rsa2048_pss_sha256 rsa2048_pss_sha256 ml_dsa44 sha256
new_composite new ml_dsa44_rsa2048_pkcs15_sha256 =
    pair new ml_dsa44_rsa2048_pkcs15_sha256 rsa2048_pkcs15_sha256 ml_dsa44 sha256
new_composite new ml_dsa44_ed25519_sha512 =
    pair new ml_dsa44_ed25519_sha512 ed25519_sha512 ml_dsa44 sha512
new_composite new ml_dsa44_ecdsa_p256_sha256 =
    pair new ml_dsa44_ecdsa_p256_sha256 ecdsa_p256_sha256 ml_dsa44 sha256
new_composite new ml_dsa44_ecdsa_brainpool_p256r1_sha256 =
    pair new ml_dsa44_ecdsa_brainpool_p256r1_sha256 ecdsa_brainpool_p256r1_sha256 ml_dsa44 sha256
new_composite new ml_dsa65_rsa3072_pss_sha512 =
    pair new ml_dsa65_rsa3072_pss_sha512 rsa3072_pss_sha512 ml_dsa65 sha512
new_composite new ml_dsa65_rsa3072_pkcs15_sha512 =
    pair new ml_dsa65_rsa3072_pkcs15_sha512 rsa3072_pkcs15_sha512 ml_dsa65 sha512
new_composite new ml_dsa65_ecdsa_p256_sha512 =
    pair new ml_dsa65_ecdsa_p256_sha512 ecdsa_p256_sha512 ml_dsa65 sha512
new_composite new ml_dsa65_ecdsa_brainpool_p256r1_sha512 =
    pair new ml_dsa65_ecdsa_brainpool_p256r1_sha512 ecdsa_brainpool_p256r1_sha512 ml_dsa65 sha512
new_composite new ml_dsa65_ed25519_sha512 =
    pair new ml_dsa65_ed25519_sha512 ed25519_sha512 ml_dsa65 sha512
new_composite new ml_dsa87_ecdsa_p384_sha512 =
    pair new ml_dsa87_ecdsa_p384_sha512 ecdsa_p384_sha512 ml_dsa87 sha512
new_composite new ml_dsa87_ecdsa_brainpool_p384r1_sha512 =
    pair new ml_dsa87_ecdsa_brainpool_p384r1_sha512 ecdsa_brainpool_p384r1_sha512 ml_dsa87 sha512
new_composite new ml_dsa87_ed448_sha512 =
    pair new ml_dsa87_ed448_sha512 ed448_sha512 ml_dsa87 sha512
new_composite new _ = err not_implemented

-- `DsaManager::new`. The fuel bounds the depth of composites in composites.
unfoldable pub new : ℕ → DsaType → Outcome DsaManager
unfolding contains ml_dsa_types rsa_dsa_types ec_dsa_types slh_dsa_types composite_dsa_types
    new_composite Ec.new
new zero t = diverges
new (suc n) t =
    if contains ml_dsa_types t
    then ok (ml (dsa_info t))
    else if contains rsa_dsa_types t
    then ok (rsa (dsa_info t))
    else if contains slh_dsa_types t
    then ok (slh (dsa_info t))
    else if contains ec_dsa_types t
    then (do m ← Ec.new t; ok (ec m))
    else if contains composite_dsa_types t
    then new_composite (new n) t
    else panic

-- `DsaManager::new` with fuel that is enough for every type.
unfoldable pub dsa_manager : DsaType → Outcome DsaManager
unfolding new
dsa_manager t = new 2 t

-- The code outside the crate that the managers call. `candidates` bounds the numbers that the search
-- for a private key of a curve draws before the model gives it up; `generate_ed` is
-- `SigningKey::generate` of ed25519_dalek and `PrivateKey::new` of ed448_rust with the public key.
pub record Primitives (W R : Type 0) : Type 1 where
  pub der : Der
  pub hasher : Hasher
  pub from_entropy : W → R × W
  pub fips204 : FipsCrate MlSet W R
  pub fips205 : FipsCrate SlhSet W R
  pub rsa_crates : RsaCrates W R
  pub openssl : Openssl W R
  pub generate_ed : EdId → R → (Bytes × Bytes) × R
  pub candidates : ℕ

-- `impl Dsa for DsaManager`: each operation is that of the variant.
module _ {W R : Type 0} (p : Primitives W R) where
  unfoldable pub operations : DsaManager → Dsa W R
  operations (ml info) = fips_dsa p.fips204 p.from_entropy ml_set info
  operations (rsa info) = rsa_dsa p.rsa_crates p.from_entropy info
  operations (ec m) = ec_dsa (dsa_utils p.candidates p.openssl p.generate_ed) m
  operations (composite info trad pq md) =
      dsa p.der p.hasher info (operations trad) (operations pq) md
  operations (slh info) = fips_dsa p.fips205 p.from_entropy slh_set info
