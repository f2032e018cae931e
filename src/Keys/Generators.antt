-- ===== src/Keys/Generators.antt =====
-- kem/api/key_generator.rs and dsa/api/key_generator.rs: pairs of keys for an algorithm.
use qubitcrypt.Outcome.{ok, map_err, key_pair_generation_failed}
use qubitcrypt.Effect.{Eff, pure, map_error, ◌>>=◌}
use qubitcrypt.Kem.Types as KemTypes
use qubitcrypt.Kem.Algorithm as KemAlgorithm
use qubitcrypt.Kem.Algorithm.{KemAlgorithm}
use qubitcrypt.Kem.Manager as KemManager
use qubitcrypt.Kem.Manager.{kem_manager}
use qubitcrypt.Dsa.Types as DsaTypes
use qubitcrypt.Dsa.Algorithm as DsaAlgorithm
use qubitcrypt.Dsa.Algorithm.{DsaAlgorithm}
use qubitcrypt.Dsa.Manager as DsaManager
use qubitcrypt.Dsa.Manager.{dsa_manager}
use qubitcrypt.Keys.PublicKey as Public
use qubitcrypt.Keys.PublicKey.{PublicKey}
use qubitcrypt.Keys.PrivateKey as Private
use qubitcrypt.Keys.PrivateKey.{PrivateKey}

module _ {W R : Type 0} where
  -- `KemKeyGenerator::generate`.
  unfoldable pub kem_generate :
      KemManager.Primitives W R → KemAlgorithm → Eff W (PublicKey × PrivateKey)
  unfolding KemAlgorithm.get_kem_type KemTypes.get_oid kem_manager KemManager.operations Public.new
      Private.new
  kem_generate p algorithm = do
    kem ← pure (kem_manager (KemAlgorithm.get_kem_type algorithm))
    keys ← map_error key_pair_generation_failed (KemManager.operations p kem).key_gen
    pk ← pure (
        map_err key_pair_generation_failed
          (Public.new (KemTypes.get_oid (KemAlgorithm.get_kem_type algorithm)) keys.0))
    sk ← pure (
        map_err key_pair_generation_failed
          (Private.new (KemTypes.get_oid (KemAlgorithm.get_kem_type algorithm)) keys.1))
    pure (ok (pk, sk))

  -- `DsaKeyGenerator::generate`.
  unfoldable pub dsa_generate :
      DsaManager.Primitives W R → DsaAlgorithm → Eff W (PublicKey × PrivateKey)
  unfolding DsaAlgorithm.get_dsa_type DsaTypes.get_oid dsa_manager DsaManager.operations Public.new
      Private.new
  dsa_generate p algorithm = do
    dsa ← pure (dsa_manager (DsaAlgorithm.get_dsa_type algorithm))
    keys ← (DsaManager.operations p dsa).key_gen
    pk ← pure (Public.new (DsaTypes.get_oid (DsaAlgorithm.get_dsa_type algorithm)) keys.0)
    sk ← pure (Private.new (DsaTypes.get_oid (DsaAlgorithm.get_dsa_type algorithm)) keys.1)
    pure (ok (pk, sk))
