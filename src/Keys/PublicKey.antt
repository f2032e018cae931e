-- ===== src/Keys/PublicKey.antt =====
-- asn1/public_key.rs: the struct `PublicKey` with its operations.
use qubitcrypt.Prelude.{String, Bool, true, not, none, if◌then◌else◌, str_eq}
use qubitcrypt.Outcome.{
  Bytes, Outcome, ok, err, ◌>>=◌, ok_or, map_err, or_false, invalid_public_key, invalid_oid,
  unsupported_operation,
}
use qubitcrypt.Effect
use qubitcrypt.Effect.{Eff, pure}
use qubitcrypt.Asn1.Der.{Der}
use qubitcrypt.Asn1.CompositePublicKey.{CompositePublicKey}
use qubitcrypt.Asn1.CompositePublicKey
use qubitcrypt.Oids.{is_valid_kem_or_dsa_oid, is_composite_kem_or_dsa_oid, is_kem_oid, is_dsa_oid}
use qubitcrypt.Kem.Trait as Kem
use qubitcrypt.Kem.Manager as KemManager
use qubitcrypt.Kem.Manager.{kem_manager}
use qubitcrypt.Dsa.Trait as Dsa
use qubitcrypt.Dsa.Manager as DsaManager
use qubitcrypt.Dsa.Manager.{dsa_manager}
use qubitcrypt.Keys.{Codecs}

pub record PublicKey : Type 0 where
  pub oid : String
  pub key : Bytes
  pub is_composite : Bool

-- The identifier with its test, and the key: the end of `new` and of `from_der`.
unfoldable pub new : String → Bytes → Outcome PublicKey
unfolding is_valid_kem_or_dsa_oid is_composite_kem_or_dsa_oid
new oid key =
    if not (is_valid_kem_or_dsa_oid oid)
    then err invalid_public_key
    else ok (record { oid = oid; key = key; is_composite = is_composite_kem_or_dsa_oid oid })

module _ (d : Der) where
  unfoldable pub from_composite : CompositePublicKey → Outcome PublicKey
  unfolding CompositePublicKey.to_der
  from_composite k = do
    key ← map_err invalid_public_key (CompositePublicKey.to_der d k)
    ok (record { oid = k.oid; key = key; is_composite = true })

  unfoldable pub to_bitstring : PublicKey → Outcome d.BitString
  to_bitstring k = ok_or invalid_public_key (d.bit_string k.key)

module _ (d : Der) (c : Codecs d) where
  unfoldable pub to_der : PublicKey → Outcome Bytes
  unfolding to_bitstring
  to_der k = do
    pk_bs ← to_bitstring d k
    oid ← ok_or invalid_public_key (d.parse_oid k.oid)
    ok_or invalid_public_key
        (c.encode_public_info (record { oid = oid; parameters = none; public_key = pk_bs }))

  unfoldable pub to_pem : PublicKey → Outcome String
  unfolding to_der
  to_pem k = do der ← map_err invalid_public_key (to_der k); ok (c.pem_encode "PUBLIC KEY" der)

  unfoldable pub from_der : Bytes → Outcome PublicKey
  unfolding new
  from_der der = do
    info ← ok_or invalid_public_key (c.decode_public_info der)
    pk_bytes ← ok_or invalid_public_key (d.bit_string_bytes info.public_key)
    new (d.oid_to_string info.oid) pk_bytes

  unfoldable pub from_pem : String → Outcome PublicKey
  unfolding from_der
  from_pem text = ok_or invalid_public_key (c.pem_parse text) >>= λ pem.
      if not (str_eq pem.0 "PUBLIC KEY") then err invalid_public_key else from_der pem.1

module _ {W R : Type 0} where
  unfoldable pub verify : DsaManager.Primitives W R → PublicKey → Bytes → Bytes → Outcome Bool
  unfolding is_dsa_oid Dsa.new_from_oid dsa_manager DsaManager.operations
  verify p k message signature = if not (is_dsa_oid k.oid) then err unsupported_operation else (do
    dsa ← map_err invalid_oid (Dsa.new_from_oid dsa_manager k.oid)
    or_false ((DsaManager.operations p dsa).verify k.key message signature))

  -- The pair is (ss, ct), as the manager gives it.
  unfoldable pub encap : KemManager.Primitives W R → PublicKey → Eff W (Bytes × Bytes)
  unfolding is_kem_oid Kem.new_from_oid kem_manager KemManager.operations
  encap p k =
      if not (is_kem_oid k.oid)
      then pure (err unsupported_operation)
      else Effect.◌>>=◌ (pure (map_err invalid_oid (Kem.new_from_oid kem_manager k.oid)))
          (λ kem. (KemManager.operations p kem).encap k.key)
