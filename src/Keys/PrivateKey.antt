-- ===== src/Keys/PrivateKey.antt =====
-- asn1/private_key.rs: the struct `PrivateKey` with its operations.
use qubitcrypt.Prelude.{String, Bool, true, not, Option, none, if◌then◌else◌, str_eq}
use qubitcrypt.Outcome.{
  Bytes, Outcome, ok, err, panic, ◌>>=◌, ok_or, map_err, unwrap_result, if_ok, invalid_private_key,
  invalid_certificate, file_read_error, unsupported_operation,
}
use qubitcrypt.Effect
use qubitcrypt.Effect.{Eff, pure}
use qubitcrypt.Asn1.Der.{Der}
use qubitcrypt.Asn1.CompositePrivateKey.{CompositePrivateKey}
use qubitcrypt.Asn1.CompositePrivateKey
use qubitcrypt.Oids.{is_valid_kem_or_dsa_oid, is_composite_kem_or_dsa_oid, is_dsa_oid}
use qubitcrypt.Kem.Trait as Kem
use qubitcrypt.Kem.Manager as KemManager
use qubitcrypt.Kem.Manager.{kem_manager}
use qubitcrypt.Dsa.Trait as Dsa
use qubitcrypt.Dsa.Manager as DsaManager
use qubitcrypt.Dsa.Manager.{dsa_manager}
use qubitcrypt.Keys.{Codecs}
use qubitcrypt.Keys.PublicKey.{PublicKey}
use qubitcrypt.Keys.PublicKey

pub record PrivateKey : Type 0 where
  pub oid : String
  pub private_key : Bytes
  pub is_composite : Bool

-- The identifier with its test, and the key: `new`, and the end of `from_der`.
unfoldable pub new : String → Bytes → Outcome PrivateKey
unfolding is_valid_kem_or_dsa_oid is_composite_kem_or_dsa_oid
new oid key =
    if not (is_valid_kem_or_dsa_oid oid)
    then err invalid_private_key
    else ok
        (record { oid = oid; private_key = key; is_composite = is_composite_kem_or_dsa_oid oid })

module _ (d : Der) where
  unfoldable pub from_composite : CompositePrivateKey → Outcome PrivateKey
  unfolding CompositePrivateKey.to_der
  from_composite k = do
    key ← map_err invalid_private_key (CompositePrivateKey.to_der d k)
    ok (record { oid = k.oid; private_key = key; is_composite = true })

  unfoldable pub to_der : PrivateKey → Outcome Bytes
  to_der k = do
    oid ← ok_or invalid_private_key (d.parse_oid k.oid)
    ok_or invalid_private_key (
        d.encode_key_info
          (record { oid = oid; parameters = none; private_key = k.private_key; public_key = none }))

  unfoldable pub from_der : Bytes → Outcome PrivateKey
  unfolding new
  from_der der = do
    info ← ok_or invalid_private_key (d.decode_key_info der)
    new (d.oid_to_string info.oid) info.private_key

module _ (d : Der) (c : Codecs d) where
  unfoldable pub to_pem : PrivateKey → Outcome String
  unfolding to_der
  to_pem k = do der ← map_err invalid_private_key (to_der d k); ok (c.pem_encode "PRIVATE KEY" der)

  unfoldable pub from_pem : String → Outcome PrivateKey
  unfolding from_der
  from_pem text = ok_or invalid_private_key (c.pem_parse text) >>= λ pem.
      if not (str_eq pem.0 "PRIVATE KEY") then err invalid_private_key else from_der d pem.1

  -- `from_file`, over what reading the file gives: DER, then PEM.
  unfoldable pub from_file : Option Bytes → Outcome PrivateKey
  unfolding from_der from_pem
  from_file file = do
    contents ← ok_or file_read_error file
    if_ok (from_der d contents) (λ sk. ok sk)
        (do
          pem ← ok_or invalid_certificate (c.from_utf8 contents)
          if_ok (from_pem pem) (λ sk. ok sk) (err invalid_private_key))

module _ {W R : Type 0} where
  unfoldable pub sign : DsaManager.Primitives W R → PrivateKey → Bytes → Eff W Bytes
  unfolding is_dsa_oid Dsa.new_from_oid dsa_manager DsaManager.operations
  sign p k tbs =
      if not (is_dsa_oid k.oid)
      then pure (err unsupported_operation)
      else Effect.◌>>=◌ (pure (Dsa.new_from_oid dsa_manager k.oid))
          (λ dsa. (DsaManager.operations p dsa).sign k.private_key tbs)

  unfoldable pub decap : KemManager.Primitives W R → PrivateKey → Bytes → Outcome Bytes
  unfolding is_dsa_oid Kem.new_from_oid kem_manager KemManager.operations
  decap p k ct = if is_dsa_oid k.oid then err unsupported_operation else (do
    kem ← Kem.new_from_oid kem_manager k.oid
    (KemManager.operations p kem).decap k.private_key ct)

  unfoldable pub verifying_key : DsaManager.Primitives W R → PrivateKey → Outcome PublicKey
  unfolding is_dsa_oid Dsa.new_from_oid dsa_manager DsaManager.operations PublicKey.new
  verifying_key p k = if not (is_dsa_oid k.oid) then panic else (do
    dsa ← unwrap_result (Dsa.new_from_oid dsa_manager k.oid)
    pk ← unwrap_result ((DsaManager.operations p dsa).get_public_key k.private_key)
    unwrap_result (PublicKey.new k.oid pk))
