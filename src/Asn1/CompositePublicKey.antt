-- ===== src/Asn1/CompositePublicKey.antt =====
-- asn1/composite_public_key.rs: a pair of public keys, the post-quantum one first.
use qubitcrypt.Prelude.{String}
use qubitcrypt.Outcome.{Bytes, Outcome, ok, ◌>>=◌, ok_or, invalid_public_key}
use qubitcrypt.Asn1.Der.{Der}

pub record CompositePublicKey : Type 0 where
  pub oid : String
  pub pq_pk : Bytes
  pub trad_pk : Bytes

unfoldable pub new : String → Bytes → Bytes → CompositePublicKey
new oid pq_pk trad_pk = record { oid = oid; pq_pk = pq_pk; trad_pk = trad_pk }

module _ (d : Der) where
  unfoldable pub from_der : String → Bytes → Outcome CompositePublicKey
  unfolding new
  from_der oid der = do
    comp_pk ← ok_or invalid_public_key (d.decode_bit_strings der)
    pq_pk ← ok_or invalid_public_key (d.bit_string_bytes comp_pk.0)
    trad_pk ← ok_or invalid_public_key (d.bit_string_bytes comp_pk.1)
    ok (new oid pq_pk trad_pk)

  unfoldable pub to_der : CompositePublicKey → Outcome Bytes
  to_der k = do
    pq_pk ← ok_or invalid_public_key (d.bit_string k.pq_pk)
    trad_pk ← ok_or invalid_public_key (d.bit_string k.trad_pk)
    ok_or invalid_public_key (d.encode_bit_strings (pq_pk, trad_pk))
