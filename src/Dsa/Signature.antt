-- ===== src/Dsa/Signature.antt =====
-- dsa/asn1/composite_dsa_primitives.rs: a pair of signatures, the post-quantum one first.
use qubitcrypt.Prelude.{◌≡◌, some, arith}
use qubitcrypt.Outcome.{Bytes, Outcome, ok, ◌>>=◌, unwrap}
use qubitcrypt.Asn1.Der.{Der, IsLawful}

module _ (d : Der) where
  -- `CompositeSignatureValue::new`: `BitString::new` is unwrapped.
  unfoldable pub new : Bytes → Bytes → Outcome (d.BitString × d.BitString)
  new pq_sig trad_sig = do
    pq ← unwrap (d.bit_string pq_sig)
    trad ← unwrap (d.bit_string trad_sig)
    ok (pq, trad)

  -- `as_bytes` is unwrapped: a string of bits that is no string of octets is a panic.
  unfoldable pub get_pq_sig : d.BitString × d.BitString → Outcome Bytes
  get_pq_sig s = unwrap (d.bit_string_bytes s.0)

  unfoldable pub get_trad_sig : d.BitString × d.BitString → Outcome Bytes
  get_trad_sig s = unwrap (d.bit_string_bytes s.1)

module _ (d : Der) (l : IsLawful d) where
  -- The two signatures are read back from the DER of the composite one.
  pub signature-round_trip :
      (pq_sig trad_sig b : Bytes) (s : d.BitString × d.BitString)
      → new d pq_sig trad_sig ≡ ok s
      → d.encode_bit_strings s ≡ some b
      → (d.decode_bit_strings b ≡ some s)
        × (get_pq_sig d s ≡ ok pq_sig)
        × (get_trad_sig d s ≡ ok trad_sig)
  unfolding new get_pq_sig get_trad_sig
  signature-round_trip pq_sig trad_sig b s made encoded = grind (arith, l.bits, l.bit_strings)
