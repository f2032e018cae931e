-- ===== src/Tests/KemExamples.antt =====
-- The KEM theorems at a hybrid of ML-KEM-768 and X25519 over the small instances.
use qubitcrypt.Prelude.{ℕ, ◌≡◌, refl, replicate, [], ◌∷◌, none, some}
use qubitcrypt.Outcome.{Bytes, ok}
use qubitcrypt.Asn1.Der.{oid_to_der}
use qubitcrypt.Asn1.CompositePublicKey
use qubitcrypt.Asn1.CompositePrivateKey
use qubitcrypt.Kem.Types
use qubitcrypt.Kem.Types.{ml_kem768, x25519, ml_kem768_x25519}
use qubitcrypt.Kem.Info.{kem_info}
use qubitcrypt.Kem.Kdf.{kdf, sha3_384}
use qubitcrypt.Kem.Ml as Ml
use qubitcrypt.Kem.Ec as Ec
use qubitcrypt.Kem.Ec.{id_x25519, EcKemManager}
use qubitcrypt.Kem.Composite.Parts.{new_ciphertext, combiner, key_gen_composite, decap}
use qubitcrypt.Kem.Composite.Operations.{key_gen, key_gen_with_rng, encap, kem}
use qubitcrypt.Kem.Manager.{KemManager, ml, ec, composite, operations, new, new_composite}
use qubitcrypt.Kem.Manager.Correct.{decap-encap}
use qubitcrypt.Kem.Manager.Built.{Builds, new-Builds}
use qubitcrypt.Kem.Manager.Lengths.{IsConsistent, new_composite-IsConsistent}
use qubitcrypt.Kem.Composite.Correct.{composite-decap-encap}
use qubitcrypt.Kem.Ec.Correct.{ec_kem-IsCorrect}
use qubitcrypt.Kem.Ml.Correct.{ml_kem-IsCorrect}
use qubitcrypt.Asn1.Codec.{public-round_trip, private-round_trip}
use qubitcrypt.Asn1.CompositePublicKey.{CompositePublicKey}
use qubitcrypt.Asn1.CompositePrivateKey.{CompositePrivateKey}
use qubitcrypt.Asn1.Der.{PrivateKeyInfo}
use qubitcrypt.Utils.{
  get_key_pair_pkey_based, get_keypair_pkey_based_with_rng, raw_pair, raw_secret, encaps_pkey_based,
  decaps_pkey_based,
}
use qubitcrypt.Utils.Filled.{kem_utils}
use qubitcrypt.Utils.Exchanged.{kem_utils-IsLawful}
use qubitcrypt.Tests.Kems.{toy, toy-IsLawful}

-- The manager of ML-KEM-768 with X25519.
abbrev pub hybrid : KemManager
hybrid =
    composite (kem_info ml_kem768_x25519)
      (ec (record { info = kem_info x25519; ec_based_nid = none; pk_based_id = some id_x25519 }))
      (ml (kem_info ml_kem768)) sha3_384

abbrev pk : Bytes
pk = 1 ∷ 6 ∷ 5 ∷ []

abbrev sk : Bytes
sk = 3 ∷ 2 ∷ 1 ∷ 6 ∷ 1 ∷ 1 ∷ 5 ∷ 1 ∷ 5 ∷ []

abbrev ss : Bytes
ss = replicate 48 40

abbrev ct : Bytes
ct = 1 ∷ 14 ∷ 7 ∷ []

decap-encap_example : (operations toy hybrid).decap sk ct ≡ ok ss
unfolding operations kem key_gen key_gen_with_rng encap decap Ml.ml_kem Ml.key_gen_with_rng
    Ml.generate_at Ml.encap_with Ml.encapsulate_at Ml.decap Ml.decapsulate_at Ec.ec_kem Ec.key_gen
    Ec.key_gen_with_rng Ec.encap Ec.decap key_gen_composite combiner new_ciphertext kdf oid_to_der
    CompositePublicKey.new CompositePublicKey.to_der CompositePublicKey.from_der
    CompositePrivateKey.new CompositePrivateKey.to_der CompositePrivateKey.from_der
    CompositePrivateKey.get_pq_sk CompositePrivateKey.get_trad_sk kem_info Types.get_oid
    get_key_pair_pkey_based get_keypair_pkey_based_with_rng raw_pair raw_secret encaps_pkey_based
    decaps_pkey_based
decap-encap_example = decap-encap toy toy-IsLawful hybrid 5 pk sk 7 refl 7 ss ct 9 refl

abbrev x25519_manager : EcKemManager
x25519_manager = record {
  info = kem_info x25519;
  ec_based_nid = none;
  pk_based_id = some id_x25519;
}

composite-decap-encap_example : (operations toy hybrid).decap sk ct ≡ ok ss
unfolding operations kem key_gen key_gen_with_rng encap decap Ml.ml_kem Ml.key_gen_with_rng
    Ml.generate_at Ml.encap_with Ml.encapsulate_at Ml.decap Ml.decapsulate_at Ec.ec_kem Ec.key_gen
    Ec.key_gen_with_rng Ec.encap Ec.decap key_gen_composite combiner new_ciphertext kdf oid_to_der
    CompositePublicKey.new CompositePublicKey.to_der CompositePublicKey.from_der
    CompositePrivateKey.new CompositePrivateKey.to_der CompositePrivateKey.from_der
    CompositePrivateKey.get_pq_sk CompositePrivateKey.get_trad_sk kem_info Types.get_oid
    get_key_pair_pkey_based get_keypair_pkey_based_with_rng raw_pair raw_secret encaps_pkey_based
    decaps_pkey_based
composite-decap-encap_example =
    composite-decap-encap toy.der toy-IsLawful.der toy.hashes (kem_info ml_kem768_x25519)
      (Ec.ec_kem (kem_utils toy.candidates toy.openssl) x25519_manager)
      (Ml.ml_kem toy.ml_kem_crate toy.from_entropy (kem_info ml_kem768)) sha3_384
      (ec_kem-IsCorrect (kem_utils toy.candidates toy.openssl)
        (kem_utils-IsLawful toy.openssl toy-IsLawful.openssl toy.candidates) x25519_manager)
      (ml_kem-IsCorrect toy.ml_kem_crate toy-IsLawful.ml_kem_crate toy.from_entropy
        (kem_info ml_kem768))
      5 pk sk 7 refl 7 ss ct 9 refl

new-Builds_example : Builds ml_kem768_x25519 (new 5 ml_kem768_x25519)
new-Builds_example = new-Builds 3 ml_kem768_x25519

new_composite-IsConsistent_example :
    IsConsistent ml_kem768_x25519 (new_composite (new 2) ml_kem768_x25519)
new_composite-IsConsistent_example = new_composite-IsConsistent 1 ml_kem768_x25519

abbrev public_key : CompositePublicKey
public_key = record { oid = "2.16.840.1.114027.80.5.2.7"; pq_pk = 6 ∷ []; trad_pk = 5 ∷ [] }

public-round_trip_example : CompositePublicKey.from_der toy.der public_key.oid pk ≡ ok public_key
unfolding CompositePublicKey.to_der
public-round_trip_example = public-round_trip toy.der toy-IsLawful.der public_key pk refl

abbrev pq_part : PrivateKeyInfo ℕ
pq_part = record { oid = 2; parameters = none; private_key = 6 ∷ []; public_key = none }

abbrev trad_part : PrivateKeyInfo ℕ
trad_part = record { oid = 1; parameters = none; private_key = 5 ∷ []; public_key = some (5 ∷ []) }

abbrev private_key : CompositePrivateKey
private_key = record {
  pq_sk_der = 2 ∷ 1 ∷ 6 ∷ [];
  trad_sk_der = 1 ∷ 1 ∷ 5 ∷ 1 ∷ 5 ∷ [];
  oid = "2.16.840.1.114027.80.5.2.7";
}

private-round_trip_example :
    (CompositePrivateKey.from_der toy.der private_key.oid sk ≡ ok private_key)
    × (CompositePrivateKey.get_pq_sk toy.der private_key ≡ ok pq_part)
    × (CompositePrivateKey.get_trad_sk toy.der private_key ≡ ok trad_part)
unfolding CompositePrivateKey.new CompositePrivateKey.to_der
private-round_trip_example =
    private-round_trip toy.der toy-IsLawful.der private_key.oid pq_part trad_part private_key sk
      refl refl
