-- ===== src/Utils/Filled.antt =====
-- utils/openssl_utils.rs in the places of the interfaces of kem/ec_kem.rs and dsa/ec_dsa.rs.
use qubitcrypt.Prelude.{ℕ}
use qubitcrypt.Outcome.{Bytes}
use qubitcrypt.Kem.Ec.{PkeyId, id_x25519, id_x448}
use qubitcrypt.Kem.Ec as Kem
use qubitcrypt.Dsa.Ec.{EdId, id_ed25519, id_ed448}
use qubitcrypt.Dsa.Ec as Dsa
use qubitcrypt.Utils.{
  RawId, x448, x25519, ed25519, ed448, Openssl, encaps_ec_based, decaps_ec_based,
  get_key_pair_ec_based, get_key_pair_ec_based_with_rng, get_key_pair_pkey_based,
  get_keypair_pkey_based_with_rng, encaps_pkey_based, decaps_pkey_based, get_pk_from_sk_ec_based,
  get_pk_from_sk_pkey_based, sign_ec_based, sign_pkey_based, verify_ec_based, verify_pkey_based,
}

-- The values of `Id` under the names that the two modules give them.
abbrev pub raw_of : PkeyId → RawId
raw_of id_x25519 = x25519
raw_of id_x448 = x448

abbrev pub raw_of_ed : EdId → RawId
raw_of_ed id_ed25519 = ed25519
raw_of_ed id_ed448 = ed448

-- `fuel` bounds the candidates that the search for a private key draws.
module _ {W R : Type 0} (fuel : ℕ) (o : Openssl W R) where
  abbrev pub kem_utils : Kem.OpensslUtils W R
  kem_utils = record {
    get_key_pair_ec_based = get_key_pair_ec_based o;
    get_key_pair_pkey_based = λ i. get_key_pair_pkey_based o (raw_of i);
    get_key_pair_ec_based_with_rng = get_key_pair_ec_based_with_rng o fuel;
    get_keypair_pkey_based_with_rng = λ i. get_keypair_pkey_based_with_rng o (raw_of i);
    encaps_ec_based = encaps_ec_based o;
    encaps_pkey_based = λ i pk. encaps_pkey_based o pk (raw_of i);
    decaps_ec_based = λ n sk ct. decaps_ec_based o n sk ct;
    decaps_pkey_based = λ i sk ct. decaps_pkey_based o sk ct (raw_of i);
  }

  -- `generate` is that of the crates of Ed25519 and Ed448.
  abbrev pub dsa_utils : (EdId → R → (Bytes × Bytes) × R) → Dsa.OpensslUtils W R
  dsa_utils generate = record {
    get_key_pair_ec_based = get_key_pair_ec_based o;
    get_key_pair_pkey_based = λ i. get_key_pair_pkey_based o (raw_of_ed i);
    get_key_pair_ec_based_with_rng = get_key_pair_ec_based_with_rng o fuel;
    generate_ed = generate;
    sign_ec_based = sign_ec_based o;
    sign_pkey_based = λ i. sign_pkey_based o (raw_of_ed i);
    verify_ec_based = verify_ec_based o;
    verify_pkey_based = λ i. verify_pkey_based o (raw_of_ed i);
    get_pk_from_sk_ec_based = get_pk_from_sk_ec_based o;
    get_pk_from_sk_pkey_based = λ k i. get_pk_from_sk_pkey_based o k (raw_of_ed i);
  }
