-- ===== src/Lib.antt =====
-- qubitcrypt: post-quantum, traditional and composite KEMs and signatures, and their encodings.
--
-- The crate builds managers for KEMs and signature schemes behind two traits. A composite manager
-- holds two others, a traditional and a post-quantum one, and puts their keys, ciphertexts and
-- signatures into ASN.1 pairs. Identifiers choose the managers.
--
-- Prelude and its children: numbers, lists, options and tests that all files share.
-- Outcome: src/errors.rs, and the outcome of a call: a value, an error, a panic, or a recursion
-- deeper than the fuel. Effect: calls that draw on the machine's entropy or on a caller's
-- generator, whose state they thread in the order of the calls.
-- Asn1/Der: the encoders of the der and pkcs8 crates as a parameter, and oid_to_der of
-- src/asn1/asn_util.rs. Asn1/CompositePublicKey, Asn1/CompositePrivateKey:
-- src/asn1/composite_public_key.rs and src/asn1/composite_private_key.rs. Asn1/Codec: their round
-- trips.
-- Kem/Types, Kem/Info, Kem/Kdf, Kem/Trait: src/kem/common. Kem/Algorithm:
-- src/kem/api/algorithm.rs. A trait is a record of operations, and an implementation is a
-- function from a manager into that record.
-- Kem/Ml, Kem/Ec, Kem/Rsa: src/kem/ml_kem.rs, src/kem/ec_kem.rs and src/kem/rsa_kem.rs, each over
-- the crate that it calls as a parameter; the file Correct below each holds the laws of that
-- crate that the proofs use.
-- Utils: src/utils/openssl_utils.rs, over openssl as a parameter. Kem/Ec and Dsa/Ec state as an
-- interface what they use of it; Filled puts it there, Lawful has what the proofs rely on of
-- openssl and what a generated pair is, Exchanged and Signed are about the laws of the two
-- interfaces, Sampling is about the loop that searches a private key.
-- Kem/Composite: src/kem/composite_kem.rs, over any two KEMs. Parts has what touches no
-- randomness, Keys what a generated pair holds, Operations the trait, Correct the agreement of
-- encap and decap.
-- Kem/Manager: src/kem/kem_manager.rs and the constructor of the composite. Built says where new
-- succeeds, Lengths compares the published lengths with DER, Correct puts the families together.
-- Dsa/Types, Dsa/Info, Dsa/Trait, Dsa/Algorithm: src/dsa/common and src/dsa/api/algorithm.rs.
-- Dsa/Signature and Dsa/Composite: src/dsa/asn1/composite_dsa_primitives.rs and
-- src/dsa/composite_dsa.rs, over any two signature schemes. Dsa/Fips: src/dsa/ml_dsa.rs and
-- src/dsa/slh_dsa.rs, whose macros agree. Dsa/Rsa, Dsa/Ec: src/dsa/rsa_dsa.rs and
-- src/dsa/ec_dsa.rs. Dsa/Manager: src/dsa/dsa_manager.rs and the constructor of the composite.
-- Certificate: the checks of src/asn1/certificate.rs; Accepted says what they accept, Answers
-- that they end. Store: src/cms/directory_cert_store.rs; Chains has the relation that find_parent
-- searches and its loops, Termination when it ends, Search what find returns, Classified what new
-- makes.
-- Wrap, Kdf, Cea: src/wrap, src/kdf and src/cea. A manager is its type, since the code keeps
-- nothing else in it. Wrap/Guards has the guards of wrapping, Kdf/Derived the lengths of what is
-- derived, Cea/Correct the encodings of contents and their encryption.
-- Keys: the key objects of src/asn1/public_key.rs and src/asn1/private_key.rs in Keys/PublicKey
-- and Keys/PrivateKey, and the key generators of src/kem/api/key_generator.rs and
-- src/dsa/api/key_generator.rs in Keys/Generators. Valid says what keys hold, Encoded is about
-- their DER and PEM, Kinds about the two kinds of keys, Agreement about generated pairs.
-- Cms: the structures of src/cms/asn1/kemri.rs and src/cms/asn1/auth_env_data.rs, and what the
-- files below use of other crates. Cms/Kemri: src/cms/asn1/kemri_builder.rs, with get_kek and
-- get_cek of src/cms/cms_util.rs and is_identified_by of src/asn1/certificate.rs; Recovered and
-- Opened follow a content key to its holder. Cms/Decrypt: the decryption of src/cms/cms_util.rs;
-- Searched is about its loop. Cms/Sealed: src/cms/asn1/auth_enveloped_data_builder.rs; Built and
-- Roundtrip follow a content through it. Cms/Builder: src/cms/enveloped_data_builder.rs, with the
-- operations that add recipients in Recipients and those that build in Build; Consistent has its
-- invariant, Ordered the order of recipients, Delivered the way of a message from a builder to
-- its reader. Cms/Content: src/cms/asn1/enveloped_data_content.rs and
-- src/cms/asn1/auth_enveloped_data_content.rs, with what is read of a message in Read.
-- CertBuilder: src/asn1/cert_builder.rs, with what its validities hold in Validated.
-- Oids: the tests of src/asn1/asn_util.rs, and the lookups by object identifier of all
-- enumerations.
-- Tests: small instances of the parameters, and the theorems applied to them.
--
-- Names are those of the source in snake_case. Bytes are natural numbers, since nothing here does
-- arithmetic on them. KemManager::new has fuel for composites within composites; 2 is enough, as
-- Kem/Manager/Built shows with any larger fuel, and the same of DsaManager::new and
-- Dsa/Manager/Built. The fuel of find_parent is the depth of its recursion;
-- Store/Chains/Termination says when there is enough of it, and when there never is. The search
-- for a private key of a curve has fuel for the numbers it draws, candidates in the parameters of
-- the managers, which may be any number; Utils/Sampling says how much is enough. Times of
-- certificates are seconds, and a call of the store reads the clock once.
--
-- Parameters of the model: the crates ml_kem, fips204, fips205, rsa, hkdf, sha3, tiny_keccak,
-- der, pkcs8, pem, chrono, x509_cert and cms, openssl, ed25519_dalek, ed448_rust, the identifiers
-- of const_oid, and the hasher of composite signatures. A recipient builder of the cms crate is
-- its build operation, and cms::builder::Error, which holds a text, is written as the Unknown
-- that its callers make of it. The length of a tag, an i8 in the source, is its byte. ML-KEM's
-- negligible rate of decapsulation failures is left out of its law.
-- Not modelled: src/kem/xwing.rs, which the managers do not use; the encodings of certificates,
-- which stand for later work, like the helpers of src/cms/cms_util.rs that make attributes; the
-- listing of directories and the reading and writing of files, of which only the results are
-- inputs.
pub mod Prelude
pub mod Outcome
pub mod Effect
pub mod Asn1
pub mod Kem
pub mod Keys
pub mod Dsa
pub mod Oids
pub mod Tests
pub mod Certificate
pub mod Store
pub mod Wrap
pub mod Kdf
pub mod Cea
pub mod Cms
pub mod CertBuilder
pub mod Utils
