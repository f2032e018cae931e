-- ===== src/Tests/ManagerExamples.antt =====
-- The theorem on all signature managers at a hybrid of ML-DSA-65 and Ed25519, over toy crates: a
-- signature is the key, then the first byte of the message.
use qubitcrypt.Prelude.{
  ℕ, suc, ◌≡◌, refl, ap, sym, subst, ◌∙◌, true, none, some, [], ◌∷◌, same_bytes, same_bytes_refl,
  eq_of_some,
}
use qubitcrypt.Outcome.{Bytes, ok}
use qubitcrypt.Asn1.Der.{oid_to_der}
use qubitcrypt.Asn1.CompositePublicKey
use qubitcrypt.Asn1.CompositePrivateKey
use qubitcrypt.Dsa.Types
use qubitcrypt.Dsa.Types.{ml_dsa65, ed25519_sha512, ml_dsa65_ed25519_sha512}
use qubitcrypt.Dsa.Info.{dsa_info}
use qubitcrypt.Dsa.Signature
use qubitcrypt.Dsa.Composite.{
  sha512, pre_hash, key_gen_composite, secret_keys, encode_signature, dsa,
}
use qubitcrypt.Dsa.Composite as Composite
use qubitcrypt.Dsa.Fips.{MlSet, SlhSet, ml_set, keygen_at, sign_at, verify_at, fips_dsa}
use qubitcrypt.Dsa.Rsa.{RsaCrates}
use qubitcrypt.Dsa.Rsa.Correct as Rsa
use qubitcrypt.Dsa.Ec.{id_ed25519, ec_dsa}
use qubitcrypt.Dsa.Ec as Ec
use qubitcrypt.Dsa.Manager.{DsaManager, ml, ec, composite, Primitives, operations}
use qubitcrypt.Dsa.Manager.Correct.{IsLawful, manager_verify-sign}
use qubitcrypt.Utils.{get_key_pair_pkey_based, raw_pair, sign_pkey_based, verify_pkey_based}
use qubitcrypt.Tests.Codecs.{toy_der, toy_der-IsLawful}
use qubitcrypt.Tests.Kems.{draw}
use qubitcrypt.Tests.Curves.{
  toy_openssl, toy_openssl-IsLawful, toy_generate_ed, toy_generate_ed-ReadsEd,
}
use qubitcrypt.Tests.Signatures.{toy_hasher}
use qubitcrypt.Tests.FipsExamples.{first, toy_fips, toy_fips-IsLawful}

abbrev seal : Bytes → Bytes → Bytes
seal k msg = first k ∷ first msg ∷ []

abbrev toy_rsa : RsaCrates ℕ ℕ
toy_rsa = record {
  PrivKey = ℕ;
  generate = λ bits n. (some n, suc n);
  private_to_der = λ k. some (k ∷ []);
  public_to_der = λ k. some (k ∷ []);
  Private = Bytes;
  Public = Bytes;
  SignKey = Bytes;
  VerifyKey = Bytes;
  private_key_from_der = λ b. some b;
  public_key_from_der = λ b. some b;
  private_pkey = λ k. some k;
  public_pkey = λ k. some k;
  public_key_to_der = λ k. some k;
  sign = λ md pad mg k msg n. (some (seal k msg), suc n);
  verify = λ md pad mg k msg sig. some (same_bytes (seal k msg) sig);
}

sealed : (k l msg sig : Bytes) → k ≡ l → seal k msg ≡ sig → same_bytes (seal l msg) sig ≡ true
sealed k l msg sig e h =
    subst (λ s. same_bytes (seal l msg) s ≡ true) (ap (λ x. seal x msg) (sym e) ∙ h)
      (same_bytes_refl (seal l msg))

toy_rsa-IsLawful : Rsa.IsLawful toy_rsa
toy_rsa-IsLawful = record {
  reads_public = λ k pk h. (pk, pk, refl, refl);
  derives = λ k sk pk h g. (sk, refl, sym h ∙ g);
  verifies = λ k sk pk s g p v h₁ h₂ h₃ h₄ h₅ h₆ md pad mg m w sig h₇.
      ap (λ b. some b)
        (sealed g v m sig
          (sym (eq_of_some h₄)
            ∙ (sym (eq_of_some h₃) ∙ (eq_of_some (sym h₁ ∙ h₂) ∙ (eq_of_some h₅ ∙ eq_of_some h₆))))
          (eq_of_some h₇));
}

abbrev pub toy : Primitives ℕ ℕ
toy = record {
  der = toy_der;
  hasher = toy_hasher;
  from_entropy = draw;
  fips204 = toy_fips MlSet;
  fips205 = toy_fips SlhSet;
  rsa_crates = toy_rsa;
  openssl = toy_openssl;
  generate_ed = toy_generate_ed;
  candidates = 4;
}

pub toy-IsLawful : IsLawful toy
toy-IsLawful = record {
  der = toy_der-IsLawful;
  fips204 = toy_fips-IsLawful MlSet;
  fips205 = toy_fips-IsLawful SlhSet;
  rsa_crates = toy_rsa-IsLawful;
  openssl = toy_openssl-IsLawful;
  generate_ed = toy_generate_ed-ReadsEd;
}

abbrev hybrid : DsaManager
hybrid =
    composite (dsa_info ml_dsa65_ed25519_sha512)
      (ec (record {
        info = dsa_info ed25519_sha512;
        ec_based_nid = none;
        pk_based_id = some id_ed25519;
        digest = sha512;
      }))
      (ml (dsa_info ml_dsa65)) sha512

abbrev signature : Bytes
signature = 2 ∷ 6 ∷ 6 ∷ 5 ∷ 6 ∷ []

manager_verify-sign_example :
    (operations toy hybrid).verify (1 ∷ 6 ∷ 5 ∷ []) (9 ∷ 8 ∷ []) signature ≡ ok true
unfolding operations dsa Composite.key_gen Composite.sign Composite.verify pre_hash
    key_gen_composite secret_keys encode_signature ec_dsa Ec.key_gen Ec.sign Ec.verify fips_dsa
    keygen_at sign_at verify_at ml_set oid_to_der CompositePublicKey.new CompositePublicKey.to_der
    CompositePublicKey.from_der CompositePrivateKey.new CompositePrivateKey.to_der
    CompositePrivateKey.from_der CompositePrivateKey.get_pq_sk CompositePrivateKey.get_trad_sk
    Signature.new Signature.get_pq_sig Signature.get_trad_sig dsa_info Types.get_oid
    get_key_pair_pkey_based raw_pair sign_pkey_based verify_pkey_based
manager_verify-sign_example =
    manager_verify-sign toy toy-IsLawful hybrid 5 (1 ∷ 6 ∷ 5 ∷ []) (3 ∷ 1 ∷ 1 ∷ 6 ∷ 1 ∷ 1 ∷ 5 ∷ [])
      7 refl (9 ∷ 8 ∷ []) 7 signature 9 refl
