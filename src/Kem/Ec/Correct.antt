-- ===== src/Kem/Ec/Correct.antt =====
-- kem/ec_kem.rs: encapsulation to a generated elliptic-curve key against decapsulation.
use qubitcrypt.Prelude.{◌≡◌, Option, none, some, ap}
use qubitcrypt.Outcome.{Bytes, Outcome, ok, map_err, key_pair_generation_failed, encap_failed}
use qubitcrypt.Outcome.{decap_failed}
use qubitcrypt.Effect.{Eff, map_error, map_error-returns, err-returns}
use qubitcrypt.Kem.Trait.{IsCorrect}
use qubitcrypt.Kem.Ec.{
  Nid, PkeyId, OpensslUtils, EcKemManager, key_gen, key_gen_with_rng, encap, decap, ec_kem,
}

-- Diffie-Hellman: both ends of an exchange with a generated pair of keys derive one secret.
abbrev pub Exchange :
    {W S : Type 0}
    → Eff S (Bytes × Bytes)
    → (Bytes → Eff W (Bytes × Bytes))
    → (Bytes → Bytes → Outcome Bytes)
    → Type 0
Exchange {W} {S} gen encaps decaps =
    (s : S) (pk sk : Bytes) (s' : S)
    → gen s ≡ (ok (pk, sk), s')
    → (w : W) (ss ct : Bytes) (w' : W) → encaps pk w ≡ (ok (ss, ct), w')
    → decaps sk ct ≡ ok ss

-- What the module asks of the interface: the agreement of Diffie-Hellman on each curve.
pub record IsLawful {W R : Type 0} (u : OpensslUtils W R) : Type 0 where
  pub ec :
      (n : Nid) → Exchange (u.get_key_pair_ec_based n) (u.encaps_ec_based n) (u.decaps_ec_based n)
  pub ec_with_rng :
      (n : Nid)
      → Exchange (u.get_key_pair_ec_based_with_rng n) (u.encaps_ec_based n) (u.decaps_ec_based n)
  pub pkey :
      (i : PkeyId)
      → Exchange (u.get_key_pair_pkey_based i) (u.encaps_pkey_based i) (u.decaps_pkey_based i)
  pub pkey_with_rng :
      (i : PkeyId)
      → Exchange
          (u.get_keypair_pkey_based_with_rng i)
          (u.encaps_pkey_based i)
          (u.decaps_pkey_based i)

-- Renaming the errors of the three calls keeps the agreement.
mapped-Exchange :
    {W S : Type 0} (gen : Eff S (Bytes × Bytes)) (encaps : Bytes → Eff W (Bytes × Bytes))
    (decaps : Bytes → Bytes → Outcome Bytes)
    → Exchange gen encaps decaps
    → Exchange
        (map_error key_pair_generation_failed gen)
        (λ pk. map_error encap_failed (encaps pk))
        (λ sk ct. map_err decap_failed (decaps sk ct))
mapped-Exchange gen encaps decaps ex s pk sk s' made w ss ct w' sent = ap (map_err decap_failed) (
    ex s pk sk s' (map_error-returns key_pair_generation_failed (gen s) made) w ss ct w'
      (map_error-returns encap_failed (encaps pk w) sent))

module _ {W R : Type 0} (u : OpensslUtils W R) (l : IsLawful u) where
  generated-Exchange :
      (nid : Option Nid) (id : Option PkeyId)
      → Exchange (key_gen u nid id) (encap u nid id) (decap u nid id)
  unfolding key_gen encap decap
  generated-Exchange (some n) id =
      mapped-Exchange (u.get_key_pair_ec_based n) (u.encaps_ec_based n) (u.decaps_ec_based n)
        (l.ec n)
  generated-Exchange none (some i) =
      mapped-Exchange (u.get_key_pair_pkey_based i) (u.encaps_pkey_based i) (u.decaps_pkey_based i)
        (l.pkey i)
  generated-Exchange none none = λ s pk sk s' made w ss ct w' sent. absurd (err-returns made)

  generated_with_rng-Exchange :
      (nid : Option Nid) (id : Option PkeyId)
      → Exchange (key_gen_with_rng u nid id) (encap u nid id) (decap u nid id)
  unfolding key_gen_with_rng encap decap
  generated_with_rng-Exchange (some n) id =
      mapped-Exchange (u.get_key_pair_ec_based_with_rng n) (u.encaps_ec_based n)
        (u.decaps_ec_based n) (l.ec_with_rng n)
  generated_with_rng-Exchange none (some i) =
      mapped-Exchange (u.get_keypair_pkey_based_with_rng i) (u.encaps_pkey_based i)
        (u.decaps_pkey_based i) (l.pkey_with_rng i)
  generated_with_rng-Exchange none none =
      λ s pk sk s' made w ss ct w' sent. absurd (err-returns made)

  pub ec_kem-IsCorrect : (m : EcKemManager) → IsCorrect (ec_kem u m)
  unfolding ec_kem
  ec_kem-IsCorrect m = record {
    generated = generated-Exchange m.ec_based_nid m.pk_based_id;
    generated_with_rng = generated_with_rng-Exchange m.ec_based_nid m.pk_based_id;
  }
