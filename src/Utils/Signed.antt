-- ===== src/Utils/Signed.antt =====
-- utils/openssl_utils.rs against the laws that dsa/ec_dsa.rs asks of its interface.
use qubitcrypt.Prelude.{ℕ, ◌≡◌, refl, sym, ap, ◌∙◌, some}
use qubitcrypt.Outcome.{Bytes, unknown}
use qubitcrypt.Effect.{attempt-returns, pair-returns}
use qubitcrypt.Kem.Ec.{Nid}
use qubitcrypt.Dsa.Ec.{EdId}
use qubitcrypt.Dsa.Ec.Correct.{Pair}
use qubitcrypt.Dsa.Ec.Correct as Ec
use qubitcrypt.Dsa.Composite.{MessageDigest}
use qubitcrypt.Utils.{
  RawId, Openssl, compute_public_key, sign_ec_based, sign_pkey_based, verify_ec_based,
  verify_pkey_based, get_pk_from_sk_ec_based, get_pk_from_sk_pkey_based,
}
use qubitcrypt.Utils.Filled.{raw_of_ed, dsa_utils}
use qubitcrypt.Utils.Lawful.{
  IsLawful, EcPair, RawPair, generated-EcPair, generated_with_rng-EcPair, generated-RawPair,
  private_of-pair, public_of-point, EcPair-written,
}

-- RFC 8032: openssl reads the private key that the crates of Ed25519 and Ed448 generate, as one
-- with the public key that they give.
abbrev pub ReadsEd : {W R : Type 0} → Openssl W R → (EdId → R → (Bytes × Bytes) × R) → Type 0
ReadsEd {R = R} o generate =
    (i : EdId) (r : R)
    → (k : o.Private) × (o.private_key_from_raw_bytes (generate i r).0.1 (raw_of_ed i) ≡ some k)
      × (o.raw_public_key k ≡ some (generate i r).0.0)

module _ {W R : Type 0} (o : Openssl W R) (l : IsLawful o) where
  ec-Pair :
      (n : Nid) (md : MessageDigest) (pk sk : Bytes)
      → EcPair o n pk sk
      → Pair
          (λ k m. sign_ec_based o n k m md)
          (λ k m s. verify_ec_based o n k m s md)
          (λ k. get_pk_from_sk_ec_based o k n)
          pk
          sk
  unfolding sign_ec_based verify_ec_based get_pk_from_sk_ec_based compute_public_key
  ec-Pair n md pk sk pair =
      let (a, ea, private) = private_of-pair o l n pk sk pair in
      let (p, c, ep, ec, public) =
        public_of-point o l pair.group pair.key pk (EcPair-written o l n pk sk pair) in
      record {
        signed = λ m w s w' h.
            rw
              (
                pair.curve,
                public,
                l.ec_verifies pair.group pair.key a p c ea ep ec md m w s w' (
                    attempt-returns unknown (o.sign_digest md a m) w
                      (rw (pair.curve, private) at h)),
              )
              refl;
        derived = rw (pair.curve, pair.read, pair.multiplied, pair.written) refl;
      }

  raw-Pair :
      (i : RawId) (pk sk : Bytes)
      → RawPair o i pk sk
      → Pair
          (sign_pkey_based o i)
          (verify_pkey_based o i)
          (λ k. get_pk_from_sk_pkey_based o k i)
          pk
          sk
  unfolding sign_pkey_based verify_pkey_based get_pk_from_sk_pkey_based
  raw-Pair i pk sk pair =
      let (c, public) = l.raw_public i sk pair.key pk pair.read pair.public in
      record {
        signed = λ m w s w' h.
            rw
              (
                public,
                l.raw_verifies i sk pair.key pk c pair.read pair.public public m w s w'
                    (attempt-returns unknown (o.sign_oneshot pair.key m) w (rw (pair.read) at h)),
              )
              refl;
        derived = rw (pair.read, pair.public) refl;
      }

  pub dsa_utils-IsLawful :
      (fuel : ℕ) (generate : EdId → R → (Bytes × Bytes) × R)
      → ReadsEd o generate
      → Ec.IsLawful (dsa_utils fuel o generate)
  dsa_utils-IsLawful fuel generate reads = record {
    ec = λ n md w pk sk w' h. ec-Pair n md pk sk (generated-EcPair o l n w pk sk w' h);
    ec_with_rng =
        λ n md r pk sk r' h. ec-Pair n md pk sk (generated_with_rng-EcPair o l fuel n r pk sk r' h);
    pkey = λ i w pk sk w' h.
        raw-Pair (raw_of_ed i) pk sk (generated-RawPair o l (raw_of_ed i) w pk sk w' h);
    ed = λ i r pk sk r' h.
        let (k, read, public) = reads i r in
        let (same_pk, same_sk) = pair-returns h in
        raw-Pair (raw_of_ed i) pk sk (record {
          key = k;
          read = ap (λ s. o.private_key_from_raw_bytes s (raw_of_ed i)) (sym same_sk) ∙ read;
          public = public ∙ ap (λ p. some p) same_pk;
        });
  }
