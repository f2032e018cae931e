-- ===== src/Utils/Exchanged.antt =====
-- utils/openssl_utils.rs against the laws that kem/ec_kem.rs asks of its interface.
use qubitcrypt.Prelude.{ℕ, ◌≡◌, refl, ap, ◌∙◌, some}
use qubitcrypt.Outcome.{Bytes, ok, ok_or, ok_or-eq-ok, >>=-returns, ok-injective, unknown}
use qubitcrypt.Effect.{attempt, after-returns}
use qubitcrypt.Kem.Ec.{Nid}
use qubitcrypt.Kem.Ec.Correct as Ec
use qubitcrypt.Utils.{
  RawId, Openssl, encaps_ec_based, decaps_ec_based, get_key_pair_pkey_based, encaps_pkey_based,
  decaps_pkey_based,
}
use qubitcrypt.Utils.Filled.{raw_of, kem_utils}
use qubitcrypt.Utils.Lawful.{
  IsLawful, EcPair, RawPair, generated-EcPair, generated_with_rng-EcPair, generated-RawPair,
  generated_with_rng-RawPair, private_of-pair, public_of-point, EcPair-written,
}

module _ {W R : Type 0} (o : Openssl W R) (l : IsLawful o) where
  decaps-encaps_ec :
      (n : Nid) (pk sk : Bytes)
      → EcPair o n pk sk
      → (w : W) (ss ct : Bytes) (w' : W) → encaps_ec_based o n pk w ≡ (ok (ss, ct), w')
      → decaps_ec_based o n sk ct ≡ ok ss
  unfolding encaps_ec_based decaps_ec_based
  decaps-encaps_ec n pk sk pair w ss ct w' h =
      let (a, ea, private) = private_of-pair o l n pk sk pair in
      let (p, c, ep, ec, public) =
        public_of-point o l pair.group pair.key pk (EcPair-written o l n pk sk pair) in
      let (k, v, e₁, r₁) =
        after-returns (attempt unknown (o.generate pair.group) w) _
          (rw (pair.curve, public) at h) in
      let (b, e₂, r₂) =
        >>=-returns (ok_or unknown (o.private_from_ec pair.group k)) _ (ap (λ x. x.0) r₁) in
      let (s, e₃, r₃) = >>=-returns (ok_or unknown (o.derive b c)) _ r₂ in
      let (t, e₄, r₄) =
        >>=-returns (ok_or unknown (o.point_to_bytes pair.group (o.public_key pair.group k))) _
          r₃ in
      let sent = ok-injective r₄ in
      let (q, d, eq, ed, peer) =
        public_of-point o l pair.group k ct (ok_or-eq-ok unknown _ e₄ ∙ ap (λ x. some x.1) sent) in
      let secret : o.derive a d ≡ some ss =
        l.ec_agrees pair.group pair.key k a b p q c d ea (ok_or-eq-ok unknown _ e₂) ep eq ec ed
        ∙ (ok_or-eq-ok unknown _ e₃ ∙ ap (λ x. some x.0) sent) in
      rw (pair.curve, private, peer, secret) refl

  decaps-encaps_pkey :
      (i : RawId) (pk sk : Bytes)
      → RawPair o i pk sk
      → (w : W) (ss ct : Bytes) (w' : W) → encaps_pkey_based o pk i w ≡ (ok (ss, ct), w')
      → decaps_pkey_based o sk ct i ≡ ok ss
  unfolding encaps_pkey_based decaps_pkey_based
  decaps-encaps_pkey i pk sk pair w ss ct w' h =
      let (ephemeral, v, e₁, r₁) = after-returns (get_key_pair_pkey_based o i w) _ h in
      let (k, e₂, r₂) =
        >>=-returns (ok_or unknown (o.private_key_from_raw_bytes ephemeral.1 i)) _
          (ap (λ x. x.0) r₁) in
      let (c, e₃, r₃) = >>=-returns (ok_or unknown (o.public_key_from_raw_bytes pk i)) _ r₂ in
      let (s, e₄, r₄) = >>=-returns (ok_or unknown (o.derive k c)) _ r₃ in
      let (t, e₅, r₅) = >>=-returns (ok_or unknown (o.raw_public_key k)) _ r₄ in
      let sent = ok-injective r₅ in
      let made = ok_or-eq-ok unknown _ e₂ in
      let written = ok_or-eq-ok unknown _ e₅ ∙ ap (λ x. some x.1) sent in
      let (d, peer) = l.raw_public i ephemeral.1 k ct made written in
      let secret : o.derive pair.key d ≡ some ss =
        l.raw_agrees i sk ephemeral.1 pair.key k pk ct c d pair.read made pair.public written
          (ok_or-eq-ok unknown _ e₃) peer
        ∙ (ok_or-eq-ok unknown _ e₄ ∙ ap (λ x. some x.0) sent) in
      rw (pair.read, peer, secret) refl

  pub kem_utils-IsLawful : (fuel : ℕ) → Ec.IsLawful (kem_utils fuel o)
  kem_utils-IsLawful fuel = record {
    ec = λ n w pk sk w' h. decaps-encaps_ec n pk sk (generated-EcPair o l n w pk sk w' h);
    ec_with_rng = λ n r pk sk r' h.
        decaps-encaps_ec n pk sk (generated_with_rng-EcPair o l fuel n r pk sk r' h);
    pkey = λ i w pk sk w' h.
        decaps-encaps_pkey (raw_of i) pk sk (generated-RawPair o l (raw_of i) w pk sk w' h);
    pkey_with_rng = λ i r pk sk r' h.
        decaps-encaps_pkey (raw_of i) pk sk
          (generated_with_rng-RawPair o l (raw_of i) r pk sk r' h);
  }
