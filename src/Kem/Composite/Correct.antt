-- ===== src/Kem/Composite/Correct.antt =====
-- kem/composite_kem.rs: encapsulation to a composite key against decapsulation.
use qubitcrypt.Prelude.{◌≡◌, ◌∙◌, sym, ap, subst, some, arith}
use qubitcrypt.Outcome.{Bytes, ok, ok-injective, ok_or-eq-ok, ok_or, encap_failed}
use qubitcrypt.Effect.{after-returns, after-pure-returns, pair-returns}
use qubitcrypt.Asn1.Der.{Der, IsLawful}
use qubitcrypt.Asn1.CompositePublicKey
use qubitcrypt.Asn1.CompositePublicKey.{CompositePublicKey}
use qubitcrypt.Asn1.CompositePrivateKey
use qubitcrypt.Asn1.CompositePrivateKey.{CompositePrivateKey}
use qubitcrypt.Kem.Info.{KemInfo}
use qubitcrypt.Kem.Kdf.{Hashes, KdfType}
use qubitcrypt.Kem.Trait.{Kem, Agrees, IsCorrect}
use qubitcrypt.Kem.Composite.Parts.{new_ciphertext, combiner, decap}
use qubitcrypt.Kem.Composite.Keys.{Holds, pq_key, trad_key, key_gen_composite-Holds}
use qubitcrypt.Kem.Composite.Operations.{key_gen, key_gen_with_rng, encap, kem}

-- What an encapsulation that went through has computed.
module _ (d : Der) (h : Hashes) {W R : Type 0} (info : KemInfo) (trad pq : Kem W R)
    (t : KdfType) where
  encap-stages :
      (pk : Bytes) (w : W) (ss ct : Bytes) (w' : W)
      → encap d h info trad pq t pk w ≡ (ok (ss, ct), w')
      → (k : CompositePublicKey) × (t_ss : Bytes) × (t_ct : Bytes) × (w₁ : W) × (pq_ss : Bytes)
        × (pq_ct : Bytes) × (w₂ : W) × (c : d.OctetString × d.OctetString)
        × (CompositePublicKey.from_der d info.oid pk ≡ ok k)
        × (trad.encap k.trad_pk w ≡ (ok (t_ss, t_ct), w₁))
        × (pq.encap k.pq_pk w₁ ≡ (ok (pq_ss, pq_ct), w₂))
        × (new_ciphertext d pq_ct t_ct ≡ ok c)
        × (d.encode_octet_strings c ≡ some ct)
        × (combiner d h info t pq_ss t_ss t_ct k.trad_pk ≡ ok ss)
  unfolding encap
  encap-stages pk w ss ct w' e =
      let (k, e₀, r₀) = after-pure-returns (CompositePublicKey.from_der d info.oid pk) w _ e in
      let ((t_ss, t_ct), w₁, e₁, r₁) = after-returns (trad.encap k.trad_pk w) _ r₀ in
      let ((pq_ss, pq_ct), w₂, e₂, r₂) = after-returns (pq.encap k.pq_pk w₁) _ r₁ in
      let (c, e₃, r₃) = after-pure-returns (new_ciphertext d pq_ct t_ct) w₂ _ r₂ in
      let (ct', e₄, r₄) =
        after-pure-returns (ok_or encap_failed (d.encode_octet_strings c)) w₂ _ r₃ in
      let (ss', e₅, r₅) =
        after-pure-returns (combiner d h info t pq_ss t_ss t_ct k.trad_pk) w₂ _ r₄ in
      let (same_ss, same_ct) = pair-returns r₅ in
      (
        k,
        t_ss,
        t_ct,
        w₁,
        pq_ss,
        pq_ct,
        w₂,
        c,
        e₀,
        e₁,
        e₂,
        e₃,
        ok_or-eq-ok encap_failed (d.encode_octet_strings c) e₄ ∙ ap some same_ct,
        e₅ ∙ ap ok same_ss,
      )

module _ (d : Der) (l : IsLawful d) where
  -- The two ciphertexts are read back from the composite one.
  ciphertext-round_trip :
      (pq_ct t_ct ct : Bytes) (c : d.OctetString × d.OctetString)
      → new_ciphertext d pq_ct t_ct ≡ ok c
      → d.encode_octet_strings c ≡ some ct
      → (d.decode_octet_strings ct ≡ some c) × (d.octets c.0 ≡ pq_ct) × (d.octets c.1 ≡ t_ct)
  unfolding new_ciphertext
  ciphertext-round_trip pq_ct t_ct ct c made encoded = grind (arith, l.octet, l.octet_strings)

module _ (d : Der) (h : Hashes) {W R : Type 0} (info : KemInfo) (trad pq : Kem W R)
    (t : KdfType) where
  -- A decapsulation goes through when each of its steps does.
  decap-stages :
      (t_sk t_pk pq_sk sk ct t_ss pq_ss t_ct pq_ct ss : Bytes) (key : CompositePrivateKey)
      (oid pq_oid : d.ObjectId) (c : d.OctetString × d.OctetString)
      → CompositePrivateKey.from_der d info.oid sk ≡ ok key
      → CompositePrivateKey.get_pq_sk d key ≡ ok (pq_key pq_oid pq_sk)
      → CompositePrivateKey.get_trad_sk d key ≡ ok (trad_key oid t_sk t_pk)
      → d.decode_octet_strings ct ≡ some c
      → d.octets c.0 ≡ pq_ct
      → d.octets c.1 ≡ t_ct
      → trad.decap t_sk t_ct ≡ ok t_ss
      → pq.decap pq_sk pq_ct ≡ ok pq_ss
      → combiner d h info t pq_ss t_ss t_ct t_pk ≡ ok ss
      → decap d h info trad pq t sk ct ≡ ok ss
  unfolding decap
  decap-stages t_sk t_pk pq_sk sk ct t_ss pq_ss t_ct pq_ct ss key oid pq_oid c e₁ e₂ e₃ e₄ e₅ e₆ e₇
        e₈ e₉ =
      rw (e₁, e₄, e₃, e₆, e₇, e₂, e₅, e₈) e₉

module _ (d : Der) (l : IsLawful d) (h : Hashes) {W R : Type 0} (info : KemInfo) (trad pq : Kem W R)
    (t : KdfType) where
  -- Keys that hold agreeing keys of the two parts agree.
  Holds-Agrees :
      (t_pk t_sk pq_pk pq_sk pk sk : Bytes)
      → Agrees trad t_pk t_sk
      → Agrees pq pq_pk pq_sk
      → Holds d info t_pk t_sk pq_pk pq_sk pk sk
      → Agrees (kem d h info trad pq t) pk sk
  unfolding kem CompositePublicKey.new
  Holds-Agrees t_pk t_sk pq_pk pq_sk pk sk ht hp held w ss ct w' e =
      let (k, t_ss, t_ct, w₁, pq_ss, pq_ct, w₂, c, e₀, e₁, e₂, e₃, e₄, e₅) =
        encap-stages d h info trad pq t pk w ss ct w' e in
      let same : k ≡ CompositePublicKey.new info.oid pq_pk t_pk =
        ok-injective (sym e₀ ∙ held.public) in
      let (f₀, f₁, f₂) = ciphertext-round_trip d l pq_ct t_ct ct c e₃ e₄ in
      decap-stages d h info trad pq t t_sk t_pk pq_sk sk ct t_ss pq_ss t_ct pq_ct ss held.key
        held.oid held.pq_oid c held.private held.pq_part held.trad_part f₀ f₁ f₂
        (ht w t_ss t_ct w₁ (subst (λ x. trad.encap x.trad_pk w ≡ (ok (t_ss, t_ct), w₁)) same e₁))
        (hp w₁ pq_ss pq_ct w₂ (subst (λ x. pq.encap x.pq_pk w₁ ≡ (ok (pq_ss, pq_ct), w₂)) same e₂))
        (subst (λ x. combiner d h info t pq_ss t_ss t_ct x.trad_pk ≡ ok ss) same e₅)

  -- A composite KEM of two correct KEMs is correct.
  pub composite_kem-IsCorrect : IsCorrect trad → IsCorrect pq → IsCorrect (kem d h info trad pq t)
  unfolding kem key_gen key_gen_with_rng
  composite_kem-IsCorrect ct cp = record {
    generated = λ w pk sk w' e.
        let ((t_pk, t_sk), w₁, e₁, r₁) = after-returns (trad.key_gen w) _ e in
        let ((pq_pk, pq_sk), w₂, e₂, r₂) = after-returns (pq.key_gen w₁) _ r₁ in
        Holds-Agrees t_pk t_sk pq_pk pq_sk pk sk (ct.generated w t_pk t_sk w₁ e₁)
          (cp.generated w₁ pq_pk pq_sk w₂ e₂)
          (key_gen_composite-Holds d l info pq.get_kem_info t_pk t_sk pq_pk pq_sk pk sk
            (ap (λ p. p.0) r₂));
    generated_with_rng = λ r pk sk r' e.
        let ((t_pk, t_sk), w₁, e₁, r₁) = after-returns (trad.key_gen_with_rng r) _ e in
        let ((pq_pk, pq_sk), w₂, e₂, r₂) = after-returns (pq.key_gen_with_rng w₁) _ r₁ in
        Holds-Agrees t_pk t_sk pq_pk pq_sk pk sk (ct.generated_with_rng r t_pk t_sk w₁ e₁)
          (cp.generated_with_rng w₁ pq_pk pq_sk w₂ e₂)
          (key_gen_composite-Holds d l info pq.get_kem_info t_pk t_sk pq_pk pq_sk pk sk
            (ap (λ p. p.0) r₂));
  }

  -- Whatever the two KEMs of a composite are, if each decapsulates what is encapsulated to the keys
  -- that it generates, and the composite generates (pk, sk) and encapsulates to pk with the outcome
  -- (ss, ct), then decapsulating ct with sk gives ss.
  pub composite-decap-encap :
      IsCorrect trad
      → IsCorrect pq
      → (w : W) (pk sk : Bytes) (w₁ : W) → (kem d h info trad pq t).key_gen w ≡ (ok (pk, sk), w₁)
      → (w₂ : W) (ss ct : Bytes) (w₃ : W) → (kem d h info trad pq t).encap pk w₂ ≡ (ok (ss, ct), w₃)
      → (kem d h info trad pq t).decap sk ct ≡ ok ss
  composite-decap-encap ct cp w pk sk w₁ made =
      (composite_kem-IsCorrect ct cp).generated w pk sk w₁ made
