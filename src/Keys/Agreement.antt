-- ===== src/Keys/Agreement.antt =====
-- The key generators of kem/api and dsa/api against the operations of the keys that they give.
use qubitcrypt.Prelude.{◌≡◌, refl, sym, ap, ◌∙◌, subst, true, false}
use qubitcrypt.Outcome.{Bytes, Outcome, ok, map_err, map_err-eq-ok, key_pair_generation_failed}
use qubitcrypt.Effect.{
  Eff, pure, ◌>>=◌, map_error, after-returns, after-pure-returns, map_error-returns, pair-returns,
}
use qubitcrypt.Kem.Trait as KemTrait
use qubitcrypt.Kem.Algorithm as Kem
use qubitcrypt.Kem.Algorithm.{KemAlgorithm}
use qubitcrypt.Kem.Manager.{KemManager, kem_manager}
use qubitcrypt.Kem.Manager as KemManager
use qubitcrypt.Kem.Manager.Correct as KemCorrect
use qubitcrypt.Kem.Manager.Correct.{decap-encap}
use qubitcrypt.Dsa.Trait as DsaTrait
use qubitcrypt.Dsa.Algorithm as Dsa
use qubitcrypt.Dsa.Algorithm.{DsaAlgorithm}
use qubitcrypt.Dsa.Manager.{DsaManager, dsa_manager}
use qubitcrypt.Dsa.Manager as DsaManager
use qubitcrypt.Dsa.Manager.Correct as DsaCorrect
use qubitcrypt.Oids.{is_kem_oid, is_dsa_oid}
use qubitcrypt.Oids.Kinds.{kem_dsa-disjoint}
use qubitcrypt.Oids.Offered.{kem_new_from_oid-algorithm}
use qubitcrypt.Keys.PublicKey.{PublicKey}
use qubitcrypt.Keys.PublicKey as Public
use qubitcrypt.Keys.PrivateKey.{PrivateKey}
use qubitcrypt.Keys.PrivateKey as Private
use qubitcrypt.Keys.Generators.{kem_generate}
use qubitcrypt.Keys.Kinds.{algorithm-is_kem_oid}
use qubitcrypt.Keys.Valid.{public_new-fields, private_new-fields}

-- Inversion of a generation, over the steps that both generators have.
generate-returns :
    {W M : Type 0} (new : Outcome M) (key_gen : M → Eff W (Bytes × Bytes))
    (public : Bytes → Outcome PublicKey) (private : Bytes → Outcome PrivateKey) (w : W)
    {pk : PublicKey} {sk : PrivateKey} {w₁ : W}
    → (do
      m ← pure new
      keys ← key_gen m
      k ← pure (public keys.0)
      l ← pure (private keys.1)
      pure {A = PublicKey × PrivateKey} (ok (k, l)))
        w
      ≡ (ok (pk, sk), w₁)
    → (m : M) × (new ≡ ok m)
      × (b : Bytes) × (c : Bytes) × (key_gen m w ≡ (ok (b, c), w₁))
      × (public b ≡ ok pk)
      × (private c ≡ ok sk)
generate-returns new key_gen public private w h =
    let (m, e₁, r₁) = after-pure-returns new w _ h in
    let (keys, v, e₂, r₂) = after-returns (key_gen m w) _ r₁ in
    let (k, e₃, r₃) = after-pure-returns (public keys.0) v _ r₂ in
    let (l, e₄, r₄) = after-pure-returns (private keys.1) v _ r₃ in
    let (same_pk, same_sk) = pair-returns r₄ in
    let same_w : v ≡ _ = ap (λ x. x.1) r₄ in
    (
      m,
      e₁,
      keys.0,
      keys.1,
      e₂ ∙ (λ i. (ok (keys.0, keys.1), same_w i)),
      e₃ ∙ ap ok same_pk,
      e₄ ∙ ap ok same_sk,
    )

module _ {W R : Type 0} (p : KemManager.Primitives W R) where
  -- What a generation that went through has made: a pair of the manager's, with the identifier.
  record KemPair (a : KemAlgorithm) (w : W) (pk : PublicKey) (sk : PrivateKey) (w₁ : W)
      : Type 0 where
    kem : KemManager
    found : kem_manager (Kem.get_kem_type a) ≡ ok kem
    made : (KemManager.operations p kem).key_gen w ≡ (ok (pk.key, sk.private_key), w₁)
    public_oid : pk.oid ≡ Kem.get_oid a
    private_oid : sk.oid ≡ Kem.get_oid a

  kem_generate-KemPair :
      (a : KemAlgorithm) (w : W) (pk : PublicKey) (sk : PrivateKey) (w₁ : W)
      → kem_generate p a w ≡ (ok (pk, sk), w₁)
      → KemPair a w pk sk w₁
  unfolding kem_generate Kem.get_oid
  kem_generate-KemPair a w pk sk w₁ h =
      let (kem, e₁, b, c, e₂, e₃, e₄) =
        generate-returns (kem_manager (Kem.get_kem_type a))
          (λ m. map_error key_pair_generation_failed (KemManager.operations p m).key_gen)
          (λ b. map_err key_pair_generation_failed (Public.new (Kem.get_oid a) b))
          (λ c. map_err key_pair_generation_failed (Private.new (Kem.get_oid a) c)) w h in
      let (f₁, f₂) =
        public_new-fields (Kem.get_oid a) b pk (map_err-eq-ok key_pair_generation_failed _ e₃) in
      let (g₁, g₂) =
        private_new-fields (Kem.get_oid a) c sk (map_err-eq-ok key_pair_generation_failed _ e₄) in
      record {
        kem = kem;
        found = e₁;
        made =
            map_error-returns key_pair_generation_failed ((KemManager.operations p kem).key_gen w)
              e₂
            ∙ (λ i. (ok (sym f₂ i, sym g₂ i), w₁));
        public_oid = f₁;
        private_oid = g₁;
      }

  module _ (l : KemCorrect.IsLawful p) where
    -- If the key generator of a KEM algorithm gives (pk, sk), and encapsulation to pk gives (ss, ct), then
    -- decapsulation of ct with sk gives ss.
    pub keys_decap-encap :
        (a : KemAlgorithm) (w : W) (pk : PublicKey) (sk : PrivateKey) (w₁ : W)
        → kem_generate p a w ≡ (ok (pk, sk), w₁)
        → (w₂ : W) (ss ct : Bytes) (w₃ : W) → Public.encap p pk w₂ ≡ (ok (ss, ct), w₃)
        → Private.decap p sk ct ≡ ok ss
    unfolding Public.encap Private.decap
    keys_decap-encap a w pk sk w₁ generated w₂ ss ct w₃ sent =
        let pair = kem_generate-KemPair a w pk sk w₁ generated in
        let is_kem : is_kem_oid pk.oid ≡ true =
          subst (λ s. is_kem_oid s ≡ true) (sym pair.public_oid) (algorithm-is_kem_oid a) in
        let not_dsa : is_dsa_oid sk.oid ≡ false =
          subst (λ s. is_dsa_oid s ≡ false) (sym pair.private_oid)
            (kem_dsa-disjoint (Kem.get_oid a) (algorithm-is_kem_oid a)) in
        let public_found : KemTrait.new_from_oid kem_manager pk.oid ≡ ok pair.kem =
          ap (KemTrait.new_from_oid kem_manager) pair.public_oid
          ∙ (kem_new_from_oid-algorithm kem_manager a ∙ pair.found) in
        let private_found : KemTrait.new_from_oid kem_manager sk.oid ≡ ok pair.kem =
          ap (KemTrait.new_from_oid kem_manager) pair.private_oid
          ∙ (kem_new_from_oid-algorithm kem_manager a ∙ pair.found) in
        let sent_by : (KemManager.operations p pair.kem).encap pk.key w₂ ≡ (ok (ss, ct), w₃) =
          rw (is_kem, public_found) at sent in
        rw (not_dsa, private_found)
          (decap-encap p l pair.kem w pk.key sk.private_key w₁ pair.made w₂ ss ct w₃ sent_by)

  -- A public key that was generated is a KEM's.
  pub kem_generate-is_kem :
      (a : KemAlgorithm) (w : W) (pk : PublicKey) (sk : PrivateKey) (w₁ : W)
      → kem_generate p a w ≡ (ok (pk, sk), w₁)
      → is_kem_oid pk.oid ≡ true
  kem_generate-is_kem a w pk sk w₁ generated =
      subst (λ s. is_kem_oid s ≡ true)
        (sym (kem_generate-KemPair a w pk sk w₁ generated).public_oid) (algorithm-is_kem_oid a)

  -- Encapsulation to a key is that of the manager for its identifier.
  pub encap-manager :
      (pk : PublicKey) (kem : KemManager) (w : W)
      → is_kem_oid pk.oid ≡ true
      → KemTrait.new_from_oid kem_manager pk.oid ≡ ok kem
      → Public.encap p pk w ≡ (KemManager.operations p kem).encap pk.key w
  unfolding Public.encap
  encap-manager pk kem w is_kem found = rw (is_kem, found) refl

module _ {W R : Type 0} (p : DsaManager.Primitives W R) where
  -- The same of the generator for signatures.
  record DsaPair (a : DsaAlgorithm) (w : W) (pk : PublicKey) (sk : PrivateKey) (w₁ : W)
      : Type 0 where
    dsa : DsaManager
    found : dsa_manager (Dsa.get_dsa_type a) ≡ ok dsa
    made : (DsaManager.operations p dsa).key_gen w ≡ (ok (pk.key, sk.private_key), w₁)
    public_oid : pk.oid ≡ Dsa.get_oid a
    private_oid : sk.oid ≡ Dsa.get_oid a
    public_is_new : Public.new sk.oid pk.key ≡ ok pk
