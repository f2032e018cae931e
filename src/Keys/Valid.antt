-- ===== src/Keys/Valid.antt =====
-- asn1/public_key.rs and asn1/private_key.rs: what every constructor of keys leaves true.
use qubitcrypt.Prelude.{
  sym, ap, ◌≡◌, refl, subst, String, Bool, true, false, not, if◌then◌else◌, str_eq, arith, any, ◌∙◌,
}
use qubitcrypt.Outcome.{
  Bytes, Outcome, ok, err, ok_or, ok-injective, >>=-returns, invalid_public_key,
  invalid_private_key, QubitCryptError,
}
use qubitcrypt.Asn1.Der.{Der}
use qubitcrypt.Oids.{is_valid_kem_or_dsa_oid, is_composite_kem_or_dsa_oid}
use qubitcrypt.Oids.Kinds.{Offered, plain_oids, valid-Offered, Offered-Marked}
use qubitcrypt.Keys.{Codecs}
use qubitcrypt.Keys.PublicKey.{PublicKey}
use qubitcrypt.Keys.PublicKey as Public
use qubitcrypt.Keys.PrivateKey.{PrivateKey}
use qubitcrypt.Keys.PrivateKey as Private

-- The identifier is one of the crate's and decides whether the key is composite.
pub record IsValid (oid : String) (is_composite : Bool) : Type 0 where
  pub known : is_valid_kem_or_dsa_oid oid ≡ true
  pub kind : is_composite ≡ is_composite_kem_or_dsa_oid oid

-- A test that has to fail before a result.
pub guarded {ℓ} :
    {A : Type ℓ} (b : Bool) (e : QubitCryptError) (r : Outcome A) {a : A}
    → (if not b then err e else r) ≡ ok a
    → (b ≡ true) × (r ≡ ok a)
guarded true e r h = (refl, h)
guarded false e r h = absurd (ground arith)

public_new-stages :
    (oid : String) (key : Bytes) (k : PublicKey)
    → Public.new oid key ≡ ok k
    → (is_valid_kem_or_dsa_oid oid ≡ true)
      × (record { oid = oid; key = key; is_composite = is_composite_kem_or_dsa_oid oid } ≡ k)
unfolding Public.new
public_new-stages oid key k h =
    let (valid, made) = guarded (is_valid_kem_or_dsa_oid oid) invalid_public_key _ h in
    (valid, ok-injective made)

private_new-stages :
    (oid : String) (key : Bytes) (k : PrivateKey)
    → Private.new oid key ≡ ok k
    → (is_valid_kem_or_dsa_oid oid ≡ true)
      × (record { oid = oid; private_key = key; is_composite = is_composite_kem_or_dsa_oid oid }
          ≡ k)
unfolding Private.new
private_new-stages oid key k h =
    let (valid, made) = guarded (is_valid_kem_or_dsa_oid oid) invalid_private_key _ h in
    (valid, ok-injective made)

pub public_new-fields :
    (oid : String) (key : Bytes) (k : PublicKey)
    → Public.new oid key ≡ ok k
    → (k.oid ≡ oid) × (k.key ≡ key)
public_new-fields oid key k h =
    let (_, made) = public_new-stages oid key k h in
    (sym (ap (λ x. x.oid) made), sym (ap (λ x. x.key) made))

pub private_new-fields :
    (oid : String) (key : Bytes) (k : PrivateKey)
    → Private.new oid key ≡ ok k
    → (k.oid ≡ oid) × (k.private_key ≡ key)
private_new-fields oid key k h =
    let (_, made) = private_new-stages oid key k h in
    (sym (ap (λ x. x.oid) made), sym (ap (λ x. x.private_key) made))

public_new-IsValid :
    (oid : String) (key : Bytes) (k : PublicKey)
    → Public.new oid key ≡ ok k
    → IsValid k.oid k.is_composite
public_new-IsValid oid key k h =
    let (valid, made) = public_new-stages oid key k h in
    subst (λ x. IsValid x.oid x.is_composite) made (record { known = valid; kind = refl })

private_new-IsValid :
    (oid : String) (key : Bytes) (k : PrivateKey)
    → Private.new oid key ≡ ok k
    → IsValid k.oid k.is_composite
private_new-IsValid oid key k h =
    let (valid, made) = private_new-stages oid key k h in
    subst (λ x. IsValid x.oid x.is_composite) made (record { known = valid; kind = refl })

module _ (d : Der) (c : Codecs d) where
  -- The ways to a key that do not start from a composite one.
  pub data PublicMade : PublicKey → Type 0 where
    public_new :
        (oid : String) (key : Bytes) {k : PublicKey} → Public.new oid key ≡ ok k → PublicMade k
    public_der : (b : Bytes) {k : PublicKey} → Public.from_der d c b ≡ ok k → PublicMade k
    public_pem : (s : String) {k : PublicKey} → Public.from_pem d c s ≡ ok k → PublicMade k

  pub data PrivateMade : PrivateKey → Type 0 where
    private_new :
        (oid : String) (key : Bytes) {k : PrivateKey} → Private.new oid key ≡ ok k → PrivateMade k
    private_der : (b : Bytes) {k : PrivateKey} → Private.from_der d b ≡ ok k → PrivateMade k
    private_pem : (s : String) {k : PrivateKey} → Private.from_pem d c s ≡ ok k → PrivateMade k

  public_der-IsValid :
      (b : Bytes) (k : PublicKey) → Public.from_der d c b ≡ ok k → IsValid k.oid k.is_composite
  unfolding Public.from_der
  public_der-IsValid b k h =
      let (info, _, r₁) = >>=-returns (ok_or invalid_public_key (c.decode_public_info b)) _ h in
      let (key, _, r₂) =
        >>=-returns (ok_or invalid_public_key (d.bit_string_bytes info.public_key)) _ r₁ in
      public_new-IsValid (d.oid_to_string info.oid) key k r₂

  private_der-IsValid :
      (b : Bytes) (k : PrivateKey) → Private.from_der d b ≡ ok k → IsValid k.oid k.is_composite
  unfolding Private.from_der
  private_der-IsValid b k h =
      let (info, _, r₁) = >>=-returns (ok_or invalid_private_key (d.decode_key_info b)) _ h in
      private_new-IsValid (d.oid_to_string info.oid) info.private_key k r₁

  pub public_key-IsValid : (k : PublicKey) → PublicMade k → IsValid k.oid k.is_composite
  unfolding Public.from_pem
  public_key-IsValid k (public_new oid key h) = public_new-IsValid oid key k h
  public_key-IsValid k (public_der b h) = public_der-IsValid b k h
  public_key-IsValid k (public_pem s h) =
      let (pem, _, r) = >>=-returns (ok_or invalid_public_key (c.pem_parse s)) _ h in
      public_der-IsValid pem.1 k
        (guarded (str_eq pem.0 "PUBLIC KEY") invalid_public_key (Public.from_der d c pem.1) r).1

  pub private_key-IsValid : (k : PrivateKey) → PrivateMade k → IsValid k.oid k.is_composite
  unfolding Private.from_pem
  private_key-IsValid k (private_new oid key h) = private_new-IsValid oid key k h
  private_key-IsValid k (private_der b h) = private_der-IsValid b k h
  private_key-IsValid k (private_pem s h) =
      let (pem, _, r) = >>=-returns (ok_or invalid_private_key (c.pem_parse s)) _ h in
      private_der-IsValid pem.1 k
        (guarded (str_eq pem.0 "PRIVATE KEY") invalid_private_key (Private.from_der d pem.1) r).1

  marked :
      (oid : String) (mark : Bool)
      → IsValid oid mark
      → Offered oid × (mark ≡ not (any (λ x. str_eq x oid) plain_oids))
  marked oid mark valid =
      let offered = valid-Offered oid valid.known in
      (offered, valid.kind ∙ Offered-Marked oid offered)

  -- A public key that new, from_der or from_pem returns has the identifier of a KEM or of a signature
  -- algorithm that the crate offers, and is marked composite exactly when that is not one of the six
  -- identifiers of ML-KEM and ML-DSA; so the keys of SLH-DSA are marked composite.
  pub public_key_marked :
      (k : PublicKey)
      → PublicMade k
      → Offered k.oid × (k.is_composite ≡ not (any (λ x. str_eq x k.oid) plain_oids))
  public_key_marked k made = marked k.oid k.is_composite (public_key-IsValid k made)

  -- The same of private keys.
  pub private_key_marked :
      (k : PrivateKey)
      → PrivateMade k
      → Offered k.oid × (k.is_composite ≡ not (any (λ x. str_eq x k.oid) plain_oids))
  private_key_marked k made = marked k.oid k.is_composite (private_key-IsValid k made)
