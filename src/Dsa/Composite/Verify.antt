-- ===== src/Dsa/Composite/Verify.antt =====
-- dsa/composite_dsa.rs: what `verify` accepts.
use qubitcrypt.Prelude.{◌≡◌, ◌↔◌, true, arith, refl, Bool, false, some, ◌&&◌, ◌∙◌, ap}
use qubitcrypt.Outcome.{Bytes, ok, >>=-returns, ok_or-eq-ok, ok_or, invalid_signature}
use qubitcrypt.Asn1.Der.{Der}
use qubitcrypt.Asn1.CompositePublicKey
use qubitcrypt.Asn1.CompositePublicKey.{CompositePublicKey}
use qubitcrypt.Dsa.Info.{DsaInfo}
use qubitcrypt.Dsa.Trait.{Dsa}
use qubitcrypt.Dsa.Signature
use qubitcrypt.Dsa.Composite.{MessageDigest, Hasher, pre_hash, verify}

-- A conjunction that holds has two sides that hold.
both-true : (q t : Bool) → ok (q && t) ≡ ok true → (q ≡ true) × (t ≡ true)
both-true true true h = (refl, refl)
both-true true false h = absurd (ground arith)
both-true false t h = absurd (ground arith)

module _ (d : Der) (hasher : Hasher) {W R : Type 0} (info : DsaInfo) (trad pq : Dsa W R)
    (kdf : MessageDigest) where
  -- Key and signature are pairs, and each part of the one accepts its part of the other on the
  -- hashed message under the domain.
  pub record Accepts (pk msg signature : Bytes) : Type 0 where
    pub hashed : Bytes
    pub key : CompositePublicKey
    pub parts : d.BitString × d.BitString
    pub trad_sig : Bytes
    pub pq_sig : Bytes
    pub hashes : pre_hash d hasher info kdf msg ≡ ok hashed
    pub reads_key : CompositePublicKey.from_der d info.oid pk ≡ ok key
    pub reads_signature : d.decode_bit_strings signature ≡ some parts
    pub reads_trad : Signature.get_trad_sig d parts ≡ ok trad_sig
    pub reads_pq : Signature.get_pq_sig d parts ≡ ok pq_sig
    pub trad_accepts : trad.verify key.trad_pk hashed trad_sig ≡ ok true
    pub pq_accepts : pq.verify key.pq_pk hashed pq_sig ≡ ok true

  verify-Accepts :
      (pk msg signature : Bytes)
      → verify d hasher info trad pq kdf pk msg signature ≡ ok true
      → Accepts pk msg signature
  unfolding verify
  verify-Accepts pk msg signature e =
      let (m, e₁, r₁) = >>=-returns (pre_hash d hasher info kdf msg) _ e in
      let (key, e₂, r₂) = >>=-returns (CompositePublicKey.from_der d info.oid pk) _ r₁ in
      let (parts, e₃, r₃) =
        >>=-returns (ok_or invalid_signature (d.decode_bit_strings signature)) _ r₂ in
      let (t_sig, e₄, r₄) = >>=-returns (Signature.get_trad_sig d parts) _ r₃ in
      let (pq_sig, e₅, r₅) = >>=-returns (Signature.get_pq_sig d parts) _ r₄ in
      let (t, e₆, r₆) = >>=-returns (trad.verify key.trad_pk m t_sig) _ r₅ in
      let (q, e₇, r₇) = >>=-returns (pq.verify key.pq_pk m pq_sig) _ r₆ in
      record {
        hashed = m;
        key = key;
        parts = parts;
        trad_sig = t_sig;
        pq_sig = pq_sig;
        hashes = e₁;
        reads_key = e₂;
        reads_signature = ok_or-eq-ok invalid_signature (d.decode_bit_strings signature) e₃;
        reads_trad = e₄;
        reads_pq = e₅;
        trad_accepts = e₆ ∙ ap ok (both-true q t r₇).1;
        pq_accepts = e₇ ∙ ap ok (both-true q t r₇).0;
      }

  Accepts-verify :
      (pk msg signature : Bytes)
      → Accepts pk msg signature
      → verify d hasher info trad pq kdf pk msg signature ≡ ok true
  unfolding verify
  Accepts-verify pk msg signature a =
      rw
        (
          a.hashes, a.reads_key, a.reads_signature, a.reads_trad, a.reads_pq, a.trad_accepts,
          a.pq_accepts,
        )
        refl

  -- `verify` accepts exactly when both parts do: a composite signature stands when its traditional
  -- and its post-quantum signature are accepted by the keys of the composite key, on the same
  -- hashed message.
  pub verify_iff :
      (pk msg signature : Bytes)
      → (verify d hasher info trad pq kdf pk msg signature ≡ ok true) ↔ Accepts pk msg signature
  verify_iff pk msg signature = (verify-Accepts pk msg signature, Accepts-verify pk msg signature)
