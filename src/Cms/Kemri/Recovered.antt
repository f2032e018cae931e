-- ===== src/Cms/Kemri/Recovered.antt =====
-- cms/cms_util.rs against cms/asn1/kemri_builder.rs: the content key that a recipient recovers.
use qubitcrypt.Prelude.{
  none, ℕ, ap, ◌∙◌, subst, none, ◌≡◌, refl, sym, String, true, some, same_bytes_refl,
}
use qubitcrypt.Outcome.{
  Bytes, ok, ok_or, map_err, >>=-returns, ok_or-eq-ok, map_err-eq-ok, ok-injective, unknown,
}
use qubitcrypt.Kem.Manager as KemManager
use qubitcrypt.Kem.Manager.{KemManager}
use qubitcrypt.Kem.Manager.Correct as KemCorrect
use qubitcrypt.Keys.PrivateKey.{PrivateKey}
use qubitcrypt.Keys.PrivateKey as Private
use qubitcrypt.Certificate.{Certificate, get_subject_key_identifier}
use qubitcrypt.Store.{subject_key_identifier}
use qubitcrypt.Kdf as Kdf
use qubitcrypt.Kdf.{KdfType}
use qubitcrypt.Wrap as Wrap
use qubitcrypt.Wrap.{WrapType}
use qubitcrypt.Wrap.Guards as Guards
use qubitcrypt.Wrap.Guards.{unwrap-wrap}
use qubitcrypt.Cea.Correct as CeaCorrect
use qubitcrypt.Cms.{Crypto, x509, KemRecipientInfo, OtherRecipientInfo, ori, Recipient}
use qubitcrypt.Cms.Kemri.{
  Oid, Octets, Any, is_identified_by, get_kek, open_kemri, get_cek, KemRecipientInfoBuilder,
  wrap_cek, encode_recipient,
}

-- The documented laws of what the messages use.
pub record IsLawful {W R : Type 0} (e : Crypto W R) : Type 0 where
  pub kems : KemCorrect.IsLawful e.kems
  pub aes : Guards.IsLawful e.aes
  pub contents : CeaCorrect.IsLawful e.kems.der e.contents e.symm
  pub kemri :
      (k : KemRecipientInfo e.kems.der.ObjectId e.contents.Any e.kems.der.OctetString) (b : Bytes)
      → e.codecs.encode_kemri k ≡ some b
      → e.codecs.decode_kemri b ≡ some k
  pub kdf_text :
      (t : KdfType) (o : e.kems.der.ObjectId)
      → e.kems.der.parse_oid (Kdf.get_oid t) ≡ some o
      → e.kems.der.oid_to_string o ≡ Kdf.get_oid t
  pub wrap_text :
      (t : WrapType) (o : e.kems.der.ObjectId)
      → e.kems.der.parse_oid (Wrap.get_oid t) ≡ some o
      → e.kems.der.oid_to_string o ≡ Wrap.get_oid t

module _ {W R : Type 0} (e : Crypto W R) where
  is_identified_by-own :
      (cert : Certificate) (skid : Bytes)
      → get_subject_key_identifier (x509 e) cert ≡ ok skid
      → is_identified_by e cert (subject_key_identifier skid) ≡ ok true
  unfolding is_identified_by
  is_identified_by-own cert skid h = rw (h, same_bytes_refl skid) refl

  -- A recipient whose parts are as they should be is opened.
  open_kemri-eq-ok_of :
      (k : KemRecipientInfo (Oid e) (Any e) (Octets e)) (sk : PrivateKey) (cert : Certificate)
      (ss ct kek wrapped cek : Bytes) (wrap_oid kdf_oid : String) (t : WrapType)
      → is_identified_by e cert k.rid ≡ ok true
      → e.kems.der.octets k.kem_ct ≡ ct
      → Private.decap e.kems sk ct ≡ ok ss
      → e.kems.der.oid_to_string k.wrap.oid ≡ wrap_oid
      → e.kems.der.oid_to_string k.kdf.oid ≡ kdf_oid
      → get_kek e ss wrap_oid kdf_oid k.kek_length k.ukm ≡ ok kek
      → Wrap.new_from_oid wrap_oid ≡ ok t
      → e.kems.der.octets k.encrypted_key ≡ wrapped
      → Wrap.unwrap e.aes t kek wrapped ≡ ok cek
      → open_kemri e k sk cert ≡ ok cek
  unfolding open_kemri
  open_kemri-eq-ok_of k sk cert ss ct kek wrapped cek wrap_oid kdf_oid t h₁ h₂ h₃ h₄ h₅ h₆ h₇ h₈
        h₉ =
      rw (h₁, h₂, h₃, h₄, h₅, h₆, h₇, h₈, h₉) refl

  module _ (l : IsLawful e) (b : KemRecipientInfoBuilder e) where
    pub wrap_cek-stages :
        (cek ss : Bytes) (t : WrapType) (wrapped : Bytes)
        → wrap_cek e b cek ss ≡ ok (t, wrapped)
        → (kek : Bytes) × (Wrap.new_from_oid b.wrap_oid ≡ ok t)
          × (get_kek e ss b.wrap_oid b.kdf_oid (Wrap.wrap_info t).key_length b.ukm ≡ ok kek)
          × (Wrap.unwrap e.aes t kek wrapped ≡ ok cek)
    unfolding wrap_cek
    wrap_cek-stages cek ss t wrapped h =
        let (wm, e₁, r₁) = >>=-returns (map_err unknown (Wrap.new_from_oid b.wrap_oid)) _ h in
        let (kek, e₂, r₂) =
          >>=-returns
            (map_err unknown
              (get_kek e ss b.wrap_oid b.kdf_oid (Wrap.wrap_info wm).key_length b.ukm))
            _ r₁ in
        let (w, e₃, r₃) = >>=-returns (map_err unknown (Wrap.wrap e.aes wm kek cek)) _ r₂ in
        let same : (wm, w) ≡ (t, wrapped) = ok-injective r₃ in
        let (_, _, _, back) = unwrap-wrap e.aes l.aes wm kek cek w (map_err-eq-ok unknown _ e₃) in
        subst
          (λ x.
            (k : Bytes) × (Wrap.new_from_oid b.wrap_oid ≡ ok x.0)
            × (get_kek e ss b.wrap_oid b.kdf_oid (Wrap.wrap_info x.0).key_length b.ukm ≡ ok k)
            × (Wrap.unwrap e.aes x.0 k x.1 ≡ ok cek))
          same (kek, map_err-eq-ok unknown _ e₁, map_err-eq-ok unknown _ e₂, back)

    -- What an encoded recipient decodes to.
    pub record Encoded (n : ℕ) (wrapped ct : Bytes) (ri : Recipient e.kems.der e.contents)
        : Type 0 where
      pub skid : Bytes
      pub value : OtherRecipientInfo (Oid e) (Any e)
      pub der : Bytes
      pub info : KemRecipientInfo (Oid e) (Any e) (Octets e)
      pub is_ori : ri ≡ ori value
      pub identifies : get_subject_key_identifier (x509 e) b.cert ≡ ok skid
      pub reads : e.contents.any_to_der value.ori_value ≡ some der
      pub decodes : e.codecs.decode_kemri der ≡ some info
      pub rid : info.rid ≡ subject_key_identifier skid
      kem_ct : e.kems.der.octets info.kem_ct ≡ ct
      encrypted_key : e.kems.der.octets info.encrypted_key ≡ wrapped
      kdf : e.kems.der.parse_oid b.kdf_oid ≡ some info.kdf.oid
      wrap : e.kems.der.parse_oid b.wrap_oid ≡ some info.wrap.oid
      length : info.kek_length ≡ n
      ukm : info.ukm ≡ b.ukm

    pub encode_recipient-Encoded :
        (n : ℕ) (wrapped ct : Bytes) (ri : Recipient e.kems.der e.contents)
        → encode_recipient e b n wrapped ct ≡ ok ri
        → Encoded n wrapped ct ri
    unfolding encode_recipient
    encode_recipient-Encoded n wrapped ct ri h =
        let (skid, e₁, r₁) =
          >>=-returns (map_err unknown (get_subject_key_identifier (x509 e) b.cert)) _ h in
        let (kem_oid, e₂, r₂) =
          >>=-returns
            (ok_or unknown
              (e.kems.der.parse_oid ((KemManager.operations e.kems b.kem).get_kem_info.oid)))
            _ r₁ in
        let (c, e₃, r₃) = >>=-returns (ok_or unknown (e.kems.der.octet_string ct)) _ r₂ in
        let (kdf_oid, e₄, r₄) = >>=-returns (ok_or unknown (e.kems.der.parse_oid b.kdf_oid)) _ r₃ in
        let (wrap_oid, e₅, r₅) =
          >>=-returns (ok_or unknown (e.kems.der.parse_oid b.wrap_oid)) _ r₄ in
        let (w, e₆, r₆) = >>=-returns (ok_or unknown (e.kems.der.octet_string wrapped)) _ r₅ in
        let (ori_oid, e₇, r₇) =
          >>=-returns (ok_or unknown (e.kems.der.parse_oid "1.2.840.113549.1.9.16.13.3")) _ r₆ in
        let info : KemRecipientInfo (Oid e) (Any e) (Octets e) = record {
          version = 0;
          rid = subject_key_identifier skid;
          kem = record { oid = kem_oid; parameters = none };
          kem_ct = c;
          kdf = record { oid = kdf_oid; parameters = none };
          kek_length = n;
          ukm = b.ukm;
          wrap = record { oid = wrap_oid; parameters = none };
          encrypted_key = w;
        } in
        let (der, e₈, r₈) = >>=-returns (ok_or unknown (e.codecs.encode_kemri info)) _ r₇ in
        let (value, e₉, r₉) = >>=-returns (ok_or unknown (e.contents.any_from_der der)) _ r₈ in
        record {
          skid = skid;
          value = record { ori_type = ori_oid; ori_value = value };
          der = der;
          info = info;
          is_ori = sym (ok-injective r₉);
          identifies = map_err-eq-ok unknown _ e₁;
          reads = l.contents.any der value (ok_or-eq-ok unknown _ e₉);
          decodes = l.kemri info der (ok_or-eq-ok unknown _ e₈);
          rid = refl;
          kem_ct = l.kems.der.octet ct c (ok_or-eq-ok unknown _ e₃);
          encrypted_key = l.kems.der.octet wrapped w (ok_or-eq-ok unknown _ e₆);
          kdf = ok_or-eq-ok unknown _ e₄;
          wrap = ok_or-eq-ok unknown _ e₅;
          length = refl;
          ukm = refl;
        }

    pub get_cek-encode_recipient :
        (t : WrapType) (kdf_type : KdfType) (type : WrapType) (sk : PrivateKey)
        (cek ss ct kek wrapped : Bytes) (ri : Recipient e.kems.der e.contents)
        → b.kdf_oid ≡ Kdf.get_oid kdf_type
        → b.wrap_oid ≡ Wrap.get_oid type
        → Encoded (Wrap.wrap_info t).key_length wrapped ct ri
        → Private.decap e.kems sk ct ≡ ok ss
        → Wrap.new_from_oid b.wrap_oid ≡ ok t
        → get_kek e ss b.wrap_oid b.kdf_oid (Wrap.wrap_info t).key_length b.ukm ≡ ok kek
        → Wrap.unwrap e.aes t kek wrapped ≡ ok cek
        → (o : OtherRecipientInfo (Oid e) (Any e)) × (ri ≡ ori o) × (get_cek e o sk b.cert ≡ ok cek)
    unfolding get_cek
    get_cek-encode_recipient t kdf_type type sk cek ss ct kek wrapped ri same_kdf same_wrap r opens
          found derived back =
        let kdf_text =
          l.kdf_text kdf_type r.info.kdf.oid
            (subst (λ s. e.kems.der.parse_oid s ≡ some r.info.kdf.oid) same_kdf r.kdf)
          ∙ sym same_kdf in
        let wrap_text =
          l.wrap_text type r.info.wrap.oid
            (subst (λ s. e.kems.der.parse_oid s ≡ some r.info.wrap.oid) same_wrap r.wrap)
          ∙ sym same_wrap in
        (
          r.value,
          r.is_ori,
          rw (r.reads, r.decodes)
              (open_kemri-eq-ok_of r.info sk b.cert ss ct kek wrapped cek b.wrap_oid b.kdf_oid t
                (ap (is_identified_by e b.cert) r.rid
                  ∙ is_identified_by-own b.cert r.skid r.identifies)
                r.kem_ct opens wrap_text kdf_text
                ((λ i. get_kek e ss b.wrap_oid b.kdf_oid (r.length i) (r.ukm i)) ∙ derived) found
                r.encrypted_key back),
        )
