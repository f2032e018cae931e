-- ===== src/Cea/Correct.antt =====
-- cea/aes.rs: encryption against decryption, with the encoding of the content between them.
use qubitcrypt.Prelude.{
  ◌∙◌, ◌≡◌, refl, sym, subst, ap, ◌⊎◌, inl, inr, true, false, String, Option, some, length,
  same_bytes_refl, Bool-cases,
}
use qubitcrypt.Outcome.{
  Bytes, ok, ok_or, map_err, >>=-returns, ok_or-eq-ok, map_err-eq-ok, ok-injective, unknown,
  invalid_aes_nonce,
}
use qubitcrypt.Effect.{after-returns}
use qubitcrypt.Asn1.Der.{Der}
use qubitcrypt.Asn1.Der as Asn1
use qubitcrypt.Cea.{
  CeaType, aes128_gcm, aes192_gcm, aes256_gcm, aes128_cbc_pad, aes192_cbc_pad, aes256_cbc_pad,
  is_gcm, get_oid, from_oid, Cipher, get_cipher, Openssl, AesParameters, EncryptedContentInfo,
  Codecs, or_empty, parameters_new, encode_nonce, content_type_of, to_content_info, decode_nonce,
  from_content_info, get_nonce, encrypt_with, encrypt, decrypt,
}

-- The documented laws of the encoders, and of the ciphers: the same key, nonce and additional data
-- decrypt what they encrypted, with a tag of sixteen bytes.
pub record IsLawful (d : Der) (c : Codecs d) {W : Type 0} (o : Openssl W) : Type 0 where
  pub any : (b : Bytes) (a : c.Any) → c.any_from_der b ≡ some a → c.any_to_der a ≡ some b
  pub parameters :
      (p : AesParameters d) (b : Bytes)
      → c.encode_parameters p ≡ some b
      → c.decode_parameters b ≡ some p
  pub octets :
      (s : d.OctetString) (b : Bytes) → c.encode_octets s ≡ some b → c.decode_octets b ≡ some s
  pub content :
      (e : EncryptedContentInfo d c.Any) (b : Bytes)
      → c.encode_content e ≡ some b
      → c.decode_content b ≡ some e
  pub oid_text :
      (t : CeaType) (i : d.ObjectId)
      → d.parse_oid (get_oid t) ≡ some i
      → d.oid_to_string i ≡ get_oid t
  pub aead :
      (k : Cipher) (key nonce aad text ct tag : Bytes)
      → o.encrypt_aead k key nonce aad text ≡ some (ct, tag)
      → (length tag ≡ 16) × (o.decrypt_aead k key nonce aad ct tag ≡ some text)
  pub cbc :
      (k : Cipher) (key nonce text ct : Bytes)
      → o.encrypt k key nonce text ≡ some ct
      → o.decrypt k key nonce ct ≡ some text

pub cea_from_oid-get_oid : (t : CeaType) → from_oid (get_oid t) ≡ some t
unfolding from_oid get_oid
cea_from_oid-get_oid aes128_gcm = refl
cea_from_oid-get_oid aes192_gcm = refl
cea_from_oid-get_oid aes256_gcm = refl
cea_from_oid-get_oid aes128_cbc_pad = refl
cea_from_oid-get_oid aes192_cbc_pad = refl
cea_from_oid-get_oid aes256_cbc_pad = refl

-- The tags that go with a type and a nonce.
abbrev Fits : CeaType → Bytes → Bytes → Type 0
Fits t nonce tag = ((is_gcm t ≡ true) × (length tag ≡ 16)) ⊎ ((is_gcm t ≡ false) × (nonce ≡ tag))

module _ (d : Der) (e : Asn1.IsLawful d) (c : Codecs d) {W : Type 0} (o : Openssl W)
    (l : IsLawful d c o) where
  decode-encode_nonce :
      (t : CeaType) (nonce tag b : Bytes) (a : c.Any)
      → Fits t nonce tag
      → encode_nonce d c t nonce ≡ ok b
      → c.any_from_der b ≡ some a
      → decode_nonce d c t tag (some a) ≡ ok nonce
  unfolding encode_nonce decode_nonce parameters_new
  decode-encode_nonce t nonce tag b a (inl (gcm, sized)) h read =
      let (p, e₁, r₁) =
        >>=-returns (map_err unknown (parameters_new d c nonce 16)) _ (rw (gcm) at h) in
      let (s, e₂, r₂) =
        >>=-returns (ok_or invalid_aes_nonce (d.octet_string nonce)) _
          (map_err-eq-ok unknown (parameters_new d c nonce 16) e₁) in
      let made = ok-injective r₂ in
      let known = l.parameters p b (ok_or-eq-ok unknown (c.encode_parameters p) r₁) in
      let text = e.octet nonce s (ok_or-eq-ok invalid_aes_nonce (d.octet_string nonce) e₂) in
      rw
        (
          l.any b a read,
          gcm,
          known,
          sym (ap (λ x. x.aes_icv_len) made),
          sized,
          sym (ap (λ x. x.aes_nonce) made),
          text,
        )
        refl
  decode-encode_nonce t nonce tag b a (inr (cbc, same)) h read =
      let (s, e₁, r₁) = >>=-returns (ok_or unknown (d.octet_string nonce)) _ (rw (cbc) at h) in
      let known = l.octets s b (ok_or-eq-ok unknown (c.encode_octets s) r₁) in
      let text = e.octet nonce s (ok_or-eq-ok unknown (d.octet_string nonce) e₁) in
      rw (l.any b a read, cbc, known, text, sym same, same_bytes_refl nonce) refl

  from_content_info-to_content_info :
      (t : CeaType) (ct nonce tag : Bytes) (cid : Option String) (b : Bytes)
      → Fits t nonce tag
      → to_content_info d c t ct nonce cid ≡ ok b
      → from_content_info d c tag b ≡ ok (t, nonce, ct)
  unfolding to_content_info from_content_info
  from_content_info-to_content_info t ct nonce tag cid b fits h =
      let (oid, e₁, r₁) = >>=-returns (ok_or unknown (d.parse_oid (get_oid t))) _ h in
      let (params, e₂, r₂) = >>=-returns (encode_nonce d c t nonce) _ r₁ in
      let (a, e₃, r₃) = >>=-returns (ok_or unknown (c.any_from_der params)) _ r₂ in
      let (kind, e₄, r₄) = >>=-returns (content_type_of d c cid) _ r₃ in
      let (s, e₅, r₅) = >>=-returns (ok_or unknown (d.octet_string ct)) _ r₄ in
      let known = l.content _ b (ok_or-eq-ok unknown _ r₅) in
      let name = l.oid_text t oid (ok_or-eq-ok unknown (d.parse_oid (get_oid t)) e₁) in
      let back =
        decode-encode_nonce t nonce tag params a fits e₂
          (ok_or-eq-ok unknown (c.any_from_der params) e₃) in
      let text = e.octet ct s (ok_or-eq-ok unknown (d.octet_string ct) e₅) in
      rw (known, name, cea_from_oid-get_oid t, back, text) refl

  -- What the match of `encrypt` gives is decrypted by the match of `decrypt`.
  encrypt_with-fits :
      (t : CeaType) (key nonce aad text ct tag : Bytes)
      → encrypt_with d c o t key nonce aad text ≡ ok (ct, tag)
      → ((is_gcm t ≡ true)
          × (length tag ≡ 16)
          × (o.decrypt_aead (get_cipher t) key nonce aad ct tag ≡ some text))
        ⊎ ((is_gcm t ≡ false) × (nonce ≡ tag) × (o.decrypt (get_cipher t) key nonce ct ≡ some text))
  unfolding encrypt_with
  encrypt_with-fits t key nonce aad text ct tag h = elim (Bool-cases (is_gcm t)) [
    | inl gcm ↦
        let (sized, back) =
          l.aead (get_cipher t) key nonce aad text ct tag (ok_or-eq-ok unknown _ (rw (gcm) at h)) in
        inl (gcm, sized, back)
    | inr cbc ↦
        let (ct', e₁, r₁) =
          >>=-returns (ok_or unknown (o.encrypt (get_cipher t) key nonce text)) _ (rw (cbc) at h) in
        let same : (ct', nonce) ≡ (ct, tag) = ok-injective r₁ in
        inr (
          cbc,
          ap (λ x. x.1) same,
          subst (λ x. o.decrypt (get_cipher t) key nonce x ≡ some text) (ap (λ x. x.0) same)
              (l.cbc (get_cipher t) key nonce text ct' (ok_or-eq-ok unknown _ e₁)),
        )
  ]

  decrypt-parts :
      (t : CeaType) (key nonce text ct tag b : Bytes) (aad : Option Bytes)
      → from_content_info d c tag b ≡ ok (t, nonce, ct)
      → ((is_gcm t ≡ true)
          × (o.decrypt_aead (get_cipher t) key nonce (or_empty aad) ct tag ≡ some text))
        ⊎ ((is_gcm t ≡ false) × (o.decrypt (get_cipher t) key nonce ct ≡ some text))
      → decrypt d c o key tag b aad ≡ ok text
  unfolding decrypt
  decrypt-parts t key nonce text ct tag b aad parts (inl (gcm, back)) = rw (parts, gcm, back) refl
  decrypt-parts t key nonce text ct tag b aad parts (inr (cbc, back)) = rw (parts, cbc, back) refl

  -- If encryption by any of the six types, with or without a nonce, additional data and a content type,
  -- gives a tag and a content, then decryption of these with the same key and the same additional data
  -- gives the text that was encrypted.
  pub decrypt-encrypt :
      (t : CeaType) (key : Bytes) (nonce : Option Bytes) (text : Bytes) (aad : Option Bytes)
      (cid : Option String) (w : W) (tag content : Bytes) (w' : W)
      → encrypt d c o t key nonce text aad cid w ≡ (ok (tag, content), w')
      → decrypt d c o key tag content aad ≡ ok text
  unfolding encrypt
  decrypt-encrypt t key nonce text aad cid w tag content w' h =
      let (n, v, e₁, r₁) = after-returns (get_nonce o (get_cipher t) nonce w) _ h in
      let (out, e₂, r₂) =
        >>=-returns (encrypt_with d c o t key n (or_empty aad) text) _ (ap (λ x. x.0) r₁) in
      let (b, e₃, r₃) = >>=-returns (to_content_info d c t out.0 n cid) _ r₂ in
      let same : (out.1, b) ≡ (tag, content) = ok-injective r₃ in
      subst (λ x. decrypt d c o key x.0 x.1 aad ≡ ok text) same
        (elim (encrypt_with-fits t key n (or_empty aad) text out.0 out.1 e₂) [
          | inl (gcm, sized, back) ↦
              decrypt-parts t key n text out.0 out.1 b aad
                (from_content_info-to_content_info t out.0 n out.1 cid b (inl (gcm, sized)) e₃)
                (inl (gcm, back))
          | inr (cbc, tagged, back) ↦
              decrypt-parts t key n text out.0 out.1 b aad
                (from_content_info-to_content_info t out.0 n out.1 cid b (inr (cbc, tagged)) e₃)
                (inr (cbc, back))
        ])

  -- What encryption gives decodes to a content that encodes to the same.
  pub encrypt-reencoded :
      (t : CeaType) (key : Bytes) (nonce : Option Bytes) (text : Bytes) (aad : Option Bytes)
      (cid : Option String) (w : W) (tag content : Bytes) (w' : W)
      → encrypt d c o t key nonce text aad cid w ≡ (ok (tag, content), w')
      → (x : EncryptedContentInfo d c.Any) × (c.encode_content x ≡ some content)
        × (c.decode_content content ≡ some x)
  unfolding encrypt to_content_info
  encrypt-reencoded t key nonce text aad cid w tag content w' h =
      let (n, v, e₁, r₁) = after-returns (get_nonce o (get_cipher t) nonce w) _ h in
      let (out, e₂, r₂) =
        >>=-returns (encrypt_with d c o t key n (or_empty aad) text) _ (ap (λ x. x.0) r₁) in
      let (b, e₃, r₃) = >>=-returns (to_content_info d c t out.0 n cid) _ r₂ in
      let same : (out.1, b) ≡ (tag, content) = ok-injective r₃ in
      let (oid, f₁, s₁) = >>=-returns (ok_or unknown (d.parse_oid (get_oid t))) _ e₃ in
      let (params, f₂, s₂) = >>=-returns (encode_nonce d c t n) _ s₁ in
      let (a, f₃, s₃) = >>=-returns (ok_or unknown (c.any_from_der params)) _ s₂ in
      let (kind, f₄, s₄) = >>=-returns (content_type_of d c cid) _ s₃ in
      let (s, f₅, s₅) = >>=-returns (ok_or unknown (d.octet_string out.0)) _ s₄ in
      let made = ok_or-eq-ok unknown _ s₅ ∙ ap (λ x. some x.1) same in
      (_, made, l.content _ content made)
