-- ===== src/Cms/Sealed/Built.antt =====
-- cms/asn1/auth_enveloped_data_builder.rs: the stages of `build`, and the recipients that it builds.
use qubitcrypt.Prelude.{◌≡◌, refl, sym, ap, ◌∙◌, subst, Option, some, List, [], ◌∷◌, Memᴰ}
use qubitcrypt.Outcome.{>>=-returns, Bytes, ok, ok_or, ok_or-eq-ok, ok-injective, unknown}
use qubitcrypt.Effect.{after-returns, after-pure-returns, map_error-returns}
use qubitcrypt.Cea as Cea
use qubitcrypt.Cms.{Crypto, Recipient, AuthEnvelopedData}
use qubitcrypt.Cms.Sealed.{
  AeadOids, aead_oid, RecipientBuilder, build_recipient, build_all, AuthEnvelopedDataBuilder,
  additional_data, content_oid, assemble, seal_with, seal,
}

module _ {W R : Type 0} (e : Crypto W R) where
  build_all-stages :
      (b : RecipientBuilder e) (bs : List (RecipientBuilder e)) (cek : Bytes) (w : W)
      (ris : List (Recipient e.kems.der e.contents)) (w' : W)
      → build_all e (b ∷ bs) cek w ≡ (ok ris, w')
      → (ri : Recipient e.kems.der e.contents) × (v : W) × (rest : List
          (Recipient e.kems.der e.contents))
        × (build_recipient e b cek w ≡ (ok ri, v))
        × (build_all e bs cek v ≡ (ok rest, w'))
        × (ri ∷ rest ≡ ris)
  unfolding build_all
  build_all-stages b bs cek w ris w' h =
      let (ri, v, e₁, r₁) = after-returns (build_recipient e b cek w) _ h in
      let (rest, u, e₂, r₂) = after-returns (build_all e bs cek v) _ r₁ in
      (
        ri,
        v,
        rest,
        e₁,
        e₂ ∙ ap (λ x. (ok rest, x)) (ap (λ x. x.1) r₂),
        ok-injective (ap (λ x. x.0) r₂),
      )

  -- What every builder of the list satisfies, whatever it builds, every recipient built does.
  pub build_all-each :
      (cek : Bytes) (P : Recipient e.kems.der e.contents → Type 0) (bs : List (RecipientBuilder e))
      → ((b : RecipientBuilder e)
          → Memᴰ b bs
          → (w : W) (ri : Recipient e.kems.der e.contents) (w' : W)
          → build_recipient e b cek w ≡ (ok ri, w')
          → P ri)
      → (w : W) (ris : List (Recipient e.kems.der e.contents)) (w' : W)
      → build_all e bs cek w ≡ (ok ris, w')
      → (ri : Recipient e.kems.der e.contents) → Memᴰ ri ris
      → P ri
  unfolding build_all
  build_all-each cek P [] each w ris w' h ri m =
      let none_built : [] ≡ ris = ok-injective (ap (λ x. x.0) h) in
      elim (subst (λ l. Memᴰ ri l) (sym none_built) m) [ ]
  build_all-each cek P (b ∷ bs) each w ris w' h ri m =
      let (r, v, rest, e₁, e₂, same) = build_all-stages b bs cek w ris w' h in
      elim (subst (λ l. Memᴰ ri l) (sym same) m) [
        | Memᴰ.head is ↦ subst P (sym is) (each b (Memᴰ.head refl) w r v e₁)
        | Memᴰ.tail n ↦ build_all-each cek P bs (λ c k. each c (Memᴰ.tail k)) v rest w' e₂ ri n
      ]

  -- Each builder of the list has built one of the recipients.
  pub build_all-has :
      (cek : Bytes) (b : RecipientBuilder e) (bs : List (RecipientBuilder e))
      → Memᴰ b bs
      → (w : W) (ris : List (Recipient e.kems.der e.contents)) (w' : W)
      → build_all e bs cek w ≡ (ok ris, w')
      → (ri : Recipient e.kems.der e.contents) × (v : W) × (v' : W) × Memᴰ ri ris
        × (build_recipient e b cek v ≡ (ok ri, v'))
  build_all-has cek b [] m w ris w' h = elim m [ ]
  build_all-has cek b (c ∷ bs) m w ris w' h =
      let (r, v, rest, e₁, e₂, same) = build_all-stages c bs cek w ris w' h in
      elim m [
        | Memᴰ.head is ↦ (
          r,
          w,
          v,
          subst (λ l. Memᴰ r l) same (Memᴰ.head refl),
          ap (λ x. build_recipient e x cek w) is ∙ e₁,
        )
        | Memᴰ.tail n ↦
            let (ri, u, u', k, f) = build_all-has cek b bs n v rest w' e₂ in
            (ri, u, u', subst (λ l. Memᴰ ri l) same (Memᴰ.tail k), f)
      ]

  -- What a sealing that went through has done.
  pub record Sealing (b : AuthEnvelopedDataBuilder e)
      (ed : AuthEnvelopedData e.kems.der e.contents e.codecs.Originator e.codecs.Attributes)
      : Type 0 where
    pub aad : Option Bytes
    pub has_aad : additional_data e b.auth_attributes ≡ ok aad
    pub cea : Cea.CeaType
    pub cek : Bytes
    pub nonce : Bytes
    pub tag : Bytes
    pub content : Bytes
    pub before : W
    pub after : W
    pub encrypted :
        Cea.encrypt e.kems.der e.contents e.symm cea cek
          (some nonce)
          b.unencrypted_content
          aad
          (content_oid e b.content_id)
          before
        ≡ (ok (tag, content), after)
    pub built : List (Recipient e.kems.der e.contents)
    pub end : W
    pub has_built : build_all e b.recipient_infos cek after ≡ (ok built, end)
    pub ordered : e.codecs.recipient_infos built ≡ some ed.recip_infos
    pub mac : e.kems.der.octet_string tag ≡ some ed.mac
    pub decoded : e.contents.decode_content content ≡ some ed.auth_encrypted_content
    pub attributes : b.auth_attributes ≡ ed.auth_attrs
    pub unprotected : b.unauth_attributes ≡ ed.unauth_attrs
    pub originator : b.originator_info ≡ ed.originator_info
    pub version : 0 ≡ ed.version

  -- What the end of a sealing has put together.
  record Assembled (b : AuthEnvelopedDataBuilder e) (ris : List (Recipient e.kems.der e.contents))
      (tag content : Bytes)
      (ed : AuthEnvelopedData e.kems.der e.contents e.codecs.Originator e.codecs.Attributes)
      : Type 0 where
    ordered : e.codecs.recipient_infos ris ≡ some ed.recip_infos
    mac : e.kems.der.octet_string tag ≡ some ed.mac
    decoded : e.contents.decode_content content ≡ some ed.auth_encrypted_content
    attributes : b.auth_attributes ≡ ed.auth_attrs
    unprotected : b.unauth_attributes ≡ ed.unauth_attrs
    originator : b.originator_info ≡ ed.originator_info
    version : 0 ≡ ed.version

  assemble-Assembled :
      (b : AuthEnvelopedDataBuilder e) (ris : List (Recipient e.kems.der e.contents))
      (tag content : Bytes)
      (ed : AuthEnvelopedData e.kems.der e.contents e.codecs.Originator e.codecs.Attributes)
      → assemble e b ris tag content ≡ ok ed
      → Assembled b ris tag content ed
  unfolding assemble
  assemble-Assembled b ris tag content ed h =
      let (infos, e₁, r₁) = >>=-returns (ok_or unknown (e.codecs.recipient_infos ris)) _ h in
      let (mac, e₂, r₂) = >>=-returns (ok_or unknown (e.kems.der.octet_string tag)) _ r₁ in
      let (eci, e₃, r₃) = >>=-returns (ok_or unknown (e.contents.decode_content content)) _ r₂ in
      let made = ok-injective r₃ in
      record {
        ordered = ok_or-eq-ok unknown _ e₁ ∙ ap (λ x. some x.recip_infos) made;
        mac = ok_or-eq-ok unknown _ e₂ ∙ ap (λ x. some x.mac) made;
        decoded = ok_or-eq-ok unknown _ e₃ ∙ ap (λ x. some x.auth_encrypted_content) made;
        attributes = ap (λ x. x.auth_attrs) made;
        unprotected = ap (λ x. x.unauth_attrs) made;
        originator = ap (λ x. x.originator_info) made;
        version = ap (λ x. x.version) made;
      }

  seal_with-Sealing :
      (cea : Cea.CeaType) (b : AuthEnvelopedDataBuilder e) (aad : Option Bytes)
      → additional_data e b.auth_attributes ≡ ok aad
      → (w : W)
        (ed : AuthEnvelopedData e.kems.der e.contents e.codecs.Originator e.codecs.Attributes)
        (w' : W)
      → seal_with e cea b aad w ≡ (ok ed, w')
      → Sealing b ed
  unfolding seal_with
  seal_with-Sealing cea b aad has w ed w' h =
      let (cek, v₁, e₄, r₄) = after-returns (Cea.key_gen e.symm cea w) _ h in
      let (nonce, v₂, e₅, r₅) = after-returns (Cea.nonce_gen e.symm cea v₁) _ r₄ in
      let (out, v₃, e₆, r₆) =
        after-returns
          (Cea.encrypt e.kems.der e.contents e.symm cea cek (some nonce) b.unencrypted_content aad
            (content_oid e b.content_id) v₂)
          _ r₅ in
      let (ris, v₄, e₇, r₇) = after-returns _ _ r₆ in
      let rest = assemble-Assembled b ris out.0 out.1 ed (ap (λ x. x.0) r₇) in
      record {
        aad = aad;
        has_aad = has;
        cea = cea;
        cek = cek;
        nonce = nonce;
        tag = out.0;
        content = out.1;
        before = v₂;
        after = v₃;
        encrypted = e₆;
        built = ris;
        end = v₄;
        has_built = map_error-returns unknown (build_all e b.recipient_infos cek v₃) e₇;
        ordered = rest.ordered;
        mac = rest.mac;
        decoded = rest.decoded;
        attributes = rest.attributes;
        unprotected = rest.unprotected;
        originator = rest.originator;
        version = rest.version;
      }

  pub seal-Sealing :
      (ids : AeadOids) (b : AuthEnvelopedDataBuilder e) (w : W)
      (ed : AuthEnvelopedData e.kems.der e.contents e.codecs.Originator e.codecs.Attributes)
      (w' : W)
      → seal e ids b w ≡ (ok ed, w')
      → Sealing b ed
  unfolding seal
  seal-Sealing ids b w ed w' h =
      let (aad, e₁, r₁) = after-pure-returns (additional_data e b.auth_attributes) w _ h in
      let (t, e₂, r₂) =
        after-pure-returns
          (ok_or unknown (Cea.from_oid (aead_oid ids b.content_encryption_algorithm))) w _ r₁ in
      let (cea, e₃, r₃) = after-pure-returns (Cea.new t) w _ r₂ in
      seal_with-Sealing cea b aad e₁ w ed w' r₃
