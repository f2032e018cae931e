-- ===== src/Cms/Decrypt/Searched.antt =====
-- cms/cms_util.rs: the recipient that decides the decryption of a message.
use qubitcrypt.Prelude.{
  ap, ◌≡◌, refl, sym, subst, ◌∙◌, ◌⊎◌, inl, inr, ◌↔◌, List, [], ◌∷◌, Memᴰ, arith,
}
use qubitcrypt.Outcome.{Bytes, Outcome, ok, err, panic, diverges, if_ok, QubitCryptError}
use qubitcrypt.Cms.{OtherRecipientInfo, RecipientInfo, ori, ktri, kari, kekri, pwri}
use qubitcrypt.Cms.Decrypt.{open_first}

module _ {O A : Type 0} (cek : OtherRecipientInfo O A → Outcome Bytes) where
  -- The list opens with a key: that of its first recipient which gives one, those before being of
  -- another kind or refused with an error.
  pub data Opens : List (RecipientInfo O A) → Bytes → Type 0 where
    here :
        {o : OtherRecipientInfo O A} {ris : List (RecipientInfo O A)} {key : Bytes}
        → cek o ≡ ok key
        → Opens (ori o ∷ ris) key
    refused :
        {o : OtherRecipientInfo O A} {ris : List (RecipientInfo O A)} {key : Bytes}
        (x : QubitCryptError)
        → cek o ≡ err x
        → Opens ris key
        → Opens (ori o ∷ ris) key
    by_ktri :
        {b : Bytes} {ris : List (RecipientInfo O A)} {key : Bytes}
        → Opens ris key
        → Opens (ktri b ∷ ris) key
    by_kari :
        {b : Bytes} {ris : List (RecipientInfo O A)} {key : Bytes}
        → Opens ris key
        → Opens (kari b ∷ ris) key
    by_kekri :
        {b : Bytes} {ris : List (RecipientInfo O A)} {key : Bytes}
        → Opens ris key
        → Opens (kekri b ∷ ris) key
    by_pwri :
        {b : Bytes} {ris : List (RecipientInfo O A)} {key : Bytes}
        → Opens ris key
        → Opens (pwri b ∷ ris) key

  if_ok-cases :
      (r : Outcome Bytes) (decrypt : Bytes → Outcome Bytes) (rest : Outcome Bytes) (text : Bytes)
      → if_ok r decrypt rest ≡ ok text
      → ((key : Bytes) × (r ≡ ok key) × (decrypt key ≡ ok text))
        ⊎ ((x : QubitCryptError) × (r ≡ err x) × (rest ≡ ok text))
  if_ok-cases (ok key) decrypt rest text h = inl (key, refl, h)
  if_ok-cases (err x) decrypt rest text h = inr (x, refl, h)
  if_ok-cases panic decrypt rest text h = absurd (ground arith)
  if_ok-cases diverges decrypt rest text h = absurd (ground arith)

  open_first_sound :
      (decrypt : Bytes → Outcome Bytes) (ris : List (RecipientInfo O A)) (text : Bytes)
      → open_first cek decrypt ris ≡ ok text
      → (key : Bytes) × Opens ris key × (decrypt key ≡ ok text)
  open_first_sound decrypt [] text h = absurd (ground arith)
  open_first_sound decrypt (ori o ∷ ris) text h =
      elim (if_ok-cases (cek o) decrypt (open_first cek decrypt ris) text h) [
        | inl (key, e, f) ↦ (key, here e, f)
        | inr (x, e, f) ↦
            let (key, opens, g) = open_first_sound decrypt ris text f in (key, refused x e opens, g)
      ]
  open_first_sound decrypt (ktri b ∷ ris) text h =
      let (key, opens, g) = open_first_sound decrypt ris text h in (key, by_ktri opens, g)
  open_first_sound decrypt (kari b ∷ ris) text h =
      let (key, opens, g) = open_first_sound decrypt ris text h in (key, by_kari opens, g)
  open_first_sound decrypt (kekri b ∷ ris) text h =
      let (key, opens, g) = open_first_sound decrypt ris text h in (key, by_kekri opens, g)
  open_first_sound decrypt (pwri b ∷ ris) text h =
      let (key, opens, g) = open_first_sound decrypt ris text h in (key, by_pwri opens, g)

  open_first_complete :
      (decrypt : Bytes → Outcome Bytes) (ris : List (RecipientInfo O A)) (key : Bytes)
      → Opens ris key
      → open_first cek decrypt ris ≡ decrypt key
  open_first_complete decrypt [] key opens = elim opens [ ]
  open_first_complete decrypt (ori o ∷ ris) key (here e) = rw (e) refl
  open_first_complete decrypt (ori o ∷ ris) key (refused x e opens) =
      rw (e) (open_first_complete decrypt ris key opens)
  open_first_complete decrypt (ktri b ∷ ris) key (by_ktri opens) =
      open_first_complete decrypt ris key opens
  open_first_complete decrypt (kari b ∷ ris) key (by_kari opens) =
      open_first_complete decrypt ris key opens
  open_first_complete decrypt (kekri b ∷ ris) key (by_kekri opens) =
      open_first_complete decrypt ris key opens
  open_first_complete decrypt (pwri b ∷ ris) key (by_pwri opens) =
      open_first_complete decrypt ris key opens

  -- The loop over the recipients of a message gives a text exactly when the first recipient that gives a
  -- content key, after recipients of another kind or refused with an error, gives one that decrypts the
  -- content to that text.
  pub open_first_iff :
      (decrypt : Bytes → Outcome Bytes) (ris : List (RecipientInfo O A)) (text : Bytes)
      → (open_first cek decrypt ris ≡ ok text)
        ↔ ((key : Bytes) × Opens ris key × (decrypt key ≡ ok text))
  open_first_iff decrypt ris text = (
    open_first_sound decrypt ris text,
    λ (key, opens, e). open_first_complete decrypt ris key opens ∙ e,
  )

  -- A recipient that gives this key or is refused.
  abbrev pub GivesOrRefused : Bytes → RecipientInfo O A → Type 0
  GivesOrRefused key ri =
      (o : OtherRecipientInfo O A) × (ri ≡ ori o)
      × ((cek o ≡ ok key) ⊎ ((x : QubitCryptError) × (cek o ≡ err x)))

  abbrev cek_of : RecipientInfo O A → Outcome Bytes
  cek_of (ori o) = cek o
  cek_of _ = panic

  -- Where no recipient gives another key, and one gives this, the loop uses this.
  pub open_first-only_key :
      (decrypt : Bytes → Outcome Bytes) (key : Bytes) (ris : List (RecipientInfo O A))
      → ((ri : RecipientInfo O A) → Memᴰ ri ris → GivesOrRefused key ri)
      → (o : OtherRecipientInfo O A) → Memᴰ (ori o) ris
      → cek o ≡ ok key
      → open_first cek decrypt ris ≡ decrypt key
  open_first-only_key decrypt key [] only o m gives = elim m [ ]
  open_first-only_key decrypt key (ri ∷ ris) only o m gives =
      let (p, is, given) = only ri (Memᴰ.head refl) in
      subst (λ r. open_first cek decrypt (r ∷ ris) ≡ decrypt key) (sym is)
        (elim given [
          | inl e ↦ rw (e) refl
          | inr (x, e) ↦ rw (e) (elim m [
            | Memᴰ.head same ↦
                let equal : err x ≡ ok key = sym e ∙ (ap cek_of (sym (same ∙ is)) ∙ gives) in
                absurd (ground arith)
            | Memᴰ.tail rest ↦
                open_first-only_key decrypt key ris (λ r n. only r (Memᴰ.tail n)) o rest gives
          ])
        ])
