-- ===== src/CertBuilder.antt =====
-- asn1/cert_builder.rs: the validity of a certificate, and its builder. `chrono`, `der::DateTime`,
-- the random bytes and the builder of `x509_cert` are parameters. Instants are counts from a common
-- start, as exact as those of `chrono`.
pub mod Validated
use qubitcrypt.Prelude.{ℕ, ◌%◌, ◌^◌, String, Option, none, some, [], ◌∷◌, leb, ltb, if◌then◌else◌}
use qubitcrypt.Outcome.{
  Bytes, Outcome, ok, err, ok_or, map_err, ◌>>=◌, invalid_not_before, invalid_not_after,
  bad_subject, bad_public_key, bad_serial_number, bad_extension, unknown,
}
use qubitcrypt.Effect
use qubitcrypt.Effect.{Eff, pure, attempt, infallible}
use qubitcrypt.Asn1.Der.{Der}
use qubitcrypt.Keys.{Codecs}
use qubitcrypt.Keys.PublicKey.{PublicKey}
use qubitcrypt.Keys.PublicKey as Public
use qubitcrypt.Keys.PrivateKey.{PrivateKey}
use qubitcrypt.Certificate.{Certificate}

-- The fields of a `chrono::DateTime<Utc>`. RFC 3339 has no years before 0.
pub record Civil : Type 0 where
  pub year : ℕ
  pub month : ℕ
  pub day : ℕ
  pub hour : ℕ
  pub minute : ℕ
  pub second : ℕ

-- `parse_from_rfc3339` gives the instant in UTC; `date_new` is `der::DateTime::new`, and `utc_time`
-- is `UtcTime::from_date_time`.
pub record Clock (W : Type 0) : Type 1 where
  pub parse_from_rfc3339 : String → Option ℕ
  pub now : W → ℕ × W
  pub civil : ℕ → Civil
  pub Date : Type 0
  pub UtcTime : Type 0
  pub date_new : Civil → Option Date
  pub utc_time : Date → Option UtcTime

-- What an operation gives besides the builder.
abbrev pub Done : Type 0
Done = Unit

module _ {W : Type 0} (c : Clock W) where
  pub record CertValidity : Type 0 where
    pub not_before : c.UtcTime
    pub not_after : c.UtcTime

  -- The casts `as u16` and `as u8`.
  unfoldable pub cast : Civil → Civil
  cast t = record {
    year = t.year % 2 ^ 16;
    month = t.month % 2 ^ 8;
    day = t.day % 2 ^ 8;
    hour = t.hour % 2 ^ 8;
    minute = t.minute % 2 ^ 8;
    second = t.second % 2 ^ 8;
  }

  -- `date_time_to_asn`; its errors are boxed, and both callers forget them.
  unfoldable pub date_time_to_asn : ℕ → Outcome c.UtcTime
  unfolding cast
  date_time_to_asn time = do
    dt ← ok_or unknown (c.date_new (cast (c.civil time)))
    ok_or unknown (c.utc_time dt)

  -- The end of both branches of `new`, after their test.
  unfoldable pub validity_from : ℕ → c.UtcTime → Outcome CertValidity
  unfolding date_time_to_asn
  validity_from not_before not_after_dt = do
    not_before_dt ← map_err invalid_not_before (date_time_to_asn not_before)
    ok (record { not_before = not_before_dt; not_after = not_after_dt })

  -- `if let Some(not_before) = not_before { … } else { … }`.
  unfoldable pub started_at : Option String → ℕ → c.UtcTime → Eff W CertValidity
  unfolding validity_from
  started_at (some text) not_after not_after_dt =
      Effect.◌>>=◌ (pure (ok_or invalid_not_before (c.parse_from_rfc3339 text))) (λ not_before.
        pure (
          if ltb not_after not_before
          then err invalid_not_before
          else validity_from not_before not_after_dt))
  started_at none not_after not_after_dt = Effect.◌>>=◌ (infallible c.now) (λ not_before. pure (
      if ltb not_after not_before
      then err invalid_not_after
      else validity_from not_before not_after_dt))

  unfoldable pub validity_new : Option String → String → Eff W CertValidity
  unfolding date_time_to_asn started_at
  validity_new not_before not_after =
      Effect.◌>>=◌ (pure (ok_or invalid_not_after (c.parse_from_rfc3339 not_after))) (λ end.
        Effect.◌>>=◌ (infallible c.now) (λ now.
          if leb end now
          then pure (err invalid_not_after)
          else Effect.◌>>=◌ (pure (map_err invalid_not_after (date_time_to_asn end)))
              (λ not_after_dt. started_at not_before end not_after_dt)))

  -- `x509_cert::builder` and the types it takes, with `OsRng.fill_bytes`. `spki_from_document` is
  -- the rest of `SubjectPublicKeyInfo::from_key` after `to_der`.
  pub record X509Builder : Type 1 where
    pub Profile : Type 0
    pub Name : Type 0
    pub SerialNumber : Type 0
    pub Spki : Type 0
    pub Extension : Type 0
    pub Builder : Type 0
    pub name_from_str : String → Option Name
    pub spki_from_document : Bytes → Option Spki
    pub serial_number : Bytes → Option SerialNumber
    pub fill_bytes : ℕ → W → Bytes × W
    pub new : Profile → SerialNumber → CertValidity → Name → Spki → PrivateKey → Option Builder
    pub add_extension : Extension → Builder → Option Done × Builder
    pub build : Builder → W → Option Certificate × W

  -- `serial[0] = 0x01`, of an array that is not empty.
  unfoldable pub with_first_one : Bytes → Bytes
  with_first_one [] = []
  with_first_one (_ ∷ bytes) = 1 ∷ bytes

  module _ (x : X509Builder) where
    unfoldable pub get_random_serial : Eff W x.SerialNumber
    unfolding with_first_one
    get_random_serial =
        Effect.◌>>=◌ (infallible (x.fill_bytes 20))
          (λ serial. pure (ok_or bad_serial_number (x.serial_number (with_first_one serial))))

    abbrev pub serial_or_random : Option Bytes → Eff W x.SerialNumber
    unfolding get_random_serial
    serial_or_random (some serial) = pure (ok_or bad_serial_number (x.serial_number serial))
    serial_or_random none = get_random_serial

    -- `CertificateBuilder::new`. The struct is the builder in it.
    unfoldable pub builder_new :
        (d : Der)
        → Codecs d
        → x.Profile
        → Option Bytes
        → CertValidity
        → String
        → PublicKey
        → PrivateKey
        → Eff W x.Builder
    builder_new d k profile serial_number validity subject cert_public_key signer =
        Effect.◌>>=◌ (pure (ok_or bad_subject (x.name_from_str subject))) (λ name.
          Effect.◌>>=◌
            (pure (
              map_err bad_public_key (
                Public.to_der d k cert_public_key >>= λ der.
                ok_or bad_public_key (x.spki_from_document der))))
            (λ spki.
              Effect.◌>>=◌ (serial_or_random serial_number)
                (λ serial. pure (ok_or unknown (x.new profile serial validity name spki signer)))))

    unfoldable pub add_extension : x.Extension → Eff x.Builder Done
    add_extension extension = attempt bad_extension (x.add_extension extension)

    unfoldable pub build : x.Builder → Eff W Certificate
    build b = attempt unknown (x.build b)
