-- ===== src/Tests/CertBuilderExamples.antt =====
-- The theorem on validities over a small clock, with a start that is later than the clock's time.
use qubitcrypt.Prelude.{ℕ, suc, ◌<◌, ◌≤◌, ◌≡◌, refl, none, some, str_eq, if◌then◌else◌}
use qubitcrypt.Outcome.{ok}
use qubitcrypt.CertBuilder.{
  Civil, Clock, CertValidity, cast, date_time_to_asn, validity_from, started_at, validity_new,
}
use qubitcrypt.CertBuilder.Validated.{Begins, validity_new_ordered}

abbrev toy_clock : Clock ℕ
toy_clock = record {
  parse_from_rfc3339 = λ s.
      if str_eq s "2030-01-01T00:00:00Z"
      then some 2030
      else if str_eq s "2035-01-01T00:00:00Z"
      then some 2035
      else none;
  now = λ w. (w, suc w);
  civil = λ n. record { year = n; month = 1; day = 1; hour = 0; minute = 0; second = 0 };
  Date = Civil;
  UtcTime = ℕ;
  date_new = λ t. some t;
  utc_time = λ t. some t.year;
}

abbrev validity : CertValidity toy_clock
validity = record { not_before = 2030; not_after = 2035 }

validity_new_ordered_example :
    (start : ℕ) × (stop : ℕ) × (toy_clock.parse_from_rfc3339 "2035-01-01T00:00:00Z" ≡ some stop)
    × Begins toy_clock (some "2030-01-01T00:00:00Z") 2026 start
    × (2025 < stop)
    × (start ≤ stop)
    × (date_time_to_asn toy_clock start ≡ ok validity.not_before)
    × (date_time_to_asn toy_clock stop ≡ ok validity.not_after)
unfolding validity_new started_at validity_from date_time_to_asn cast
validity_new_ordered_example =
    validity_new_ordered toy_clock (some "2030-01-01T00:00:00Z") "2035-01-01T00:00:00Z" 2025
      validity 2026 refl
