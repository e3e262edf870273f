-- ===== src/IstDate.antt =====
-- src/common/utils/ist-date.util.ts. An instant counts from a midnight of UTC, so `getUTCDate` and
-- `Date.UTC` are division by the length of a day; a date is its number.
use girvi_ghata_backend.Base.{ℕ, ◌+◌, ◌-◌, ◌*◌, ◌/◌, ◌≤◌, ◌≡◌, ◌↔◌, arith}
use girvi_ghata_backend.Calendar.{Instant, day_ms}

abbrev pub ist_offset_ms : ℕ
ist_offset_ms = 19_800_000

pub record IstBusinessDate : Type 0 where
  pub date : ℕ
  pub start_utc : Instant
  pub end_utc : Instant

abbrev pub ist_day : Instant → ℕ
ist_day at = (at + ist_offset_ms) / day_ms

unfoldable pub get_ist_business_date : Instant → IstBusinessDate
get_ist_business_date at =
    let midnight = ist_day at * day_ms in
    record {
      date = ist_day at;
      start_utc = midnight - ist_offset_ms;
      end_utc = midnight + 86_399_999 - ist_offset_ms;
    }

-- The business day of an instant starts no later and ends no earlier than it, lasts 86,400,000
-- milliseconds, and holds just the instants of the same date, if none of them lies in the first day
-- of the clock.
pub get_ist_business_date-holds :
    (at other : Instant)
    → day_ms ≤ at
    → day_ms ≤ other
    → ((get_ist_business_date at).start_utc ≤ at)
      × (at ≤ (get_ist_business_date at).end_utc)
      × ((get_ist_business_date at).end_utc ≡ (get_ist_business_date at).start_utc + 86_399_999)
      × ((((get_ist_business_date at).start_utc ≤ other)
            × (other ≤ (get_ist_business_date at).end_utc))
          ↔ ((get_ist_business_date other).date ≡ (get_ist_business_date at).date))
unfolding get_ist_business_date
get_ist_business_date-holds at other h k = (
  omega arith,
  omega arith,
  omega arith,
  (λ (from, until). omega arith, λ same. (omega (arith, same), omega (arith, same))),
)
