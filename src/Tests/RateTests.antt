-- ===== src/Tests/RateTests.antt =====
-- Witnesses for rates, their cache and the business day: a new gold rate on the day 35 of the clock.
use girvi_ghata_backend.Base.{
  ℕ, ◌+◌, ◌≤◌, ◌≡◌, ◌↔◌, ◌⊎◌, All, ◌==◌, refl, true, some, [], ltb, if◌then◌else◌, arith,
}
use girvi_ghata_backend.Calendar.{Instant}
use girvi_ghata_backend.Fixed.{Fixed}
use girvi_ghata_backend.Result.{ok, IsOk, value_of}
use girvi_ghata_backend.Table.{find_first, select}
use girvi_ghata_backend.Store.{Store, GirviStatus, Metal, MetalRate}
use girvi_ghata_backend.Girvi.{is_metal, current_rate, latest_rate}
use girvi_ghata_backend.Cache.{Cache}
use girvi_ghata_backend.Cache.Views.{IsViewed, cache-IsViewed}
use girvi_ghata_backend.IstDate.{get_ist_business_date, get_ist_business_date-holds}
use girvi_ghata_backend.Rates.{
  Rate, SetRate, last_of, is_open_rate, read_current, fill, get_status, get_current, set_rate,
  commit_rate,
}
use girvi_ghata_backend.Rates.Current.{OneCurrent, set_rate-get_current, late_fill-ends}
use girvi_ghata_backend.Rates.Status.{IsToday, set_rate-IsToday}
use girvi_ghata_backend.Tests.{rupees, store_in, clerk, day_35, two_places}

abbrev shop : Store Fixed
shop = store_in GirviStatus.active

abbrev no_entries : Cache (Rate Fixed)
no_entries = []

abbrev gold_at_2500 : SetRate Fixed
gold_at_2500 = record { metal_code = 0; rate_per_gram = rupees 2500 }

shop-OneCurrent : OneCurrent shop.metal_rates
unfolding select
shop-OneCurrent tenant metal = ground arith

sets : IsOk (set_rate day_35 shop no_entries clerk gold_at_2500 2)
unfolding set_rate commit_rate find_first
sets = tt

after :
    (q : MetalRate Fixed × Store Fixed × Cache (Rate Fixed)) × (set_rate day_35 shop no_entries
        clerk gold_at_2500 2
      ≡ ok q)
after = value_of (set_rate day_35 shop no_entries clerk gold_at_2500 2) sets

reads : IsOk (read_current shop clerk 0)
unfolding read_current current_rate latest_rate find_first select
reads = tt

old : (q : Rate Fixed) × (read_current shop clerk 0 ≡ ok q)
old = value_of (read_current shop clerk 0) reads

cache-IsViewed_example : IsViewed 5000 no_entries
cache-IsViewed_example = cache-IsViewed 5000 no_entries

get_ist_business_date-holds_example :
    ((get_ist_business_date day_35).start_utc ≤ day_35)
    × (day_35 ≤ (get_ist_business_date day_35).end_utc)
    × ((get_ist_business_date day_35).end_utc
        ≡ (get_ist_business_date day_35).start_utc + 86_399_999)
    × ((((get_ist_business_date day_35).start_utc ≤ day_35 + 1000)
          × (day_35 + 1000 ≤ (get_ist_business_date day_35).end_utc))
        ↔ ((get_ist_business_date (day_35 + 1000)).date ≡ (get_ist_business_date day_35).date))
get_ist_business_date-holds_example =
    get_ist_business_date-holds day_35 (day_35 + 1000) (omega arith) (omega arith)

set_rate-get_current_example :
    OneCurrent after.0.1.metal_rates
    × ((later : Instant) → (get_current later after.0.1 after.0.2 clerk 0).0 ≡ ok (2, after.0.0))
set_rate-get_current_example =
    set_rate-get_current day_35 shop no_entries clerk gold_at_2500 2 shop-OneCurrent after.1

late_fill-ends_example :
    (get_current (day_35 + 30_000) after.0.1 (fill (day_35 + 10) clerk 0 old.0 after.0.2) clerk 0).0
    ≡ (if ltb (day_35 + 10 + 60_000) (day_35 + 30_000) then ok (2, after.0.0) else ok old.0)
late_fill-ends_example =
    late_fill-ends day_35 shop no_entries clerk gold_at_2500 2 shop-OneCurrent after.1 old.0 old.1
      (day_35 + 10) (day_35 + 30_000)

set_rate-IsToday_example :
    (m : ℕ × Metal Fixed) × (find_first (is_metal 1 0) shop.metals ≡ some m)
    × IsToday (day_35 + 1000) (last_of m.0 (select (is_open_rate 1) after.0.1.metal_rates))
    × (((get_status (day_35 + 1000) after.0.1 clerk).up_to_date ≡ true)
        ↔ All
            (λ x.
              (x.0 ≡ m.0)
              ⊎ IsToday
                  (day_35 + 1000)
                  (last_of x.0 (select (is_open_rate 1) after.0.1.metal_rates)))
            (select (λ x. x.tenant == 1) after.0.1.metals))
set_rate-IsToday_example =
    set_rate-IsToday day_35 shop no_entries clerk gold_at_2500 2 shop-OneCurrent after.1
      (day_35 + 1000) (omega arith) (omega arith) refl
