-- ===== src/Calendar.antt =====
-- Instants and the server's local calendar, which the engine reads through `Date.getFullYear`,
-- `getMonth` and `getDate`. An instant counts the milliseconds from a fixed start before every date
-- of the system: the code compares and subtracts instants, and adds whole days.
use girvi_ghata_backend.Base.{◌⊎◌, ℕ, ◌+◌, ◌*◌, ◌/◌, ◌%◌, ◌≤◌, ◌<◌, ◌≡◌, arith}

abbrev pub Instant : Type 0
Instant = ℕ

-- `month` counts from 0, as `getMonth` does.
pub record Civil : Type 0 where
  pub year : ℕ
  pub month : ℕ
  pub day : ℕ

-- The time zone of the server is not part of the repository.
abbrev pub Calendar : Type 0
Calendar = Instant → Civil

abbrev pub day_ms : ℕ
day_ms = 86_400_000

abbrev pub month_index : Civil → ℕ
month_index c = c.year * 12 + c.month

-- What the engine relies on: months are numbered below 12, and a later instant lies in a later
-- month, or in the same month on no earlier day.
pub record IsCalendar (cal : Calendar) : Type 0 where
  pub month_lt : (t : Instant) → (cal t).month < 12
  pub in_order :
      (s t : Instant)
      → s ≤ t
      → (month_index (cal s) < month_index (cal t))
        ⊎ ((month_index (cal s) ≡ month_index (cal t)) × ((cal s).day ≤ (cal t).day))

-- A calendar that meets this: twelve months of 30 days.
abbrev pub thirty_days : Calendar
thirty_days t = record {
  year = t / (360 * day_ms);
  month = t / (30 * day_ms) % 12;
  day = t / day_ms % 30 + 1;
}

thirty_days-in_order :
    (s t : Instant)
    → s ≤ t
    → (month_index (thirty_days s) < month_index (thirty_days t))
      ⊎ ((month_index (thirty_days s) ≡ month_index (thirty_days t))
          × ((thirty_days s).day ≤ (thirty_days t).day))
thirty_days-in_order s t h = grind arith

pub thirty_days-IsCalendar : IsCalendar thirty_days
thirty_days-IsCalendar = record { month_lt = λ t. omega arith; in_order = thirty_days-in_order }
