-- ===== src/Reports.antt =====
-- src/modules/reports/reports.service.ts. The local days of the server are an argument, as the
-- calendar is.
pub mod Cash
pub mod Closing
pub mod Recorded
pub mod Loans
pub mod Statement
use girvi_ghata_backend.Base.{◌≤◌, ◌<◌, ◌≡◌}
use girvi_ghata_backend.Calendar.{Instant, day_ms}

-- `setHours(0, 0, 0, 0)`, `setDate(getDate() + 1)` from the start of a day, and `setDate(1)` with
-- `setHours(0, 0, 0, 0)`.
pub record Days : Type 0 where
  pub start_of_day : Instant → Instant
  pub next_day : Instant → Instant
  pub start_of_month : Instant → Instant

-- What the cash book relies on: the next day starts later.
pub record IsDays (days : Days) : Type 0 where
  pub start_lt_next : (t : Instant) → days.start_of_day t < days.next_day (days.start_of_day t)
