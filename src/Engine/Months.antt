-- ===== src/Engine/Months.antt =====
-- `calculateCalendarMonthsElapsed`: the month count on every branch, and its growth with time.
use mathlib.Core.Path.{subst}
use girvi_ghata_backend.Base.{◌+◌, ◌-◌, ◌≤◌, ◌<◌, ◌≡◌, ◌⊎◌, arith}
use girvi_ghata_backend.Base.Int.{ℤ, pos, ◌≤ℤ◌}
use girvi_ghata_backend.Calendar.{Instant, Calendar, Civil, month_index, IsCalendar}
use girvi_ghata_backend.Result.{ok, err, as_of_before_pledge, Returns}
use girvi_ghata_backend.Engine.{calculate_calendar_months_elapsed}

-- the same calendar day
abbrev pub SameDay : Civil → Civil → Type 0
SameDay c d = (c.year ≡ d.year) × (c.month ≡ d.month) × (c.day ≡ d.day)

module _ (cal : Calendar) (laws : IsCalendar cal) where
  open laws use {month_lt, in_order}

  -- What the count has to be: 0 on the day of the pledge, otherwise the months from the pledge's to
  -- the day's, both counted, so at least 1.
  abbrev pub IsMonths : Instant → Instant → ℤ → Type 0
  IsMonths p a n =
      (SameDay (cal p) (cal a) × (n ≡ pos 0))
      ⊎ ((¬ SameDay (cal p) (cal a))
          × (month_index (cal p) ≤ month_index (cal a))
          × (n ≡ pos (month_index (cal a) - month_index (cal p) + 1)))

  IsMonths-return :
      (p a : Instant) → p ≤ a → Returns (calculate_calendar_months_elapsed cal p a) (IsMonths p a)
  unfolding calculate_calendar_months_elapsed
  IsMonths-return p a h = ground (arith, in_order p a h)

  months_throw :
      (p a : Instant) → a < p → calculate_calendar_months_elapsed cal p a ≡ err as_of_before_pledge
  unfolding calculate_calendar_months_elapsed
  months_throw p a h = ground arith

  -- calculateCalendarMonthsElapsed throws for a day before the pledge; from the pledge on it
  -- returns 0 on the pledge's calendar day, and on every other day the number of months from the
  -- pledge's to that day's, both counted.
  pub months_elapsed_lem :
      (p a : Instant)
      → (a < p → calculate_calendar_months_elapsed cal p a ≡ err as_of_before_pledge)
        × (p ≤ a → Returns (calculate_calendar_months_elapsed cal p a) (IsMonths p a))
  months_elapsed_lem p a = (months_throw p a, IsMonths-return p a)

  SameDay-between :
      (p a b : Instant) → p ≤ a → a ≤ b → SameDay (cal p) (cal b) → SameDay (cal p) (cal a)
  SameDay-between p a b h k s =
      ground (arith, in_order p a h, in_order a b k, month_lt p, month_lt a, month_lt b)

  -- The month count never falls as time passes from the pledge on.
  pub months_elapsed_mono :
      (p a b : Instant) {m n : ℤ}
      → p ≤ a
      → a ≤ b
      → calculate_calendar_months_elapsed cal p a ≡ ok m
      → calculate_calendar_months_elapsed cal p b ≡ ok n
      → m ≤ℤ n
  months_elapsed_mono p a b h k em en =
      let early = subst (λ r. Returns r (IsMonths p a)) em (IsMonths-return p a h) in
      let late = subst (λ r. Returns r (IsMonths p b)) en (IsMonths-return p b (omega arith)) in
      ground (arith, early, late, SameDay-between p a b h k, in_order a b k)
