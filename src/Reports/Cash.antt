-- ===== src/Reports/Cash.antt =====
-- `dailyCashBook` and `recordDailyClosing` of src/modules/reports/reports.service.ts.
use girvi_ghata_backend.Base.{
  ℕ, Bool, not, ◌&&◌, Option, none, some, List, [], ◌∷◌, ◌==◌, leb, ltb, filter, is_none,
}
use girvi_ghata_backend.Decimal.{Decimal}
use girvi_ghata_backend.Calendar.{Instant}
use girvi_ghata_backend.Result.{Result, ok, throw_if, ◌>>=◌, ◌>>◌, discrepancy_reason_required}
use girvi_ghata_backend.Table.{Table, find_first, update, create}
use girvi_ghata_backend.Store.{
  Store, Columns, Context, LedgerEntry, inward, outward, DailyClosing, DateInput, AuditEntry,
  daily_closing_recorded,
}
use girvi_ghata_backend.Payments.{resolve_date}
use girvi_ghata_backend.Reports.{Days}

-- The entries come in no order: the sums do not depend on it.
pub record CashBook (D : Type 0) : Type 0 where
  pub date : Instant
  pub opening_cash : D
  pub total_inflow : D
  pub total_outflow : D
  pub expected_closing_cash : D
  pub entries : List (LedgerEntry D)

-- `RecordDailyClosingDto`
pub record RecordDailyClosing (D : Type 0) : Type 0 where
  pub branch_id : ℕ
  pub date : DateInput
  pub actual_cash : D
  pub discrepancy_reason : Option ℕ

-- `data: { discrepancyReason: undefined }` leaves the column as it is.
abbrev pub reason_or : Option ℕ → Option ℕ → Option ℕ
reason_or none old = old
reason_or (some reason) old = some reason

module _ {D : Type 0} where
  abbrev pub is_of : ℕ → ℕ → LedgerEntry D → Bool
  is_of tenant branch e = e.tenant == tenant && e.branch == branch

  abbrev pub is_before : ℕ → ℕ → Instant → LedgerEntry D → Bool
  is_before tenant branch start e = is_of tenant branch e && ltb e.created_at start

  abbrev pub is_within : ℕ → ℕ → Instant → Instant → LedgerEntry D → Bool
  is_within tenant branch start end e =
      is_of tenant branch e && (leb start e.created_at && ltb e.created_at end)

  -- The unique index of the closings.
  abbrev pub same_day : ℕ → ℕ → Instant → DailyClosing D → Bool
  same_day tenant branch date c = c.tenant == tenant && c.branch == branch && c.closing_date == date

  -- The `update` of the upsert.
  abbrev pub set_closing : DailyClosing D → DailyClosing D → DailyClosing D
  set_closing row old = record old {
    expected_cash = row.expected_cash;
    actual_cash = row.actual_cash;
    discrepancy = row.discrepancy;
    discrepancy_reason = reason_or row.discrepancy_reason old.discrepancy_reason;
    closed_by = row.closed_by;
  }

  -- `upsert`
  abbrev pub upsert_closing :
      Option (ℕ × DailyClosing D)
      → ℕ
      → DailyClosing D
      → Table (DailyClosing D)
      → Table (DailyClosing D)
  upsert_closing none id row rows = create id row rows
  upsert_closing (some (k, _)) id row rows = update k (set_closing row) rows

  -- The row that it returns.
  abbrev pub upserted : Option (ℕ × DailyClosing D) → DailyClosing D → DailyClosing D
  upserted none row = row
  upserted (some (_, old)) row = set_closing row old

  abbrev pub closing_id : Option (ℕ × DailyClosing D) → ℕ → ℕ
  closing_id none id = id
  closing_id (some (k, _)) id = k

module _ {D : Type 0} ⦃d : Decimal D⦄ where
  open d use {of_ℕ, plus, minus, less_than}

  -- The three loops over the ledger.
  unfoldable pub opening_from : D → List (LedgerEntry D) → D
  opening_from acc [] = acc
  opening_from acc (e ∷ es) =
      opening_from (elim e.direction [ inward ↦ plus acc e.amount | outward ↦ minus acc e.amount ])
        es

  unfoldable pub flows_from : D → D → List (LedgerEntry D) → D × D
  flows_from inflow outflow [] = (inflow, outflow)
  flows_from inflow outflow (e ∷ es) = elim e.direction [
    | inward ↦ flows_from (plus inflow e.amount) outflow es
    | outward ↦ flows_from inflow (plus outflow e.amount) es
  ]

  unfoldable pub daily_cash_book : Days → Store D → Context → ℕ → Instant → CashBook D
  daily_cash_book days s ctx branch date =
      let start = days.start_of_day date in
      let end = days.next_day start in
      let entries = filter (is_within ctx.tenant_id branch start end) s.ledger in
      let opening =
        opening_from (of_ℕ 0) (filter (is_before ctx.tenant_id branch start) s.ledger) in
      let flows = flows_from (of_ℕ 0) (of_ℕ 0) entries in
      record {
        date = start;
        opening_cash = opening;
        total_inflow = flows.0;
        total_outflow = flows.1;
        expected_closing_cash = minus (plus opening flows.0) flows.1;
        entries = entries;
      }

  -- `isZero`
  abbrev pub is_zero : D → Bool
  is_zero a = not (less_than a (of_ℕ 0)) && not (less_than (of_ℕ 0) a)

module _ {D : Type 0} ⦃d : Decimal D⦄ ⦃col : Columns D⦄ where
  open d use {minus}
  open col use {money}

  -- `recordDailyClosing`; `id` is the one that the database draws for a new row.
  unfoldable pub record_daily_closing :
      Days
      → Instant
      → Store D
      → Context
      → RecordDailyClosing D
      → ℕ
      → Result (DailyClosing D × Store D)
  record_daily_closing days now s ctx dto id = do
    given ← resolve_date dto.date now
    let date = days.start_of_day given
    let expected = (daily_cash_book days s ctx dto.branch_id date).expected_closing_cash
    let discrepancy = minus dto.actual_cash expected
    throw_if (not (is_zero discrepancy) && is_none dto.discrepancy_reason)
        discrepancy_reason_required
    let closing : DailyClosing D = record {
      tenant = ctx.tenant_id;
      branch = dto.branch_id;
      closing_date = date;
      expected_cash = money expected;
      actual_cash = money dto.actual_cash;
      discrepancy = money discrepancy;
      discrepancy_reason = dto.discrepancy_reason;
      closed_by = ctx.user_id;
    }
    let existing = find_first (same_day ctx.tenant_id dto.branch_id date) s.closings
    let entry : AuditEntry = record {
      tenant = ctx.tenant_id;
      actor = some ctx.user_id;
      action = daily_closing_recorded;
      entity_id = closing_id existing id;
    }
    ok (
      upserted existing closing,
      record s {
        closings = upsert_closing existing id closing s.closings;
        audit = entry ∷ s.audit;
      },
    )
