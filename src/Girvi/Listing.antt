-- ===== src/Girvi/Listing.antt =====
-- `findOne`, `list` and `getCurrentValuation` of src/modules/girvi/girvi.service.ts. The search text is matched and the rows
-- are sorted by the database. A bound of the dates is what `new Date` reads from its text.
use girvi_ghata_backend.Base.{
  ℕ, Bool, true, ◌&&◌, Option, none, some, List, [], ◌∷◌, map, leb, ◌==◌,
}
use girvi_ghata_backend.Base.Int.{ℤ}
use girvi_ghata_backend.Decimal.{Decimal, sum_from}
use girvi_ghata_backend.Calendar.{Instant, Calendar}
use girvi_ghata_backend.Result.{Result, ok, or_throw, ◌>>=◌, transaction_not_found}
use girvi_ghata_backend.Types.{OutstandingBreakdown}
use girvi_ghata_backend.Table.{Table, find, find_where, find_first, select, count}
use girvi_ghata_backend.Store.{
  Store, Context, Customer, GirviTransaction, GirviStatus, Packet, Payment, ValuationSnapshot,
  DocumentNumber, DateInput,
}
use girvi_ghata_backend.Engine.{calculate_calendar_months_elapsed}
use girvi_ghata_backend.Outstanding.{of_tenant, include_all, compute_outstanding_for_preloaded}
use girvi_ghata_backend.Girvi.Changes.{CurrentValuation, compute_current_valuation}
use girvi_ghata_backend.Redemption.{packet_of}
use girvi_ghata_backend.Pagination.{PageInput, parse_pagination, rows_of}

-- A transaction with what `findOne` includes; its items, valuation and top-ups are in its row.
pub record GirviDetails (D : Type 0) : Type 0 where
  pub transaction : GirviTransaction D
  pub customer : Option Customer
  pub payments : List (ℕ × Payment D)
  pub packet : Option (ℕ × Packet)

-- `ListGirviDto`, without the search text and the sort parameters
pub record ListGirvi : Type 0 where
  pub status : Option GirviStatus
  pub from_date : DateInput
  pub to_date : DateInput
  pub page : PageInput
  pub page_size : PageInput

pub record GirviRow (D : Type 0) : Type 0 where
  pub id : ℕ
  pub girvi_number : DocumentNumber
  pub status : GirviStatus
  pub loan_amount : D
  pub total_pledge_months : ℤ
  pub interest_percent : Option D
  pub interest_accrued : D

pub record GirviPage (D : Type 0) : Type 0 where
  pub results : List (GirviRow D)
  pub total : ℕ
  pub page : ℕ
  pub page_size : ℕ

-- The statuses as numbers, to compare them.
abbrev pub status_code : GirviStatus → ℕ
status_code GirviStatus.draft = 0
status_code GirviStatus.active = 1
status_code GirviStatus.partially_paid = 2
status_code GirviStatus.overdue = 3
status_code GirviStatus.renewed = 4
status_code GirviStatus.closed = 5
status_code GirviStatus.redeemed = 6
status_code GirviStatus.auction_eligible = 7
status_code GirviStatus.auctioned = 8
status_code GirviStatus.cancelled = 9

abbrev pub has_status : Option GirviStatus → GirviStatus → Bool
has_status none s = true
has_status (some wanted) s = status_code s == status_code wanted

-- A bound that is left out or not a date does not count.
abbrev pub is_from : DateInput → Instant → Bool
is_from (DateInput.at from) t = leb from t
is_from _ t = true

abbrev pub is_until : DateInput → Instant → Bool
is_until (DateInput.at last) t = leb t last
is_until _ t = true

module _ {D : Type 0} where
  unfoldable pub find_one_girvi :
      (Table (Payment D) → List (ℕ × Payment D)) → Store D → Context → ℕ → Result (GirviDetails D)
  find_one_girvi by_payment s ctx id = do
    t ← or_throw (find_where id (of_tenant ctx.tenant_id) s.transactions) transaction_not_found
    ok (record {
      transaction = t;
      customer = find t.customer s.customers;
      payments = by_payment (select (λ p. p.girvi_transaction_id == id) s.payments);
      packet = find_first (packet_of id) s.packets;
    })

  -- The `where` of the query.
  abbrev pub is_listed : ℕ → ListGirvi → (GirviTransaction D → Bool) → GirviTransaction D → Bool
  is_listed tenant query matches t =
      t.tenant == tenant
      && (has_status query.status t.status
          && (is_from query.from_date t.pledge_date
              && (is_until query.to_date t.pledge_date && matches t)))

  abbrev pub percent_of : Option (ValuationSnapshot D) → Option D
  percent_of none = none
  percent_of (some v) = some v.interest_percent

module _ {D : Type 0} ⦃d : Decimal D⦄ where
  open d use {of_ℕ, plus}

  abbrev pub amount_of : Option (ValuationSnapshot D) → D
  amount_of none = of_ℕ 0
  amount_of (some v) = v.actual_loan_amount

  -- `outstanding?.interestAccrued ?? '0'`
  abbrev pub interest_of : Option (OutstandingBreakdown D) → D
  interest_of none = of_ℕ 0
  interest_of (some b) = b.interest_accrued

  abbrev pub girvi_row : ℕ → GirviTransaction D → ℤ → Option (OutstandingBreakdown D) → GirviRow D
  girvi_row id t months outstanding = record {
    id = id;
    girvi_number = t.girvi_number;
    status = t.status;
    loan_amount = plus (amount_of t.valuation) (sum_from (of_ℕ 0) (map (λ u. u.amount) t.top_ups));
    total_pledge_months = months;
    interest_percent = percent_of t.valuation;
    interest_accrued = interest_of outstanding;
  }

  unfoldable pub girvi_rows :
      Calendar
      → Instant
      → Table (OutstandingBreakdown D)
      → Table (GirviTransaction D)
      → Result (List (GirviRow D))
  girvi_rows cal now breakdowns [] = ok []
  girvi_rows cal now breakdowns ((id, t) ∷ rows) = do
    months ← calculate_calendar_months_elapsed cal t.pledge_date now
    rest ← girvi_rows cal now breakdowns rows
    ok (girvi_row id t months (find id breakdowns) ∷ rest)

  -- The rows of the page that is asked for.
  abbrev pub page_of :
      Store D
      → Context
      → ListGirvi
      → (GirviTransaction D → Bool)
      → (Table (GirviTransaction D) → Table (GirviTransaction D))
      → Table (GirviTransaction D)
  page_of s ctx query matches order =
      rows_of (parse_pagination query.page query.page_size 25 100)
        (order (select (is_listed ctx.tenant_id query matches) s.transactions))

  unfoldable pub list_girvi :
      Calendar
      → Instant
      → Store D
      → Context
      → ListGirvi
      → (GirviTransaction D → Bool)
      → (Table (GirviTransaction D) → Table (GirviTransaction D))
      → Result (GirviPage D)
  list_girvi cal now s ctx query matches order = do
    let parsed = parse_pagination query.page query.page_size 25 100
    let rows = page_of s ctx query matches order
    breakdowns ←
        compute_outstanding_for_preloaded cal now s ctx.tenant_id (include_all s.payments rows)
    results ← girvi_rows cal now breakdowns rows
    ok (record {
      results = results;
      total = count (is_listed ctx.tenant_id query matches) s.transactions;
      page = parsed.page;
      page_size = parsed.page_size;
    })

  -- `getCurrentValuation`: the snapshot, and the items at the current rates and rules. The rates
  -- themselves, which the answer lists too, are left out of `CurrentValuation`.
  unfoldable pub get_current_valuation :
      Store D → Context → ℕ → Result (ValuationSnapshot D × CurrentValuation D)
  get_current_valuation s ctx id = do
    t ← or_throw (find_where id (of_tenant ctx.tenant_id) s.transactions) transaction_not_found
    valuation ← or_throw t.valuation transaction_not_found
    current ← compute_current_valuation s ctx.tenant_id t.items
    ok (valuation, current)
