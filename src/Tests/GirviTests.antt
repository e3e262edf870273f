-- ===== src/Tests/GirviTests.antt =====
-- Witnesses for new loans, top-ups and moved pledge dates.
use girvi_ghata_backend.Base.{Bool, true, ◌≤◌, ◌≡◌, none, some, [], ◌∷◌}
use girvi_ghata_backend.Base.Int.{◌+ℤ◌, ◌-ℤ◌, ◌*ℤ◌}
use girvi_ghata_backend.Calendar.{thirty_days, day_ms}
use girvi_ghata_backend.Fixed.{Fixed, fixed_decimal, Fixed-IsExact}
use girvi_ghata_backend.Result.{ok, IsOk, value_of}
use girvi_ghata_backend.Types.{gold}
use girvi_ghata_backend.Table.{Table, find, find_first, select, update, put}
use girvi_ghata_backend.Store.{Store, GirviTransaction, GirviStatus, TopUp, DateInput}
use girvi_ghata_backend.Engine.{
  calculate_fine_weight, calculate_metal_value, calculate_eligible_value, calculate_interest,
  calculate_calendar_months_elapsed, resolve_margin, apply_margin, apply_rounding,
}
use girvi_ghata_backend.Rules.{get_active_rules, find_active, latest}
use girvi_ghata_backend.Girvi.{CreateGirvi, latest_rate, current_rate}
use girvi_ghata_backend.Girvi.Changes.{
  CreateTopUp, metal_fine_weight, value_metal, value_metals, compute_current_valuation,
  check_top_up, top_up, update_pledge_date,
}
use girvi_ghata_backend.Girvi.Limits.{
  IsToppedUp, KeepsTerm, top_up-IsToppedUp, update_pledge_date-KeepsTerm,
}
use girvi_ghata_backend.Girvi.Listing.{ListGirvi, GirviPage, girvi_rows, page_of, list_girvi}
use girvi_ghata_backend.Girvi.Rows.{RowsOf, list_girvi-RowsOf}
use girvi_ghata_backend.Pagination.{missing, parse_pagination}
use girvi_ghata_backend.Outstanding.{
  include_all, for_outstanding, compute_breakdown, accrue, accrue_tranche, periods_elapsed,
  paid_from, rules_by_metal, breakdowns, compute_outstanding_for_preloaded,
}
use girvi_ghata_backend.Outstanding.Bulk.{DistinctIds}
use girvi_ghata_backend.Tests.{rupees, two_places, store_in, clerk, day_35}

abbrev loans : Store Fixed
loans = store_in GirviStatus.active

-- 9 grams of fine gold at 2,000 are worth a loan of 13,500.
abbrev request : CreateGirvi Fixed
request = record {
  customer_id = 1;
  branch_id = 1;
  items =
      record {
        metal_code = gold;
        purity_code = 22;
        gross_weight = rupees 12;
        stone_weight = some (rupees 2);
      }
      ∷ [];
  requested_loan_amount = rupees 10_000;
  pledge_date = DateInput.omitted;
  interest_percent = none;
  eligibility_percent = none;
}

abbrev more : CreateTopUp Fixed
more = record { amount = rupees 3000; top_up_date = DateInput.at day_ms }

tops_up : IsOk (top_up day_35 loans clerk 10 more)
unfolding top_up check_top_up compute_current_valuation value_metals value_metal metal_fine_weight
    current_rate latest_rate calculate_fine_weight calculate_metal_value calculate_eligible_value
    resolve_margin apply_margin apply_rounding get_active_rules find_active latest find find_first
    select update ◌+ℤ◌ ◌-ℤ◌ ◌*ℤ◌
tops_up = tt

topped_up : (q : TopUp Fixed × Store Fixed) × (top_up day_35 loans clerk 10 more ≡ ok q)
topped_up = value_of (top_up day_35 loans clerk 10 more) tops_up

top_up-IsToppedUp_example :
    IsToppedUp Fixed-IsExact day_35 loans clerk 10 more topped_up.0.0 topped_up.0.1
top_up-IsToppedUp_example = top_up-IsToppedUp Fixed-IsExact day_35 loans clerk 10 more topped_up.1

moves : IsOk (update_pledge_date day_35 loans clerk 10 (DateInput.at day_ms))
unfolding update_pledge_date find update
moves = tt

moved :
    (q : GirviTransaction Fixed × Store Fixed) × (update_pledge_date day_35 loans clerk 10
        (DateInput.at day_ms)
      ≡ ok q)
moved = value_of (update_pledge_date day_35 loans clerk 10 (DateInput.at day_ms)) moves

update_pledge_date-KeepsTerm_example :
    (row : GirviTransaction Fixed) × (find 10 loans.transactions ≡ some row)
    × (moved.0.0.pledge_date ≤ day_35)
    × (find 10 moved.0.1.transactions ≡ some moved.0.0)
    × KeepsTerm row moved.0.0
update_pledge_date-KeepsTerm_example =
    update_pledge_date-KeepsTerm day_35 loans clerk 10 (DateInput.at day_ms) moved.1

abbrev open_only : ListGirvi
open_only = record {
  status = some GirviStatus.active;
  from_date = DateInput.invalid;
  to_date = DateInput.at day_35;
  page = missing;
  page_size = missing;
}

abbrev any_loan : GirviTransaction Fixed → Bool
any_loan t = true

abbrev as_they_are : Table (GirviTransaction Fixed) → Table (GirviTransaction Fixed)
as_they_are rows = rows

lists : IsOk (list_girvi thirty_days day_35 loans clerk open_only any_loan as_they_are)
unfolding list_girvi girvi_rows parse_pagination compute_outstanding_for_preloaded rules_by_metal
    breakdowns for_outstanding compute_breakdown accrue accrue_tranche periods_elapsed paid_from
    calculate_interest calculate_calendar_months_elapsed get_active_rules find_active latest find
    select put ◌+ℤ◌ ◌-ℤ◌ ◌*ℤ◌
lists = tt

listed :
    (q : GirviPage Fixed) × (list_girvi thirty_days day_35 loans clerk open_only any_loan
        as_they_are
      ≡ ok q)
listed = value_of (list_girvi thirty_days day_35 loans clerk open_only any_loan as_they_are) lists

one_id :
    DistinctIds (include_all loans.payments (page_of loans clerk open_only any_loan as_they_are))
unfolding parse_pagination select for_outstanding
one_id = (tt, tt)

list_girvi-RowsOf_example :
    RowsOf thirty_days day_35 loans 1
      (page_of loans clerk open_only any_loan as_they_are)
      listed.0.results
list_girvi-RowsOf_example =
    list_girvi-RowsOf thirty_days day_35 loans clerk open_only any_loan as_they_are one_id listed.1
