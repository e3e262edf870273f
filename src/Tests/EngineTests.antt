-- ===== src/Tests/EngineTests.antt =====
-- Witnesses for the engine and the breakdown of what is outstanding.
use girvi_ghata_backend.Base.{ℕ, ◌≤◌, ◌<◌, ◌≡◌, refl, none, some, [], ◌∷◌, arith}
use girvi_ghata_backend.Base.Int.{pos, ◌+ℤ◌, ◌-ℤ◌, ◌*ℤ◌}
use girvi_ghata_backend.Calendar.{thirty_days, day_ms}
use girvi_ghata_backend.Fixed.{Fixed, fixed_decimal, Fixed-IsExact}
use girvi_ghata_backend.Result.{ok, err, IsOk, value_of, transaction_not_found, now_before_pledge}
use girvi_ghata_backend.Types.{OutstandingBreakdown, Category}
use girvi_ghata_backend.Store.{AllocationRow}
use girvi_ghata_backend.Engine.{
  calculate_outstanding, calculate_interest, calculate_calendar_months_elapsed,
  calculate_payment_allocation,
}
use girvi_ghata_backend.Engine.Allocation.{DuesNonneg, IsWithin, allocated}
use girvi_ghata_backend.Engine.Waterfall.{IsPayable, IsWaterfall, payment_allocation_lem}
use girvi_ghata_backend.Outstanding.{
  LoanTerms, TransactionForOutstanding, compute_breakdown, accrue, accrue_tranche, periods_elapsed,
  paid_from,
}
use girvi_ghata_backend.Outstanding.Breakdown.{
  AmountsNonneg, compute_breakdown_total, breakdown_nonneg, breakdown_repaid,
}
use girvi_ghata_backend.Outstanding.Bulk.{Agrees, compute_outstanding_for_preloaded-Agrees}
use girvi_ghata_backend.Outstanding.{rules_by_metal, breakdowns, compute_outstanding_for_preloaded}
use girvi_ghata_backend.Rules.{get_active_rules, find_active, latest}
use girvi_ghata_backend.Table.{Table, find, select, put}
use girvi_ghata_backend.Store.{GirviStatus}
use girvi_ghata_backend.Base.{All, List}
use girvi_ghata_backend.Tests.{store_in, gold_rules, rupees, order, day_35}
use girvi_ghata_backend.Tests.PaymentTests.{only_order}

one_month : calculate_calendar_months_elapsed thirty_days 0 day_ms ≡ ok (pos 1)
unfolding calculate_calendar_months_elapsed
one_month = refl

two_months : calculate_calendar_months_elapsed thirty_days 0 day_35 ≡ ok (pos 2)
unfolding calculate_calendar_months_elapsed
two_months = refl

-- 10,000 of principal and 400 of interest, as on the test loan
abbrev owed : OutstandingBreakdown Fixed
owed = record {
  principal = rupees 10_000;
  interest_accrued = rupees 400;
  charges = rupees 0;
  penalty = rupees 0;
  payments_applied_to_principal = rupees 0;
  payments_applied_to_interest = rupees 0;
}

owed-DuesNonneg : DuesNonneg Fixed-IsExact owed
unfolding Fixed-IsExact
owed-DuesNonneg Category.penalty = omega arith
owed-DuesNonneg Category.charges = omega arith
owed-DuesNonneg Category.interest = omega arith
owed-DuesNonneg Category.principal = omega arith

payable : IsPayable Fixed-IsExact (rupees 1000) owed order
unfolding Fixed-IsExact calculate_outstanding ◌+ℤ◌ ◌-ℤ◌
payable = record {
  distinct = only_order.0;
  listed = only_order.1;
  nonneg = owed-DuesNonneg;
  principal_settled = refl;
  interest_settled = refl;
  positive = omega arith;
  covered = omega arith;
}

payment_allocation_lem_example :
    let r = calculate_payment_allocation (rupees 1000) owed gold_rules in
    (allocated Fixed-IsExact r ≡ Fixed-IsExact.value (rupees 1000))
    × IsWithin Fixed-IsExact owed r
    × IsWaterfall Fixed-IsExact owed order r
    × (Fixed-IsExact.value r.remaining_outstanding
        ≡ Fixed-IsExact.value (calculate_outstanding owed) -ℤ Fixed-IsExact.value (rupees 1000))
payment_allocation_lem_example =
    payment_allocation_lem Fixed-IsExact (rupees 1000) owed gold_rules payable

abbrev repayment : ℕ → AllocationRow Fixed
repayment n = record { category = Category.principal; amount = rupees n }

-- The test loan, with so much of its principal repaid.
abbrev loan_with : ℕ → TransactionForOutstanding Fixed
loan_with repaid = record {
  id = 10;
  pledge_date = 0;
  valuation = some (record { actual_loan_amount = rupees 10_000; interest_percent = rupees 2 });
  payments = (repayment repaid ∷ []) ∷ [];
  items = [];
  top_ups = [];
}

compute_breakdown_total_example :
    ((loan_with 0).valuation ≡ none
      → compute_breakdown thirty_days day_35 (loan_with 0) gold_rules ≡ err transaction_not_found)
    × ((terms : LoanTerms Fixed)
        → (loan_with 0).valuation ≡ some terms
        → day_35 < 0
        → compute_breakdown thirty_days day_35 (loan_with 0) gold_rules ≡ err now_before_pledge)
    × ((terms : LoanTerms Fixed)
        → (loan_with 0).valuation ≡ some terms
        → 0 ≤ day_35
        → IsOk (compute_breakdown thirty_days day_35 (loan_with 0) gold_rules))
compute_breakdown_total_example =
    compute_breakdown_total thirty_days day_35 (loan_with 0) gold_rules

repaid_computes : IsOk (compute_breakdown thirty_days day_35 (loan_with 10_000) gold_rules)
unfolding compute_breakdown accrue accrue_tranche periods_elapsed calculate_calendar_months_elapsed
    calculate_interest paid_from ◌+ℤ◌ ◌-ℤ◌ ◌*ℤ◌
repaid_computes = tt

unfoldable repaid :
    (b : OutstandingBreakdown Fixed) × (compute_breakdown thirty_days day_35
        (loan_with 10_000)
        gold_rules
      ≡ ok b)
repaid =
    value_of (compute_breakdown thirty_days day_35 (loan_with 10_000) gold_rules) repaid_computes

breakdown_nonneg_example :
    DuesNonneg Fixed-IsExact repaid.0
    × (Fixed-IsExact.value (calculate_outstanding repaid.0)
        ≡ Fixed-IsExact.value repaid.0.interest_accrued +ℤ Fixed-IsExact.value repaid.0.principal)
breakdown_nonneg_example =
    breakdown_nonneg Fixed-IsExact thirty_days day_35 (loan_with 10_000) gold_rules repaid.1

repaid_amounts : AmountsNonneg Fixed-IsExact (loan_with 10_000).payments
unfolding Fixed-IsExact
repaid_amounts = ((omega arith, tt), tt)

no_principal : Fixed-IsExact.value repaid.0.principal ≡ pos 0
unfolding repaid value_of Fixed-IsExact compute_breakdown accrue accrue_tranche periods_elapsed
    calculate_calendar_months_elapsed calculate_interest paid_from ◌+ℤ◌ ◌-ℤ◌ ◌*ℤ◌
no_principal = refl

breakdown_repaid_example :
    (Fixed-IsExact.value repaid.0.interest_accrued ≡ pos 0)
    × (Fixed-IsExact.value (calculate_outstanding repaid.0) ≡ pos 0)
breakdown_repaid_example =
    breakdown_repaid Fixed-IsExact thirty_days day_35 (loan_with 10_000) gold_rules repaid.1
      repaid_amounts no_principal

-- Two loans of the test tenant, one of them repaid in part.
abbrev two_loans : List (TransactionForOutstanding Fixed)
two_loans = loan_with 0 ∷ record (loan_with 5000) { id = 11 } ∷ []

bulk_computes :
    IsOk (
      compute_outstanding_for_preloaded thirty_days day_35
        (store_in GirviStatus.active)
        1
        two_loans)
unfolding compute_outstanding_for_preloaded rules_by_metal breakdowns get_active_rules find_active
    latest select find put compute_breakdown accrue accrue_tranche periods_elapsed
    calculate_calendar_months_elapsed calculate_interest paid_from ◌+ℤ◌ ◌-ℤ◌ ◌*ℤ◌
bulk_computes = tt

bulk :
    (r : Table (OutstandingBreakdown Fixed)) × (compute_outstanding_for_preloaded thirty_days day_35
        (store_in GirviStatus.active)
        1
        two_loans
      ≡ ok r)
bulk =
    value_of
      (compute_outstanding_for_preloaded thirty_days day_35 (store_in GirviStatus.active) 1
        two_loans)
      bulk_computes

compute_outstanding_for_preloaded-Agrees_example :
    All (Agrees thirty_days day_35 (store_in GirviStatus.active) 1 bulk.0) two_loans
compute_outstanding_for_preloaded-Agrees_example =
    compute_outstanding_for_preloaded-Agrees thirty_days day_35 (store_in GirviStatus.active) 1
      two_loans (((λ e. omega arith), tt), (tt, tt)) bulk.1
