-- ===== src/Outstanding.antt =====
-- src/modules/payments/outstanding.service.ts
pub mod Breakdown
pub mod Lookup
pub mod Bulk
use Prim.Native.Nat.{◌-◌}
use girvi_ghata_backend.Base.{
  ℕ, ◌+◌, ◌/◌, Bool, true, false, not, ◌&&◌, Option, none, some, List, [], ◌∷◌, map, ltb, ◌==◌,
  if◌then◌else◌, includes, distinct,
}
use girvi_ghata_backend.Base.Int.{ℤ, pos}
use girvi_ghata_backend.Decimal.{Decimal, greater_than, max, sum_from}
use girvi_ghata_backend.Calendar.{Instant, Calendar, day_ms}
use girvi_ghata_backend.Result.{
  Result, ok, ◌>>=◌, ◌>>◌, throw_if, or_throw, transaction_not_found, no_active_rules,
  now_before_pledge,
}
use girvi_ghata_backend.Types.{BusinessRules, OutstandingBreakdown, Category, InterestMethod, gold}
use girvi_ghata_backend.Table.{Table, find, find_where, select, put}
use girvi_ghata_backend.Store.{
  Store, GirviTransaction, Payment, AllocationRow, TopUp, ValuationSnapshot, PledgedItem,
}
use girvi_ghata_backend.Rules.{get_active_rules}
use girvi_ghata_backend.Engine.{calculate_calendar_months_elapsed, calculate_interest}

pub record LoanTerms (D : Type 0) : Type 0 where
  pub actual_loan_amount : D
  pub interest_percent : D

pub record TransactionForOutstanding (D : Type 0) : Type 0 where
  pub id : ℕ
  pub pledge_date : Instant
  pub valuation : Option (LoanTerms D)
  pub payments : List (List (AllocationRow D))
  pub items : List ℕ
  pub top_ups : List D

pub record Tranche (D : Type 0) : Type 0 where
  pub principal : D
  pub anchor_date : Instant

-- `items[0]?.metalCode ?? 'GOLD'`
abbrev pub first_metal : List ℕ → ℕ
first_metal [] = gold
first_metal (m ∷ _) = m

module _ {D : Type 0} where
  abbrev loan_terms : Option (ValuationSnapshot D) → Option (LoanTerms D)
  loan_terms none = none
  loan_terms (some v) =
      some (record {
        actual_loan_amount = v.actual_loan_amount;
        interest_percent = v.interest_percent;
      })

  -- `payments: { where: { isReversed: false } }` of a transaction
  abbrev pub counts_for : ℕ → Payment D → Bool
  counts_for id p = p.girvi_transaction_id == id && not p.is_reversed

  abbrev pub payments_of : ℕ → Table (Payment D) → List (List (AllocationRow D))
  payments_of id payments = map (λ (k, p). p.allocations) (select (counts_for id) payments)

  -- The row with `TRANSACTION_INCLUDE`.
  unfoldable pub for_outstanding :
      Table (Payment D) → ℕ → GirviTransaction D → TransactionForOutstanding D
  for_outstanding payments id t = record {
    id = id;
    pledge_date = t.pledge_date;
    valuation = loan_terms t.valuation;
    payments = payments_of id payments;
    items = map (λ i. i.metal_code) t.items;
    top_ups = map (λ u. u.amount) t.top_ups;
  }

  abbrev pub of_tenant : ℕ → GirviTransaction D → Bool
  of_tenant tenant t = t.tenant == tenant

module _ {D : Type 0} ⦃d : Decimal D⦄ where
  open d use {of_ℕ, plus, minus}

  -- The two loops over payments and allocations; a pair of principal and interest paid.
  add_allocation : D × D → AllocationRow D → D × D
  add_allocation (p, i) a = elim a.category [
    | Category.principal ↦ (plus p a.amount, i)
    | Category.interest ↦ (p, plus i a.amount)
    | _ ↦ (p, i)
  ]

  add_allocations : D × D → List (AllocationRow D) → D × D
  add_allocations acc [] = acc
  add_allocations acc (a ∷ as') = add_allocations (add_allocation acc a) as'

  unfoldable pub paid_from : D × D → List (List (AllocationRow D)) → D × D
  unfolding add_allocation add_allocations
  paid_from acc [] = acc
  paid_from acc (p ∷ ps) = paid_from (add_allocations acc p) ps

  -- Days less the grace period for DAILY, otherwise the engine's months.
  unfoldable pub periods_elapsed : Calendar → Instant → BusinessRules D → Instant → Result ℤ
  periods_elapsed cal now rules anchor = elim rules.interest_method [
    | InterestMethod.daily ↦ ok (pos ((now - anchor) / day_ms - rules.grace_period_days))
    | _ ↦ calculate_calendar_months_elapsed cal anchor now
  ]

  -- One round of the loop over the tranches.
  unfoldable pub accrue_tranche :
      Calendar → Instant → BusinessRules D → Bool → D → Tranche D → Result D
  accrue_tranche cal now rules is_open total t = if ltb now t.anchor_date then ok total else do
    periods ← periods_elapsed cal now rules t.anchor_date
    let base = if is_open then t.principal else of_ℕ 0
    ok (plus total (calculate_interest base rules periods))

  unfoldable pub accrue :
      Calendar → Instant → BusinessRules D → Bool → D → List (Tranche D) → Result D
  accrue cal now rules is_open total [] = ok total
  accrue cal now rules is_open total (t ∷ ts) = do
    total' ← accrue_tranche cal now rules is_open total t
    accrue cal now rules is_open total' ts

  -- The original loan and every top-up, all from the pledge date.
  abbrev pub tranches : LoanTerms D → TransactionForOutstanding D → List (Tranche D)
  tranches terms t =
      record { principal = terms.actual_loan_amount; anchor_date = t.pledge_date }
      ∷ map (λ a. record { principal = a; anchor_date = t.pledge_date }) t.top_ups

  abbrev pub principal_issued : LoanTerms D → TransactionForOutstanding D → D
  principal_issued terms t = plus terms.actual_loan_amount (sum_from (of_ℕ 0) t.top_ups)

  -- `Decimal.max(0, totalPrincipalIssued.minus(principalPaid))`
  abbrev pub remaining_principal : LoanTerms D → TransactionForOutstanding D → D
  remaining_principal terms t =
      max (of_ℕ 0) (minus (principal_issued terms t) (paid_from (of_ℕ 0, of_ℕ 0) t.payments).0)

  abbrev pub still_open : LoanTerms D → TransactionForOutstanding D → Bool
  still_open terms t = greater_than (remaining_principal terms t) (of_ℕ 0)

  -- The value returned, from the interest accrued on all tranches.
  abbrev pub breakdown_of : LoanTerms D → TransactionForOutstanding D → D → OutstandingBreakdown D
  breakdown_of terms t interest = record {
    principal = remaining_principal terms t;
    interest_accrued = max (of_ℕ 0) (minus interest (paid_from (of_ℕ 0, of_ℕ 0) t.payments).1);
    charges = of_ℕ 0;
    penalty = of_ℕ 0;
    payments_applied_to_principal = of_ℕ 0;
    payments_applied_to_interest = of_ℕ 0;
  }

  unfoldable pub compute_breakdown :
      Calendar
      → Instant
      → TransactionForOutstanding D
      → BusinessRules D
      → Result (OutstandingBreakdown D)
  compute_breakdown cal now t active_rules = do
    terms ← or_throw t.valuation transaction_not_found
    let rules = record active_rules { interest_percent = terms.interest_percent }
    throw_if (ltb now t.pledge_date) now_before_pledge
    interest ← accrue cal now rules (still_open terms t) (of_ℕ 0) (tranches terms t)
    ok (breakdown_of terms t interest)

  -- The part of `getOutstanding` after the row is found.
  unfoldable pub outstanding_of :
      Calendar → Instant → Store D → ℕ → ℕ → GirviTransaction D → Result (OutstandingBreakdown D)
  outstanding_of cal now s tenant id row = do
    let t = for_outstanding s.payments id row
    terms ← or_throw t.valuation transaction_not_found
    rules ← get_active_rules s.rule_sets tenant (first_metal t.items)
    compute_breakdown cal now t rules

  unfoldable pub get_outstanding :
      Calendar → Instant → Store D → ℕ → ℕ → Result (OutstandingBreakdown D)
  get_outstanding cal now s tenant id = do
    row ← or_throw (find_where id (of_tenant tenant) s.transactions) transaction_not_found
    outstanding_of cal now s tenant id row

  -- The rules of each distinct metal, `new Map(await Promise.all(...))`.
  unfoldable pub rules_by_metal :
      Store D → ℕ → List ℕ → Table (BusinessRules D) → Result (Table (BusinessRules D))
  rules_by_metal s tenant [] acc = ok acc
  rules_by_metal s tenant (m ∷ ms) acc = do
    rules ← get_active_rules s.rule_sets tenant m
    rules_by_metal s tenant ms (put m rules acc)

  unfoldable pub breakdowns :
      Calendar
      → Instant
      → Table (BusinessRules D)
      → List (TransactionForOutstanding D)
      → Table (OutstandingBreakdown D)
      → Result (Table (OutstandingBreakdown D))
  breakdowns cal now rules [] results = ok results
  breakdowns cal now rules (t ∷ ts) results = do
    terms ← or_throw t.valuation transaction_not_found
    active ← or_throw (find (first_metal t.items) rules) no_active_rules
    b ← compute_breakdown cal now t active
    breakdowns cal now rules ts (put t.id b results)

  unfoldable pub compute_outstanding_for_preloaded :
      Calendar
      → Instant
      → Store D
      → ℕ
      → List (TransactionForOutstanding D)
      → Result (Table (OutstandingBreakdown D))
  compute_outstanding_for_preloaded cal now s tenant [] = ok []
  compute_outstanding_for_preloaded cal now s tenant (t ∷ ts) = do
    rules ← rules_by_metal s tenant (distinct (map (λ u. first_metal u.items) (t ∷ ts))) []
    breakdowns cal now rules (t ∷ ts) []

  abbrev pub include_all :
      Table (Payment D) → Table (GirviTransaction D) → List (TransactionForOutstanding D)
  include_all payments [] = []
  include_all payments ((id, row) ∷ rows) =
      for_outstanding payments id row ∷ include_all payments rows

  -- `where: { id: { in: transactionIds }, tenantId }`
  unfoldable pub rows_in : ℕ → List ℕ → Table (GirviTransaction D) → Table (GirviTransaction D)
  rows_in tenant ids [] = []
  rows_in tenant ids ((id, row) ∷ rows) =
      let rest = rows_in tenant ids rows in
      if includes ids id && of_tenant tenant row then (id, row) ∷ rest else rest

  unfoldable pub get_outstanding_bulk :
      Calendar → Instant → Store D → ℕ → List ℕ → Result (Table (OutstandingBreakdown D))
  get_outstanding_bulk cal now s tenant [] = ok []
  get_outstanding_bulk cal now s tenant (id ∷ ids) =
      compute_outstanding_for_preloaded cal now s tenant
        (include_all s.payments (rows_in tenant (id ∷ ids) s.transactions))
