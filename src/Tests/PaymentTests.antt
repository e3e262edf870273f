-- ===== src/Tests/PaymentTests.antt =====
-- Witnesses for payments: a receipt of 1,000 on the test loan, one of the whole amount, and its
-- reversal.
use mathlib.Core.Path.{subst}
use girvi_ghata_backend.Base.{◌≡◌, refl, inl, inr, ◌⊎◌, ◌↔◌, none, some, Bool-cases, ◌==◌, ◌+◌}
use girvi_ghata_backend.Base.Int.{pos, ◌+ℤ◌, ◌-ℤ◌, ◌*ℤ◌}
use girvi_ghata_backend.Calendar.{thirty_days, day_ms}
use girvi_ghata_backend.Fixed.{Fixed, fixed_decimal, Fixed-IsExact}
use girvi_ghata_backend.Result.{ok, err, IsOk, value_of, ok-injective, already_reversed}
use girvi_ghata_backend.Engine.Allocation.{Distinct}
use girvi_ghata_backend.Engine.Waterfall.{Listed}
use girvi_ghata_backend.Types.{BusinessRules, OutstandingBreakdown, Category, gold}
use girvi_ghata_backend.Table.{find, update, select, find_first}
use girvi_ghata_backend.Store.{Store, Payment, GirviStatus, GirviTransaction}
use girvi_ghata_backend.Engine.{
  override, calculate_outstanding, calculate_interest, calculate_calendar_months_elapsed,
  calculate_payment_allocation, allocate_loop,
}
use girvi_ghata_backend.Numbering.{next}
use girvi_ghata_backend.Rules.{get_active_rules, find_active, latest}
use girvi_ghata_backend.Outstanding.{
  get_outstanding, outstanding_of, for_outstanding, compute_breakdown, accrue, accrue_tranche,
  periods_elapsed, paid_from, first_metal,
}
use girvi_ghata_backend.Payments.{
  Prepared, check_request, check_amounts, prepare, allocation_rows, record_payment, receive,
  reverse, discounted, metals_of,
}
use girvi_ghata_backend.Payments.Receipt.{
  OrdersComplete, IsShared, IsRecorded, prepare_shares, receive-IsRecorded, receive_closes,
}
use girvi_ghata_backend.Payments.Reversal.{
  IsReversed, reverse-IsReversed, reverse_once, receive-reverse,
}
use girvi_ghata_backend.Tests.{rupees, store_in, clerk, day_35, pay, two_places, order}

abbrev loans : Store Fixed
loans = store_in GirviStatus.active

-- The whole amount, 10,400, closes the loan.
whole_receives : IsOk (receive thirty_days day_35 loans clerk (pay 10_400) 7)
unfolding receive prepare check_request check_amounts record_payment allocation_rows next
    get_active_rules find_active latest get_outstanding outstanding_of for_outstanding
    compute_breakdown accrue accrue_tranche periods_elapsed paid_from calculate_outstanding
    calculate_interest calculate_calendar_months_elapsed calculate_payment_allocation allocate_loop
    find update select find_first ◌+ℤ◌ ◌-ℤ◌ ◌*ℤ◌
whole_receives = tt

prepares : IsOk (prepare thirty_days day_35 loans clerk (pay 1000))
unfolding receive prepare check_request check_amounts record_payment allocation_rows next
    get_active_rules find_active latest get_outstanding outstanding_of for_outstanding
    compute_breakdown accrue accrue_tranche periods_elapsed paid_from calculate_outstanding
    calculate_interest calculate_calendar_months_elapsed calculate_payment_allocation allocate_loop
    find update select find_first ◌+ℤ◌ ◌-ℤ◌ ◌*ℤ◌
prepares = tt

receives : IsOk (receive thirty_days day_35 loans clerk (pay 1000) 7)
unfolding receive prepare check_request check_amounts record_payment allocation_rows next
    get_active_rules find_active latest get_outstanding outstanding_of for_outstanding
    compute_breakdown accrue accrue_tranche periods_elapsed paid_from calculate_outstanding
    calculate_interest calculate_calendar_months_elapsed calculate_payment_allocation allocate_loop
    find update select find_first ◌+ℤ◌ ◌-ℤ◌ ◌*ℤ◌
receives = tt

pub only_order : Distinct order × ((c : Category) → Listed c order)
only_order = (
  (
    (λ e. cc e, (λ e. cc e, (λ e. cc e, tt))),
    ((λ e. cc e, (λ e. cc e, tt)), ((λ e. cc e, tt), (tt, tt))),
  ),
  λ c. in_order c,
)
  where
    in_order : (c : Category) → Listed c order
    in_order Category.penalty = inl refl
    in_order Category.charges = inr (inl refl)
    in_order Category.interest = inr (inr (inl refl))
    in_order Category.principal = inr (inr (inr (inl refl)))

complete : OrdersComplete Fixed-IsExact loans 1
unfolding get_active_rules find_active latest select
complete metal rules h = elim (Bool-cases (gold == metal)) [
  | inl e ↦
      subst
        (λ (r : BusinessRules Fixed).
          Distinct r.payment_allocation_order
          × ((c : Category) → Listed c r.payment_allocation_order))
        (ok-injective (rw e at h)) only_order
  | inr e ↦ cc (rw e at h)
]

-- The receipt, and what the checks before it found.
receipt :
    (q : Payment Fixed × Store Fixed) × (receive thirty_days day_35 loans clerk (pay 1000) 7 ≡ ok q)
receipt = value_of (receive thirty_days day_35 loans clerk (pay 1000) 7) receives

unfoldable whole_receipt :
    (q : Payment Fixed × Store Fixed) × (receive thirty_days day_35 loans clerk (pay 10_400) 7
      ≡ ok q)
whole_receipt = value_of (receive thirty_days day_35 loans clerk (pay 10_400) 7) whole_receives

prepared : (p : Prepared Fixed) × (prepare thirty_days day_35 loans clerk (pay 1000) ≡ ok p)
prepared = value_of (prepare thirty_days day_35 loans clerk (pay 1000)) prepares

prepare_shares_example :
    (b : OutstandingBreakdown Fixed) × (rules : BusinessRules Fixed) × (get_outstanding thirty_days
        day_35 loans 1 10
      ≡ ok b)
    × (get_active_rules loans.rule_sets 1 (first_metal (metals_of prepared.0.transaction))
        ≡ ok rules)
    × (prepared.0.adjusted ≡ discounted b prepared.0.discount)
    × IsShared Fixed-IsExact prepared.0.adjusted rules.payment_allocation_order
        (pos 10_000_000)
        prepared.0.allocation
prepare_shares_example =
    prepare_shares Fixed-IsExact thirty_days day_35 loans clerk (pay 1000) complete prepared.1

receive-IsRecorded_example :
    (p : Prepared Fixed) × (prepare thirty_days day_35 loans clerk (pay 1000) ≡ ok p)
    × IsRecorded Fixed-IsExact thirty_days day_35 loans clerk (pay 1000) 7 p receipt.0.0 receipt.0.1
receive-IsRecorded_example =
    receive-IsRecorded Fixed-IsExact thirty_days day_35 loans clerk (pay 1000) 7 receipt.1

receive_closes_example :
    (b : OutstandingBreakdown Fixed) × (t : GirviTransaction Fixed) × (get_outstanding thirty_days
        day_35 loans 1 10
      ≡ ok b)
    × (find 10 whole_receipt.0.1.transactions ≡ some t)
    × ((t.status ≡ GirviStatus.closed) ⊎ (t.status ≡ GirviStatus.partially_paid))
    × ((t.status ≡ GirviStatus.closed) ↔ (
        Fixed-IsExact.value (rupees 10_400)
        ≡ Fixed-IsExact.value
            (calculate_outstanding (discounted b (override none (fixed_decimal.of_ℕ 0))))))
receive_closes_example =
    receive_closes Fixed-IsExact thirty_days day_35 loans clerk (pay 10_400) 7 complete
      whole_receipt.1

reverses : IsOk (reverse day_35 whole_receipt.0.1 clerk 7 1)
unfolding whole_receipt value_of reverse receive prepare check_request check_amounts record_payment
    allocation_rows next get_active_rules find_active latest get_outstanding outstanding_of
    for_outstanding compute_breakdown accrue accrue_tranche periods_elapsed paid_from
    calculate_outstanding calculate_interest calculate_calendar_months_elapsed
    calculate_payment_allocation allocate_loop find update select find_first ◌+ℤ◌ ◌-ℤ◌ ◌*ℤ◌
reverses = tt

reversal : (q : Payment Fixed × Store Fixed) × (reverse day_35 whole_receipt.0.1 clerk 7 1 ≡ ok q)
reversal = value_of (reverse day_35 whole_receipt.0.1 clerk 7 1) reverses

reverse-IsReversed_example : IsReversed day_35 whole_receipt.0.1 clerk 7 1 reversal.0.1
reverse-IsReversed_example = reverse-IsReversed day_35 whole_receipt.0.1 clerk 7 1 reversal.1

reverse_once_example : reverse day_35 reversal.0.1 clerk 7 2 ≡ err already_reversed
reverse_once_example =
    reverse_once day_35 whole_receipt.0.1 clerk 7 1 reversal.1 day_35 clerk 2 refl

no_payments : find 7 loans.payments ≡ none
unfolding find
no_payments = refl

receive-reverse_example :
    get_outstanding thirty_days (day_35 + day_ms) reversal.0.1 1 10
    ≡ get_outstanding thirty_days (day_35 + day_ms) loans 1 10
receive-reverse_example =
    receive-reverse thirty_days day_35 loans clerk (pay 10_400) 7 day_35 clerk 1 no_payments
      whole_receipt.1 reversal.1 (day_35 + day_ms) 1 10
