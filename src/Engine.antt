-- ===== src/Engine.antt =====
-- src/modules/calculation-engine/calculation-engine.service.ts: every method of
-- `CalculationEngineService`.
pub mod Waterfall
pub mod Allocation
pub mod Months
use girvi_ghata_backend.Base.{
  ℕ, zero, suc, ◌+◌, ◌*◌, Bool, true, false, ◌&&◌, Option, none, some, List, [], ◌∷◌, map, ltb,
  ◌==◌, if◌then◌else◌,
}
use girvi_ghata_backend.Base.Int.{ℤ, pos, negsuc, sub_ℕ}
use girvi_ghata_backend.Decimal.{Decimal, greater_than, less_than_or_equal_to, min, sum_from}
use girvi_ghata_backend.Calendar.{Instant, Calendar, month_index}
use girvi_ghata_backend.Result.{Result, ok, err, Error, ◌>>=◌, ◌>>◌, throw_if, or_throw}
use girvi_ghata_backend.Result.{stone_exceeds_gross, no_rate_snapshot, as_of_before_pledge}
use girvi_ghata_backend.Types.{
  ItemMeasurement, RateSnapshot, BusinessRules, ItemValuationResult, PledgeValuationResult,
  OutstandingBreakdown, PaymentAllocationResult, MarginType, InterestMethod, RoundingRule, Category,
}

-- A `Record<string, RateSnapshot>`: the first entry for a metal counts.
abbrev pub Rates : Type 0 → Type 0
Rates D = List (RateSnapshot D)

abbrev pub find_rate : {D : Type 0} → Rates D → ℕ → Option (RateSnapshot D)
find_rate [] code = none
find_rate (r ∷ rs) code = if r.metal_code == code then some r else find_rate rs code

-- Months touched from the pledge to the day asked for, both counted. An `asOfDate` before the pledge
-- throws.
unfoldable pub calculate_calendar_months_elapsed : Calendar → Instant → Instant → Result ℤ
calculate_calendar_months_elapsed cal pledge as_of = do
  throw_if (ltb as_of pledge) as_of_before_pledge
  let from = cal pledge
  let to = cal as_of
  let same_day = to.year == from.year && to.month == from.month && to.day == from.day
  ok (if same_day then pos 0 else sub_ℕ (month_index to + 1) (month_index from))

module _ {D : Type 0} ⦃d : Decimal D⦄ where
  open d use {of_ℕ, plus, minus, times, divided_by, round_half_up, less_than, is_negative}

  unfoldable pub calculate_net_weight : ItemMeasurement D → Result D
  calculate_net_weight item =
      let net = minus item.gross_weight item.stone_weight in
      if is_negative net then err stone_exceeds_gross else ok net

  unfoldable pub calculate_fine_weight : D → D → D
  calculate_fine_weight net_weight fine_factor = times net_weight fine_factor

  unfoldable pub calculate_metal_value : D → D → D
  calculate_metal_value fine_weight rate_per_gram = times fine_weight rate_per_gram

  unfoldable pub calculate_eligible_value : D → D → D
  calculate_eligible_value metal_value eligibility_percent =
      divided_by (times metal_value eligibility_percent) (of_ℕ 100)

  resolve_margin_as : MarginType → D → D → D
  resolve_margin_as MarginType.no_margin eligible margin_value = of_ℕ 0
  resolve_margin_as MarginType.fixed eligible margin_value = margin_value
  resolve_margin_as MarginType.percent eligible margin_value =
      divided_by (times eligible margin_value) (of_ℕ 100)

  unfoldable pub resolve_margin : D → BusinessRules D → D
  unfolding resolve_margin_as
  resolve_margin eligible rules = resolve_margin_as rules.margin_type eligible rules.margin_value

  unfoldable pub apply_rounding : D → RoundingRule → D
  apply_rounding v RoundingRule.no_rounding = v
  apply_rounding v RoundingRule.round_nearest_1 = round_half_up v
  apply_rounding v RoundingRule.round_nearest_10 =
      times (round_half_up (divided_by v (of_ℕ 10))) (of_ℕ 10)

  cap_loan : Option D → D → D
  cap_loan none loan = loan
  cap_loan (some limit) loan = if greater_than loan limit then limit else loan

  -- The test against `minLoanAmount` has an empty body in the source.
  unfoldable pub apply_margin : D → D → BusinessRules D → D
  unfolding cap_loan
  apply_margin eligible margin rules =
      let rest = minus eligible margin in
      let loan = if is_negative rest then of_ℕ 0 else rest in
      cap_loan rules.max_loan_amount (apply_rounding loan rules.rounding_rule)

  unfoldable pub value_item : RateSnapshot D → ItemMeasurement D → Result (ItemValuationResult D)
  value_item rate item = do
    net ← calculate_net_weight item
    let fine = calculate_fine_weight net item.fine_factor
    ok (record {
      item_id = item.item_id;
      net_weight = net;
      fine_weight = fine;
      metal_value = calculate_metal_value fine rate.rate_per_gram;
    })

  -- `items.map`, which ends at the first item that throws
  unfoldable pub value_items :
      RateSnapshot D → List (ItemMeasurement D) → Result (List (ItemValuationResult D))
  value_items rate [] = ok []
  value_items rate (item ∷ items) = do
    v ← value_item rate item
    vs ← value_items rate items
    ok (v ∷ vs)

  abbrev pub override : Option D → D → D
  override none default = default
  override (some v) default = v

  unfoldable pub calculate_pledge_value :
      List (ItemMeasurement D)
      → Rates D
      → BusinessRules D
      → ℕ
      → Option D
      → Result (PledgeValuationResult D)
  calculate_pledge_value items rates rules metal_code eligibility_override = do
    rate ← or_throw (find_rate rates metal_code) no_rate_snapshot
    results ← value_items rate items
    let fine = sum_from (of_ℕ 0) (map (λ r. r.fine_weight) results)
    let metal = sum_from (of_ℕ 0) (map (λ r. r.metal_value) results)
    let percent = override eligibility_override rules.eligibility_percent
    let eligible = calculate_eligible_value metal percent
    let margin = resolve_margin eligible rules
    ok (record {
      items = results;
      total_fine_weight = fine;
      total_metal_value = metal;
      eligibility_percent = percent;
      eligible_value = eligible;
      margin_applied = margin;
      max_loan_amount = apply_margin eligible margin rules;
    })

  -- All three methods of the source multiply in the same way.
  interest_by : InterestMethod → D → D → ℕ → D
  interest_by InterestMethod.flat_monthly p percent n =
      times (times p (divided_by percent (of_ℕ 100))) (of_ℕ n)
  interest_by InterestMethod.reducing_balance p percent n =
      times (times p (divided_by percent (of_ℕ 100))) (of_ℕ n)
  interest_by InterestMethod.daily p percent n =
      times (times p (divided_by percent (of_ℕ 100))) (of_ℕ n)

  unfoldable pub calculate_interest : D → BusinessRules D → ℤ → D
  unfolding interest_by
  calculate_interest p rules (negsuc _) = of_ℕ 0
  calculate_interest p rules (pos zero) = of_ℕ 0
  calculate_interest p rules (pos (suc n)) =
      interest_by rules.interest_method p rules.interest_percent (suc n)

  unfoldable pub calculate_outstanding : OutstandingBreakdown D → D
  calculate_outstanding b =
      let due = plus (plus (plus b.principal b.interest_accrued) b.charges) b.penalty in
      let paid = plus b.payments_applied_to_principal b.payments_applied_to_interest in
      let outstanding = minus due paid in if is_negative outstanding then of_ℕ 0 else outstanding

  abbrev pub due_by_category : OutstandingBreakdown D → Category → D
  due_by_category b Category.penalty = b.penalty
  due_by_category b Category.charges = b.charges
  due_by_category b Category.interest = b.interest_accrued
  due_by_category b Category.principal = b.principal

  -- `result.<category> = applied`
  abbrev pub assign : Category → D → PaymentAllocationResult D → PaymentAllocationResult D
  assign Category.penalty a r = record r { penalty = a }
  assign Category.charges a r = record r { charges = a }
  assign Category.interest a r = record r { interest = a }
  assign Category.principal a r = record r { principal = a }

  -- The loop over `paymentAllocationOrder`: what is left of the payment, and the result so far.
  unfoldable pub allocate_loop :
      OutstandingBreakdown D
      → List Category
      → D
      → PaymentAllocationResult D
      → D × PaymentAllocationResult D
  allocate_loop b [] remaining result = (remaining, result)
  allocate_loop b (c ∷ order) remaining result =
      let applied = min remaining (due_by_category b c) in
      let rest = allocate_loop b order (minus remaining applied) (assign c applied result) in
      if less_than_or_equal_to remaining (of_ℕ 0) then (remaining, result) else rest

  abbrev pub no_allocation : PaymentAllocationResult D
  no_allocation = record {
    penalty = of_ℕ 0;
    charges = of_ℕ 0;
    interest = of_ℕ 0;
    principal = of_ℕ 0;
    remaining_outstanding = of_ℕ 0;
  }

  unfoldable pub calculate_payment_allocation :
      D → OutstandingBreakdown D → BusinessRules D → PaymentAllocationResult D
  calculate_payment_allocation payment b rules =
      let (remaining, result) =
        allocate_loop b rules.payment_allocation_order payment no_allocation in
      let left = minus (calculate_outstanding b) (minus payment remaining) in
      record result { remaining_outstanding = if is_negative left then of_ℕ 0 else left }

  unfoldable pub calculate_redemption_amount : OutstandingBreakdown D → D
  calculate_redemption_amount b = calculate_outstanding b
