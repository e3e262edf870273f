-- ===== src/Payments/Checks.antt =====
-- What the checks of `receive` have established when they pass.
use mathlib.Core.Path.{subst}
use girvi_ghata_backend.Base.{
  ◌≤◌, ◌≡◌, refl, Bool, true, false, not, some, arith, ap, ltb, le_of_not_ltb,
}
use girvi_ghata_backend.Base.Int.{pos, ◌≤ℤ◌, ◌<ℤ◌}
use girvi_ghata_backend.Decimal.{Decimal, IsExact, greater_than, less_than_or_equal_to}
use girvi_ghata_backend.Calendar.{Instant, Calendar}
use girvi_ghata_backend.Result.{
  Result, ok, or_throw-found, throw_if-passed, >>=-eq-ok, ok-injective, transaction_not_found,
  payment_not_positive, negative_discount, status_not_payable, date_in_future, date_before_pledge,
  discount_exceeds_interest, payment_exceeds_outstanding,
}
use girvi_ghata_backend.Types.{BusinessRules, OutstandingBreakdown, PaymentAllocationResult}
use girvi_ghata_backend.Table.{find_where}
use girvi_ghata_backend.Store.{Store, Context, GirviTransaction}
use girvi_ghata_backend.Rules.{get_active_rules}
use girvi_ghata_backend.Outstanding.{get_outstanding, of_tenant, first_metal}
use girvi_ghata_backend.Engine.{override, calculate_outstanding, calculate_payment_allocation}
use girvi_ghata_backend.Payments.{
  CreatePayment, Prepared, is_open, resolve_date, metals_of, prepare, check_request, check_amounts,
  discounted,
}

module _ {D : Type 0} ⦃d : Decimal D⦄ (laws : IsExact D) where
  open d use {of_ℕ, minus, is_negative}
  open laws use {value, zero_value, less_than_value, is_negative_value}

  le_of_not_greater : (a b : D) → greater_than a b ≡ false → value a ≤ℤ value b
  le_of_not_greater a b h = ground (arith, less_than_value b a)

  gt_of_not_le : (a b : D) → less_than_or_equal_to a b ≡ false → value b <ℤ value a
  gt_of_not_le a b h = ground (arith, less_than_value b a)

  nonneg_of_not_negative : (a : D) → is_negative a ≡ false → pos 0 ≤ℤ value a
  nonneg_of_not_negative a h = ground (arith, is_negative_value a)

  not-false : (b : Bool) → not b ≡ false → b ≡ true
  not-false b h = ground arith

  gt_of_not_le_zero : (a : D) → less_than_or_equal_to a (of_ℕ 0) ≡ false → pos 0 <ℤ value a
  gt_of_not_le_zero a h = ground (arith, less_than_value (of_ℕ 0) a, zero_value)

  -- A request that passes: a positive amount, a discount of at least 0, an open transaction of the
  -- tenant, and a date from the pledge to now.
  pub record IsRequest (now : Instant) (s : Store D) (ctx : Context) (dto : CreatePayment D)
      (row : GirviTransaction D) (date : Instant) : Type 0 where
    pub found :
        find_where dto.girvi_transaction_id (of_tenant ctx.tenant_id) s.transactions ≡ some row
    pub payable : is_open row.status ≡ true
    pub not_future : date ≤ now
    pub not_before : row.pledge_date ≤ date
    pub discount_nonneg : pos 0 ≤ℤ value (override dto.discount_amount (of_ℕ 0))
    pub positive : pos 0 <ℤ value dto.amount

  check_request-IsRequest :
      (now : Instant) (s : Store D) (ctx : Context) (dto : CreatePayment D)
      (row : GirviTransaction D) (date : Instant)
      → check_request now s ctx dto ≡ ok (row, date)
      → IsRequest now s ctx dto row date
  unfolding check_request
  check_request-IsRequest now s ctx dto row date h0 =
      let (c1, h1) = throw_if-passed _ payment_not_positive _ h0 in
      let (c2, h2) = throw_if-passed _ negative_discount _ h1 in
      let (row', found, h3) = or_throw-found _ transaction_not_found _ h2 in
      let (c4, h4) = throw_if-passed _ status_not_payable _ h3 in
      let (date', _, h5) = >>=-eq-ok (resolve_date dto.payment_date now) _ h4 in
      let (c6, h6) = throw_if-passed _ date_in_future _ h5 in
      let (c7, h7) = throw_if-passed _ date_before_pledge _ h6 in
      dated row' date' found c4 c6 c7 c1 c2 (ok-injective h7)
    where
      dated :
          (r : GirviTransaction D) (t : Instant)
          → find_where dto.girvi_transaction_id (of_tenant ctx.tenant_id) s.transactions ≡ some r
          → not (is_open r.status) ≡ false
          → ltb now t ≡ false
          → ltb t r.pledge_date ≡ false
          → less_than_or_equal_to dto.amount (of_ℕ 0) ≡ false
          → is_negative (override dto.discount_amount (of_ℕ 0)) ≡ false
          → ◌≡◌ {A = GirviTransaction D × Instant} (r, t) (row, date)
          → IsRequest now s ctx dto row date
      dated r t found c4 c6 c7 c1 c2 same =
          subst (λ (q : GirviTransaction D × Instant). IsRequest now s ctx dto q.0 q.1) same
            (record {
              found = found;
              payable = not-false _ c4;
              not_future = le_of_not_ltb now t c6;
              not_before = le_of_not_ltb t r.pledge_date c7;
              discount_nonneg = nonneg_of_not_negative _ c2;
              positive = gt_of_not_le_zero dto.amount c1;
            })

  -- Amounts that pass: the discount is at most the interest, the payment at most the rest.
  pub record IsAmounts (b : OutstandingBreakdown D) (active_rules : Result (BusinessRules D))
      (amount discount : D) (adjusted : OutstandingBreakdown D)
      (allocation : PaymentAllocationResult D) : Type 0 where
    pub reduced : discounted b discount ≡ adjusted
    pub discount_le : value discount ≤ℤ value b.interest_accrued
    pub amount_le : value amount ≤ℤ value (calculate_outstanding (discounted b discount))
    pub rules : BusinessRules D
    pub active : active_rules ≡ ok rules
    pub allocated : calculate_payment_allocation amount (discounted b discount) rules ≡ allocation

  check_amounts-IsAmounts :
      (b : OutstandingBreakdown D) (active_rules : Result (BusinessRules D)) (amount discount : D)
      (out : OutstandingBreakdown D × PaymentAllocationResult D)
      → check_amounts b active_rules amount discount ≡ ok out
      → IsAmounts b active_rules amount discount out.0 out.1
  unfolding check_amounts
  check_amounts-IsAmounts b active_rules amount discount out h0 =
      let (c1, h1) = throw_if-passed _ discount_exceeds_interest _ h0 in
      let (c2, h2) = throw_if-passed _ payment_exceeds_outstanding _ h1 in
      let (rules, active, h3) = >>=-eq-ok active_rules _ h2 in
      record {
        reduced = ap (λ q. q.0) (ok-injective h3);
        discount_le = le_of_not_greater _ _ c1;
        amount_le = le_of_not_greater _ _ c2;
        rules = rules;
        active = active;
        allocated = ap (λ q. q.1) (ok-injective h3);
      }

  pub record IsPrepared (cal : Calendar) (now : Instant) (s : Store D) (ctx : Context)
      (dto : CreatePayment D) (p : Prepared D) : Type 0 where
    pub request : IsRequest now s ctx dto p.transaction p.date
    pub breakdown : OutstandingBreakdown D
    pub computed : get_outstanding cal now s ctx.tenant_id dto.girvi_transaction_id ≡ ok breakdown
    pub discount_given : override dto.discount_amount (of_ℕ 0) ≡ p.discount
    pub amounts :
        IsAmounts breakdown
          (get_active_rules s.rule_sets ctx.tenant_id (first_metal (metals_of p.transaction)))
          dto.amount
          (override dto.discount_amount (of_ℕ 0))
          p.adjusted
          p.allocation

  pub prepare-IsPrepared :
      (cal : Calendar) (now : Instant) (s : Store D) (ctx : Context) (dto : CreatePayment D)
      {p : Prepared D}
      → prepare cal now s ctx dto ≡ ok p
      → IsPrepared cal now s ctx dto p
  unfolding prepare
  prepare-IsPrepared cal now s ctx dto h0 =
      let (request, e1, h1) = >>=-eq-ok (check_request now s ctx dto) _ h0 in
      let (b, e2, h2) =
        >>=-eq-ok (get_outstanding cal now s ctx.tenant_id dto.girvi_transaction_id) _ h1 in
      let (out, e3, h3) = >>=-eq-ok (check_amounts b _ dto.amount _) _ h2 in
      subst (λ q. IsPrepared cal now s ctx dto q) (ok-injective h3)
        (record {
          request = check_request-IsRequest now s ctx dto request.0 request.1 e1;
          breakdown = b;
          computed = e2;
          discount_given = refl;
          amounts = check_amounts-IsAmounts b _ dto.amount _ out e3;
        })
