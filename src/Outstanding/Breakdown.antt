-- ===== src/Outstanding/Breakdown.antt =====
-- `computeBreakdown`: when it returns, that nothing in it is negative, and that a loan whose
-- principal is repaid owes nothing.
use girvi_ghata_backend.Base.{
  zero, suc, ◌≤◌, ◌<◌, ◌≡◌, ◌∙◌, ap, sym, refl, inl, inr, Bool, false, none, some, List, [], ◌∷◌,
  arith, ltb, All, if◌then◌else◌, Bool-cases,
}
use girvi_ghata_backend.Base.Int.{ℤ, pos, negsuc, ◌≤ℤ◌, ◌+ℤ◌, int_laws}
use girvi_ghata_backend.Decimal.{Decimal, IsExact, max, plus_parts, minus_parts}
use girvi_ghata_backend.Calendar.{Instant, Calendar}
use girvi_ghata_backend.Result.{
  ok, err, IsOk, >>=-eq-ok, or_throw-found, throw_if-passed, ok-injective, value_of,
  transaction_not_found, now_before_pledge,
}
use girvi_ghata_backend.Types.{BusinessRules, OutstandingBreakdown, Category, InterestMethod}
use girvi_ghata_backend.Store.{AllocationRow}
use girvi_ghata_backend.Engine.{
  calculate_calendar_months_elapsed, calculate_interest, calculate_outstanding,
}
use girvi_ghata_backend.Engine.Allocation.{DuesNonneg}
use girvi_ghata_backend.Engine.Waterfall.{outstanding-eq-total_due}
use girvi_ghata_backend.Outstanding.{
  LoanTerms, TransactionForOutstanding, Tranche, periods_elapsed, accrue_tranche, accrue, tranches,
  remaining_principal, still_open, breakdown_of, paid_from, compute_breakdown, add_allocation,
  add_allocations,
}

months_return :
    (cal : Calendar) (anchor now : Instant)
    → anchor ≤ now
    → IsOk (calculate_calendar_months_elapsed cal anchor now)
unfolding calculate_calendar_months_elapsed
months_return cal anchor now h = let late : ltb now anchor ≡ false = ground arith in rw late tt

module _ {D : Type 0} ⦃d : Decimal D⦄ where
  open d use {of_ℕ, plus, minus}

  periods_return :
      (cal : Calendar) (now : Instant) (rules : BusinessRules D) (anchor : Instant)
      → anchor ≤ now
      → IsOk (periods_elapsed cal now rules anchor)
  unfolding periods_elapsed
  periods_return cal now rules anchor h = by_method rules.interest_method refl
    where
      by_method :
          (m : InterestMethod)
          → rules.interest_method ≡ m
          → IsOk (periods_elapsed cal now rules anchor)
      by_method InterestMethod.daily e = rw (e, periods_elapsed) tt
      by_method InterestMethod.flat_monthly e =
          rw (e, periods_elapsed) (months_return cal anchor now h)
      by_method InterestMethod.reducing_balance e =
          rw (e, periods_elapsed) (months_return cal anchor now h)

  accrue_tranche_return :
      (cal : Calendar) (now : Instant) (rules : BusinessRules D) (still_open : Bool) (total : D)
      (t : Tranche D)
      → (x : D) × (accrue_tranche cal now rules still_open total t ≡ ok x)
  unfolding accrue_tranche
  accrue_tranche_return cal now rules still_open total t =
      elim (Bool-cases (ltb now t.anchor_date)) [
        | inl e ↦ (total, rw e)
        | inr e ↦
            let (n, same) =
              value_of (periods_elapsed cal now rules t.anchor_date)
                (periods_return cal now rules t.anchor_date (ground arith)) in
            let base = if still_open then t.principal else of_ℕ 0 in
            (plus total (calculate_interest base rules n), rw (e, same))
      ]

  -- The interest loop always returns.
  pub accrue_return :
      (cal : Calendar) (now : Instant) (rules : BusinessRules D) (still_open : Bool) (total : D)
      (ts : List (Tranche D))
      → (x : D) × (accrue cal now rules still_open total ts ≡ ok x)
  unfolding accrue
  accrue_return cal now rules still_open total [] = (total, refl)
  accrue_return cal now rules still_open total (t ∷ ts) =
      let (next, e) = accrue_tranche_return cal now rules still_open total t in
      let (x, e') = accrue_return cal now rules still_open next ts in (x, rw e e')

  module _ (cal : Calendar) (now : Instant) (t : TransactionForOutstanding D)
      (rules : BusinessRules D) where
    -- computeBreakdown throws if the valuation is missing, and otherwise if the date lies before
    -- the pledge; in every other case it returns.
    pub compute_breakdown_total :
        (t.valuation ≡ none → compute_breakdown cal now t rules ≡ err transaction_not_found)
        × ((terms : LoanTerms D)
            → t.valuation ≡ some terms
            → now < t.pledge_date
            → compute_breakdown cal now t rules ≡ err now_before_pledge)
        × ((terms : LoanTerms D)
            → t.valuation ≡ some terms
            → t.pledge_date ≤ now
            → IsOk (compute_breakdown cal now t rules))
    unfolding compute_breakdown
    compute_breakdown_total = (
      λ e. rw e,
      λ terms e h. rw e (ground arith),
      λ terms e h.
          let late : ltb now t.pledge_date ≡ false = ground arith in
          let (x, done) =
            accrue_return cal now (record rules { interest_percent = terms.interest_percent })
              (still_open terms t) (of_ℕ 0) (tranches terms t) in
          rw (e, late, done) tt,
    )

    -- A breakdown that is returned, from the loan's terms and the interest accrued.
    pub breakdown-eq-ok :
        {b : OutstandingBreakdown D}
        → compute_breakdown cal now t rules ≡ ok b
        → (terms : LoanTerms D) × (x : D) × (t.valuation ≡ some terms)
          × (accrue cal now
                (record rules { interest_percent = terms.interest_percent })
                (still_open terms t)
                (of_ℕ 0)
                (tranches terms t)
              ≡ ok x)
          × (t.pledge_date ≤ now)
          × (b ≡ breakdown_of terms t x)
    unfolding compute_breakdown
    breakdown-eq-ok h =
        let (terms, found, h1) = or_throw-found t.valuation transaction_not_found _ h in
        let (dated, h2) = throw_if-passed (ltb now t.pledge_date) now_before_pledge _ h1 in
        let (x, accrued, h3) =
          >>=-eq-ok
            (accrue cal now (record rules { interest_percent = terms.interest_percent })
              (still_open terms t) (of_ℕ 0) (tranches terms t))
            _ h2 in
        (terms, x, found, accrued, ground arith, sym (ok-injective h3))

module _ {D : Type 0} ⦃d : Decimal D⦄ (laws : IsExact D) where
  open d use {of_ℕ, plus, minus}
  open laws use {value, zero_value, less_than_value, plus_value, zero_times}

  max_nonneg : (x : D) → pos 0 ≤ℤ value (max (of_ℕ 0) x)
  max_nonneg x = ground (arith, less_than_value (of_ℕ 0) x, zero_value)

  max_zero : (x : D) → value x ≤ℤ pos 0 → value (max (of_ℕ 0) x) ≡ pos 0
  max_zero x h = ground (arith, less_than_value (of_ℕ 0) x, zero_value)

  only_two : (e c i p : ℤ) → e ≡ pos 0 → c ≡ pos 0 → e +ℤ c +ℤ (i +ℤ p) ≡ i +ℤ p
  only_two e c i p h k = rw (h, k) (omega int_laws)

  breakdown_of-DuesNonneg :
      (terms : LoanTerms D) (t : TransactionForOutstanding D) (x : D)
      → DuesNonneg laws (breakdown_of terms t x)
  breakdown_of-DuesNonneg terms t x Category.penalty = rw zero_value (omega arith)
  breakdown_of-DuesNonneg terms t x Category.charges = rw zero_value (omega arith)
  breakdown_of-DuesNonneg terms t x Category.interest = max_nonneg _
  breakdown_of-DuesNonneg terms t x Category.principal = max_nonneg _

  module _ (cal : Calendar) (now : Instant) (t : TransactionForOutstanding D)
      (rules : BusinessRules D) {b : OutstandingBreakdown D}
      (h : compute_breakdown cal now t rules ≡ ok b) where
    -- Nothing in a breakdown that is returned is negative, and the outstanding amount is the
    -- principal and the interest together.
    pub breakdown_nonneg :
        DuesNonneg laws b
        × (value (calculate_outstanding b) ≡ value b.interest_accrued +ℤ value b.principal)
    breakdown_nonneg =
        let (terms, x, _, _, _, same) = breakdown-eq-ok cal now t rules h in
        rw same (
          breakdown_of-DuesNonneg terms t x,
          outstanding-eq-total_due laws (breakdown_of terms t x) (breakdown_of-DuesNonneg terms t x)
                zero_value zero_value
              ∙ only_two _ _ _ _ zero_value zero_value,
        )

  -- No payment is left to take off a breakdown.
  pub breakdown_settled :
      (cal : Calendar) (now : Instant) (t : TransactionForOutstanding D) (rules : BusinessRules D)
      {b : OutstandingBreakdown D}
      → compute_breakdown cal now t rules ≡ ok b
      → (value b.payments_applied_to_principal ≡ pos 0)
        × (value b.payments_applied_to_interest ≡ pos 0)
  breakdown_settled cal now t rules h =
      let (terms, x, _, _, _, same) = breakdown-eq-ok cal now t rules h in
      rw same (zero_value, zero_value)

  interest_zero :
      (p : D) (rules : BusinessRules D) (n : ℤ)
      → value p ≡ pos 0
      → value (calculate_interest p rules n) ≡ pos 0
  unfolding calculate_interest
  interest_zero p rules (negsuc n) h = zero_value
  interest_zero p rules (pos zero) h = zero_value
  interest_zero p rules (pos (suc n)) h =
      let once = zero_times p (d.divided_by rules.interest_percent (of_ℕ 100)) h in
      ground (arith, zero_times _ (of_ℕ (suc n)) once)

  add_zero : (x y : D) → value y ≡ pos 0 → value (plus x y) ≡ value x
  add_zero x y h = simp (plus_value, h) (plus_zero (value x))
    where
      plus_zero : (v : ℤ) → v +ℤ pos 0 ≡ v
      plus_zero v = omega int_laws

  accrue_tranche_closed :
      (cal : Calendar) (now : Instant) (rules : BusinessRules D) (total : D) (t : Tranche D) {x : D}
      → accrue_tranche cal now rules false total t ≡ ok x
      → value x ≡ value total
  unfolding accrue_tranche
  accrue_tranche_closed cal now rules total t h = elim (Bool-cases (ltb now t.anchor_date)) [
    | inl e ↦ ap value (sym (ok-injective (rw e at h)))
    | inr e ↦
        let (n, _, done) = >>=-eq-ok (periods_elapsed cal now rules t.anchor_date) _ (rw e at h) in
        let zero = interest_zero (of_ℕ 0) rules n zero_value in
        ap value (sym (ok-injective done))
        ∙ add_zero total (calculate_interest (of_ℕ 0) rules n) zero
  ]

  -- On a closed loan no interest is added.
  accrue_closed :
      (cal : Calendar) (now : Instant) (rules : BusinessRules D) (total : D) (ts : List (Tranche D))
      {x : D}
      → accrue cal now rules false total ts ≡ ok x
      → value x ≡ value total
  unfolding accrue
  accrue_closed cal now rules total [] h = ap value (sym (ok-injective h))
  accrue_closed cal now rules total (t ∷ ts) h =
      let (y, one, rest) = >>=-eq-ok (accrue_tranche cal now rules false total t) _ h in
      accrue_closed cal now rules y ts rest ∙ accrue_tranche_closed cal now rules total t one

  abbrev pub AmountsNonneg : List (List (AllocationRow D)) → Type 0
  AmountsNonneg = All (All λ a. pos 0 ≤ℤ value a.amount)

  add_allocations-nonneg :
      (acc : D × D) (as' : List (AllocationRow D))
      → pos 0 ≤ℤ value acc.1
      → All (λ a. pos 0 ≤ℤ value a.amount) as'
      → pos 0 ≤ℤ value (add_allocations acc as').1
  unfolding add_allocations add_allocation
  add_allocations-nonneg acc [] h n = h
  add_allocations-nonneg acc (a ∷ as') h (n, ns) =
      add_allocations-nonneg (add_allocation acc a) as'
        (ground (arith, plus_parts laws acc.1 a.amount)) ns

  paid_from-nonneg :
      (acc : D × D) (ps : List (List (AllocationRow D)))
      → pos 0 ≤ℤ value acc.1
      → AmountsNonneg ps
      → pos 0 ≤ℤ value (paid_from acc ps).1
  unfolding paid_from
  paid_from-nonneg acc [] h n = h
  paid_from-nonneg acc (p ∷ ps) h (n, ns) =
      paid_from-nonneg (add_allocations acc p) ps (add_allocations-nonneg acc p h n) ns

  below : (x y : D) → value x ≡ pos 0 → pos 0 ≤ℤ value y → value (minus x y) ≤ℤ pos 0
  below x y h k = ground (arith, minus_parts laws x y)

  module _ (cal : Calendar) (now : Instant) (t : TransactionForOutstanding D)
      (rules : BusinessRules D) {b : OutstandingBreakdown D} where
    -- Once the principal is repaid the loan owes nothing, however much interest was unpaid, if no
    -- allocation is negative.
    pub breakdown_repaid :
        compute_breakdown cal now t rules ≡ ok b
        → AmountsNonneg t.payments
        → value b.principal ≡ pos 0
        → (value b.interest_accrued ≡ pos 0) × (value (calculate_outstanding b) ≡ pos 0)
    breakdown_repaid h n repaid =
        let (terms, x, _, accrued, _, same) = breakdown-eq-ok cal now t rules h in
        let paid = (paid_from (of_ℕ 0, of_ℕ 0) t.payments).1 in
        let zero : value (remaining_principal terms t) ≡ pos 0 = rw same at repaid in
        let shut : still_open terms t ≡ false =
          ground (arith, less_than_value (of_ℕ 0) (remaining_principal terms t), zero_value) in
        let none_added : value x ≡ pos 0 =
          accrue_closed cal now (record rules { interest_percent = terms.interest_percent })
            (of_ℕ 0) (tranches terms t) (rw shut at accrued)
          ∙ zero_value in
        let some_paid =
          paid_from-nonneg (of_ℕ 0, of_ℕ 0) t.payments (rw zero_value (omega arith)) n in
        let nothing : value b.interest_accrued ≡ pos 0 =
          rw same (max_zero (minus x paid) (below x paid none_added some_paid)) in
        (nothing, (breakdown_nonneg cal now t rules h).1 ∙ rw (nothing, repaid) (omega int_laws))
