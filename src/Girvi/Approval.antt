-- ===== src/Girvi/Approval.antt =====
-- What `create` of src/modules/girvi/girvi.service.ts checks before it writes: the maximum of the
-- loan, metal by metal, and its rate.
use mathlib.Core.Path.{subst}
use mathlib.Core.Option.{some-injective}
use girvi_ghata_backend.Base.{
  ℕ, ◌≤◌, ◌≡◌, ◌∙◌, ◌⊎◌, inl, inr, refl, sym, ap, false, none, Option, some, List, [], ◌∷◌, map,
  distinct, ltb, arith, le_of_not_ltb, Bool-cases, ◌==◌,
}
use girvi_ghata_backend.Base.Int.{ℤ, pos, ◌≤ℤ◌, ◌<ℤ◌, ◌+ℤ◌, +ℤ_zero, zero_+ℤ, +ℤ_assoc}
use girvi_ghata_backend.Decimal.{Decimal, IsExact, greater_than, less_than_or_equal_to, sum_from}
use girvi_ghata_backend.Calendar.{Instant}
use girvi_ghata_backend.Result.{
  ok, >>=-eq-ok, or_throw-found, throw_if-passed, ok-injective, customer_not_found,
  metal_not_configured, date_in_future, percent_out_of_range, loan_exceeds_maximum,
  loan_not_positive, no_rate_snapshot,
}
use girvi_ghata_backend.Types.{
  ItemMeasurement, ItemValuationResult, PledgeValuationResult, RateSnapshot, BusinessRules,
}
use girvi_ghata_backend.Table.{Table, find, find_where}
use girvi_ghata_backend.Store.{
  Store, Columns, Context, GirviTransaction, GirviStatus, ValuationSnapshot, Mode,
  loan_disbursement, outward,
}
use girvi_ghata_backend.Engine.{
  calculate_pledge_value, value_items, calculate_eligible_value, resolve_margin, apply_margin,
  find_rate,
}
use girvi_ghata_backend.Payments.{resolve_date}
use girvi_ghata_backend.Girvi.{
  CreateGirvi, MetalConfig, Combined, percent_or, is_customer, load_metals, group_items, measured,
  primary_metal, combine, nothing_combined,
}
use girvi_ghata_backend.Girvi.Creation.{Approved, check_loan, check_customer, approve}

module _ {D : Type 0} ⦃d : Decimal D⦄ (laws : IsExact D) where
  open d use {of_ℕ, plus, is_negative}
  open laws use {value, zero_value, less_than_value, plus_value, is_negative_value}

  -- The percentage that counts: the one of the request, from 0 to 100, or the default.
  abbrev pub IsChosen : Option D → D → D → Type 0
  IsChosen asked default x =
      ((asked ≡ none) × (x ≡ default))
      ⊎ ((asked ≡ some x) × (pos 0 ≤ℤ value x) × (value x ≤ℤ value (of_ℕ 100)))

  -- The maximum of a loan on items of several metals: for each metal the value of its items at its
  -- current rate, the eligible percentage of it, less the margin, rounded and capped by its rules.
  abbrev pub IsMaxLoan :
      Table (MetalConfig D) → Table (List (ItemMeasurement D)) → D → List ℕ → ℤ → Type 0
  IsMaxLoan configs items percent [] n = n ≡ pos 0
  IsMaxLoan configs items percent (code ∷ codes) n =
      (config : MetalConfig D) × (results : List (ItemValuationResult D)) × (rest : ℤ) × (find code
          configs
        ≡ some config)
      × (value_items config.rate (measured items code) ≡ ok results)
      × IsMaxLoan configs items percent codes rest
      × (n
          ≡ value (
              let eligible =
                calculate_eligible_value (sum_from (of_ℕ 0) (map (λ r. r.metal_value) results))
                  percent in
              apply_margin eligible (resolve_margin eligible config.rules) config.rules)
            +ℤ rest)

  percent_or-IsChosen :
      (asked : Option D) (default : D) {x : D}
      → percent_or asked default ≡ ok x
      → IsChosen asked default x
  percent_or-IsChosen none default h = inl (refl, sym (ok-injective h))
  percent_or-IsChosen (some p) default {x} h0 =
      let (high, h1) = throw_if-passed (is_negative p) percent_out_of_range _ h0 in
      let (small, h) = throw_if-passed (greater_than p (of_ℕ 100)) percent_out_of_range _ h1 in
      let same = ok-injective h in
      inr (
        ap some same,
        subst (λ q. pos 0 ≤ℤ value q) same (ground (arith, high, is_negative_value p)),
        subst (λ q. value q ≤ℤ value (of_ℕ 100)) same
            (ground (arith, small, less_than_value (of_ℕ 100) p)),
      )

  find_rate-single :
      (rate : RateSnapshot D) (code : ℕ) {found : RateSnapshot D}
      → find_rate (rate ∷ []) code ≡ some found
      → found ≡ rate
  find_rate-single rate code {found} h = elim (Bool-cases (rate.metal_code == code)) [
    | inl e ↦ sym (some-injective rate found (rw e at h))
    | inr e ↦ cc (rw e at h)
  ]

  pledge_value-max :
      (items : List (ItemMeasurement D)) (rate : RateSnapshot D) (rules : BusinessRules D)
      (code : ℕ) (percent : D) {r : PledgeValuationResult D}
      → calculate_pledge_value items (rate ∷ []) rules code (some percent) ≡ ok r
      → (results : List (ItemValuationResult D)) × (value_items rate items ≡ ok results)
        × (r.max_loan_amount ≡ (
            let eligible =
              calculate_eligible_value
                (sum_from (of_ℕ 0) (map (λ r. r.metal_value) results))
                percent in
            apply_margin eligible (resolve_margin eligible rules) rules))
  unfolding calculate_pledge_value
  pledge_value-max items rate rules code percent h0 =
      let (found, e, h1) = or_throw-found (find_rate (rate ∷ []) code) no_rate_snapshot _ h0 in
      let (results, valued, h) = >>=-eq-ok (value_items found items) _ h1 in
      (
        results,
        rw (find_rate-single rate code e) at valued,
        sym (ap (λ (q : PledgeValuationResult D). q.max_loan_amount) (ok-injective h)),
      )

  combine-IsMaxLoan :
      (configs : Table (MetalConfig D)) (items : Table (List (ItemMeasurement D))) (percent : D)
      (codes : List ℕ) (acc : Combined D) {c : Combined D}
      → combine configs items percent codes acc ≡ ok c
      → (n : ℤ) × IsMaxLoan configs items percent codes n
        × (value c.max_loan ≡ value acc.max_loan +ℤ n)
  unfolding combine
  combine-IsMaxLoan configs items percent [] acc h = (
    pos 0,
    refl,
    ap (λ (q : Combined D). value q.max_loan) (sym (ok-injective h))
        ∙ sym (+ℤ_zero (value acc.max_loan)),
  )
  combine-IsMaxLoan configs items percent (code ∷ codes) acc h0 =
      let (config, found, h1) = or_throw-found (find code configs) metal_not_configured _ h0 in
      let (r, worth, h2) =
        >>=-eq-ok
          (calculate_pledge_value (measured items code) (config.rate ∷ []) config.rules code
            (some percent))
          _ h1 in
      let (results, valued, max) =
        pledge_value-max (measured items code) config.rate config.rules code percent worth in
      let (rest, ih, sum) = combine-IsMaxLoan configs items percent codes _ h2 in
      (
        value r.max_loan_amount +ℤ rest,
        (config, results, rest, found, valued, ih, rw max),
        rw (sum, plus_value, +ℤ_assoc (value acc.max_loan) (value r.max_loan_amount) rest),
      )

  -- What `approve` has found out and checked.
  pub record IsApproved (now : Instant) (s : Store D) (ctx : Context) (dto : CreateGirvi D)
      (a : Approved D) : Type 0 where
    pub configs : Table (MetalConfig D)
    pub loaded :
        load_metals s ctx.tenant_id (distinct (map (λ i. i.metal_code) dto.items)) [] ≡ ok configs
    pub items : Table (List (ItemMeasurement D))
    pub grouped : group_items configs dto.items [] ≡ ok items
    pub primary : MetalConfig D
    pub chosen :
        find (primary_metal (distinct (map (λ i. i.metal_code) dto.items))) configs ≡ some primary
    pub eligibility : D
    pub eligibility_by :
        IsChosen dto.eligibility_percent primary.rules.eligibility_percent eligibility
    pub limit : ℤ
    pub limited :
        IsMaxLoan configs items eligibility (distinct (map (λ i. i.metal_code) dto.items)) limit
    pub combined : limit ≡ value a.combined.max_loan
    pub rate_by : IsChosen dto.interest_percent primary.rules.interest_percent a.interest_percent
    pub small : greater_than dto.requested_loan_amount a.combined.max_loan ≡ false
    pub big : less_than_or_equal_to dto.requested_loan_amount (of_ℕ 0) ≡ false
    pub not_future : a.pledge_date ≤ now

  check_customer-le :
      (now : Instant) (s : Store D) (ctx : Context) (dto : CreateGirvi D) {date : Instant}
      → check_customer now s ctx dto ≡ ok date
      → date ≤ now
  unfolding check_customer
  check_customer-le now s ctx dto h0 =
      let (_, _, h1) =
        or_throw-found (find_where dto.customer_id (is_customer ctx.tenant_id) s.customers)
          customer_not_found _ h0 in
      let (date, _, h2) = >>=-eq-ok (resolve_date dto.pledge_date now) _ h1 in
      let (past, h3) = throw_if-passed (ltb now date) date_in_future _ h2 in
      subst (λ q. q ≤ now) (ok-injective h3) (le_of_not_ltb now date past)

  check_loan-passed :
      (dto : CreateGirvi D) (c : Combined D) (default : D) {rate : D}
      → check_loan dto c default ≡ ok rate
      → (greater_than dto.requested_loan_amount c.max_loan ≡ false)
        × (less_than_or_equal_to dto.requested_loan_amount (of_ℕ 0) ≡ false)
        × IsChosen dto.interest_percent default rate
  unfolding check_loan
  check_loan-passed dto c default h0 =
      let (small, h1) =
        throw_if-passed (greater_than dto.requested_loan_amount c.max_loan) loan_exceeds_maximum _
          h0 in
      let (big, h2) =
        throw_if-passed (less_than_or_equal_to dto.requested_loan_amount (of_ℕ 0)) loan_not_positive
          _ h1 in
      (small, big, percent_or-IsChosen dto.interest_percent default h2)

  pub approve-IsApproved :
      (now : Instant) (s : Store D) (ctx : Context) (dto : CreateGirvi D) {a : Approved D}
      → approve now s ctx dto ≡ ok a
      → IsApproved now s ctx dto a
  unfolding approve
  approve-IsApproved now s ctx dto h0 =
      let (date, dated, h1) = >>=-eq-ok (check_customer now s ctx dto) _ h0 in
      let codes = distinct (map (λ i. i.metal_code) dto.items) in
      let (configs, loaded, h2) = >>=-eq-ok (load_metals s ctx.tenant_id codes []) _ h1 in
      let (items, grouped, h3) = >>=-eq-ok (group_items configs dto.items []) _ h2 in
      let (primary, chosen, h4) =
        or_throw-found (find (primary_metal codes) configs) metal_not_configured _ h3 in
      let (eligibility, picked, h5) =
        >>=-eq-ok (percent_or dto.eligibility_percent primary.rules.eligibility_percent) _ h4 in
      let (combined, summed, h6) =
        >>=-eq-ok (combine configs items eligibility codes nothing_combined) _ h5 in
      let (interest, passed, h7) =
        >>=-eq-ok (check_loan dto combined primary.rules.interest_percent) _ h6 in
      let (small, big, rate) =
        check_loan-passed dto combined primary.rules.interest_percent passed in
      let (limit, limited, total) =
        combine-IsMaxLoan configs items eligibility codes nothing_combined summed in
      subst (λ (a : Approved D). IsApproved now s ctx dto a) (ok-injective h7)
        (record {
          configs = configs;
          loaded = loaded;
          items = items;
          grouped = grouped;
          primary = primary;
          chosen = chosen;
          eligibility = eligibility;
          eligibility_by = percent_or-IsChosen dto.eligibility_percent _ picked;
          limit = limit;
          limited = limited;
          combined = sym (rw (total, zero_value) (zero_+ℤ limit));
          rate_by = rate;
          small = small;
          big = big;
          not_future = check_customer-le now s ctx dto dated;
        })

module _ {D : Type 0} ⦃d : Decimal D⦄ ⦃col : Columns D⦄ (laws : IsExact D) where
  open col use {money}
  open laws use {value}

  -- What a new loan that is returned has checked and written.
  pub record IsCreated (now : Instant) (s : Store D) (ctx : Context) (dto : CreateGirvi D) (id : ℕ)
      (t : GirviTransaction D) (s' : Store D) : Type 0 where
    pub configs : Table (MetalConfig D)
    pub loaded :
        load_metals s ctx.tenant_id (distinct (map (λ i. i.metal_code) dto.items)) [] ≡ ok configs
    pub items : Table (List (ItemMeasurement D))
    pub grouped : group_items configs dto.items [] ≡ ok items
    pub primary : MetalConfig D
    pub chosen :
        find (primary_metal (distinct (map (λ i. i.metal_code) dto.items))) configs ≡ some primary
    pub eligibility : D
    pub eligibility_by :
        IsChosen laws dto.eligibility_percent primary.rules.eligibility_percent eligibility
    pub limit : ℤ
    pub limited :
        IsMaxLoan laws configs items eligibility
          (distinct (map (λ i. i.metal_code) dto.items))
          limit
    pub within : value dto.requested_loan_amount ≤ℤ limit
    pub loan_positive : pos 0 <ℤ value dto.requested_loan_amount
    pub not_future : t.pledge_date ≤ now
    pub active : t.status ≡ GirviStatus.active
    pub of_customer : t.customer ≡ dto.customer_id
    pub snapshot : ValuationSnapshot D
    pub valued : t.valuation ≡ some snapshot
    pub maximum : (m : D) × (snapshot.max_loan_amount ≡ money m) × (limit ≡ value m)
    pub lent : snapshot.actual_loan_amount ≡ money dto.requested_loan_amount
    pub rate_by :
        IsChosen laws dto.interest_percent primary.rules.interest_percent snapshot.interest_percent
    pub stored : find id s'.transactions ≡ some t
    pub ledger :
        s'.ledger
        ≡ record {
          tenant = ctx.tenant_id;
          branch = dto.branch_id;
          entry_type = loan_disbursement;
          direction = outward;
          amount = money dto.requested_loan_amount;
          account = Mode.cash;
          payment_id = none;
          created_by = ctx.user_id;
          created_at = now;
        }
          ∷ s.ledger
