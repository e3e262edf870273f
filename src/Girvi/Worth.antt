-- ===== src/Girvi/Worth.antt =====
-- `computeCurrentValuation` of src/modules/girvi/girvi.service.ts: what pledged items are worth as a loan
-- now, metal by metal.
use girvi_ghata_backend.Base.{
  ℕ, ◌≡◌, ◌⊎◌, inl, inr, refl, sym, ap, ◌∙◌, none, some, List, [], ◌∷◌, map, filter, distinct, ◌==◌,
  Option-cases,
}
use girvi_ghata_backend.Base.Int.{ℤ, pos, ◌+ℤ◌, +ℤ_zero, zero_+ℤ, +ℤ_assoc}
use girvi_ghata_backend.Decimal.{Decimal, IsExact}
use girvi_ghata_backend.Result.{ok, >>=-eq-ok, ok-injective}
use girvi_ghata_backend.Types.{BusinessRules}
use girvi_ghata_backend.Table.{find_first}
use girvi_ghata_backend.Store.{Store, Metal, MetalRate, PledgedItem}
use girvi_ghata_backend.Rules.{get_active_rules}
use girvi_ghata_backend.Engine.{
  calculate_metal_value, calculate_eligible_value, resolve_margin, apply_margin,
}
use girvi_ghata_backend.Girvi.{is_metal, fine_factors, current_rate}
use girvi_ghata_backend.Girvi.Changes.{
  CurrentValuation, metal_fine_weight, value_metal, value_metals, compute_current_valuation,
}

module _ {D : Type 0} ⦃d : Decimal D⦄ (laws : IsExact D) where
  open d use {of_ℕ, plus}
  open laws use {value, zero_value, plus_value}

  -- The loan on a fine weight: its value at the rate, the eligible percentage of it, less the margin,
  -- rounded and capped by the rules.
  abbrev pub loan_on : D → D → BusinessRules D → D
  loan_on fine rate rules =
      let eligible =
        calculate_eligible_value (calculate_metal_value fine rate) rules.eligibility_percent in
      apply_margin eligible (resolve_margin eligible rules) rules

  -- The sum over the metals of the loan on the items of each; a metal that is not configured or has no
  -- current rate adds nothing.
  abbrev pub IsWorth : Store D → ℕ → List (PledgedItem D) → List ℕ → ℤ → Type 0
  IsWorth s tenant items [] n = n ≡ pos 0
  IsWorth s tenant items (code ∷ codes) n =
      (rest : ℤ) × IsWorth s tenant items codes rest
      × (((find_first (is_metal tenant code) s.metals ≡ none) × (n ≡ rest))
          ⊎ ((metal : ℕ × Metal D) × (find_first (is_metal tenant code) s.metals ≡ some metal)
              × (((current_rate s tenant metal.0 ≡ none) × (n ≡ rest))
                  ⊎ ((rate : ℕ × MetalRate D) × (rules : BusinessRules D) × (current_rate s tenant
                          metal.0
                        ≡ some rate)
                      × (get_active_rules s.rule_sets tenant code ≡ ok rules)
                      × (n
                          ≡ value (
                              loan_on
                                (metal_fine_weight (fine_factors metal.1.purities) (of_ℕ 0)
                                  (filter (λ i. i.metal_code == code) items))
                                rate.1.rate_per_gram rules)
                            +ℤ rest)))))

  value_metal-worth :
      (s : Store D) (tenant : ℕ) (items : List (PledgedItem D)) (code : ℕ) (metal : Metal D)
      (rate : MetalRate D) (acc : CurrentValuation D) {c : CurrentValuation D}
      → value_metal s tenant items code metal rate acc ≡ ok c
      → (rules : BusinessRules D) × (get_active_rules s.rule_sets tenant code ≡ ok rules)
        × (value c.current_max_loan_amount
            ≡ value acc.current_max_loan_amount
              +ℤ value (
                  loan_on
                    (metal_fine_weight
                      (fine_factors metal.purities)
                      (of_ℕ 0)
                      (filter (λ i. i.metal_code == code) items))
                    rate.rate_per_gram
                    rules))
  unfolding value_metal
  value_metal-worth s tenant items code metal rate acc h0 =
      let (rules, active, h) = >>=-eq-ok (get_active_rules s.rule_sets tenant code) _ h0 in
      (
        rules,
        active,
        ap (λ (q : CurrentValuation D). value q.current_max_loan_amount) (sym (ok-injective h))
            ∙ plus_value _ _,
      )

  value_metals-IsWorth :
      (s : Store D) (tenant : ℕ) (items : List (PledgedItem D)) (codes : List ℕ)
      (acc : CurrentValuation D) {c : CurrentValuation D}
      → value_metals s tenant items codes acc ≡ ok c
      → (n : ℤ) × IsWorth s tenant items codes n
        × (value c.current_max_loan_amount ≡ value acc.current_max_loan_amount +ℤ n)
  unfolding value_metals
  value_metals-IsWorth s tenant items [] acc h = (
    pos 0,
    refl,
    ap (λ (q : CurrentValuation D). value q.current_max_loan_amount) (sym (ok-injective h))
        ∙ sym (+ℤ_zero (value acc.current_max_loan_amount)),
  )
  value_metals-IsWorth s tenant items (code ∷ codes) acc h =
      elim (Option-cases (find_first (is_metal tenant code) s.metals)) [
        | inl e ↦
            let (n, ih, sum) =
              value_metals-IsWorth s tenant items codes acc (rw (value_metals, e) at h) in
            (n, (n, ih, inl (e, refl)), sum)
        | inr (metal, e) ↦ elim (Option-cases (current_rate s tenant metal.0)) [
          | inl r ↦
              let (n, ih, sum) =
                value_metals-IsWorth s tenant items codes acc (rw (value_metals, e, r) at h) in
              (n, (n, ih, inr (metal, e, inl (r, refl))), sum)
          | inr (rate, r) ↦
              let (acc', valued, h') =
                >>=-eq-ok (value_metal s tenant items code metal.1 rate.1 acc)
                  (λ a. value_metals s tenant items codes a) (rw (value_metals, e, r) at h) in
              let (rules, active, added) =
                value_metal-worth s tenant items code metal.1 rate.1 acc valued in
              let (rest, ih, sum) = value_metals-IsWorth s tenant items codes acc' h' in
              (
                _,
                (rest, ih, inr (metal, e, inr (rate, rules, r, active, refl))),
                rw (sum, added) (+ℤ_assoc _ _ rest),
              )
        ]
      ]

  pub compute_current_valuation-IsWorth :
      (s : Store D) (tenant : ℕ) (items : List (PledgedItem D)) {c : CurrentValuation D}
      → compute_current_valuation s tenant items ≡ ok c
      → IsWorth s tenant items
          (distinct (map (λ i. i.metal_code) items))
          (value c.current_max_loan_amount)
  unfolding compute_current_valuation
  compute_current_valuation-IsWorth s tenant items h =
      let (n, worth, sum) = value_metals-IsWorth s tenant items _ _ h in
      rw (sum, zero_value, zero_+ℤ n) worth
