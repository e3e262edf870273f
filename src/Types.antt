-- ===== src/Types.antt =====
-- The engine's data: src/modules/calculation-engine/calculation.types.ts.
use girvi_ghata_backend.Base.{ℕ, Option, List}

pub data MarginType : Type 0 where
  fixed percent no_margin : MarginType

pub data InterestMethod : Type 0 where
  flat_monthly daily reducing_balance : InterestMethod

pub data RoundingRule : Type 0 where
  no_rounding round_nearest_1 round_nearest_10 : RoundingRule

pub data Category : Type 0 where
  penalty charges interest principal : Category

-- Metal and purity codes are only compared, so they are numbers; these two are named in the code.
abbrev pub gold : ℕ
gold = 0

abbrev pub silver : ℕ
silver = 1

pub record ItemMeasurement (D : Type 0) : Type 0 where
  pub item_id : ℕ
  pub gross_weight : D
  pub stone_weight : D
  pub purity_code : ℕ
  pub fine_factor : D

pub record RateSnapshot (D : Type 0) : Type 0 where
  pub metal_code : ℕ
  pub rate_per_gram : D
  pub rate_id : ℕ

pub record BusinessRules (D : Type 0) : Type 0 where
  pub rule_set_id : ℕ
  pub eligibility_percent : D
  pub margin_type : MarginType
  pub margin_value : D
  pub interest_method : InterestMethod
  pub interest_percent : D
  pub loan_term_days : Option ℕ
  pub grace_period_days : ℕ
  pub rounding_rule : RoundingRule
  pub min_loan_amount : Option D
  pub max_loan_amount : Option D
  pub payment_allocation_order : List Category

pub record ItemValuationResult (D : Type 0) : Type 0 where
  pub item_id : ℕ
  pub net_weight : D
  pub fine_weight : D
  pub metal_value : D

-- The `breakdown` of the source is the same numbers once more, as text for display.
pub record PledgeValuationResult (D : Type 0) : Type 0 where
  pub items : List (ItemValuationResult D)
  pub total_fine_weight : D
  pub total_metal_value : D
  pub eligibility_percent : D
  pub eligible_value : D
  pub margin_applied : D
  pub max_loan_amount : D

pub record OutstandingBreakdown (D : Type 0) : Type 0 where
  pub principal : D
  pub interest_accrued : D
  pub charges : D
  pub penalty : D
  pub payments_applied_to_principal : D
  pub payments_applied_to_interest : D

pub record PaymentAllocationResult (D : Type 0) : Type 0 where
  pub penalty : D
  pub charges : D
  pub interest : D
  pub principal : D
  pub remaining_outstanding : D
