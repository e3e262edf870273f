-- ===== src/Tests.antt =====
-- Test data: a tenant with one gold loan of 10,000 at 2% a month, pledged on the first day, and the
-- money columns rounded to two of the four decimal places. The witnesses stand in the modules below.
pub mod EngineTests
pub mod PaymentTests
pub mod LifecycleTests
pub mod GirviTests
pub mod AccountTests
pub mod RateTests
pub mod OfficeTests
use girvi_ghata_backend.Base.{
  ℕ, ◌+◌, ◌*◌, ◌/◌, Bool, true, false, Option, none, some, List, [], ◌∷◌,
}
use girvi_ghata_backend.Base.Int.{ℤ, pos, ◌+ℤ◌}
use girvi_ghata_backend.Calendar.{Instant, day_ms}
use girvi_ghata_backend.Types.{
  BusinessRules, Category, MarginType, InterestMethod, RoundingRule, gold,
}
use girvi_ghata_backend.Table.{Table}
use girvi_ghata_backend.Store.{
  Store, Columns, Context, GirviTransaction, GirviStatus, RuleSet, NumberSequence, Entity, Customer,
  User, PledgedItem, ValuationSnapshot, Packet, Mode, DateInput,
}
use girvi_ghata_backend.Payments.{CreatePayment}
use girvi_ghata_backend.Fixed.{Fixed, signed, fixed_decimal}

abbrev total : List Fixed → Fixed
total [] = pos 0
total (x ∷ xs) = x +ℤ total xs

instance abbrev pub two_places : Columns Fixed
two_places = record {
  money = λ a. signed (λ n. (n + 50) / 100 * 100) a;
  number_sum = λ xs. total xs;
}

abbrev pub rupees : ℕ → Fixed
rupees n = pos (n * 10_000)

abbrev pub order : List Category
order = Category.penalty ∷ Category.charges ∷ Category.interest ∷ Category.principal ∷ []

abbrev pub gold_rules : BusinessRules Fixed
gold_rules = record {
  rule_set_id = 1;
  eligibility_percent = rupees 75;
  margin_type = MarginType.no_margin;
  margin_value = rupees 0;
  interest_method = InterestMethod.flat_monthly;
  interest_percent = rupees 2;
  loan_term_days = some 30;
  grace_period_days = 5;
  rounding_rule = RoundingRule.no_rounding;
  min_loan_amount = none;
  max_loan_amount = none;
  payment_allocation_order = order;
}

abbrev pub gold_rule_set : RuleSet Fixed
gold_rule_set = record {
  tenant = 1;
  metal_code = gold;
  version = 1;
  is_active = true;
  rules = gold_rules;
}

abbrev pub chain : PledgedItem Fixed
chain = record {
  metal_code = gold;
  purity_code = 22;
  gross_weight = rupees 12;
  stone_weight = rupees 2;
  net_weight = rupees 10;
  deleted_at = none;
}

abbrev pub valuation : ValuationSnapshot Fixed
valuation = record {
  rule_set_id = 1;
  metal_rate_id = 1;
  total_fine_weight = rupees 9;
  total_metal_value = rupees 20_000;
  eligibility_percent = rupees 75;
  eligible_value = rupees 15_000;
  margin_applied = rupees 0;
  max_loan_amount = rupees 15_000;
  actual_loan_amount = rupees 10_000;
  interest_percent = rupees 2;
}

abbrev pub loan_in : GirviStatus → GirviTransaction Fixed
loan_in status = record {
  tenant = 1;
  branch = 1;
  girvi_number = record { prefix = 1; year = some 0; number = 1 };
  customer = 1;
  status = status;
  pledge_date = 0;
  due_date = some (30 * day_ms);
  created_by = 1;
  updated_by = none;
  items = chain ∷ [];
  valuation = some valuation;
  top_ups = [];
}

abbrev sequence : Entity → NumberSequence
sequence entity = record {
  tenant = 1;
  entity = entity;
  prefix = 1;
  year_in_key = true;
  last_value = 41;
}

abbrev pub sequences : Table NumberSequence
sequences =
    (1, sequence Entity.payment_number)
    ∷ (2, sequence Entity.redemption_number)
    ∷ (3, sequence Entity.girvi_number)
    ∷ (4, sequence Entity.customer_number)
    ∷ []

abbrev asha : Customer
asha = record {
  tenant = 1;
  branch = some 1;
  customer_code = record { prefix = 2; year = none; number = 1 };
  full_name = 1;
  mobile = some 1;
  deleted_at = none;
}

abbrev pub manager : User
manager = record {
  tenant = 1;
  full_name = 1;
  email = some 90;
  password_hash = 77;
  is_active = true;
  last_login_at = none;
  token_version = 0;
  roles = 1 ∷ [];
  branches = 1 ∷ [];
  deleted_at = none;
}

abbrev pub store_in : GirviStatus → Store Fixed
store_in status = record {
  subscriptions = (1, record { max_branches = some 2; max_users = some 3 }) ∷ [];
  branches = (1, record { tenant = 1; code = 1; name = 1; deleted_at = none }) ∷ [];
  users = (8, manager) ∷ [];
  roles = (1, record { tenant = 1; name = 1; permissions = 1 ∷ 2 ∷ [] }) ∷ [];
  permissions = (1, 51) ∷ (2, 52) ∷ [];
  login_history = [];
  locations = (3, record { tenant = 1; branch = 1; kind = 1; code = 1; parent = none }) ∷ [];
  customers = (1, asha) ∷ [];
  kyc = [];
  metals =
      (
        1,
        record {
          tenant = 1;
          code = gold;
          purities = (22, record { fine_factor = pos 9000; is_active = true }) ∷ [];
        },
      )
      ∷ [];
  metal_rates =
      (
        1,
        record {
          tenant = 1;
          metal = 1;
          rate_per_gram = rupees 2000;
          effective_from = 0;
          effective_to = none;
        },
      )
      ∷ [];
  rate_history = [];
  rule_sets = (1, gold_rule_set) ∷ [];
  transactions = (10, loan_in status) ∷ [];
  payments = [];
  redemptions = [];
  packets = (5, record { girvi_transaction_id = 10; qr_code = 1; storage_location = some 3 }) ∷ [];
  auction_cases = [];
  sequences = sequences;
  ledger = [];
  closings = [];
  audit = [];
}

abbrev pub clerk : Context
clerk = record { tenant_id = 1; user_id = 8; branch_ids = 1 ∷ []; permissions = 51 ∷ 52 ∷ [] }

-- Two months have begun: the interest is 400.
abbrev pub day_35 : Instant
day_35 = 35 * day_ms + 1

abbrev pub pay : ℕ → CreatePayment Fixed
pay amount = record {
  girvi_transaction_id = 10;
  amount = rupees amount;
  discount_amount = none;
  mode = Mode.cash;
  payment_date = DateInput.omitted;
}
