-- ===== src/Girvi.antt =====
-- src/modules/girvi/girvi.service.ts: the operations that change loans, and the valuation that they
-- use. `findOne` and `list` only read rows.
pub mod Creation
pub mod Approval
pub mod Changes
pub mod Worth
pub mod Limits
pub mod Listing
pub mod Rows
use Prim.Native.Nat.{◌-◌}
use mathlib.Core.List.{◌++◌}
use girvi_ghata_backend.Base.{
  ℕ, ◌+◌, ◌*◌, Bool, true, false, not, ◌&&◌, Option, none, some, List, [], ◌∷◌, map, filter, ltb,
  ◌==◌, if◌then◌else◌, includes, distinct, length,
}
use girvi_ghata_backend.Decimal.{Decimal, greater_than, less_than_or_equal_to, sum_from}
use girvi_ghata_backend.Calendar.{Instant, Calendar, day_ms}
use girvi_ghata_backend.Result.{
  Result, ok, ◌>>=◌, ◌>>◌, throw_if, or_throw, customer_not_found, metal_not_configured,
  no_current_rate, purity_not_configured, percent_out_of_range, loan_exceeds_maximum,
  loan_not_positive, date_in_future, date_before_pledge, transaction_not_found, status_not_toppable,
  top_up_not_positive,
}
use girvi_ghata_backend.Types.{ItemMeasurement, RateSnapshot, BusinessRules, MarginType, gold}
use girvi_ghata_backend.Table.{Table, find, find_where, find_first, select, update, create, put}
use girvi_ghata_backend.Store.{
  Store, Columns, Context, GirviTransaction, GirviStatus, PledgedItem, ValuationSnapshot, TopUp,
  Customer, Metal, Purity, MetalRate, LedgerEntry, AuditEntry, Mode, DateInput, girvi_number,
  loan_disbursement, loan_top_up, outward, girvi_create, girvi_topup, girvi_pledge_date_update,
}
use girvi_ghata_backend.Numbering.{next}
use girvi_ghata_backend.Rules.{get_active_rules}
use girvi_ghata_backend.Outstanding.{of_tenant}
use girvi_ghata_backend.Payments.{is_open, resolve_date}
use girvi_ghata_backend.Engine.{
  override, calculate_pledge_value, calculate_fine_weight, calculate_metal_value,
  calculate_eligible_value, apply_margin, resolve_margin,
}

pub record PledgedItemInput (D : Type 0) : Type 0 where
  pub metal_code : ℕ
  pub purity_code : ℕ
  pub gross_weight : D
  pub stone_weight : Option D

-- `CreateGirviDto`
pub record CreateGirvi (D : Type 0) : Type 0 where
  pub customer_id : ℕ
  pub branch_id : ℕ
  pub items : List (PledgedItemInput D)
  pub requested_loan_amount : D
  pub pledge_date : DateInput
  pub interest_percent : Option D
  pub eligibility_percent : Option D

-- What is read for one metal: its purities, current rate and rules.
pub record MetalConfig (D : Type 0) : Type 0 where
  pub purities : Table D
  pub rate : RateSnapshot D
  pub rules : BusinessRules D

-- The sums over the metals.
pub record Combined (D : Type 0) : Type 0 where
  pub max_loan : D
  pub eligible_value : D
  pub fine_weight : D
  pub metal_value : D
  pub margin : D

-- `dueDate`, where a term of 0 days counts as none.
abbrev pub due_date_of : Instant → Option ℕ → Option Instant
due_date_of pledge none = none
due_date_of pledge (some days) = if days == 0 then none else some (pledge + days * day_ms)

-- `metalCodes.includes('GOLD') ? 'GOLD' : metalCodes[0]`; there is an item at least.
abbrev first_or_gold : List ℕ → ℕ
first_or_gold [] = gold
first_or_gold (m ∷ _) = m

abbrev pub primary_metal : List ℕ → ℕ
primary_metal codes = if includes codes gold then gold else first_or_gold codes

abbrev pub is_customer : ℕ → Customer → Bool
is_customer tenant c = elim c.deleted_at [ none ↦ c.tenant == tenant | some _ ↦ false ]

module _ {D : Type 0} where
  abbrev pub is_metal : ℕ → ℕ → Metal D → Bool
  is_metal tenant code m = m.tenant == tenant && m.code == code

  abbrev pub is_current_rate : ℕ → ℕ → MetalRate D → Bool
  is_current_rate tenant metal r = elim r.effective_to [
    | none ↦ r.tenant == tenant && r.metal == metal
    | some _ ↦ false
  ]

  -- `orderBy: { effectiveFrom: 'desc' }`, and the first row
  unfoldable pub latest_rate : Table (MetalRate D) → Option (ℕ × MetalRate D)
  latest_rate [] = none
  latest_rate (r ∷ rs) = elim (latest_rate rs) [
    | none ↦ some r
    | some b ↦ if ltb r.1.effective_from b.1.effective_from then some b else some r
  ]

  -- `new Map(metal.purities.map((p) => [p.code, p.fineFactor]))`: every purity, active or not
  abbrev pub fine_factors : Table (Purity D) → Table D
  fine_factors purities = map (λ p. (p.0, p.1.fine_factor)) purities

  unfoldable pub current_rate : Store D → ℕ → ℕ → Option (ℕ × MetalRate D)
  current_rate s tenant metal = latest_rate (select (is_current_rate tenant metal) s.metal_rates)

  -- The first loop of `create`.
  unfoldable pub load_metal : Store D → ℕ → ℕ → Result (MetalConfig D)
  load_metal s tenant code = do
    metal ← or_throw (find_first (is_metal tenant code) s.metals) metal_not_configured
    rate ← or_throw (current_rate s tenant metal.0) no_current_rate
    rules ← get_active_rules s.rule_sets tenant code
    let snapshot : RateSnapshot D = record {
      metal_code = code;
      rate_per_gram = rate.1.rate_per_gram;
      rate_id = rate.0;
    }
    ok (record { purities = fine_factors metal.1.purities; rate = snapshot; rules = rules })

  unfoldable pub load_metals :
      Store D → ℕ → List ℕ → Table (MetalConfig D) → Result (Table (MetalConfig D))
  load_metals s tenant [] acc = ok acc
  load_metals s tenant (code ∷ codes) acc = do
    config ← load_metal s tenant code
    load_metals s tenant codes (put code config acc)

  abbrev pub measured : Table (List (ItemMeasurement D)) → ℕ → List (ItemMeasurement D)
  measured acc code = elim (find code acc) [ none ↦ [] | some items ↦ items ]

module _ {D : Type 0} ⦃d : Decimal D⦄ where
  open d use {of_ℕ, plus, minus, is_negative}

  -- The second loop of `create`: the items of each metal.
  unfoldable pub group_items :
      Table (MetalConfig D)
      → List (PledgedItemInput D)
      → Table (List (ItemMeasurement D))
      → Result (Table (List (ItemMeasurement D)))
  group_items configs [] acc = ok acc
  group_items configs (item ∷ items) acc = do
    config ← or_throw (find item.metal_code configs) metal_not_configured
    fine_factor ← or_throw (find item.purity_code config.purities) purity_not_configured
    let before = measured acc item.metal_code
    let m : ItemMeasurement D = record {
      item_id = length before;
      gross_weight = item.gross_weight;
      stone_weight = override item.stone_weight (of_ℕ 0);
      purity_code = item.purity_code;
      fine_factor = fine_factor;
    }
    group_items configs items (put item.metal_code (before ++ m ∷ []) acc)

  -- A percentage of the request, from 0 to 100, or the default.
  abbrev pub percent_or : Option D → D → Result D
  percent_or none default = ok default
  percent_or (some p) default = do
    throw_if (is_negative p) percent_out_of_range
    throw_if (greater_than p (of_ℕ 100)) percent_out_of_range
    ok p

  -- The third loop of `create`.
  unfoldable pub combine :
      Table (MetalConfig D)
      → Table (List (ItemMeasurement D))
      → D
      → List ℕ
      → Combined D
      → Result (Combined D)
  combine configs items percent [] acc = ok acc
  combine configs items percent (code ∷ codes) acc = do
    config ← or_throw (find code configs) metal_not_configured
    r ←
        calculate_pledge_value (measured items code) (config.rate ∷ []) config.rules code
          (some percent)
    combine configs items percent codes (record {
      max_loan = plus acc.max_loan r.max_loan_amount;
      eligible_value = plus acc.eligible_value r.eligible_value;
      fine_weight = plus acc.fine_weight r.total_fine_weight;
      metal_value = plus acc.metal_value r.total_metal_value;
      margin = plus acc.margin r.margin_applied;
    })

  abbrev pub nothing_combined : Combined D
  nothing_combined = record {
    max_loan = of_ℕ 0;
    eligible_value = of_ℕ 0;
    fine_weight = of_ℕ 0;
    metal_value = of_ℕ 0;
    margin = of_ℕ 0;
  }

  abbrev pub pledged : PledgedItemInput D → PledgedItem D
  pledged item = record {
    metal_code = item.metal_code;
    purity_code = item.purity_code;
    gross_weight = item.gross_weight;
    stone_weight = override item.stone_weight (of_ℕ 0);
    net_weight = minus item.gross_weight (override item.stone_weight (of_ℕ 0));
    deleted_at = none;
  }
