-- ===== src/Girvi/Changes.antt =====
-- `computeCurrentValuation`, `topUp` and `updatePledgeDate` of src/modules/girvi/girvi.service.ts.
use Prim.Native.Nat.{◌-◌}
use mathlib.Core.List.{◌++◌}
use girvi_ghata_backend.Base.{
  ℕ, ◌+◌, not, Option, none, some, List, [], ◌∷◌, map, filter, ltb, ◌==◌, if◌then◌else◌, distinct,
}
use girvi_ghata_backend.Decimal.{Decimal, greater_than, less_than_or_equal_to, sum_from}
use girvi_ghata_backend.Calendar.{Instant}
use girvi_ghata_backend.Result.{
  Result, ok, err, invalid_date, ◌>>=◌, ◌>>◌, throw_if, or_throw, date_in_future,
  date_before_pledge, transaction_not_found, status_not_toppable, top_up_not_positive,
  loan_exceeds_maximum,
}
use girvi_ghata_backend.Types.{BusinessRules}
use girvi_ghata_backend.Table.{Table, find, find_where, find_first, update}
use girvi_ghata_backend.Store.{
  Store, Columns, Context, GirviTransaction, PledgedItem, ValuationSnapshot, TopUp, Metal,
  MetalRate, LedgerEntry, AuditEntry, Mode, DateInput, loan_top_up, outward, girvi_topup,
  girvi_pledge_date_update,
}
use girvi_ghata_backend.Rules.{get_active_rules}
use girvi_ghata_backend.Outstanding.{of_tenant}
use girvi_ghata_backend.Payments.{is_open, resolve_date}
use girvi_ghata_backend.Engine.{
  calculate_fine_weight, calculate_metal_value, calculate_eligible_value, apply_margin,
  resolve_margin,
}
use girvi_ghata_backend.Girvi.{is_metal, fine_factors, current_rate}

pub record CurrentValuation (D : Type 0) : Type 0 where
  pub total_fine_weight : D
  pub total_metal_value : D
  pub current_eligible_value : D
  pub current_max_loan_amount : D

-- `CreateTopUpDto`
pub record CreateTopUp (D : Type 0) : Type 0 where
  pub amount : D
  pub top_up_date : DateInput

abbrev pub required_date : DateInput → Result Instant
required_date DateInput.omitted = err invalid_date
required_date DateInput.invalid = err invalid_date
required_date (DateInput.at t) = ok t

-- The due date moves with the pledge date.
abbrev pub shifted : Instant → Instant → Option Instant → Option Instant
shifted old new none = none
shifted old new (some due) = some (due + new - old)

module _ {D : Type 0} ⦃d : Decimal D⦄ where
  open d use {of_ℕ, plus}

  -- An item whose purity is not configured adds nothing.
  unfoldable pub metal_fine_weight : Table D → D → List (PledgedItem D) → D
  metal_fine_weight purities acc [] = acc
  metal_fine_weight purities acc (i ∷ is) = elim (find i.purity_code purities) [
    | none ↦ metal_fine_weight purities acc is
    | some f ↦ metal_fine_weight purities (plus acc (calculate_fine_weight i.net_weight f)) is
  ]

  abbrev pub add_metal : D → D → BusinessRules D → CurrentValuation D → CurrentValuation D
  add_metal fine rate rules acc =
      let metal_value = calculate_metal_value fine rate in
      let eligible = calculate_eligible_value metal_value rules.eligibility_percent in
      record {
        total_fine_weight = plus acc.total_fine_weight fine;
        total_metal_value = plus acc.total_metal_value metal_value;
        current_eligible_value = plus acc.current_eligible_value eligible;
        current_max_loan_amount =
            plus acc.current_max_loan_amount
              (apply_margin eligible (resolve_margin eligible rules) rules);
      }

  -- One round of the loop, for a metal and a rate that are there.
  unfoldable pub value_metal :
      Store D
      → ℕ
      → List (PledgedItem D)
      → ℕ
      → Metal D
      → MetalRate D
      → CurrentValuation D
      → Result (CurrentValuation D)
  value_metal s tenant items code metal rate acc = do
    rules ← get_active_rules s.rule_sets tenant code
    let mine = filter (λ i. i.metal_code == code) items
    ok (
        add_metal (metal_fine_weight (fine_factors metal.purities) (of_ℕ 0) mine) rate.rate_per_gram
          rules acc)

  -- A metal that is not configured, or has no rate, is passed over.
  unfoldable pub value_metals :
      Store D → ℕ → List (PledgedItem D) → List ℕ → CurrentValuation D → Result (CurrentValuation D)
  value_metals s tenant items [] acc = ok acc
  value_metals s tenant items (code ∷ codes) acc =
      elim (find_first (is_metal tenant code) s.metals) [
        | none ↦ value_metals s tenant items codes acc
        | some (id, metal) ↦ elim (current_rate s tenant id) [
          | none ↦ value_metals s tenant items codes acc
          | some (_, rate) ↦ do
            acc' ← value_metal s tenant items code metal rate acc
            value_metals s tenant items codes acc'
        ]
      ]

  unfoldable pub compute_current_valuation :
      Store D → ℕ → List (PledgedItem D) → Result (CurrentValuation D)
  compute_current_valuation s tenant items =
      value_metals s tenant items (distinct (map (λ i. i.metal_code) items)) (record {
        total_fine_weight = of_ℕ 0;
        total_metal_value = of_ℕ 0;
        current_eligible_value = of_ℕ 0;
        current_max_loan_amount = of_ℕ 0;
      })

  -- The checks of `topUp` on the transaction and the request, with its valuation and date.
  unfoldable pub check_top_up :
      Instant
      → Store D
      → Context
      → ℕ
      → CreateTopUp D
      → Result (GirviTransaction D × ValuationSnapshot D × Instant)
  check_top_up now s ctx id dto = do
    row ← or_throw (find_where id (of_tenant ctx.tenant_id) s.transactions) transaction_not_found
    valuation ← or_throw row.valuation transaction_not_found
    throw_if (not (is_open row.status)) status_not_toppable
    throw_if (less_than_or_equal_to dto.amount (of_ℕ 0)) top_up_not_positive
    date ← resolve_date dto.top_up_date now
    throw_if (ltb now date) date_in_future
    throw_if (ltb date row.pledge_date) date_before_pledge
    ok (row, valuation, date)

  -- The principal issued before, and the new top-up.
  abbrev pub new_total_principal : GirviTransaction D → ValuationSnapshot D → D → D
  new_total_principal t v amount =
      plus (plus v.actual_loan_amount (sum_from (of_ℕ 0) (map (λ u. u.amount) t.top_ups))) amount

module _ {D : Type 0} ⦃d : Decimal D⦄ ⦃col : Columns D⦄ where
  open col use {money}

  abbrev pub add_top_up : TopUp D → ℕ → GirviTransaction D → GirviTransaction D
  add_top_up u user t = record t { top_ups = t.top_ups ++ u ∷ []; updated_by = some user }

  abbrev pub top_up_entry : Instant → Context → GirviTransaction D → D → LedgerEntry D
  top_up_entry now ctx t amount = record {
    tenant = ctx.tenant_id;
    branch = t.branch;
    entry_type = loan_top_up;
    direction = outward;
    amount = money amount;
    account = Mode.cash;
    payment_id = none;
    created_by = ctx.user_id;
    created_at = now;
  }

  unfoldable pub top_up :
      Instant → Store D → Context → ℕ → CreateTopUp D → Result (TopUp D × Store D)
  top_up now s ctx id dto = do
    checked ← check_top_up now s ctx id dto
    current ← compute_current_valuation s ctx.tenant_id checked.0.items
    throw_if
        (greater_than (new_total_principal checked.0 checked.1 dto.amount)
          current.current_max_loan_amount)
        loan_exceeds_maximum
    let added : TopUp D = record {
      amount = money dto.amount;
      top_up_date = checked.2;
      created_by = ctx.user_id;
    }
    let entry : AuditEntry = record {
      tenant = ctx.tenant_id;
      actor = some ctx.user_id;
      action = girvi_topup;
      entity_id = id;
    }
    ok (
      added,
      record s {
        transactions = update id (add_top_up added ctx.user_id) s.transactions;
        ledger = top_up_entry now ctx checked.0 dto.amount ∷ s.ledger;
        audit = entry ∷ s.audit;
      },
    )

module _ {D : Type 0} where
  abbrev pub move_pledge : Instant → ℕ → GirviTransaction D → GirviTransaction D
  move_pledge new user t = record t {
    pledge_date = new;
    due_date = shifted t.pledge_date new t.due_date;
    updated_by = some user;
  }

  -- The date is required, so one that is left out is not a date.
  unfoldable pub update_pledge_date :
      Instant → Store D → Context → ℕ → DateInput → Result (GirviTransaction D × Store D)
  update_pledge_date now s ctx id date = do
    row ← or_throw (find_where id (of_tenant ctx.tenant_id) s.transactions) transaction_not_found
    new ← required_date date
    throw_if (ltb now new) date_in_future
    let entry : AuditEntry = record {
      tenant = ctx.tenant_id;
      actor = some ctx.user_id;
      action = girvi_pledge_date_update;
      entity_id = id;
    }
    let moved = record s {
      transactions = update id (move_pledge new ctx.user_id) s.transactions;
      audit = entry ∷ s.audit;
    }
    if row.pledge_date == new then ok (row, s) else ok (move_pledge new ctx.user_id row, moved)
