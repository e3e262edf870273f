-- ===== src/Girvi/Creation.antt =====
-- `create` of src/modules/girvi/girvi.service.ts.
use girvi_ghata_backend.Base.{ℕ, none, some, [], ◌∷◌, map, ltb, distinct}
use girvi_ghata_backend.Decimal.{Decimal, greater_than, less_than_or_equal_to}
use girvi_ghata_backend.Calendar.{Instant, Calendar}
use girvi_ghata_backend.Result.{
  Result, ok, ◌>>=◌, ◌>>◌, throw_if, or_throw, customer_not_found, metal_not_configured,
  loan_exceeds_maximum, loan_not_positive, date_in_future,
}
use girvi_ghata_backend.Table.{find, find_where, create}
use girvi_ghata_backend.Store.{
  Store, Columns, Context, GirviTransaction, GirviStatus, ValuationSnapshot, LedgerEntry,
  AuditEntry, DocumentNumber, Mode, girvi_number, loan_disbursement, outward, girvi_create,
}
use girvi_ghata_backend.Numbering.{next}
use girvi_ghata_backend.Payments.{resolve_date}
use girvi_ghata_backend.Girvi.{
  CreateGirvi, MetalConfig, Combined, due_date_of, primary_metal, is_customer, load_metals,
  group_items, percent_or, combine, nothing_combined, pledged,
}

-- What the checks before the transaction have found out.
pub record Approved (D : Type 0) : Type 0 where
  pub pledge_date : Instant
  pub primary : MetalConfig D
  pub eligibility_percent : D
  pub interest_percent : D
  pub combined : Combined D

module _ {D : Type 0} ⦃d : Decimal D⦄ where
  open d use {of_ℕ}

  -- The checks of the customer and the date.
  unfoldable pub check_customer : Instant → Store D → Context → CreateGirvi D → Result Instant
  check_customer now s ctx dto = do
    customer ←
        or_throw (find_where dto.customer_id (is_customer ctx.tenant_id) s.customers)
          customer_not_found
    date ← resolve_date dto.pledge_date now
    throw_if (ltb now date) date_in_future
    ok date

  -- The checks of the amount and of the interest rate, with the rate that is locked in.
  unfoldable pub check_loan : CreateGirvi D → Combined D → D → Result D
  check_loan dto combined default = do
    throw_if (greater_than dto.requested_loan_amount combined.max_loan) loan_exceeds_maximum
    throw_if (less_than_or_equal_to dto.requested_loan_amount (of_ℕ 0)) loan_not_positive
    percent_or dto.interest_percent default

  -- Everything that `create` does before it opens the transaction.
  unfoldable pub approve : Instant → Store D → Context → CreateGirvi D → Result (Approved D)
  approve now s ctx dto = do
    date ← check_customer now s ctx dto
    let codes = distinct (map (λ i. i.metal_code) dto.items)
    configs ← load_metals s ctx.tenant_id codes []
    items ← group_items configs dto.items []
    primary ← or_throw (find (primary_metal codes) configs) metal_not_configured
    eligibility ← percent_or dto.eligibility_percent primary.rules.eligibility_percent
    combined ← combine configs items eligibility codes nothing_combined
    interest ← check_loan dto combined primary.rules.interest_percent
    ok (record {
      pledge_date = date;
      primary = primary;
      eligibility_percent = eligibility;
      interest_percent = interest;
      combined = combined;
    })

module _ {D : Type 0} ⦃d : Decimal D⦄ ⦃col : Columns D⦄ where
  open col use {money}

  abbrev pub snapshot_of : CreateGirvi D → Approved D → ValuationSnapshot D
  snapshot_of dto a = record {
    rule_set_id = a.primary.rules.rule_set_id;
    metal_rate_id = a.primary.rate.rate_id;
    total_fine_weight = a.combined.fine_weight;
    total_metal_value = money a.combined.metal_value;
    eligibility_percent = a.eligibility_percent;
    eligible_value = money a.combined.eligible_value;
    margin_applied = money a.combined.margin;
    max_loan_amount = money a.combined.max_loan;
    actual_loan_amount = money dto.requested_loan_amount;
    interest_percent = a.interest_percent;
  }

  abbrev pub new_transaction :
      Context → CreateGirvi D → Approved D → DocumentNumber → GirviTransaction D
  new_transaction ctx dto a number = record {
    tenant = ctx.tenant_id;
    branch = dto.branch_id;
    girvi_number = number;
    customer = dto.customer_id;
    status = GirviStatus.active;
    pledge_date = a.pledge_date;
    due_date = due_date_of a.pledge_date a.primary.rules.loan_term_days;
    created_by = ctx.user_id;
    updated_by = none;
    items = map (λ i. pledged i) dto.items;
    valuation = some (snapshot_of dto a);
    top_ups = [];
  }

  abbrev pub disbursement : Instant → Context → CreateGirvi D → LedgerEntry D
  disbursement now ctx dto = record {
    tenant = ctx.tenant_id;
    branch = dto.branch_id;
    entry_type = loan_disbursement;
    direction = outward;
    amount = money dto.requested_loan_amount;
    account = Mode.cash;
    payment_id = none;
    created_by = ctx.user_id;
    created_at = now;
  }

  -- `create`; `id` is the one that the database draws for the transaction.
  unfoldable pub create_girvi :
      Calendar
      → Instant
      → Store D
      → Context
      → CreateGirvi D
      → ℕ
      → Result (GirviTransaction D × Store D)
  create_girvi cal now s ctx dto id = do
    a ← approve now s ctx dto
    numbered ← next cal now s.sequences ctx.tenant_id girvi_number
    let created = new_transaction ctx dto a numbered.0
    let entry : AuditEntry = record {
      tenant = ctx.tenant_id;
      actor = some ctx.user_id;
      action = girvi_create;
      entity_id = id;
    }
    ok (
      created,
      record s {
        sequences = numbered.1;
        transactions = create id created s.transactions;
        ledger = disbursement now ctx dto ∷ s.ledger;
        audit = entry ∷ s.audit;
      },
    )
