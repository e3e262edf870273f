-- ===== src/Payments.antt =====
-- src/modules/payments/payments.service.ts
pub mod Checks
pub mod Receipt
pub mod Reversal
use girvi_ghata_backend.Base.{
  ℕ, Bool, true, false, not, Option, none, some, List, [], ◌∷◌, map, filter, ltb, ◌==◌,
  if◌then◌else◌,
}
use girvi_ghata_backend.Decimal.{Decimal, greater_than, less_than_or_equal_to}
use girvi_ghata_backend.Calendar.{Instant, Calendar}
use girvi_ghata_backend.Result.{
  Result, ok, err, ◌>>=◌, ◌>>◌, throw_if, or_throw, transaction_not_found, payment_not_positive,
  negative_discount, status_not_payable, invalid_date, date_in_future, date_before_pledge,
  discount_exceeds_interest, payment_exceeds_outstanding, payment_not_found, already_reversed,
}
use girvi_ghata_backend.Types.{
  BusinessRules, OutstandingBreakdown, PaymentAllocationResult, Category,
}
use girvi_ghata_backend.Table.{find, find_where, update, create}
use girvi_ghata_backend.Store.{
  Store, Columns, Context, GirviTransaction, GirviStatus, Payment, AllocationRow, LedgerEntry,
  AuditEntry, DocumentNumber, Mode, DateInput, payment_received, payment_reversal, inward, outward,
  payment_number, payment_receive, payment_cancel,
}
use girvi_ghata_backend.Numbering.{next}
use girvi_ghata_backend.Rules.{get_active_rules}
use girvi_ghata_backend.Outstanding.{get_outstanding, of_tenant, first_metal}
use girvi_ghata_backend.Engine.{override, calculate_outstanding, calculate_payment_allocation}

-- `CreatePaymentDto`, its amounts read by `new Decimal`
pub record CreatePayment (D : Type 0) : Type 0 where
  pub girvi_transaction_id : ℕ
  pub amount : D
  pub discount_amount : Option D
  pub mode : Mode
  pub payment_date : DateInput

-- What the checks before the transaction have found out.
pub record Prepared (D : Type 0) : Type 0 where
  pub transaction : GirviTransaction D
  pub date : Instant
  pub discount : D
  pub adjusted : OutstandingBreakdown D
  pub allocation : PaymentAllocationResult D

-- ['ACTIVE', 'PARTIALLY_PAID', 'OVERDUE', 'RENEWED']
abbrev pub is_open : GirviStatus → Bool
is_open GirviStatus.active = true
is_open GirviStatus.partially_paid = true
is_open GirviStatus.overdue = true
is_open GirviStatus.renewed = true
is_open _ = false

abbrev pub resolve_date : DateInput → Instant → Result Instant
resolve_date DateInput.omitted now = ok now
resolve_date DateInput.invalid now = err invalid_date
resolve_date (DateInput.at t) now = ok t

module _ {D : Type 0} where
  -- `data: { status, updatedBy }`
  abbrev pub set_status : GirviStatus → ℕ → GirviTransaction D → GirviTransaction D
  set_status status user t = record t { status = status; updated_by = some user }

  abbrev pub set_reversed : ℕ → Payment D → Payment D
  set_reversed reason p = record p { is_reversed = true; reversal_reason = some reason }

  abbrev pub payment_of_tenant : ℕ → Payment D → Bool
  payment_of_tenant tenant p = p.tenant == tenant

  abbrev pub metals_of : GirviTransaction D → List ℕ
  metals_of t = map (λ i. i.metal_code) t.items

module _ {D : Type 0} ⦃d : Decimal D⦄ where
  open d use {of_ℕ, minus, is_negative}

  abbrev pub is_positive_row : AllocationRow D → Bool
  is_positive_row a = greater_than a.amount (of_ℕ 0)

  abbrev pub row_of : Category → D → AllocationRow D
  row_of c a = record { category = c; amount = a }

  -- The checks of `receive` on the request and the transaction, with the payment's date.
  unfoldable pub check_request :
      Instant → Store D → Context → CreatePayment D → Result (GirviTransaction D × Instant)
  check_request now s ctx dto = do
    throw_if (less_than_or_equal_to dto.amount (of_ℕ 0)) payment_not_positive
    throw_if (is_negative (override dto.discount_amount (of_ℕ 0))) negative_discount
    row ←
        or_throw (find_where dto.girvi_transaction_id (of_tenant ctx.tenant_id) s.transactions)
          transaction_not_found
    throw_if (not (is_open row.status)) status_not_payable
    date ← resolve_date dto.payment_date now
    throw_if (ltb now date) date_in_future
    throw_if (ltb date row.pledge_date) date_before_pledge
    ok (row, date)

  abbrev pub discounted : OutstandingBreakdown D → D → OutstandingBreakdown D
  discounted b discount = record b { interest_accrued = minus b.interest_accrued discount }

  -- Its checks of the amounts against what is outstanding, and the allocation.
  unfoldable pub check_amounts :
      OutstandingBreakdown D
      → Result (BusinessRules D)
      → D
      → D
      → Result (OutstandingBreakdown D × PaymentAllocationResult D)
  check_amounts b active_rules amount discount = do
    throw_if (greater_than discount b.interest_accrued) discount_exceeds_interest
    let adjusted = discounted b discount
    throw_if (greater_than amount (calculate_outstanding adjusted)) payment_exceeds_outstanding
    rules ← active_rules
    ok (adjusted, calculate_payment_allocation amount adjusted rules)

  -- Everything that `receive` does before it opens the transaction. The several readings of the
  -- clock are one.
  unfoldable pub prepare :
      Calendar → Instant → Store D → Context → CreatePayment D → Result (Prepared D)
  prepare cal now s ctx dto = do
    request ← check_request now s ctx dto
    b ← get_outstanding cal now s ctx.tenant_id dto.girvi_transaction_id
    let discount = override dto.discount_amount (of_ℕ 0)
    let active_rules =
        get_active_rules s.rule_sets ctx.tenant_id (first_metal (metals_of request.0))
    amounts ← check_amounts b active_rules dto.amount discount
    ok (record {
      transaction = request.0;
      date = request.1;
      discount = discount;
      adjusted = amounts.0;
      allocation = amounts.1;
    })

  abbrev pub status_after : PaymentAllocationResult D → GirviStatus
  status_after a =
      if less_than_or_equal_to a.remaining_outstanding (of_ℕ 0)
      then GirviStatus.closed
      else GirviStatus.partially_paid

  -- The breakdown and its total.
  unfoldable pub get_outstanding_summary :
      Calendar → Instant → Store D → Context → ℕ → Result (OutstandingBreakdown D × D)
  get_outstanding_summary cal now s ctx id = do
    b ← get_outstanding cal now s ctx.tenant_id id
    ok (b, calculate_outstanding b)

module _ {D : Type 0} where
  abbrev pub reversal_entry : Instant → Context → GirviTransaction D → Payment D → ℕ → LedgerEntry D
  reversal_entry now ctx t p id = record {
    tenant = ctx.tenant_id;
    branch = t.branch;
    entry_type = payment_reversal;
    direction = outward;
    amount = p.amount;
    account = p.mode;
    payment_id = some id;
    created_by = ctx.user_id;
    created_at = now;
  }

  -- The payment's transaction is there, since its id is a foreign key.
  unfoldable pub reverse : Instant → Store D → Context → ℕ → ℕ → Result (Payment D × Store D)
  reverse now s ctx id reason = do
    p ← or_throw (find_where id (payment_of_tenant ctx.tenant_id) s.payments) payment_not_found
    throw_if p.is_reversed already_reversed
    t ← or_throw (find p.girvi_transaction_id s.transactions) transaction_not_found
    let entry : AuditEntry = record {
      tenant = ctx.tenant_id;
      actor = some ctx.user_id;
      action = payment_cancel;
      entity_id = id;
    }
    ok (
      set_reversed reason p,
      record s {
        payments = update id (set_reversed reason) s.payments;
        ledger = reversal_entry now ctx t p id ∷ s.ledger;
        transactions =
            update p.girvi_transaction_id (set_status GirviStatus.active ctx.user_id)
              s.transactions;
        audit = entry ∷ s.audit;
      },
    )

module _ {D : Type 0} ⦃d : Decimal D⦄ ⦃col : Columns D⦄ where
  open col use {money}

  abbrev pub store_row : AllocationRow D → AllocationRow D
  store_row r = record r { amount = money r.amount }

  -- The rows with a positive amount, as the money column keeps them.
  unfoldable pub allocation_rows : PaymentAllocationResult D → List (AllocationRow D)
  allocation_rows a = map store_row (
      filter is_positive_row (
        row_of Category.penalty a.penalty
        ∷ row_of Category.charges a.charges
        ∷ row_of Category.interest a.interest
        ∷ row_of Category.principal a.principal
        ∷ []))

  abbrev pub new_payment : Context → CreatePayment D → Prepared D → DocumentNumber → Payment D
  new_payment ctx dto p number = record {
    tenant = ctx.tenant_id;
    girvi_transaction_id = dto.girvi_transaction_id;
    receipt_number = number;
    amount = money dto.amount;
    discount_amount = money p.discount;
    mode = dto.mode;
    payment_date = p.date;
    received_by = ctx.user_id;
    is_reversed = false;
    reversal_reason = none;
    allocations = allocation_rows p.allocation;
  }

  abbrev pub payment_entry : Instant → Context → CreatePayment D → Prepared D → ℕ → LedgerEntry D
  payment_entry now ctx dto p id = record {
    tenant = ctx.tenant_id;
    branch = p.transaction.branch;
    entry_type = payment_received;
    direction = inward;
    amount = money dto.amount;
    account = dto.mode;
    payment_id = some id;
    created_by = ctx.user_id;
    created_at = now;
  }

  -- The transaction; `id` is the one that the database draws for the payment.
  unfoldable pub record_payment :
      Calendar
      → Instant
      → Store D
      → Context
      → CreatePayment D
      → ℕ
      → Prepared D
      → Result (Payment D × Store D)
  record_payment cal now s ctx dto id p = do
    numbered ← next cal now s.sequences ctx.tenant_id payment_number
    let payment = new_payment ctx dto p numbered.0
    let entry : AuditEntry = record {
      tenant = ctx.tenant_id;
      actor = some ctx.user_id;
      action = payment_receive;
      entity_id = id;
    }
    ok (
      payment,
      record s {
        sequences = numbered.1;
        payments = create id payment s.payments;
        ledger = payment_entry now ctx dto p id ∷ s.ledger;
        transactions =
            update dto.girvi_transaction_id (set_status (status_after p.allocation) ctx.user_id)
              s.transactions;
        audit = entry ∷ s.audit;
      },
    )

  unfoldable pub receive :
      Calendar → Instant → Store D → Context → CreatePayment D → ℕ → Result (Payment D × Store D)
  receive cal now s ctx dto id = do
    p ← prepare cal now s ctx dto
    record_payment cal now s ctx dto id p
