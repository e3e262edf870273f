-- ===== src/Reports/Statement.antt =====
-- `customerStatement` of src/modules/reports/reports.service.ts. The orders of the two queries are
-- the database's: `by_pledge` sorts transactions by pledge date, `by_payment` payments by theirs.
pub mod Balance
use girvi_ghata_backend.Base.{
  ℕ, Bool, true, false, ◌&&◌, Option, none, some, List, [], ◌∷◌, ◌++◌, map, ◌==◌, filter,
}
use girvi_ghata_backend.Decimal.{Decimal, sum_from}
use girvi_ghata_backend.Calendar.{Instant}
use girvi_ghata_backend.Result.{Result, ok, or_throw, ◌>>=◌, customer_not_found}
use girvi_ghata_backend.Types.{Category}
use girvi_ghata_backend.Table.{Table, find_where, select}
use girvi_ghata_backend.Store.{
  Store, Context, Customer, DocumentNumber, GirviTransaction, Payment, AllocationRow,
  ValuationSnapshot,
}
use girvi_ghata_backend.Outstanding.{counts_for}

-- `Girvi Created (...)` and `Payment (...)`
pub data Description : Type 0 where
  girvi_created payment_made : DocumentNumber → Description

pub record StatementRow (D : Type 0) : Type 0 where
  pub date : Instant
  pub description : Description
  pub principal : D
  pub interest : D
  pub charges : D
  pub payment : D
  pub balance : D

pub record CustomerStatement (D : Type 0) : Type 0 where
  pub full_name : ℕ
  pub customer_code : DocumentNumber
  pub rows : List (StatementRow D)

abbrev pub is_interest : Category → Bool
is_interest Category.interest = true
is_interest _ = false

abbrev pub is_principal : Category → Bool
is_principal Category.principal = true
is_principal _ = false

-- A transaction with its payments that stand.
pub record WithPayments (D : Type 0) : Type 0 where
  pub transaction : GirviTransaction D
  pub payments : List (Payment D)

module _ {D : Type 0} where
  abbrev pub with_payments :
      (Table (Payment D) → List (Payment D))
      → Table (Payment D)
      → Table (GirviTransaction D)
      → List (WithPayments D)
  with_payments by_payment payments [] = []
  with_payments by_payment payments ((id, t) ∷ ts) =
      record { transaction = t; payments = by_payment (select (counts_for id) payments) }
      ∷ with_payments by_payment payments ts

module _ {D : Type 0} ⦃d : Decimal D⦄ where
  open d use {of_ℕ, plus, minus}

  -- What a payment's allocations of a category come to.
  abbrev pub paid_for : (Category → Bool) → Payment D → D
  paid_for is_category p =
      sum_from (of_ℕ 0) (map (λ a. a.amount) (filter (λ a. is_category a.category) p.allocations))

  abbrev pub payment_row : D → Payment D → StatementRow D
  payment_row balance p = record {
    date = p.payment_date;
    description = payment_made p.receipt_number;
    principal = of_ℕ 0;
    interest = paid_for is_interest p;
    charges = of_ℕ 0;
    payment = p.amount;
    balance = balance;
  }

  -- The inner loop, from the running balance: its rows, and the balance that it leaves.
  unfoldable pub payment_rows : D → List (Payment D) → List (StatementRow D)
  payment_rows balance [] = []
  payment_rows balance (p ∷ ps) =
      let left = minus balance (paid_for is_principal p) in
      payment_row left p ∷ payment_rows left ps

  unfoldable pub balance_after : D → List (Payment D) → D
  balance_after balance [] = balance
  balance_after balance (p ∷ ps) = balance_after (minus balance (paid_for is_principal p)) ps

  abbrev pub loan_row : D → D → GirviTransaction D → StatementRow D
  loan_row balance loan t = record {
    date = t.pledge_date;
    description = girvi_created t.girvi_number;
    principal = loan;
    interest = of_ℕ 0;
    charges = of_ℕ 0;
    payment = of_ℕ 0;
    balance = balance;
  }

  -- The outer loop.
  unfoldable pub statement_rows : D → List (WithPayments D) → List (StatementRow D)
  statement_rows balance [] = []
  statement_rows balance (w ∷ ws) = elim w.transaction.valuation [
    | none ↦ statement_rows balance ws
    | some v ↦
        let lent = plus balance v.actual_loan_amount in
        loan_row lent v.actual_loan_amount w.transaction
        ∷ (payment_rows lent w.payments ++ statement_rows (balance_after lent w.payments) ws)
  ]

  unfoldable pub customer_statement :
      (Table (GirviTransaction D) → Table (GirviTransaction D))
      → (Table (Payment D) → List (Payment D))
      → Store D
      → Context
      → ℕ
      → Result (CustomerStatement D)
  customer_statement by_pledge by_payment s ctx id = do
    customer ←
        or_throw (find_where id (λ c. c.tenant == ctx.tenant_id) s.customers) customer_not_found
    let transactions =
        by_pledge (select (λ t. t.tenant == ctx.tenant_id && t.customer == id) s.transactions)
    ok (record {
      full_name = customer.full_name;
      customer_code = customer.customer_code;
      rows = statement_rows (of_ℕ 0) (with_payments by_payment s.payments transactions);
    })
