-- ===== src/Reports/Statement/Balance.antt =====
-- The balance with which a customer's statement ends.
use mathlib.Core.List.{Perm, foldr}
use mathlib.Core.List.Perm
use girvi_ghata_backend.Base.{
  ℕ, ◌≡◌, ◌∙◌, inl, inr, refl, sym, ap, none, some, List, [], ◌∷◌, ◌++◌, Option-cases, ◌==◌, ◌&&◌,
  if◌then◌else◌, map, filter, Bool-cases,
}
use girvi_ghata_backend.Base.Int.{
  ℤ, pos, ◌+ℤ◌, ◌-ℤ◌, +ℤ_zero, zero_+ℤ, -ℤ_zero, sub_sub, add_sub_assoc, +ℤ_assoc, +ℤ_swap, ℤ-IsSet,
}
use girvi_ghata_backend.Decimal.{Decimal, IsExact, sum_from}
use girvi_ghata_backend.Result.{ok, or_throw-found, ok-injective, customer_not_found}
use girvi_ghata_backend.Table.{Table, find_where, select}
use girvi_ghata_backend.Store.{Store, Context, GirviTransaction, Payment, AllocationRow}
use girvi_ghata_backend.Types.{Category}
use girvi_ghata_backend.Outstanding.{counts_for}
use girvi_ghata_backend.Reports.Statement.{
  StatementRow, CustomerStatement, WithPayments, with_payments, is_principal, paid_for,
  payment_rows, balance_after, statement_rows, customer_statement,
}

module _ {D : Type 0} where
  -- The balance of the last row, or the one that was there before.
  abbrev pub last_balance : D → List (StatementRow D) → D
  last_balance balance [] = balance
  last_balance balance (r ∷ rs) = last_balance r.balance rs

  last_balance-append :
      (b : D) (xs ys : List (StatementRow D))
      → last_balance b (xs ++ ys) ≡ last_balance (last_balance b xs) ys
  last_balance-append b [] ys = refl
  last_balance-append b (x ∷ xs) ys = last_balance-append x.balance xs ys

module _ {D : Type 0} ⦃d : Decimal D⦄ (laws : IsExact D) where
  open d use {of_ℕ, plus, minus}
  open laws use {value, zero_value, plus_value, minus_value}

  -- The principal that payments have paid, and what is left of the loans with a valuation.
  abbrev pub principal_paid : List (Payment D) → ℤ
  principal_paid [] = pos 0
  principal_paid (p ∷ ps) = value (paid_for is_principal p) +ℤ principal_paid ps

  abbrev pub left_of : WithPayments D → ℤ
  left_of w = elim w.transaction.valuation [
    | none ↦ pos 0
    | some v ↦ value v.actual_loan_amount -ℤ principal_paid w.payments
  ]

  abbrev pub left_in_all : List (WithPayments D) → ℤ
  left_in_all [] = pos 0
  left_in_all (w ∷ ws) = left_of w +ℤ left_in_all ws

  payment_rows-last :
      (b : D) (ps : List (Payment D)) → last_balance b (payment_rows b ps) ≡ balance_after b ps
  unfolding payment_rows balance_after
  payment_rows-last b [] = refl
  payment_rows-last b (p ∷ ps) = payment_rows-last (minus b (paid_for is_principal p)) ps

  balance_after_lem :
      (b : D) (ps : List (Payment D)) → value (balance_after b ps) ≡ value b -ℤ principal_paid ps
  unfolding balance_after
  balance_after_lem b [] = sym (-ℤ_zero (value b))
  balance_after_lem b (p ∷ ps) =
      let paid = paid_for is_principal p in
      rw (
        balance_after_lem (minus b paid) ps,
        minus_value,
        sub_sub (value b) (value paid) (principal_paid ps),
      )

  statement_rows-last :
      (b : D) (ws : List (WithPayments D))
      → value (last_balance b (statement_rows b ws)) ≡ value b +ℤ left_in_all ws
  unfolding statement_rows
  statement_rows-last b [] = sym (+ℤ_zero (value b))
  statement_rows-last b (w ∷ ws) = elim (Option-cases w.transaction.valuation) [
    | inl e ↦ rw (e, statement_rows-last b ws, zero_+ℤ (left_in_all ws))
    | inr (v, e) ↦
        let lent = plus b v.actual_loan_amount in
        let left = balance_after lent w.payments in
        rw (
          e,
          last_balance-append lent (payment_rows lent w.payments) (statement_rows left ws),
          payment_rows-last lent w.payments,
          statement_rows-last left ws,
          balance_after_lem lent w.payments,
          plus_value,
          add_sub_assoc (value b) (value v.actual_loan_amount) (principal_paid w.payments),
          +ℤ_assoc (value b) (value v.actual_loan_amount -ℤ principal_paid w.payments)
              (left_in_all ws),
        )
  ]

  -- What an allocation pays of the principal.
  abbrev pub principal_part : Category → D → ℤ
  principal_part Category.principal amount = value amount
  principal_part _ amount = pos 0

  abbrev pub principal_in : List (AllocationRow D) → ℤ
  principal_in [] = pos 0
  principal_in (a ∷ rows) = principal_part a.category a.amount +ℤ principal_in rows

  -- The principal that the payments of a transaction have paid, but for those that were reversed.
  abbrev pub paid_on : ℕ → Table (Payment D) → ℤ
  paid_on id [] = pos 0
  paid_on id ((_, p) ∷ ps) =
      (if p.is_reversed
        then pos 0
        else if p.girvi_transaction_id == id
        then principal_in p.allocations
        else pos 0)
      +ℤ paid_on id ps

  -- The loans that have a valuation less the principal paid on them.
  abbrev pub principal_left : Table (Payment D) → Table (GirviTransaction D) → ℤ
  principal_left payments [] = pos 0
  principal_left payments ((id, t) ∷ ts) =
      elim t.valuation [ none ↦ pos 0 | some v ↦ value v.actual_loan_amount -ℤ paid_on id payments ]
      +ℤ principal_left payments ts

  -- `ORDER BY` gives the rows that were selected, in some order.
  abbrev pub KeepsRows : (Table (Payment D) → List (Payment D)) → Type 0
  KeepsRows by_payment = (rows : Table (Payment D)) → Perm (by_payment rows) (map (λ r. r.1) rows)

  principal_part_lem :
      (c : Category) (x : D) → principal_part c x ≡ (if is_principal c then value x else pos 0)
  principal_part_lem Category.principal x = refl
  principal_part_lem Category.interest x = refl
  principal_part_lem Category.penalty x = refl
  principal_part_lem Category.charges x = refl

  sum_from-principal :
      (acc : D) (rows : List (AllocationRow D))
      → value (sum_from acc (map (λ a. a.amount) (filter (λ a. is_principal a.category) rows)))
        ≡ value acc +ℤ principal_in rows
  sum_from-principal acc [] = sym (+ℤ_zero (value acc))
  sum_from-principal acc (a ∷ rows) = elim (Bool-cases (is_principal a.category)) [
    | inl e ↦ rw (
      e,
      principal_part_lem a.category a.amount,
      e,
      sum_from-principal (plus acc a.amount) rows,
      plus_value,
      +ℤ_assoc (value acc) (value a.amount) (principal_in rows),
    )
    | inr e ↦ rw (
      e,
      principal_part_lem a.category a.amount,
      e,
      sum_from-principal acc rows,
      zero_+ℤ (principal_in rows),
    )
  ]

  paid_for_lem : (p : Payment D) → value (paid_for is_principal p) ≡ principal_in p.allocations
  paid_for_lem p =
      rw (
        sum_from-principal (of_ℕ 0) p.allocations,
        zero_value,
        zero_+ℤ (principal_in p.allocations),
      )

  add_principal : Payment D → ℤ → ℤ
  add_principal p n = value (paid_for is_principal p) +ℤ n

  principal_paid-foldr :
      (ps : List (Payment D)) → principal_paid ps ≡ foldr add_principal (pos 0) ps
  unfolding add_principal
  principal_paid-foldr [] = refl
  principal_paid-foldr (p ∷ ps) = rw (principal_paid-foldr ps)

  principal_paid-Perm :
      {ps qs : List (Payment D)} → Perm ps qs → principal_paid ps ≡ principal_paid qs
  unfolding add_principal
  principal_paid-Perm {ps} {qs} h =
      let swap = λ (p q : Payment D) (n : ℤ).
        +ℤ_swap (value (paid_for is_principal p)) (value (paid_for is_principal q)) n in
      principal_paid-foldr ps
      ∙ (Perm.foldr-eq ℤ-IsSet add_principal swap h (pos 0) ∙ sym (principal_paid-foldr qs))

  principal_paid-select :
      (id : ℕ) (payments : Table (Payment D))
      → principal_paid (map (λ r. r.1) (select (counts_for id) payments)) ≡ paid_on id payments
  unfolding select
  principal_paid-select id [] = refl
  principal_paid-select id ((k, p) ∷ ps) =
      let ih = principal_paid-select id ps in
      elim (Bool-cases (p.girvi_transaction_id == id)) [
        | inl e ↦ elim (Bool-cases p.is_reversed) [
          | inl r ↦ rw (e, r, ih, zero_+ℤ (paid_on id ps))
          | inr r ↦ rw (e, r, ih, paid_for_lem p)
        ]
        | inr e ↦ elim (Bool-cases p.is_reversed) [
          | inl r ↦ rw (e, r, ih, zero_+ℤ (paid_on id ps))
          | inr r ↦ rw (e, r, ih, zero_+ℤ (paid_on id ps))
        ]
      ]

  left_in_all_lem :
      (by_payment : Table (Payment D) → List (Payment D)) (payments : Table (Payment D))
      → KeepsRows by_payment
      → (ts : Table (GirviTransaction D))
      → left_in_all (with_payments by_payment payments ts) ≡ principal_left payments ts
  left_in_all_lem by_payment payments keeps [] = refl
  left_in_all_lem by_payment payments keeps ((id, t) ∷ ts) =
      let ih = left_in_all_lem by_payment payments keeps ts in
      let paid =
        principal_paid-Perm (keeps (select (counts_for id) payments))
        ∙ principal_paid-select id payments in
      elim (Option-cases t.valuation) [ inl e ↦ rw (e, ih) | inr (v, e) ↦ rw (e, ih, paid) ]

  -- The statement of a customer of the tenant ends with the sum of the loans with which its
  -- transactions were created less the principal that payments which are not reversed paid on them,
  -- in whatever order the database gives the payments: top-ups are not in it.
  pub customer_statement-balance :
      (by_pledge : Table (GirviTransaction D) → Table (GirviTransaction D))
      (by_payment : Table (Payment D) → List (Payment D)) (s : Store D) (ctx : Context) (id : ℕ)
      {statement : CustomerStatement D}
      → KeepsRows by_payment
      → customer_statement by_pledge by_payment s ctx id ≡ ok statement
      → value (last_balance (of_ℕ 0) statement.rows)
        ≡ principal_left s.payments
            (by_pledge (select (λ t. t.tenant == ctx.tenant_id && t.customer == id) s.transactions))
  unfolding customer_statement
  customer_statement-balance by_pledge by_payment s ctx id keeps h0 =
      let (customer, found, h) =
        or_throw-found (find_where id (λ c. c.tenant == ctx.tenant_id) s.customers)
          customer_not_found _ h0 in
      let loans =
        by_pledge (select (λ t. t.tenant == ctx.tenant_id && t.customer == id) s.transactions) in
      let ts = with_payments by_payment s.payments loans in
      let rows = ap (λ (q : CustomerStatement D). q.rows) (ok-injective h) in
      ap (λ rs. value (last_balance (of_ℕ 0) rs)) (sym rows)
      ∙ (statement_rows-last (of_ℕ 0) ts
          ∙ (rw zero_value (zero_+ℤ (left_in_all ts))
              ∙ left_in_all_lem by_payment s.payments keeps loans))
