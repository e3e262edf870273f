-- ===== src/Payments/Receipt.antt =====
-- `receive`: how much it takes, how it is shared out, and what it writes.
use mathlib.Core.Path.{subst}
use girvi_ghata_backend.Base.{
  ℕ, ◌≡◌, ◌≢◌, ◌↔◌, ◌⊎◌, inl, inr, ◌∙◌, refl, sym, ap, false, some, if◌then◌else◌, List, ◌∷◌, arith,
  Bool-cases,
}
use girvi_ghata_backend.Base.Int.{ℤ, pos, ◌≤ℤ◌, ◌<ℤ◌, ◌-ℤ◌, int_laws}
use girvi_ghata_backend.Decimal.{Decimal, IsExact, less_than_or_equal_to, minus_parts}
use girvi_ghata_backend.Calendar.{Instant, Calendar}
use girvi_ghata_backend.Result.{ok, >>=-eq-ok, ok-injective}
use girvi_ghata_backend.Types.{
  BusinessRules, OutstandingBreakdown, PaymentAllocationResult, Category,
}
use girvi_ghata_backend.Table.{
  find, find-update_self, find-update_ne, find-create_self, find-create_ne, keep_if-eq-some,
}
use girvi_ghata_backend.Store.{
  Store, Columns, Context, GirviTransaction, GirviStatus, Payment, payment_number, payment_received,
  inward,
}
use girvi_ghata_backend.Numbering.{next}
use girvi_ghata_backend.Rules.{get_active_rules}
use girvi_ghata_backend.Outstanding.{get_outstanding, first_metal, for_outstanding}
use girvi_ghata_backend.Engine.{override, calculate_outstanding, calculate_payment_allocation}
use girvi_ghata_backend.Engine.Allocation.{Distinct, DuesNonneg, allocated, IsWithin}
use girvi_ghata_backend.Engine.Waterfall.{Listed, IsPayable, IsWaterfall, payment_allocation_lem}
use girvi_ghata_backend.Outstanding.Breakdown.{breakdown_nonneg, breakdown_settled}
use girvi_ghata_backend.Outstanding.Lookup.{get_outstanding-eq-ok, outstanding_of-eq-ok}
use girvi_ghata_backend.Payments.{
  CreatePayment, Prepared, metals_of, prepare, record_payment, receive, status_after, discounted,
  set_status,
}
use girvi_ghata_backend.Payments.Checks.{prepare-IsPrepared}

module _ {D : Type 0} ⦃d : Decimal D⦄ (laws : IsExact D) where
  open d use {of_ℕ, minus}
  open laws use {value, zero_value, less_than_value}

  -- What `getOutstanding` returns is a breakdown of the transaction.
  outstanding_settled :
      (cal : Calendar) (now : Instant) (s : Store D) (tenant id : ℕ) {b : OutstandingBreakdown D}
      → get_outstanding cal now s tenant id ≡ ok b
      → DuesNonneg laws b
        × (value b.payments_applied_to_principal ≡ pos 0)
        × (value b.payments_applied_to_interest ≡ pos 0)
  outstanding_settled cal now s tenant id h =
      let (row, _, e) = get_outstanding-eq-ok cal now s tenant id h in
      let (rules, _, computed) = outstanding_of-eq-ok cal now s tenant id row e in
      let t = for_outstanding s.payments id row in
      let (principal, interest) = breakdown_settled laws cal now t rules computed in
      ((breakdown_nonneg laws cal now t rules computed).0, principal, interest)

  discounted-DuesNonneg :
      (b : OutstandingBreakdown D) (x : D)
      → DuesNonneg laws b
      → value x ≤ℤ value b.interest_accrued
      → DuesNonneg laws (discounted b x)
  discounted-DuesNonneg b x n h Category.interest =
      omega (arith, minus_parts laws b.interest_accrued x)
  discounted-DuesNonneg b x n h Category.penalty = n Category.penalty
  discounted-DuesNonneg b x n h Category.charges = n Category.charges
  discounted-DuesNonneg b x n h Category.principal = n Category.principal

  -- Each rule set of the tenant that is active lists every category once.
  abbrev pub OrdersComplete : Store D → ℕ → Type 0
  OrdersComplete s tenant =
      (metal : ℕ) (rules : BusinessRules D)
      → get_active_rules s.rule_sets tenant metal ≡ ok rules
      → Distinct rules.payment_allocation_order
        × ((c : Category) → Listed c rules.payment_allocation_order)

  -- How a payment is shared out: in full, each category within its due, an earlier category of the
  -- order first; what stays outstanding is the amount before, less the payment.
  abbrev pub IsShared :
      OutstandingBreakdown D → List Category → D → PaymentAllocationResult D → Type 0
  IsShared b order amount r =
      (allocated laws r ≡ value amount)
      × IsWithin laws b r
      × IsWaterfall laws b order r
      × (value r.remaining_outstanding ≡ value (calculate_outstanding b) -ℤ value amount)

  discounted-IsPayable :
      (b : OutstandingBreakdown D) (order : List Category) (amount discount : D)
      → DuesNonneg laws b
        × (value b.payments_applied_to_principal ≡ pos 0)
        × (value b.payments_applied_to_interest ≡ pos 0)
      → Distinct order × ((c : Category) → Listed c order)
      → value discount ≤ℤ value b.interest_accrued
      → pos 0 <ℤ value amount
      → value amount ≤ℤ value (calculate_outstanding (discounted b discount))
      → IsPayable laws amount (discounted b discount) order
  discounted-IsPayable b order amount discount (n, p, i) (once, all) le some' fits = record {
    distinct = once;
    listed = all;
    nonneg = discounted-DuesNonneg b discount n le;
    principal_settled = p;
    interest_settled = i;
    positive = omega arith;
    covered = fits;
  }

  shared :
      (b : OutstandingBreakdown D) (rules : BusinessRules D) (amount discount : D)
      → IsPayable laws amount (discounted b discount) rules.payment_allocation_order
      → IsShared
          (discounted b discount)
          rules.payment_allocation_order
          amount
          (calculate_payment_allocation amount (discounted b discount) rules)
  shared b rules amount discount h =
      payment_allocation_lem laws amount (discounted b discount) rules h

  module _ (cal : Calendar) (now : Instant) (s : Store D) (ctx : Context) (dto : CreatePayment D)
      {p : Prepared D} where
    -- When the checks of receive pass, the payment, after the discount on the interest, is shared
    -- out in full among penalty, charges, interest and principal by the order of the tenant's
    -- active rules for the metal of the loan's first item, where each active order lists every
    -- category once: no category gets more than its due, a later one gets something only when those
    -- before it are covered, and what stays outstanding is the amount before, less the payment.
    pub prepare_shares :
        OrdersComplete s ctx.tenant_id
        → prepare cal now s ctx dto ≡ ok p
        → (b : OutstandingBreakdown D) × (rules : BusinessRules D) × (get_outstanding cal now s
              ctx.tenant_id dto.girvi_transaction_id
            ≡ ok b)
          × (get_active_rules s.rule_sets ctx.tenant_id (first_metal (metals_of p.transaction))
              ≡ ok rules)
          × (p.adjusted ≡ discounted b p.discount)
          × IsShared p.adjusted rules.payment_allocation_order dto.amount p.allocation
    prepare_shares complete e =
        let h = prepare-IsPrepared laws cal now s ctx dto e in
        let a = h.amounts in
        let payable =
          discounted-IsPayable h.breakdown a.rules.payment_allocation_order dto.amount
            (override dto.discount_amount (of_ℕ 0))
            (outstanding_settled cal now s ctx.tenant_id dto.girvi_transaction_id h.computed)
            (complete _ a.rules a.active) a.discount_le h.request.positive a.amount_le in
        (
          h.breakdown,
          a.rules,
          h.computed,
          a.active,
          sym a.reduced ∙ ap (discounted h.breakdown) h.discount_given,
          subst (λ q. IsShared q a.rules.payment_allocation_order dto.amount p.allocation) a.reduced
              (subst
                (λ q.
                  IsShared (discounted h.breakdown (override dto.discount_amount (of_ℕ 0)))
                    a.rules.payment_allocation_order dto.amount q)
                a.allocated
                (shared h.breakdown a.rules dto.amount (override dto.discount_amount (of_ℕ 0))
                  payable)),
        )

  diff_zero : (l a : ℤ) → a ≤ℤ l → l -ℤ a ≤ℤ pos 0 → a ≡ l
  diff_zero l a h k = omega int_laws

  not-pos-diff_self : (l : ℤ) → ¬ (pos 0 <ℤ l -ℤ l)
  not-pos-diff_self l h = omega int_laws

  status_after-cases :
      (a : PaymentAllocationResult D)
      → (status_after a ≡ GirviStatus.closed) ⊎ (status_after a ≡ GirviStatus.partially_paid)
  status_after-cases a =
      elim (Bool-cases (less_than_or_equal_to a.remaining_outstanding (of_ℕ 0))) [
        | inl t ↦ inl (rw t)
        | inr t ↦ inr (rw t)
      ]

  closed_iff :
      (a : PaymentAllocationResult D) (left amount : ℤ)
      → value a.remaining_outstanding ≡ left -ℤ amount
      → amount ≤ℤ left
      → (status_after a ≡ GirviStatus.closed) ↔ (amount ≡ left)
  closed_iff a left amount e h =
      let rest = a.remaining_outstanding in
      elim (Bool-cases (less_than_or_equal_to rest (of_ℕ 0))) [
        | inl t ↦
            let small : value rest ≤ℤ pos 0 =
              ground (arith, less_than_value (of_ℕ 0) rest, zero_value) in
            (λ _. diff_zero left amount h (rw e at small), λ _. rw t)
        | inr t ↦
            let big : pos 0 <ℤ value rest =
              ground (arith, less_than_value (of_ℕ 0) rest, zero_value) in
            (λ c. cc (rw t at c), λ same. absurd (not-pos-diff_self left (rw (e, same) at big)))
      ]

module _ {D : Type 0} ⦃d : Decimal D⦄ ⦃col : Columns D⦄ (laws : IsExact D) where
  open d use {of_ℕ}
  open laws use {value}

  module _ (cal : Calendar) (now : Instant) (s : Store D) (ctx : Context) (dto : CreatePayment D)
      (id : ℕ) where
    -- What a receipt does to the tables: the payment and its inward ledger entry are added, the
    -- transaction gets its new status, and all other payments and transactions stay as they were.
    pub record IsRecorded (p : Prepared D) (payment : Payment D) (s' : Store D) : Type 0 where
      pub stored : find id s'.payments ≡ some payment
      pub belongs : payment.girvi_transaction_id ≡ dto.girvi_transaction_id
      pub standing : payment.is_reversed ≡ false
      pub paid : payment.amount ≡ col.money dto.amount
      pub entered :
          s'.ledger
          ≡ record {
            tenant = ctx.tenant_id;
            branch = p.transaction.branch;
            entry_type = payment_received;
            direction = inward;
            amount = col.money dto.amount;
            account = dto.mode;
            payment_id = some id;
            created_by = ctx.user_id;
            created_at = now;
          }
            ∷ s.ledger
      pub status :
          find dto.girvi_transaction_id s'.transactions
          ≡ some (record p.transaction {
            status =
                if less_than_or_equal_to p.allocation.remaining_outstanding (of_ℕ 0)
                then GirviStatus.closed
                else GirviStatus.partially_paid;
            updated_by = some ctx.user_id;
          })
      pub other_transactions :
          (k : ℕ) → k ≢ dto.girvi_transaction_id → find k s'.transactions ≡ find k s.transactions
      pub other_payments : (k : ℕ) → k ≢ id → find k s'.payments ≡ find k s.payments

    record_payment-IsRecorded :
        (p : Prepared D) {payment : Payment D} {s' : Store D}
        → find dto.girvi_transaction_id s.transactions ≡ some p.transaction
        → record_payment cal now s ctx dto id p ≡ ok (payment, s')
        → IsRecorded p payment s'
    unfolding record_payment
    record_payment-IsRecorded p found h0 =
        let (numbered, _, h) =
          >>=-eq-ok (next cal now s.sequences ctx.tenant_id payment_number) _ h0 in
        subst (λ (q : Payment D × Store D). IsRecorded p q.0 q.1) (ok-injective h)
          (record {
            stored = find-create_self id _ s.payments;
            belongs = refl;
            standing = refl;
            paid = refl;
            entered = refl;
            status = find-update_self dto.girvi_transaction_id _ s.transactions found;
            other_transactions =
                λ k ne. find-update_ne k dto.girvi_transaction_id _ s.transactions ne;
            other_payments = λ k ne. find-create_ne k id _ s.payments ne;
          })

    -- A receipt that returns has passed the checks; it adds the payment and one inward ledger entry
    -- of its amount, makes its transaction CLOSED if nothing remains of what is outstanding and
    -- PARTIALLY_PAID otherwise, and leaves every other payment and transaction as it was.
    pub receive-IsRecorded :
        {payment : Payment D} {s' : Store D}
        → receive cal now s ctx dto id ≡ ok (payment, s')
        → (p : Prepared D) × (prepare cal now s ctx dto ≡ ok p) × IsRecorded p payment s'
    unfolding receive
    receive-IsRecorded h0 =
        let (p, e, h) = >>=-eq-ok (prepare cal now s ctx dto) _ h0 in
        let found = (prepare-IsPrepared laws cal now s ctx dto e).request.found in
        (p, e, record_payment-IsRecorded p (keep_if-eq-some _ _ found) h)

    -- After a receipt the transaction is CLOSED exactly when the payment was the whole amount
    -- outstanding after the discount, and PARTIALLY_PAID otherwise, where each active order lists
    -- every category once.
    pub receive_closes :
        {payment : Payment D} {s' : Store D}
        → OrdersComplete laws s ctx.tenant_id
        → receive cal now s ctx dto id ≡ ok (payment, s')
        → (b : OutstandingBreakdown D) × (t : GirviTransaction D) × (get_outstanding cal now s
              ctx.tenant_id dto.girvi_transaction_id
            ≡ ok b)
          × (find dto.girvi_transaction_id s'.transactions ≡ some t)
          × ((t.status ≡ GirviStatus.closed) ⊎ (t.status ≡ GirviStatus.partially_paid))
          × ((t.status ≡ GirviStatus.closed) ↔ (
              value dto.amount
              ≡ value
                  (calculate_outstanding (discounted b (override dto.discount_amount (of_ℕ 0))))))
    receive_closes complete h =
        let (p, e, r) = receive-IsRecorded h in
        let checked = prepare-IsPrepared laws cal now s ctx dto e in
        let (_, _, _, _, _, shares) = prepare_shares laws cal now s ctx dto complete e in
        let reduced = checked.amounts.reduced in
        let left = value (calculate_outstanding p.adjusted) in
        (
          checked.breakdown,
          set_status (status_after p.allocation) ctx.user_id p.transaction,
          checked.computed,
          r.status,
          status_after-cases laws p.allocation,
          rw reduced (
              closed_iff laws p.allocation left (value dto.amount) shares.3
                (rw reduced at checked.amounts.amount_le)),
        )
