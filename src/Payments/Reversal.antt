-- ===== src/Payments/Reversal.antt =====
-- `reverse`: what it writes, that it works once, and that it undoes what a receipt did to the
-- outstanding amount.
use mathlib.Core.Path.{subst}
use girvi_ghata_backend.Base.{
  ℕ, ◌≡◌, inl, inr, refl, ◌∙◌, true, false, Option, none, some, ◌∷◌, ◌==◌, Bool-cases, ==_refl,
}
use girvi_ghata_backend.Decimal.{Decimal}
use girvi_ghata_backend.Calendar.{Instant, Calendar}
use girvi_ghata_backend.Result.{
  ok, err, or_throw, ◌>>=◌, >>=-eq-ok, or_throw-found, throw_if-passed, ok-injective,
  already_reversed, payment_not_found, transaction_not_found,
}
use girvi_ghata_backend.Table.{
  Table, find, find_where, update, create, select, update_absent, find-update, find-update_self,
  keep_if, update_option, keep_if-eq-some, keep_if-passed,
}
use girvi_ghata_backend.Store.{
  Store, Columns, Context, GirviTransaction, GirviStatus, Payment, payment_number, payment_reversal,
  outward,
}
use girvi_ghata_backend.Numbering.{next}
use girvi_ghata_backend.Outstanding.{
  get_outstanding, outstanding_of, of_tenant, for_outstanding, payments_of,
}
use girvi_ghata_backend.Payments.{
  CreatePayment, Prepared, payment_of_tenant, set_reversed, set_status, reverse, prepare,
  record_payment, receive, status_after,
}

module _ {D : Type 0} where
  -- What a reversal does to the tables: the payment is marked, its amount leaves the ledger by an
  -- outward entry, and its transaction is ACTIVE.
  pub record IsReversed (now : Instant) (s : Store D) (ctx : Context) (id reason : ℕ) (s' : Store D)
      : Type 0 where
    pub payment : Payment D
    pub transaction : GirviTransaction D
    pub found : find id s.payments ≡ some payment
    pub owned : (payment.tenant == ctx.tenant_id) ≡ true
    pub was_standing : payment.is_reversed ≡ false
    pub marked :
        find id s'.payments
        ≡ some (record payment { is_reversed = true; reversal_reason = some reason })
    pub entered :
        s'.ledger
        ≡ record {
          tenant = ctx.tenant_id;
          branch = transaction.branch;
          entry_type = payment_reversal;
          direction = outward;
          amount = payment.amount;
          account = payment.mode;
          payment_id = some id;
          created_by = ctx.user_id;
          created_at = now;
        }
          ∷ s.ledger
    pub made_active :
        find payment.girvi_transaction_id s'.transactions
        ≡ some (record transaction { status = GirviStatus.active; updated_by = some ctx.user_id })
    pub payments : s'.payments ≡ update id (set_reversed reason) s.payments
    pub transactions :
        s'.transactions
        ≡ update payment.girvi_transaction_id
            (set_status GirviStatus.active ctx.user_id)
            s.transactions
    pub rule_sets : s'.rule_sets ≡ s.rule_sets

  module _ (now : Instant) (s : Store D) (ctx : Context) (id reason : ℕ) {payment : Payment D}
      {s' : Store D} where
    -- A reversal that returns found the payment standing and of the tenant, marks it, takes its
    -- amount out of the ledger by an outward entry, and makes its transaction ACTIVE, whatever
    -- status it had.
    pub reverse-IsReversed :
        reverse now s ctx id reason ≡ ok (payment, s') → IsReversed now s ctx id reason s'
    unfolding reverse
    reverse-IsReversed h0 =
        let (p, found, h1) =
          or_throw-found (find_where id (payment_of_tenant ctx.tenant_id) s.payments)
            payment_not_found _ h0 in
        let (standing, h2) = throw_if-passed p.is_reversed already_reversed _ h1 in
        let (t, row, h3) =
          or_throw-found (find p.girvi_transaction_id s.transactions) transaction_not_found _ h2 in
        let there = keep_if-eq-some _ _ found in
        subst (λ (q : Payment D × Store D). IsReversed now s ctx id reason q.1) (ok-injective h3)
          (record {
            payment = p;
            transaction = t;
            found = there;
            owned = keep_if-passed (payment_of_tenant ctx.tenant_id) _ found;
            was_standing = standing;
            marked = find-update_self id (set_reversed reason) s.payments there;
            entered = refl;
            made_active = find-update_self p.girvi_transaction_id _ s.transactions row;
            payments = refl;
            transactions = refl;
            rule_sets = refl;
          })

  marked_refused :
      (now : Instant) (s' : Store D) (later : Context) (id reason other : ℕ) (p : Payment D)
      → find id s'.payments ≡ some (set_reversed reason p)
      → (p.tenant == later.tenant_id) ≡ true
      → reverse now s' later id other ≡ err already_reversed
  unfolding reverse
  marked_refused now s' later id reason other p found mine = rw (found, mine)

  -- A payment that was reversed is not reversed again by its tenant, right after the first
  -- reversal.
  pub reverse_once :
      (now : Instant) (s : Store D) (ctx : Context) (id reason : ℕ) {payment : Payment D}
      {s' : Store D}
      → reverse now s ctx id reason ≡ ok (payment, s')
      → (afterwards : Instant) (later : Context) (other : ℕ) → later.tenant_id ≡ ctx.tenant_id
      → reverse afterwards s' later id other ≡ err already_reversed
  reverse_once now s ctx id reason {s'} h afterwards later other same =
      let r = reverse-IsReversed now s ctx id reason h in
      marked_refused afterwards s' later id reason other r.payment r.marked (rw same r.owned)

  pub payments_of-create-reversed :
      (k id reason : ℕ) (p : Payment D) (t : Table (Payment D))
      → find id t ≡ none
      → payments_of k (update id (set_reversed reason) (create id p t)) ≡ payments_of k t
  unfolding select update
  payments_of-create-reversed k id reason p t fresh =
      elim (Bool-cases (p.girvi_transaction_id == k)) [
        | inl e ↦ rw (==_refl id, update_absent id (set_reversed reason) t fresh, e)
        | inr e ↦ rw (==_refl id, update_absent id (set_reversed reason) t fresh, e)
      ]

module _ {D : Type 0} ⦃d : Decimal D⦄ where
  module _ (cal : Calendar) (now : Instant) (tenant k : ℕ) where
    outstanding_of_lem :
        (s s' : Store D) (st : GirviStatus) (user : ℕ) (row : GirviTransaction D)
        → payments_of k s'.payments ≡ payments_of k s.payments
        → s'.rule_sets ≡ s.rule_sets
        → (outstanding_of cal now s' tenant k (set_status st user row)
            ≡ outstanding_of cal now s tenant k row)
          × (outstanding_of cal now s' tenant k row ≡ outstanding_of cal now s tenant k row)
    unfolding outstanding_of for_outstanding
    outstanding_of_lem s s' st user row e r = (rw (e, r), rw (e, r))

    same_row :
        (s s' : Store D) (st : GirviStatus) (user : ℕ) (row : Option (GirviTransaction D))
        → payments_of k s'.payments ≡ payments_of k s.payments
        → s'.rule_sets ≡ s.rule_sets
        → (or_throw
              (keep_if (of_tenant tenant) (update_option (set_status st user) row))
              transaction_not_found
            >>= outstanding_of cal now s' tenant k)
          ≡ (or_throw (keep_if (of_tenant tenant) row) transaction_not_found
              >>= outstanding_of cal now s tenant k)
    same_row s s' st user none e r = refl
    same_row s s' st user (some row) e r = elim (Bool-cases (of_tenant tenant row)) [
      | inl t ↦ rw t ((outstanding_of_lem s s' st user row e r).0)
      | inr t ↦ rw t
    ]

    same_row' :
        (s s' : Store D) (row : Option (GirviTransaction D))
        → payments_of k s'.payments ≡ payments_of k s.payments
        → s'.rule_sets ≡ s.rule_sets
        → (or_throw (keep_if (of_tenant tenant) row) transaction_not_found
            >>= outstanding_of cal now s' tenant k)
          ≡ (or_throw (keep_if (of_tenant tenant) row) transaction_not_found
              >>= outstanding_of cal now s tenant k)
    same_row' s s' none e r = refl
    same_row' s s' (some row) e r = elim (Bool-cases (of_tenant tenant row)) [
      | inl t ↦ rw t ((outstanding_of_lem s s' row.status 0 row e r).1)
      | inr t ↦ rw t
    ]

    -- The status of a transaction does not change what is outstanding on any.
    status_forgotten :
        (s s' : Store D) (j : ℕ) (st : GirviStatus) (user : ℕ)
        → s'.transactions ≡ update j (set_status st user) s.transactions
        → payments_of k s'.payments ≡ payments_of k s.payments
        → s'.rule_sets ≡ s.rule_sets
        → get_outstanding cal now s' tenant k ≡ get_outstanding cal now s tenant k
    unfolding get_outstanding outstanding_of
    status_forgotten s s' j st user e p r = elim (Bool-cases (k == j)) [
      | inl t ↦
          rw (e, find-update k j (set_status st user) s.transactions, t)
            (same_row s s' st user (find k s.transactions) p r)
      | inr t ↦
          rw (e, find-update k j (set_status st user) s.transactions, t)
            (same_row' s s' (find k s.transactions) p r)
    ]

module _ {D : Type 0} ⦃d : Decimal D⦄ ⦃col : Columns D⦄ where
  module _ (cal : Calendar) (now : Instant) (s : Store D) (ctx : Context) (dto : CreatePayment D)
      (id : ℕ) where
    -- The tables that a receipt leaves, as far as the outstanding amount reads them.
    abbrev IsWritten : Payment D → Store D → Type 0
    IsWritten payment s' =
        (st : GirviStatus) × (s'.payments ≡ create id payment s.payments)
        × (s'.transactions
            ≡ update dto.girvi_transaction_id (set_status st ctx.user_id) s.transactions)
        × (s'.rule_sets ≡ s.rule_sets)

    record_payment-IsWritten :
        (p : Prepared D) {payment : Payment D} {s' : Store D}
        → record_payment cal now s ctx dto id p ≡ ok (payment, s')
        → IsWritten payment s'
    unfolding record_payment
    record_payment-IsWritten p h0 =
        let (_, _, h) = >>=-eq-ok (next cal now s.sequences ctx.tenant_id payment_number) _ h0 in
        subst (λ (q : Payment D × Store D). IsWritten q.0 q.1) (ok-injective h)
          (status_after p.allocation, refl, refl, refl)

    receive-IsWritten :
        {payment : Payment D} {s' : Store D}
        → receive cal now s ctx dto id ≡ ok (payment, s')
        → IsWritten payment s'
    unfolding receive
    receive-IsWritten h0 =
        let (p, _, h) = >>=-eq-ok (prepare cal now s ctx dto) _ h0 in record_payment-IsWritten p h

    -- A receipt that is reversed, by whoever and for whatever reason, leaves what getOutstanding
    -- returns for every transaction, at every later time and to every tenant, as it was before the
    -- receipt, if the payment's id was not used before.
    pub receive-reverse :
        (reversed_at : Instant) (by : Context) (reason : ℕ) {payment reversed : Payment D}
        {s' s'' : Store D}
        → find id s.payments ≡ none
        → receive cal now s ctx dto id ≡ ok (payment, s')
        → reverse reversed_at s' by id reason ≡ ok (reversed, s'')
        → (later : Instant) (tenant k : ℕ)
        → get_outstanding cal later s'' tenant k ≡ get_outstanding cal later s tenant k
    receive-reverse reversed_at by reason {payment} {s'} {s''} fresh h g later tenant k =
        let (st, paid, moved, ruled) = receive-IsWritten h in
        let r = reverse-IsReversed reversed_at s' by id reason g in
        let m : Store D = record s { transactions = s'.transactions } in
        status_forgotten cal later tenant k m s'' r.payment.girvi_transaction_id GirviStatus.active
          by.user_id r.transactions
          (rw (r.payments, paid) (payments_of-create-reversed k id reason payment s.payments fresh))
          (r.rule_sets ∙ ruled)
        ∙ status_forgotten cal later tenant k s m dto.girvi_transaction_id st ctx.user_id moved refl
            refl
