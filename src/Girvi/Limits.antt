-- ===== src/Girvi/Limits.antt =====
-- What a loan and a top-up are limited by, and what moving a pledge date keeps.
use mathlib.Core.Path.{subst}
use girvi_ghata_backend.Base.{distinct}
use girvi_ghata_backend.Base.{
  ℕ, ◌+◌, ◌-◌, ◌≤◌, ◌≡◌, ◌⊎◌, refl, inl, inr, Bool, true, false, not, some, ◌∷◌, arith, ◌==◌,
  Bool-cases, ltb, le_of_not_ltb, [], map, List, ◌++◌, none, sym,
}
use girvi_ghata_backend.Base.Int.{ℤ, pos, ◌≤ℤ◌, ◌<ℤ◌, ◌+ℤ◌, +ℤ_zero, zero_+ℤ, +ℤ_assoc}
use girvi_ghata_backend.Decimal.{Decimal, IsExact, greater_than, less_than_or_equal_to, sum_from}
use girvi_ghata_backend.Calendar.{Instant, Calendar}
use girvi_ghata_backend.Result.{
  ok, >>=-eq-ok, or_throw-found, throw_if-passed, ok-injective, loan_exceeds_maximum,
  transaction_not_found, date_in_future, date_before_pledge, status_not_toppable,
  top_up_not_positive,
}
use girvi_ghata_backend.Table.{find, find_where, find-update_self, keep_if-eq-some}
use girvi_ghata_backend.Store.{
  Store, Columns, Context, GirviTransaction, GirviStatus, ValuationSnapshot, TopUp, DateInput, Mode,
  loan_top_up, outward,
}
use girvi_ghata_backend.Outstanding.{of_tenant}
use girvi_ghata_backend.Payments.{is_open, resolve_date}
use girvi_ghata_backend.Girvi.Worth.{IsWorth, compute_current_valuation-IsWorth}
use girvi_ghata_backend.Girvi.Changes.{
  CreateTopUp, check_top_up, compute_current_valuation, new_total_principal, top_up, required_date,
  update_pledge_date, move_pledge,
}

-- The statuses of a loan that takes payments and top-ups.
abbrev pub IsOpen : GirviStatus → Type 0
IsOpen status =
    (status ≡ GirviStatus.active)
    ⊎ ((status ≡ GirviStatus.partially_paid)
        ⊎ ((status ≡ GirviStatus.overdue) ⊎ (status ≡ GirviStatus.renewed)))

is_open-IsOpen : (status : GirviStatus) → is_open status ≡ true → IsOpen status
is_open-IsOpen GirviStatus.active h = inl refl
is_open-IsOpen GirviStatus.partially_paid h = inr (inl refl)
is_open-IsOpen GirviStatus.overdue h = inr (inr (inl refl))
is_open-IsOpen GirviStatus.renewed h = inr (inr (inr refl))
is_open-IsOpen _ h = cc h

module _ {D : Type 0} ⦃d : Decimal D⦄ ⦃col : Columns D⦄ (laws : IsExact D) where
  open d use {of_ℕ, plus}
  open col use {money}
  open laws use {value, zero_value, less_than_value, plus_value}

  le_of_not_greater : (x y : D) → greater_than x y ≡ false → value x ≤ℤ value y
  le_of_not_greater x y h = ground (arith, less_than_value y x)

  positive : (x : D) → less_than_or_equal_to x (of_ℕ 0) ≡ false → pos 0 <ℤ value x
  positive x h = ground (arith, less_than_value (of_ℕ 0) x, zero_value)

  -- What top-ups come to.
  abbrev pub issued : List (TopUp D) → ℤ
  issued [] = pos 0
  issued (u ∷ us) = value u.amount +ℤ issued us

  sum_from-issued :
      (acc : D) (us : List (TopUp D))
      → value (sum_from acc (map (λ u. u.amount) us)) ≡ value acc +ℤ issued us
  sum_from-issued acc [] = sym (+ℤ_zero (value acc))
  sum_from-issued acc (u ∷ us) = rw (
    sum_from-issued (plus acc u.amount) us,
    plus_value,
    +ℤ_assoc (value acc) (value u.amount) (issued us),
  )

  new_total_principal_lem :
      (t : GirviTransaction D) (v : ValuationSnapshot D) (amount : D)
      → value (new_total_principal t v amount)
        ≡ (value v.actual_loan_amount +ℤ issued t.top_ups) +ℤ value amount
  new_total_principal_lem t v amount = rw (
    plus_value,
    plus_value,
    sum_from-issued (of_ℕ 0) t.top_ups,
    zero_value,
    zero_+ℤ (issued t.top_ups),
  )

  check_top_up-found :
      (now : Instant) (s : Store D) (ctx : Context) (id : ℕ) (dto : CreateTopUp D)
      {q : GirviTransaction D × ValuationSnapshot D × Instant}
      → check_top_up now s ctx id dto ≡ ok q
      → (find id s.transactions ≡ some q.0)
        × (q.0.valuation ≡ some q.1)
        × (is_open q.0.status ≡ true)
        × (pos 0 <ℤ value dto.amount)
        × (q.0.pledge_date ≤ q.2)
        × (q.2 ≤ now)
  unfolding check_top_up
  check_top_up-found now s ctx id dto h0 =
      let (row, found, h1) =
        or_throw-found (find_where id (of_tenant ctx.tenant_id) s.transactions)
          transaction_not_found _ h0 in
      let (v, valued, h2) = or_throw-found row.valuation transaction_not_found _ h1 in
      let (open', h3) = throw_if-passed (not (is_open row.status)) status_not_toppable _ h2 in
      let (big, h4) =
        throw_if-passed (less_than_or_equal_to dto.amount (of_ℕ 0)) top_up_not_positive _ h3 in
      let (date, _, h5) = >>=-eq-ok (resolve_date dto.top_up_date now) _ h4 in
      let (past, h6) = throw_if-passed (ltb now date) date_in_future _ h5 in
      let (after, h7) = throw_if-passed (ltb date row.pledge_date) date_before_pledge _ h6 in
      subst
        (λ (q : GirviTransaction D × ValuationSnapshot D × Instant).
          (find id s.transactions ≡ some q.0)
          × (q.0.valuation ≡ some q.1)
          × (is_open q.0.status ≡ true)
          × (pos 0 <ℤ value dto.amount)
          × (q.0.pledge_date ≤ q.2)
          × (q.2 ≤ now))
        (ok-injective h7)
        (
          keep_if-eq-some _ _ found,
          valued,
          not_not _ open',
          positive _ big,
          le_of_not_ltb date row.pledge_date after,
          le_of_not_ltb now date past,
        )
    where
      not_not : (b : Bool) → not b ≡ false → b ≡ true
      not_not b h = ground arith

  -- What a top-up that returns has checked and written.
  pub record IsToppedUp (now : Instant) (s : Store D) (ctx : Context) (id : ℕ) (dto : CreateTopUp D)
      (u : TopUp D) (s' : Store D) : Type 0 where
    pub transaction : GirviTransaction D
    pub valuation : ValuationSnapshot D
    pub date : Instant
    pub checked :
        (find id s.transactions ≡ some transaction)
        × (transaction.valuation ≡ some valuation)
        × (is_open transaction.status ≡ true)
        × (pos 0 <ℤ value dto.amount)
        × (transaction.pledge_date ≤ date)
        × (date ≤ now)
    pub opened : IsOpen transaction.status
    pub limit : ℤ
    pub worth :
        IsWorth laws s ctx.tenant_id transaction.items
          (distinct (map (λ i. i.metal_code) transaction.items))
          limit
    pub within :
        (value valuation.actual_loan_amount +ℤ issued transaction.top_ups) +ℤ value dto.amount
        ≤ℤ limit
    pub added :
        u ≡ record { amount = money dto.amount; top_up_date = date; created_by = ctx.user_id }
    pub stored :
        find id s'.transactions
        ≡ some (record transaction {
          top_ups = transaction.top_ups ++ u ∷ [];
          updated_by = some ctx.user_id;
        })
    pub ledger :
        s'.ledger
        ≡ record {
          tenant = ctx.tenant_id;
          branch = transaction.branch;
          entry_type = loan_top_up;
          direction = outward;
          amount = money dto.amount;
          account = Mode.cash;
          payment_id = none;
          created_by = ctx.user_id;
          created_at = now;
        }
          ∷ s.ledger

  -- A top-up that returns is of a positive amount on an open loan, dated from the pledge to now,
  -- and keeps the loan, every earlier top-up and this one together at or below what the pledged
  -- items are worth as a loan at the current rates and rules; it is added to the loan and paid out
  -- of the ledger.
  pub top_up-IsToppedUp :
      (now : Instant) (s : Store D) (ctx : Context) (id : ℕ) (dto : CreateTopUp D) {u : TopUp D}
      {s' : Store D}
      → top_up now s ctx id dto ≡ ok (u, s')
      → IsToppedUp now s ctx id dto u s'
  unfolding top_up
  top_up-IsToppedUp now s ctx id dto h0 =
      let (q, passed, h1) = >>=-eq-ok (check_top_up now s ctx id dto) _ h0 in
      let checked = check_top_up-found now s ctx id dto passed in
      let (current, valued, h2) =
        >>=-eq-ok (compute_current_valuation s ctx.tenant_id q.0.items) _ h1 in
      let (small, h3) =
        throw_if-passed
          (greater_than (new_total_principal q.0 q.1 dto.amount) current.current_max_loan_amount)
          loan_exceeds_maximum _ h2 in
      subst (λ (r : TopUp D × Store D). IsToppedUp now s ctx id dto r.0 r.1) (ok-injective h3)
        (record {
          transaction = q.0;
          valuation = q.1;
          date = q.2;
          checked = checked;
          opened = is_open-IsOpen q.0.status checked.2;
          limit = value current.current_max_loan_amount;
          worth = compute_current_valuation-IsWorth laws s ctx.tenant_id q.0.items valued;
          within =
              rw (sym (new_total_principal_lem q.0 q.1 dto.amount)) (le_of_not_greater _ _ small);
          added = refl;
          stored = find-update_self id _ s.transactions checked.0;
          ledger = refl;
        })

module _ {D : Type 0} where
  -- The term of a loan: from the pledge to the due date, as an equation without subtraction.
  abbrev pub KeepsTerm : GirviTransaction D → GirviTransaction D → Type 0
  KeepsTerm old new =
      (due : Instant)
      → old.due_date ≡ some due
      → old.pledge_date ≤ due
      → (due' : Instant) × (new.due_date ≡ some due')
        × (due' + old.pledge_date ≡ due + new.pledge_date)

  move_pledge-KeepsTerm :
      (new user : ℕ) (t : GirviTransaction D) → KeepsTerm t (move_pledge new user t)
  move_pledge-KeepsTerm new user t due e h = (due + new - t.pledge_date, rw e, omega arith)

  -- Moving a pledge date leads to a date no later than now, stores the loan that it returns, and
  -- moves a due date that lies after the pledge along with it, so that the term stays the same.
  pub update_pledge_date-KeepsTerm :
      (now : Instant) (s : Store D) (ctx : Context) (id : ℕ) (date : DateInput)
      {t : GirviTransaction D} {s' : Store D}
      → update_pledge_date now s ctx id date ≡ ok (t, s')
      → (row : GirviTransaction D) × (find id s.transactions ≡ some row)
        × (t.pledge_date ≤ now)
        × (find id s'.transactions ≡ some t)
        × KeepsTerm row t
  unfolding update_pledge_date
  update_pledge_date-KeepsTerm now s ctx id date h0 =
      let (row, owned, h1) =
        or_throw-found (find_where id (of_tenant ctx.tenant_id) s.transactions)
          transaction_not_found _ h0 in
      let found = keep_if-eq-some _ _ owned in
      let (new, _, h2) = >>=-eq-ok (required_date date) _ h1 in
      let (past, h3) = throw_if-passed (ltb now new) date_in_future _ h2 in
      let early = le_of_not_ltb now new past in
      elim (Bool-cases (row.pledge_date == new)) [
        | inl same ↦
            let same' : row.pledge_date ≡ new = ground arith in
            subst
              (λ (r : GirviTransaction D × Store D).
                (x : GirviTransaction D) × (find id s.transactions ≡ some x)
                × (r.0.pledge_date ≤ now)
                × (find id r.1.transactions ≡ some r.0)
                × KeepsTerm x r.0)
              (ok-injective (rw same at h3))
              (row, found, rw same' early, found, λ due e k. (due, e, refl))
        | inr moved ↦
            subst
              (λ (r : GirviTransaction D × Store D).
                (x : GirviTransaction D) × (find id s.transactions ≡ some x)
                × (r.0.pledge_date ≤ now)
                × (find id r.1.transactions ≡ some r.0)
                × KeepsTerm x r.0)
              (ok-injective (rw moved at h3))
              (
                row,
                found,
                early,
                find-update_self id _ s.transactions found,
                move_pledge-KeepsTerm new ctx.user_id row,
              )
      ]
