-- ===== src/Reports/Recorded.antt =====
-- `recordDailyClosing`: what a closing that is recorded says.
use mathlib.Core.Path.{subst}
use girvi_ghata_backend.Base.{
  ℕ, ◌≡◌, ◌⊎◌, inl, inr, refl, true, not, ◌&&◌, Option, none, some, is_none, Bool-cases,
  Option-cases, arith, ==_refl,
}
use girvi_ghata_backend.Base.Int.{pos, eq_of_parts}
use girvi_ghata_backend.Decimal.{Decimal, IsExact}
use girvi_ghata_backend.Calendar.{Instant}
use girvi_ghata_backend.Result.{
  ok, >>=-eq-ok, throw_if-passed, ok-injective, discrepancy_reason_required,
}
use girvi_ghata_backend.Table.{Table, find_first, find_first-update, find_first-passed}
use girvi_ghata_backend.Store.{Store, Columns, Context, DailyClosing}
use girvi_ghata_backend.Payments.{resolve_date}
use girvi_ghata_backend.Reports.{Days}
use girvi_ghata_backend.Reports.Cash.{
  RecordDailyClosing, same_day, set_closing, upserted, upsert_closing, is_zero, daily_cash_book,
  record_daily_closing,
}

module _ {D : Type 0} where
  find_first-upsert :
      (tenant branch : ℕ) (date : Instant) (o : Option (ℕ × DailyClosing D)) (id : ℕ)
      (row : DailyClosing D) (t : Table (DailyClosing D))
      → same_day tenant branch date row ≡ true
      → find_first (same_day tenant branch date) t ≡ o
      → (k : ℕ) × (find_first (same_day tenant branch date) (upsert_closing o id row t)
          ≡ some (k, upserted o row))
  unfolding find_first
  find_first-upsert tenant branch date none id row t passes h = (id, rw passes)
  find_first-upsert tenant branch date (some (k, v)) id row t passes h =
      (k, find_first-update (same_day tenant branch date) k (set_closing row) t (λ w. refl) h)

  upserted-same_day :
      (tenant branch : ℕ) (date : Instant) (o : Option (ℕ × DailyClosing D)) (row : DailyClosing D)
      (t : Table (DailyClosing D))
      → row.closing_date ≡ date
      → find_first (same_day tenant branch date) t ≡ o
      → (upserted o row).closing_date ≡ date
  upserted-same_day tenant branch date none row t dated h = dated
  upserted-same_day tenant branch date (some (k, v)) row t dated h =
      let passed = find_first-passed (same_day tenant branch date) t h in ground (arith, passed)

  -- What the upsert writes, be there a closing before or not.
  upserted-cash :
      (o : Option (ℕ × DailyClosing D)) (row : DailyClosing D)
      → ((upserted o row).expected_cash ≡ row.expected_cash)
        × ((upserted o row).actual_cash ≡ row.actual_cash)
        × ((upserted o row).discrepancy ≡ row.discrepancy)
        × ((upserted o row).closed_by ≡ row.closed_by)
  upserted-cash none row = (refl, refl, refl, refl)
  upserted-cash (some (k, v)) row = (refl, refl, refl, refl)

  upserted-reason :
      (o : Option (ℕ × DailyClosing D)) (row : DailyClosing D) {reason : ℕ}
      → row.discrepancy_reason ≡ some reason
      → (upserted o row).discrepancy_reason ≡ some reason
  upserted-reason none row h = h
  upserted-reason (some (k, v)) row h = rw h

  upserted-kept :
      (o : Option (ℕ × DailyClosing D)) (row : DailyClosing D)
      → row.discrepancy_reason ≡ none
      → (k : ℕ) (old : DailyClosing D) → o ≡ some (k, old)
      → (upserted o row).discrepancy_reason ≡ old.discrepancy_reason
  upserted-kept o row h k old e = rw (e, h)

module _ {D : Type 0} ⦃d : Decimal D⦄ ⦃col : Columns D⦄ (laws : IsExact D) where
  open d use {of_ℕ, minus}
  open col use {money}
  open laws use {value, zero_value, less_than_value}

  is_zero_lem : (a : D) → is_zero a ≡ true → value a ≡ pos 0
  is_zero_lem a h =
      eq_of_parts (value a) (pos 0)
        (ground (arith, h, less_than_value a (of_ℕ 0), less_than_value (of_ℕ 0) a, zero_value))

  -- What a recorded closing says, and where it is found.
  pub record IsClosed (days : Days) (now : Instant) (s : Store D) (ctx : Context)
      (dto : RecordDailyClosing D) (c : DailyClosing D) (s' : Store D) : Type 0 where
    pub given : Instant
    pub asked : resolve_date dto.date now ≡ ok given
    pub of_day : c.closing_date ≡ days.start_of_day given
    pub expected :
        c.expected_cash
        ≡ money
            (daily_cash_book days s ctx dto.branch_id
              (days.start_of_day given)).expected_closing_cash
    pub counted : c.actual_cash ≡ money dto.actual_cash
    pub by : c.closed_by ≡ ctx.user_id
    pub kept :
        dto.discrepancy_reason ≡ none
        → (k : ℕ) (old : DailyClosing D)
        → find_first (same_day ctx.tenant_id dto.branch_id c.closing_date) s.closings
          ≡ some (k, old)
        → c.discrepancy_reason ≡ old.discrepancy_reason
    pub explained :
        (value (
            minus dto.actual_cash
              (daily_cash_book days s ctx dto.branch_id
                (days.start_of_day given)).expected_closing_cash)
          ≡ pos 0)
        ⊎ ((reason : ℕ) × (dto.discrepancy_reason ≡ some reason)
            × (c.discrepancy_reason ≡ some reason))
    pub found :
        (k : ℕ) × (find_first (same_day ctx.tenant_id dto.branch_id c.closing_date) s'.closings
          ≡ some (k, c))
    pub ledger : s'.ledger ≡ s.ledger

  module _ (days : Days) (now : Instant) (s : Store D) (ctx : Context) (dto : RecordDailyClosing D)
      (id : ℕ) where
    -- A closing that is returned is of the start of the day that was asked for, holds what the cash
    -- book of that day expects and the cash that was counted, and is then the closing of its
    -- tenant, branch and day, be it new or recorded again; unless the counted cash is just what is
    -- expected, it has the reason that was given, and one that is recorded again without a reason
    -- keeps its reason; the ledger stays.
    pub record_daily_closing-IsClosed :
        {c : DailyClosing D} {s' : Store D}
        → record_daily_closing days now s ctx dto id ≡ ok (c, s')
        → IsClosed days now s ctx dto c s'
    unfolding record_daily_closing
    record_daily_closing-IsClosed h0 =
        let (given, asked, h1) = >>=-eq-ok (resolve_date dto.date now) _ h0 in
        let date = days.start_of_day given in
        let off =
          minus dto.actual_cash
            (daily_cash_book days s ctx dto.branch_id date).expected_closing_cash in
        let (checked, h) =
          throw_if-passed (not (is_zero off) && is_none dto.discrepancy_reason)
            discrepancy_reason_required _ h1 in
        let existing = find_first (same_day ctx.tenant_id dto.branch_id date) s.closings in
        let row : DailyClosing D = record {
          tenant = ctx.tenant_id;
          branch = dto.branch_id;
          closing_date = date;
          expected_cash =
              money (daily_cash_book days s ctx dto.branch_id date).expected_closing_cash;
          actual_cash = money dto.actual_cash;
          discrepancy = money off;
          discrepancy_reason = dto.discrepancy_reason;
          closed_by = ctx.user_id;
        } in
        let dated =
          upserted-same_day ctx.tenant_id dto.branch_id date existing row s.closings refl refl in
        let cash = upserted-cash existing row in
        let why : (value off ≡ pos 0)
            ⊎ ((reason : ℕ) × (dto.discrepancy_reason ≡ some reason)
                × ((upserted existing row).discrepancy_reason ≡ some reason)) =
          elim (Bool-cases (is_zero off)) [
            | inl z ↦ inl (is_zero_lem off z)
            | inr z ↦ elim (Option-cases dto.discrepancy_reason) [
              | inl n ↦ cc (rw (z, n) at checked)
              | inr (reason, r) ↦ inr (reason, r, upserted-reason existing row r)
            ]
          ] in
        subst (λ (q : DailyClosing D × Store D). IsClosed days now s ctx dto q.0 q.1)
          (ok-injective h)
          (record {
            given = given;
            asked = asked;
            of_day = dated;
            expected = cash.0;
            counted = cash.1;
            by = cash.3;
            kept = λ silent k old there. upserted-kept existing _ silent k old (rw dated at there);
            explained = why;
            found = rw dated (
                find_first-upsert ctx.tenant_id dto.branch_id date existing id _ s.closings
                  (rw (==_refl ctx.tenant_id, ==_refl dto.branch_id, ==_refl date)) refl);
            ledger = refl;
          })
