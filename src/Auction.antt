-- ===== src/Auction.antt =====
-- src/modules/auction/auction.service.ts
pub mod Cases
pub mod Pipeline
use girvi_ghata_backend.Base.{ℕ, Bool, true, false, not, Option, none, some, List, [], ◌∷◌, ◌==◌}
use girvi_ghata_backend.Decimal.{Decimal}
use girvi_ghata_backend.Calendar.{Instant, Calendar}
use girvi_ghata_backend.Result.{
  Result, ok, ◌>>=◌, ◌>>◌, throw_if, or_throw, transaction_not_found, not_overdue, case_exists,
  case_not_found, wrong_case_status, no_settlement,
}
use girvi_ghata_backend.Table.{find, find_where, update, create}
use girvi_ghata_backend.Store.{
  Store, Columns, Context, GirviTransaction, GirviStatus, AuctionCase, AuctionStatus, Settlement,
  LedgerEntry, AuditEntry, AuditAction, Mode, auction_sale, inward, auction_notice_sent,
  auction_mark_eligible, auction_scheduled, auction_sale_recorded, auction_case_closed,
}
use girvi_ghata_backend.Types.{OutstandingBreakdown}
use girvi_ghata_backend.Outstanding.{get_outstanding, of_tenant}
use girvi_ghata_backend.Payments.{set_status}
use girvi_ghata_backend.Redemption.{is_there}
use girvi_ghata_backend.Engine.{override, calculate_outstanding}

abbrev pub is_overdue : GirviStatus → Bool
is_overdue GirviStatus.overdue = true
is_overdue _ = false

abbrev pub status_code : AuctionStatus → ℕ
status_code AuctionStatus.notice = 0
status_code AuctionStatus.auction_eligible = 1
status_code AuctionStatus.scheduled = 2
status_code AuctionStatus.auctioned = 3
status_code AuctionStatus.closed = 4

-- `assertTransition`
abbrev pub assert_transition : AuctionStatus → AuctionStatus → Result (Unit {0})
assert_transition current expected =
    throw_if (not (status_code current == status_code expected)) wrong_case_status

abbrev pub auction_audit : Context → AuditAction → ℕ → AuditEntry
auction_audit ctx action id = record {
  tenant = ctx.tenant_id;
  actor = some ctx.user_id;
  action = action;
  entity_id = id;
}

module _ {D : Type 0} where
  -- `getOwnedOrThrow`
  abbrev pub get_owned : Store D → ℕ → ℕ → Result (GirviTransaction D)
  get_owned s tenant id =
      or_throw (find_where id (of_tenant tenant) s.transactions) transaction_not_found

  abbrev pub case_if {ℓ} : {A : Type ℓ} → Option A → Option (AuctionCase D) → Option (AuctionCase D)
  case_if none c = none
  case_if (some _) c = c

  -- `getCaseOrThrow`: the case of a transaction of this tenant
  unfoldable pub get_case : Store D → ℕ → ℕ → Result (AuctionCase D)
  get_case s tenant id =
      or_throw (case_if (find_where id (of_tenant tenant) s.transactions) (find id s.auction_cases))
        case_not_found

  unfoldable pub send_notice : Instant → Store D → Context → ℕ → Result (AuctionCase D × Store D)
  send_notice now s ctx id = do
    row ← get_owned s ctx.tenant_id id
    throw_if (not (is_overdue row.status)) not_overdue
    throw_if (is_there (find id s.auction_cases)) case_exists
    let created : AuctionCase D = record {
      status = AuctionStatus.notice;
      notice_sent_at = now;
      eligible_at = none;
      scheduled_at = none;
      created_by = ctx.user_id;
      settlement = none;
    }
    ok (
      created,
      record s {
        auction_cases = create id created s.auction_cases;
        audit = auction_audit ctx auction_notice_sent id ∷ s.audit;
      },
    )

  unfoldable pub schedule : Instant → Store D → Context → ℕ → Result (AuctionCase D × Store D)
  schedule scheduled_at s ctx id = do
    c ← get_case s ctx.tenant_id id
    assert_transition c.status AuctionStatus.auction_eligible
    let set = λ (a : AuctionCase D). record a {
      status = AuctionStatus.scheduled;
      scheduled_at = some scheduled_at;
    }
    ok (
      set c,
      record s {
        auction_cases = update id set s.auction_cases;
        audit = auction_audit ctx auction_scheduled id ∷ s.audit;
      },
    )

  -- `close`
  unfoldable pub close_case : Store D → Context → ℕ → Result (AuctionCase D × Store D)
  close_case s ctx id = do
    c ← get_case s ctx.tenant_id id
    assert_transition c.status AuctionStatus.auctioned
    let set = λ (a : AuctionCase D). record a { status = AuctionStatus.closed }
    ok (
      set c,
      record s {
        auction_cases = update id set s.auction_cases;
        transactions = update id (set_status GirviStatus.closed ctx.user_id) s.transactions;
        audit = auction_audit ctx auction_case_closed id ∷ s.audit;
      },
    )

module _ {D : Type 0} ⦃d : Decimal D⦄ ⦃col : Columns D⦄ where
  open d use {of_ℕ, plus, minus}
  open col use {money}

  -- `auctionSettlement.upsert`
  abbrev pub upsert_settlement : OutstandingBreakdown D → D → Option (Settlement D) → Settlement D
  upsert_settlement b reserve none = record {
    outstanding_principal = money b.principal;
    outstanding_interest = money b.interest_accrued;
    other_charges = money (plus b.charges b.penalty);
    reserve_price = money reserve;
    final_sale_amount = none;
    profit_or_loss = none;
    sold_at = none;
    buyer_name = none;
  }
  upsert_settlement b reserve (some old) = record old {
    outstanding_principal = money b.principal;
    outstanding_interest = money b.interest_accrued;
    other_charges = money (plus b.charges b.penalty);
    reserve_price = money reserve;
  }

  unfoldable pub mark_eligible :
      Calendar → Instant → Store D → Context → ℕ → Option D → Result (AuctionCase D × Store D)
  mark_eligible cal now s ctx id reserve_price = do
    c ← get_case s ctx.tenant_id id
    assert_transition c.status AuctionStatus.notice
    b ← get_outstanding cal now s ctx.tenant_id id
    let reserve = override reserve_price (calculate_outstanding b)
    let set = λ (a : AuctionCase D). record a {
      status = AuctionStatus.auction_eligible;
      eligible_at = some now;
      settlement = some (upsert_settlement b reserve a.settlement);
    }
    ok (
      set c,
      record s {
        auction_cases = update id set s.auction_cases;
        transactions =
            update id (set_status GirviStatus.auction_eligible ctx.user_id) s.transactions;
        audit = auction_audit ctx auction_mark_eligible id ∷ s.audit;
      },
    )

  abbrev pub total_owed : Settlement D → D
  total_owed t = plus (plus t.outstanding_principal t.outstanding_interest) t.other_charges

  abbrev pub sale_entry : Instant → Context → ℕ → D → LedgerEntry D
  sale_entry now ctx branch amount = record {
    tenant = ctx.tenant_id;
    branch = branch;
    entry_type = auction_sale;
    direction = inward;
    amount = money amount;
    account = Mode.cash;
    payment_id = none;
    created_by = ctx.user_id;
    created_at = now;
  }

  unfoldable pub record_sale :
      Instant → Store D → Context → ℕ → D → ℕ → Result (AuctionCase D × Store D)
  record_sale now s ctx id final_sale buyer = do
    row ← or_throw (find_where id (of_tenant ctx.tenant_id) s.transactions) case_not_found
    c ← get_case s ctx.tenant_id id
    assert_transition c.status AuctionStatus.scheduled
    settlement ← or_throw c.settlement no_settlement
    let sold : Settlement D = record settlement {
      final_sale_amount = some (money final_sale);
      buyer_name = some buyer;
      sold_at = some now;
      profit_or_loss = some (money (minus final_sale (total_owed settlement)));
    }
    let set =
        λ (a : AuctionCase D). record a { status = AuctionStatus.auctioned; settlement = some sold }
    ok (
      set c,
      record s {
        auction_cases = update id set s.auction_cases;
        transactions = update id (set_status GirviStatus.auctioned ctx.user_id) s.transactions;
        ledger = sale_entry now ctx row.branch final_sale ∷ s.ledger;
        audit = auction_audit ctx auction_sale_recorded id ∷ s.audit;
      },
    )
