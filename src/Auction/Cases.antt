-- ===== src/Auction/Cases.antt =====
-- The pipeline of an auction case, after the comment of prisma/schema.prisma (NOTICE,
-- AUCTION_ELIGIBLE, SCHEDULED, AUCTIONED, CLOSED), as a step relation, and what holds at each stage.
use mathlib.Core.Path.{subst}
use girvi_ghata_backend.Base.{ℕ, ◌+◌, ◌≡◌, refl, Option, none, some}
use girvi_ghata_backend.Decimal.{Decimal}
use girvi_ghata_backend.Calendar.{Instant}
use girvi_ghata_backend.Types.{OutstandingBreakdown}
use girvi_ghata_backend.Store.{Columns, AuctionCase, AuctionStatus, Settlement}
use girvi_ghata_backend.Auction.{status_code, upsert_settlement, total_owed}

abbrev pub IsDated : Option Instant → Type 0
IsDated o = (t : Instant) × (o ≡ some t)

module _ {D : Type 0} where
  abbrev pub noticed_case : Instant → ℕ → AuctionCase D
  noticed_case now user = record {
    status = AuctionStatus.notice;
    notice_sent_at = now;
    eligible_at = none;
    scheduled_at = none;
    created_by = user;
    settlement = none;
  }

  -- How far a case is: nothing, or one more than the code of its status.
  abbrev pub stage : Option (AuctionCase D) → ℕ
  stage none = 0
  stage (some c) = status_code c.status + 1

module _ {D : Type 0} ⦃d : Decimal D⦄ ⦃col : Columns D⦄ where
  open d use {plus, minus}
  open col use {money}

  abbrev pub sold_settlement : Instant → D → ℕ → Settlement D → Settlement D
  sold_settlement now sale buyer t = record t {
    final_sale_amount = some (money sale);
    buyer_name = some buyer;
    sold_at = some now;
    profit_or_loss = some (money (minus sale (total_owed t)));
  }

  pub data CaseStep : Option (AuctionCase D) → AuctionCase D → Type 0 where
    notify : (now : Instant) (user : ℕ) → CaseStep none (noticed_case now user)
    make_eligible :
        (now : Instant) (b : OutstandingBreakdown D) (reserve : D) (c : AuctionCase D)
        → c.status ≡ AuctionStatus.notice
        → CaseStep (some c) (record c {
          status = AuctionStatus.auction_eligible;
          eligible_at = some now;
          settlement = some (upsert_settlement b reserve c.settlement);
        })
    plan :
        (date : Instant) (c : AuctionCase D)
        → c.status ≡ AuctionStatus.auction_eligible
        → CaseStep
            (some c)
            (record c { status = AuctionStatus.scheduled; scheduled_at = some date })
    sell :
        (now : Instant) (sale : D) (buyer : ℕ) (t : Settlement D) (c : AuctionCase D)
        → c.status ≡ AuctionStatus.scheduled
        → c.settlement ≡ some t
        → CaseStep (some c) (record c {
          status = AuctionStatus.auctioned;
          settlement = some (sold_settlement now sale buyer t);
        })
    finish :
        (c : AuctionCase D)
        → c.status ≡ AuctionStatus.auctioned
        → CaseStep (some c) (record c { status = AuctionStatus.closed })

  -- The settlement of a sold case: its sale, and the sale less principal, interest and charges.
  abbrev pub IsSold : Option (Settlement D) → Type 0
  IsSold o =
      (t : Settlement D) × (sale : D) × (o ≡ some t)
      × (t.final_sale_amount ≡ some (money sale))
      × (t.profit_or_loss
          ≡ some (
              money (
                minus sale
                  (plus (plus t.outstanding_principal t.outstanding_interest) t.other_charges))))

  abbrev pub IsUnsold : Option (Settlement D) → Type 0
  IsUnsold o = (t : Settlement D) × (o ≡ some t) × (t.final_sale_amount ≡ none)

  abbrev pub IsStage : AuctionStatus → AuctionCase D → Type 0
  IsStage AuctionStatus.notice c = c.settlement ≡ none
  IsStage AuctionStatus.auction_eligible c = IsDated c.eligible_at × IsUnsold c.settlement
  IsStage AuctionStatus.scheduled c =
      IsDated c.eligible_at × IsDated c.scheduled_at × IsUnsold c.settlement
  IsStage AuctionStatus.auctioned c =
      IsDated c.eligible_at × IsDated c.scheduled_at × IsSold c.settlement
  IsStage AuctionStatus.closed c =
      IsDated c.eligible_at × IsDated c.scheduled_at × IsSold c.settlement

  -- A case has what its status promises: dates, a settlement, and once sold, the sale.
  abbrev pub IsConsistent : AuctionCase D → Type 0
  IsConsistent c = IsStage c.status c

  abbrev pub AllConsistent : Option (AuctionCase D) → Type 0
  AllConsistent none = Unit
  AllConsistent (some c) = IsConsistent c

  pub CaseStep-IsConsistent :
      {o : Option (AuctionCase D)} {c : AuctionCase D}
      → CaseStep o c
      → AllConsistent o
      → IsConsistent c
  CaseStep-IsConsistent (notify now user) h = refl
  CaseStep-IsConsistent (make_eligible now b reserve c e) h =
      let k : c.settlement ≡ none = subst (λ q. IsStage q c) e h in
      ((now, refl), (upsert_settlement b reserve c.settlement, refl, rw k))
  CaseStep-IsConsistent (plan date c e) h =
      let (eligible, unsold) = subst (λ q. IsStage q c) e h in (eligible, (date, refl), unsold)
  CaseStep-IsConsistent (sell now sale buyer t c e f) h =
      let (eligible, dated, _) = subst (λ q. IsStage q c) e h in
      (eligible, dated, (sold_settlement now sale buyer t, sale, refl, refl, refl))
  CaseStep-IsConsistent (finish c e) h = subst (λ q. IsStage q c) e h

  pub CaseStep-stage :
      {o : Option (AuctionCase D)} {c : AuctionCase D} → CaseStep o c → stage (some c) ≡ stage o + 1
  CaseStep-stage (notify now user) = refl
  CaseStep-stage (make_eligible now b reserve c e) = rw e
  CaseStep-stage (plan date c e) = rw e
  CaseStep-stage (sell now sale buyer t c e f) = rw e
  CaseStep-stage (finish c e) = rw e
