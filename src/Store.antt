-- ===== src/Store.antt =====
-- The rows of the database, after prisma/schema.prisma, and the context of a request. A relation
-- that is one to one, or is only read through its owner, stands in the owner's row.
mod People
mod Custody
pub use People.*
pub use Custody.*
use girvi_ghata_backend.Base.{ℕ, Bool, Option, List}
use girvi_ghata_backend.Calendar.{Instant}
use girvi_ghata_backend.Table.{Table}
use girvi_ghata_backend.Types.{Category, BusinessRules}

pub data GirviStatus : Type 0 where
  draft active partially_paid overdue renewed closed redeemed auction_eligible auctioned :
      GirviStatus
  cancelled : GirviStatus

pub data AuctionStatus : Type 0 where
  notice auction_eligible scheduled auctioned closed : AuctionStatus

pub data Mode : Type 0 where
  cash upi bank other_mode : Mode

pub data EntryType : Type 0 where
  loan_disbursement loan_top_up payment_received payment_reversal auction_sale : EntryType

pub data Direction : Type 0 where
  inward outward : Direction

pub data Entity : Type 0 where
  girvi_number payment_number redemption_number customer_number expense_number : Entity

pub data AuditAction : Type 0 where
  girvi_create girvi_topup girvi_pledge_date_update girvi_auto_overdue payment_receive : AuditAction
  payment_cancel item_redeem auction_notice_sent auction_mark_eligible auction_scheduled :
      AuditAction
  auction_sale_recorded auction_case_closed rules_change packet_assign packet_move : AuditAction
  rate_change user_create user_deactivate customer_create customer_edit : AuditAction
  kyc_unmask_view daily_closing_recorded : AuditAction

-- A number such as GRV-2026-000001, in its parts; `year` is there if the sequence says so.
pub record DocumentNumber : Type 0 where
  pub prefix : ℕ
  pub year : Option ℕ
  pub number : ℕ

pub record Customer : Type 0 where
  pub tenant : ℕ
  pub branch : Option ℕ
  pub customer_code : DocumentNumber
  pub full_name : ℕ
  pub mobile : Option ℕ
  pub deleted_at : Option Instant

pub record NumberSequence : Type 0 where
  pub tenant : ℕ
  pub entity : Entity
  pub prefix : ℕ
  pub year_in_key : Bool
  pub last_value : ℕ

pub record RuleSet (D : Type 0) : Type 0 where
  pub tenant : ℕ
  pub metal_code : ℕ
  pub version : ℕ
  pub is_active : Bool
  pub rules : BusinessRules D

pub record PledgedItem (D : Type 0) : Type 0 where
  pub metal_code : ℕ
  pub purity_code : ℕ
  pub gross_weight : D
  pub stone_weight : D
  pub net_weight : D
  pub deleted_at : Option Instant

pub record ValuationSnapshot (D : Type 0) : Type 0 where
  pub rule_set_id : ℕ
  pub metal_rate_id : ℕ
  pub total_fine_weight : D
  pub total_metal_value : D
  pub eligibility_percent : D
  pub eligible_value : D
  pub margin_applied : D
  pub max_loan_amount : D
  pub actual_loan_amount : D
  pub interest_percent : D

pub record TopUp (D : Type 0) : Type 0 where
  pub amount : D
  pub top_up_date : Instant
  pub created_by : ℕ

pub record GirviTransaction (D : Type 0) : Type 0 where
  pub tenant : ℕ
  pub branch : ℕ
  pub girvi_number : DocumentNumber
  pub customer : ℕ
  pub status : GirviStatus
  pub pledge_date : Instant
  pub due_date : Option Instant
  pub created_by : ℕ
  pub updated_by : Option ℕ
  pub items : List (PledgedItem D)
  pub valuation : Option (ValuationSnapshot D)
  pub top_ups : List (TopUp D)

pub record AllocationRow (D : Type 0) : Type 0 where
  pub category : Category
  pub amount : D

pub record Payment (D : Type 0) : Type 0 where
  pub tenant : ℕ
  pub girvi_transaction_id : ℕ
  pub receipt_number : DocumentNumber
  pub amount : D
  pub discount_amount : D
  pub mode : Mode
  pub payment_date : Instant
  pub received_by : ℕ
  pub is_reversed : Bool
  pub reversal_reason : Option ℕ
  pub allocations : List (AllocationRow D)

pub record LedgerEntry (D : Type 0) : Type 0 where
  pub tenant : ℕ
  pub branch : ℕ
  pub entry_type : EntryType
  pub direction : Direction
  pub amount : D
  pub account : Mode
  pub payment_id : Option ℕ
  pub created_by : ℕ
  pub created_at : Instant

pub record Purity (D : Type 0) : Type 0 where
  pub fine_factor : D
  pub is_active : Bool

-- A metal with its purities by their code.
pub record Metal (D : Type 0) : Type 0 where
  pub tenant : ℕ
  pub code : ℕ
  pub purities : Table (Purity D)

pub record MetalRate (D : Type 0) : Type 0 where
  pub tenant : ℕ
  pub metal : ℕ
  pub rate_per_gram : D
  pub effective_from : Instant
  pub effective_to : Option Instant

pub record MetalRateHistory (D : Type 0) : Type 0 where
  pub tenant : ℕ
  pub metal : ℕ
  pub old_rate : Option D
  pub new_rate : D
  pub changed_by : ℕ

-- `closing_date` is the first instant of the day.
pub record DailyClosing (D : Type 0) : Type 0 where
  pub tenant : ℕ
  pub branch : ℕ
  pub closing_date : Instant
  pub expected_cash : D
  pub actual_cash : D
  pub discrepancy : D
  pub discrepancy_reason : Option ℕ
  pub closed_by : ℕ

pub record Redemption (D : Type 0) : Type 0 where
  pub redemption_number : DocumentNumber
  pub amount_paid : D
  pub released_by : ℕ

pub record Settlement (D : Type 0) : Type 0 where
  pub outstanding_principal : D
  pub outstanding_interest : D
  pub other_charges : D
  pub reserve_price : D
  pub final_sale_amount : Option D
  pub profit_or_loss : Option D
  pub sold_at : Option Instant
  pub buyer_name : Option ℕ

pub record AuctionCase (D : Type 0) : Type 0 where
  pub status : AuctionStatus
  pub notice_sent_at : Instant
  pub eligible_at : Option Instant
  pub scheduled_at : Option Instant
  pub created_by : ℕ
  pub settlement : Option (Settlement D)

-- The JSON values of an audit row are not part of it.
pub record AuditEntry : Type 0 where
  pub tenant : ℕ
  pub actor : Option ℕ
  pub action : AuditAction
  pub entity_id : ℕ

-- `auction_cases` and `redemptions` are keyed by the transaction, `kyc` by the customer and
-- `subscriptions` by the tenant, whose id is unique in them. Rows that have no id of use are a list,
-- the latest first.
pub record Store (D : Type 0) : Type 0 where
  pub subscriptions : Table SubscriptionPlan
  pub branches : Table Branch
  pub users : Table User
  pub roles : Table Role
  pub permissions : Table ℕ
  pub login_history : List LoginHistory
  pub locations : Table StorageLocation
  pub customers : Table Customer
  pub kyc : Table CustomerKyc
  pub metals : Table (Metal D)
  pub metal_rates : Table (MetalRate D)
  pub rate_history : List (MetalRateHistory D)
  pub rule_sets : Table (RuleSet D)
  pub transactions : Table (GirviTransaction D)
  pub payments : Table (Payment D)
  pub redemptions : Table (Redemption D)
  pub packets : Table Packet
  pub auction_cases : Table (AuctionCase D)
  pub sequences : Table NumberSequence
  pub ledger : List (LedgerEntry D)
  pub closings : Table (DailyClosing D)
  pub audit : List AuditEntry

-- What a money column, `Decimal(14,2)`, keeps of an amount that is written to it, and the sum of
-- amounts as JavaScript numbers.
pub record Columns (D : Type 0) : Type 0 where
  pub money : D → D
  pub number_sum : List D → D

-- An optional date of a request: left out, not a date, or an instant.
pub data DateInput : Type 0 where
  omitted invalid : DateInput
  at : Instant → DateInput

-- `RequestContext`
pub record Context : Type 0 where
  pub tenant_id : ℕ
  pub user_id : ℕ
  pub branch_ids : List ℕ
  pub permissions : List ℕ
