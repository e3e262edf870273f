-- ===== src/Redemption.antt =====
-- src/modules/payments/redemption.service.ts
pub mod Release
use girvi_ghata_backend.Base.{ℕ, Bool, true, false, Option, none, some, List, [], ◌∷◌, map, ◌==◌}
use girvi_ghata_backend.Decimal.{Decimal, greater_than}
use girvi_ghata_backend.Calendar.{Instant, Calendar}
use girvi_ghata_backend.Result.{
  Result, ok, ◌>>=◌, ◌>>◌, throw_if, or_throw, transaction_not_found, already_settled,
  outstanding_not_zero, unique_violation,
}
use girvi_ghata_backend.Table.{Table, find, find_where, find_first, select, update, create}
use girvi_ghata_backend.Store.{
  Store, Columns, Context, GirviStatus, Payment, Packet, Redemption, AuditEntry, DocumentNumber,
  redemption_number, item_redeem,
}
use girvi_ghata_backend.Numbering.{next}
use girvi_ghata_backend.Outstanding.{get_outstanding, of_tenant, counts_for}
use girvi_ghata_backend.Payments.{set_status}
use girvi_ghata_backend.Engine.{calculate_outstanding}

-- ['REDEEMED', 'AUCTIONED', 'CANCELLED']
abbrev pub is_settled : GirviStatus → Bool
is_settled GirviStatus.redeemed = true
is_settled GirviStatus.auctioned = true
is_settled GirviStatus.cancelled = true
is_settled _ = false

abbrev pub is_there {ℓ} : {A : Type ℓ} → Option A → Bool
is_there none = false
is_there (some _) = true

abbrev pub packet_of : ℕ → Packet → Bool
packet_of id p = p.girvi_transaction_id == id

abbrev pub take_out : Packet → Packet
take_out p = record p { storage_location = none }

-- `if (transaction.packet)`: the packet leaves its storage location.
unfoldable pub free_packet : ℕ → Table Packet → Table Packet
free_packet id packets = elim (find_first (packet_of id) packets) [
  | none ↦ packets
  | some (k, _) ↦ update k take_out packets
]

module _ {D : Type 0} ⦃d : Decimal D⦄ ⦃col : Columns D⦄ where
  open d use {of_ℕ}
  open col use {money, number_sum}

  abbrev pub total_paid : ℕ → Table (Payment D) → D
  total_paid id payments = number_sum (map (λ (k, p). p.amount) (select (counts_for id) payments))

  -- The transaction's id is unique among the redemptions.
  unfoldable pub redeem :
      Calendar → Instant → Store D → Context → ℕ → Result (Redemption D × Store D)
  redeem cal now s ctx id = do
    row ← or_throw (find_where id (of_tenant ctx.tenant_id) s.transactions) transaction_not_found
    throw_if (is_settled row.status) already_settled
    b ← get_outstanding cal now s ctx.tenant_id id
    throw_if (greater_than (calculate_outstanding b) (of_ℕ 0)) outstanding_not_zero
    numbered ← next cal now s.sequences ctx.tenant_id redemption_number
    throw_if (is_there (find id s.redemptions)) unique_violation
    let redemption : Redemption D = record {
      redemption_number = numbered.0;
      amount_paid = money (total_paid id s.payments);
      released_by = ctx.user_id;
    }
    let entry : AuditEntry = record {
      tenant = ctx.tenant_id;
      actor = some ctx.user_id;
      action = item_redeem;
      entity_id = id;
    }
    ok (
      redemption,
      record s {
        sequences = numbered.1;
        redemptions = create id redemption s.redemptions;
        transactions = update id (set_status GirviStatus.redeemed ctx.user_id) s.transactions;
        packets = free_packet id s.packets;
        audit = entry ∷ s.audit;
      },
    )
