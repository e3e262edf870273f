-- ===== src/Inventory.antt =====
-- src/modules/inventory/inventory.service.ts. The number of a packet is its transaction's number
-- after `PKT-`, so it is not kept; `qr` is the code that the service draws for a new packet.
pub mod Packets
use girvi_ghata_backend.Base.{
  ℕ, Bool, true, false, not, ◌&&◌, Option, none, some, List, [], ◌∷◌, ◌==◌, is_none,
}
use girvi_ghata_backend.Result.{
  Result, ok, err, throw_if, or_throw, ◌>>=◌, ◌>>◌, transaction_not_found, location_not_found,
  packet_not_found, record_not_found, unique_violation,
}
use girvi_ghata_backend.Table.{Table, find, find_where, find_first, select, update, create}
use girvi_ghata_backend.Store.{
  Store, Context, StorageLocation, Packet, GirviTransaction, AuditAction, AuditEntry, packet_assign,
  packet_move,
}
use girvi_ghata_backend.Outstanding.{of_tenant}
use girvi_ghata_backend.Redemption.{packet_of}

pub record CreateLocation : Type 0 where
  pub branch_id : ℕ
  pub kind : ℕ
  pub code : ℕ
  pub parent_id : Option ℕ

-- `AssignPacketDto`
pub record AssignPacket : Type 0 where
  pub girvi_transaction_id : ℕ
  pub storage_location_id : Option ℕ

-- The unique index of the locations.
abbrev pub same_place : ℕ → CreateLocation → StorageLocation → Bool
same_place tenant dto l =
    l.tenant == tenant && l.branch == dto.branch_id && l.kind == dto.kind && l.code == dto.code

-- `data: { storageLocationId }`: a value that is left out changes nothing.
abbrev pub put_at : Option ℕ → Packet → Packet
put_at none p = p
put_at (some location) p = record p { storage_location = some location }

abbrev pub packet_entry : Context → AuditAction → ℕ → AuditEntry
packet_entry ctx action id = record {
  tenant = ctx.tenant_id;
  actor = some ctx.user_id;
  action = action;
  entity_id = id;
}

abbrev pub in_branch : Option ℕ → StorageLocation → Bool
in_branch none l = true
in_branch (some branch) l = l.branch == branch

module _ {D : Type 0} where
  -- The optional parent is a row that the database looks for.
  unfoldable pub check_parent : Store D → Option ℕ → Result (Unit {0})
  check_parent s none = ok tt
  check_parent s (some parent) = throw_if (is_none (find parent s.locations)) record_not_found

  unfoldable pub create_location :
      Store D → Context → CreateLocation → ℕ → Result (StorageLocation × Store D)
  create_location s ctx dto id = do
    checked ← check_parent s dto.parent_id
    throw_if (not (is_none (find_first (same_place ctx.tenant_id dto) s.locations)))
        unique_violation
    let created : StorageLocation = record {
      tenant = ctx.tenant_id;
      branch = dto.branch_id;
      kind = dto.kind;
      code = dto.code;
      parent = dto.parent_id;
    }
    ok (created, record s { locations = create id created s.locations })

  unfoldable pub list_locations : Store D → Context → Option ℕ → Table StorageLocation
  list_locations s ctx branch =
      select (λ l. l.tenant == ctx.tenant_id && in_branch branch l) s.locations

  -- The location of the request, if it names one, is the tenant's.
  unfoldable pub check_location : Store D → Context → Option ℕ → Result (Unit {0})
  check_location s ctx none = ok tt
  check_location s ctx (some location) =
      throw_if (is_none (find_where location (λ l. l.tenant == ctx.tenant_id) s.locations))
        location_not_found

  -- The rest of `assignPacket`, with the packet that the transaction has.
  abbrev pub place :
      Store D → Context → AssignPacket → ℕ → ℕ → Option (ℕ × Packet) → Packet × Store D
  place s ctx dto id qr (some (k, packet)) = (
    put_at dto.storage_location_id packet,
    record s { packets = update k (put_at dto.storage_location_id) s.packets },
  )
  place s ctx dto id qr none =
      let packet : Packet = record {
        girvi_transaction_id = dto.girvi_transaction_id;
        qr_code = qr;
        storage_location = dto.storage_location_id;
      } in
      (
        packet,
        record s {
          packets = create id packet s.packets;
          audit = packet_entry ctx packet_assign id ∷ s.audit;
        },
      )

  -- `assignPacket`; `id` is the one that the database draws for a new packet.
  unfoldable pub assign_packet :
      Store D → Context → AssignPacket → ℕ → ℕ → Result (Packet × Store D)
  assign_packet s ctx dto id qr = do
    transaction ←
        or_throw (find_where dto.girvi_transaction_id (of_tenant ctx.tenant_id) s.transactions)
          transaction_not_found
    checked ← check_location s ctx dto.storage_location_id
    ok (place s ctx dto id qr (find_first (packet_of dto.girvi_transaction_id) s.packets))

  -- `girviTransaction: { tenantId }`
  abbrev pub is_tenants : Store D → ℕ → Packet → Bool
  is_tenants s tenant p =
      not (is_none (find_where p.girvi_transaction_id (of_tenant tenant) s.transactions))

  -- `moveLocation`: the database refuses a location that is not there, and takes one of any tenant.
  unfoldable pub move_location : Store D → Context → ℕ → ℕ → Result (Packet × Store D)
  move_location s ctx id location = do
    packet ← or_throw (find_where id (is_tenants s ctx.tenant_id) s.packets) packet_not_found
    throw_if (is_none (find location s.locations)) record_not_found
    ok (
      put_at (some location) packet,
      record s {
        packets = update id (put_at (some location)) s.packets;
        audit = packet_entry ctx packet_move id ∷ s.audit;
      },
    )

  unfoldable pub find_by_qr : Store D → Context → ℕ → Result (ℕ × Packet)
  find_by_qr s ctx qr =
      or_throw (find_first (λ p. p.qr_code == qr && is_tenants s ctx.tenant_id p) s.packets)
        packet_not_found
