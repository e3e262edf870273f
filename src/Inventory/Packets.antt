-- ===== src/Inventory/Packets.antt =====
-- The packets over calls of the inventory service and redemptions.
use mathlib.Core.Path.{subst}
use girvi_ghata_backend.Base.{
  ℕ, ◌≤◌, ◌≡◌, inl, inr, refl, Bool, Option, none, some, [], ◌∷◌, ◌==◌, Bool-cases, Option-cases,
  arith, eq_of_==,
}
use girvi_ghata_backend.Decimal.{Decimal, IsExact}
use girvi_ghata_backend.Calendar.{Instant, Calendar}
use girvi_ghata_backend.Result.{
  ok, >>=-eq-ok, or_throw-found, throw_if-passed, ok-injective, transaction_not_found,
  packet_not_found, record_not_found,
}
use girvi_ghata_backend.Table.{
  Table, find_where, find_first, select, count, update, count-update, count-create,
  count-create_other,
}
use girvi_ghata_backend.Store.{Store, Columns, Context, Packet, Redemption}
use girvi_ghata_backend.Outstanding.{of_tenant}
use girvi_ghata_backend.Redemption.{packet_of, redeem, free_packet, take_out}
use girvi_ghata_backend.Redemption.Release.{redeem-IsReleased}
use girvi_ghata_backend.Inventory.{
  AssignPacket, put_at, place, check_location, assign_packet, is_tenants, move_location,
}

-- No transaction has two packets.
abbrev pub OnePacket : Table Packet → Type 0
OnePacket packets = (transaction : ℕ) → count (packet_of transaction) packets ≤ 1

count-find_first : (p : Packet → Bool) (t : Table Packet) → find_first p t ≡ none → count p t ≡ 0
unfolding find_first select
count-find_first p [] h = refl
count-find_first p ((j, v) ∷ t) h = elim (Bool-cases (p v)) [
  | inl e ↦ cc (rw e at h)
  | inr e ↦ rw e (count-find_first p t (rw e at h))
]

put_at_kept : (o : Option ℕ) (k : ℕ) (p : Packet) → packet_of k (put_at o p) ≡ packet_of k p
put_at_kept none k p = refl
put_at_kept (some l) k p = refl

update-OnePacket :
    (j : ℕ) (f : Packet → Packet) (t : Table Packet)
    → ((k : ℕ) (p : Packet) → packet_of k (f p) ≡ packet_of k p)
    → OnePacket t
    → OnePacket (update j f t)
update-OnePacket j f t kept one k = rw (count-update (packet_of k) j f t (kept k)) (one k)

module _ {D : Type 0} where
  place-OnePacket :
      (s : Store D) (ctx : Context) (dto : AssignPacket) (id qr : ℕ) (o : Option (ℕ × Packet))
      → find_first (packet_of dto.girvi_transaction_id) s.packets ≡ o
      → OnePacket s.packets
      → OnePacket (place s ctx dto id qr o).1.packets
  place-OnePacket s ctx dto id qr (some (k, p)) h one =
      update-OnePacket k (put_at dto.storage_location_id) s.packets
        (λ j q. put_at_kept dto.storage_location_id j q) one
  place-OnePacket s ctx dto id qr none h one = λ k.
      elim (Bool-cases (dto.girvi_transaction_id == k)) [
        | inl e ↦
            let same = eq_of_== dto.girvi_transaction_id k e in
            let before : count (packet_of k) s.packets ≡ 0 =
              count-find_first (packet_of k) s.packets (rw same at h) in
            let added = count-create (packet_of k) id (place s ctx dto id qr none).0 s.packets in
            omega (arith, before, added)
        | inr e ↦
            rw (count-create_other (packet_of k) id (place s ctx dto id qr none).0 s.packets e)
              (one k)
      ]

  assign_packet-OnePacket :
      (s : Store D) (ctx : Context) (dto : AssignPacket) (id qr : ℕ) {p : Packet} {s' : Store D}
      → assign_packet s ctx dto id qr ≡ ok (p, s')
      → OnePacket s.packets
      → OnePacket s'.packets
  unfolding assign_packet
  assign_packet-OnePacket s ctx dto id qr h0 one =
      let (_, _, h1) =
        or_throw-found
          (find_where dto.girvi_transaction_id (of_tenant ctx.tenant_id) s.transactions)
          transaction_not_found _ h0 in
      let (_, _, h) = >>=-eq-ok (check_location s ctx dto.storage_location_id) _ h1 in
      subst (λ (q : Packet × Store D). OnePacket q.1.packets) (ok-injective h)
        (place-OnePacket s ctx dto id qr _ refl one)

  move_location-OnePacket :
      (s : Store D) (ctx : Context) (id location : ℕ) {p : Packet} {s' : Store D}
      → move_location s ctx id location ≡ ok (p, s')
      → OnePacket s.packets
      → OnePacket s'.packets
  unfolding move_location
  move_location-OnePacket s ctx id location h0 one =
      let (_, _, h1) =
        or_throw-found (find_where id (is_tenants s ctx.tenant_id) s.packets) packet_not_found _
          h0 in
      let (_, h) = throw_if-passed _ record_not_found _ h1 in
      subst (λ (q : Packet × Store D). OnePacket q.1.packets) (ok-injective h)
        (update-OnePacket id (put_at (some location)) s.packets (λ k q. refl) one)

free_packet-OnePacket :
    (id : ℕ) (packets : Table Packet) → OnePacket packets → OnePacket (free_packet id packets)
unfolding free_packet
free_packet-OnePacket id packets one = elim (Option-cases (find_first (packet_of id) packets)) [
  | inl e ↦ rw (free_packet, e) one
  | inr ((k, p), e) ↦ rw (free_packet, e) (update-OnePacket k take_out packets (λ j q. refl) one)
]

module _ {D : Type 0} ⦃d : Decimal D⦄ ⦃col : Columns D⦄ where
  pub data PacketStep : Store D → Store D → Type 0 where
    assign_step :
        {s s' : Store D} (ctx : Context) (dto : AssignPacket) (id qr : ℕ) (p : Packet)
        → assign_packet s ctx dto id qr ≡ ok (p, s')
        → PacketStep s s'
    move_step :
        {s s' : Store D} (ctx : Context) (id location : ℕ) (p : Packet)
        → move_location s ctx id location ≡ ok (p, s')
        → PacketStep s s'
    redeem_step :
        {s s' : Store D} (cal : Calendar) (now : Instant) (ctx : Context) (id : ℕ)
        (r : Redemption D)
        → redeem cal now s ctx id ≡ ok (r, s')
        → PacketStep s s'

  pub data PacketSteps : Store D → Store D → Type 0 where
    no_more : {s : Store D} → PacketSteps s s
    one_more : {s s' s'' : Store D} → PacketStep s s' → PacketSteps s' s'' → PacketSteps s s''

  module _ (laws : IsExact D) where
    PacketStep-OnePacket :
        {s s' : Store D} → PacketStep s s' → OnePacket s.packets → OnePacket s'.packets
    PacketStep-OnePacket {s} (assign_step ctx dto id qr p h) one =
        assign_packet-OnePacket s ctx dto id qr h one
    PacketStep-OnePacket {s} (move_step ctx id location p h) one =
        move_location-OnePacket s ctx id location h one
    PacketStep-OnePacket {s} (redeem_step cal now ctx id r h) one =
        let released = redeem-IsReleased laws cal now s ctx id h in
        rw (released.packets) (free_packet-OnePacket id s.packets one)

    -- Assignments, moves and redemptions, in any number and order, never give a transaction a
    -- second packet.
    pub PacketSteps-OnePacket :
        {s s' : Store D} → PacketSteps s s' → OnePacket s.packets → OnePacket s'.packets
    PacketSteps-OnePacket no_more one = one
    PacketSteps-OnePacket (one_more step rest) one =
        PacketSteps-OnePacket rest (PacketStep-OnePacket step one)
