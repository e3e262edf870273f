-- ===== src/Redemption/Release.antt =====
-- `redeem`: when it releases the pledge, and what it writes.
use mathlib.Core.Path.{subst}
use girvi_ghata_backend.Base.{
  ℕ, ◌≡◌, ◌≢◌, refl, true, false, Option, none, some, arith, ◌==◌, eq_of_==,
}
use girvi_ghata_backend.Base.Int.{pos, ◌≤ℤ◌}
use girvi_ghata_backend.Decimal.{Decimal, IsExact, greater_than}
use girvi_ghata_backend.Calendar.{Instant, Calendar}
use girvi_ghata_backend.Result.{
  ok, err, >>=-eq-ok, or_throw-found, throw_if-passed, ok-injective, already_settled,
  transaction_not_found, outstanding_not_zero, unique_violation,
}
use girvi_ghata_backend.Types.{OutstandingBreakdown}
use girvi_ghata_backend.Table.{
  Table, find, find_where, find_first, find_first-update, find-update_self, find-create_self,
  keep_if-eq-some, keep_if-passed,
}
use girvi_ghata_backend.Store.{
  Store, Columns, Context, GirviTransaction, GirviStatus, Packet, Redemption, redemption_number,
}
use girvi_ghata_backend.Numbering.{next}
use girvi_ghata_backend.Outstanding.{get_outstanding, of_tenant}
use girvi_ghata_backend.Payments.{set_status}
use girvi_ghata_backend.Redemption.{is_settled, is_there, packet_of, take_out, free_packet, redeem}
use girvi_ghata_backend.Engine.{calculate_outstanding}

pub is_there-none : {A : Type 0} (o : Option A) → is_there o ≡ false → o ≡ none
is_there-none none h = refl
is_there-none (some a) h = cc

free_packet-emptied :
    (id : ℕ) (packets : Table Packet) {k : ℕ} {p : Packet}
    → find_first (packet_of id) packets ≡ some (k, p)
    → find_first (packet_of id) (free_packet id packets)
      ≡ some (k, record p { storage_location = none })
unfolding free_packet
free_packet-emptied id packets {k} h =
    rw (free_packet, h) (find_first-update (packet_of id) k take_out packets (λ q. refl) h)

module _ {D : Type 0} ⦃d : Decimal D⦄ ⦃col : Columns D⦄ (laws : IsExact D) where
  open d use {of_ℕ}
  open laws use {value, zero_value, less_than_value}

  -- What a redemption that returns has checked and written.
  pub record IsReleased (cal : Calendar) (now : Instant) (s : Store D) (ctx : Context) (id : ℕ)
      (r : Redemption D) (s' : Store D) : Type 0 where
    pub transaction : GirviTransaction D
    pub found : find id s.transactions ≡ some transaction
    pub owned : of_tenant ctx.tenant_id transaction ≡ true
    pub mine : transaction.tenant ≡ ctx.tenant_id
    pub was_open : is_settled transaction.status ≡ false
    pub not_redeemed : transaction.status ≢ GirviStatus.redeemed
    pub not_auctioned : transaction.status ≢ GirviStatus.auctioned
    pub not_cancelled : transaction.status ≢ GirviStatus.cancelled
    pub breakdown : OutstandingBreakdown D
    pub computed : get_outstanding cal now s ctx.tenant_id id ≡ ok breakdown
    pub nothing_due : value (calculate_outstanding breakdown) ≤ℤ pos 0
    pub was_first : find id s.redemptions ≡ none
    pub stored : find id s'.redemptions ≡ some r
    pub redeemed :
        find id s'.transactions
        ≡ some (record transaction { status = GirviStatus.redeemed; updated_by = some ctx.user_id })
    pub packets : s'.packets ≡ free_packet id s.packets
    pub emptied :
        (k : ℕ) (p : Packet)
        → find_first (λ q. q.girvi_transaction_id == id) s.packets ≡ some (k, p)
        → find_first (λ q. q.girvi_transaction_id == id) s'.packets
          ≡ some (k, record p { storage_location = none })
    pub ledger : s'.ledger ≡ s.ledger
    pub payments : s'.payments ≡ s.payments

  not_positive : (x : D) → greater_than x (of_ℕ 0) ≡ false → value x ≤ℤ pos 0
  not_positive x h = ground (arith, less_than_value (of_ℕ 0) x, zero_value)

  module _ (cal : Calendar) (now : Instant) (s : Store D) (ctx : Context) (id : ℕ) where
    -- A redemption that returns found the loan of its tenant neither redeemed, auctioned nor
    -- cancelled, with nothing outstanding and no redemption before; it leaves the loan REDEEMED and
    -- the packet that was found for it, if there is one, without a storage location, and adds no
    -- payment and no ledger entry.
    pub redeem-IsReleased :
        {r : Redemption D} {s' : Store D}
        → redeem cal now s ctx id ≡ ok (r, s')
        → IsReleased cal now s ctx id r s'
    unfolding redeem
    redeem-IsReleased h0 =
        let (row, found, h1) =
          or_throw-found (find_where id (of_tenant ctx.tenant_id) s.transactions)
            transaction_not_found _ h0 in
        let (open', h2) = throw_if-passed (is_settled row.status) already_settled _ h1 in
        let (b, computed, h3) = >>=-eq-ok (get_outstanding cal now s ctx.tenant_id id) _ h2 in
        let (zero', h4) =
          throw_if-passed (greater_than (calculate_outstanding b) (of_ℕ 0)) outstanding_not_zero _
            h3 in
        let (numbered, _, h5) =
          >>=-eq-ok (next cal now s.sequences ctx.tenant_id redemption_number) _ h4 in
        let (first, h6) =
          throw_if-passed (is_there (find id s.redemptions)) unique_violation _ h5 in
        let there = keep_if-eq-some _ _ found in
        subst (λ (q : Redemption D × Store D). IsReleased cal now s ctx id q.0 q.1)
          (ok-injective h6)
          (record {
            transaction = row;
            found = there;
            owned = keep_if-passed (of_tenant ctx.tenant_id) _ found;
            mine = eq_of_== _ _ (keep_if-passed (of_tenant ctx.tenant_id) _ found);
            was_open = open';
            not_redeemed = λ e. cc (rw e at open');
            not_auctioned = λ e. cc (rw e at open');
            not_cancelled = λ e. cc (rw e at open');
            breakdown = b;
            computed = computed;
            nothing_due = not_positive (calculate_outstanding b) zero';
            was_first = is_there-none _ first;
            stored = find-create_self id _ s.redemptions;
            redeemed = find-update_self id _ s.transactions there;
            packets = refl;
            emptied = λ k p there'. free_packet-emptied id s.packets there';
            ledger = refl;
            payments = refl;
          })

  settled_refused :
      (cal : Calendar) (now : Instant) (s : Store D) (ctx : Context) (id : ℕ)
      (t : GirviTransaction D)
      → find id s.transactions ≡ some t
      → of_tenant ctx.tenant_id t ≡ true
      → is_settled t.status ≡ true
      → redeem cal now s ctx id ≡ err already_settled
  unfolding redeem
  settled_refused cal now s ctx id t found owned settled = rw (found, owned, settled)

  -- A loan that was redeemed is not redeemed again from the state the redemption left, at any time,
  -- by anyone of its tenant.
  pub redeem_once :
      (cal : Calendar) (now : Instant) (s : Store D) (ctx : Context) (id : ℕ) {r : Redemption D}
      {s' : Store D}
      → redeem cal now s ctx id ≡ ok (r, s')
      → (later : Instant) (by : Context) → by.tenant_id ≡ ctx.tenant_id
      → redeem cal later s' by id ≡ err already_settled
  redeem_once cal now s ctx id {s'} h later by same =
      let r = redeem-IsReleased cal now s ctx id h in
      settled_refused cal later s' by id (set_status GirviStatus.redeemed ctx.user_id r.transaction)
        r.redeemed (rw same r.owned) refl
