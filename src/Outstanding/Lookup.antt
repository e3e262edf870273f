-- ===== src/Outstanding/Lookup.antt =====
-- `getOutstanding`: what it has read when it returns, and that it sees only its tenant's loans.
use girvi_ghata_backend.Base.{ℕ, ◌≡◌, ◌≢◌, false, some, arith, ◌==◌}
use girvi_ghata_backend.Decimal.{Decimal}
use girvi_ghata_backend.Calendar.{Instant, Calendar}
use girvi_ghata_backend.Result.{ok, err, >>=-eq-ok, or_throw-found, transaction_not_found}
use girvi_ghata_backend.Types.{BusinessRules, OutstandingBreakdown}
use girvi_ghata_backend.Table.{find, find_where}
use girvi_ghata_backend.Store.{Store, GirviTransaction}
use girvi_ghata_backend.Rules.{get_active_rules}
use girvi_ghata_backend.Outstanding.{
  get_outstanding, outstanding_of, of_tenant, first_metal, compute_breakdown, for_outstanding,
}

module _ {D : Type 0} ⦃d : Decimal D⦄ where
  module _ (cal : Calendar) (now : Instant) (s : Store D) (tenant id : ℕ) where
    pub outstanding_of-eq-ok :
        (row : GirviTransaction D) {b : OutstandingBreakdown D}
        → outstanding_of cal now s tenant id row ≡ ok b
        → (rules : BusinessRules D) × (get_active_rules s.rule_sets tenant
              (first_metal (for_outstanding s.payments id row).items)
            ≡ ok rules)
          × (compute_breakdown cal now (for_outstanding s.payments id row) rules ≡ ok b)
    unfolding outstanding_of
    outstanding_of-eq-ok row h0 =
        let t = for_outstanding s.payments id row in
        let (_, _, h1) = or_throw-found t.valuation transaction_not_found _ h0 in
        >>=-eq-ok (get_active_rules s.rule_sets tenant (first_metal t.items)) _ h1

    pub get_outstanding-eq-ok :
        {b : OutstandingBreakdown D}
        → get_outstanding cal now s tenant id ≡ ok b
        → (row : GirviTransaction D) × (find_where id (of_tenant tenant) s.transactions ≡ some row)
          × (outstanding_of cal now s tenant id row ≡ ok b)
    unfolding get_outstanding
    get_outstanding-eq-ok h =
        or_throw-found (find_where id (of_tenant tenant) s.transactions) transaction_not_found _ h

    -- A loan of another tenant is reported as not found.
    pub get_outstanding_isolated :
        {row : GirviTransaction D}
        → find id s.transactions ≡ some row
        → row.tenant ≢ tenant
        → get_outstanding cal now s tenant id ≡ err transaction_not_found
    unfolding get_outstanding
    get_outstanding_isolated {row} found other =
        let foreign : (row.tenant == tenant) ≡ false = ground arith in rw (found, foreign)
