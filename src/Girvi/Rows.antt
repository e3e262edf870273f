-- ===== src/Girvi/Rows.antt =====
-- What the rows of a list of loans show.
use mathlib.Core.Path.{subst}
use girvi_ghata_backend.Base.{ℕ, ◌≡◌, refl, Bool, List, [], ◌∷◌, All}
use girvi_ghata_backend.Decimal.{Decimal}
use girvi_ghata_backend.Calendar.{Instant, Calendar}
use girvi_ghata_backend.Result.{ok, >>=-eq-ok, ok-injective}
use girvi_ghata_backend.Types.{BusinessRules, OutstandingBreakdown}
use girvi_ghata_backend.Table.{Table}
use girvi_ghata_backend.Store.{Store, Context, GirviTransaction}
use girvi_ghata_backend.Engine.{calculate_calendar_months_elapsed}
use girvi_ghata_backend.Rules.{get_active_rules}
use girvi_ghata_backend.Outstanding.{
  for_outstanding, include_all, first_metal, compute_breakdown, compute_outstanding_for_preloaded,
}
use girvi_ghata_backend.Outstanding.Bulk.{
  DistinctIds, Agrees, compute_outstanding_for_preloaded-Agrees,
}
use girvi_ghata_backend.Girvi.Listing.{
  ListGirvi, GirviRow, GirviPage, girvi_rows, page_of, list_girvi,
}

module _ {D : Type 0} ⦃d : Decimal D⦄ where
  module _ (cal : Calendar) (now : Instant) (s : Store D) (tenant : ℕ) where
    -- A row of the answer shows what the calculation of a single loan gives.
    abbrev pub IsRowOf : ℕ × GirviTransaction D → GirviRow D → Type 0
    IsRowOf (id, t) r =
        (r.id ≡ id)
        × (rules : BusinessRules D) × (b : OutstandingBreakdown D) × (get_active_rules s.rule_sets
              tenant (first_metal (for_outstanding s.payments id t).items)
            ≡ ok rules)
        × (compute_breakdown cal now (for_outstanding s.payments id t) rules ≡ ok b)
        × (r.interest_accrued ≡ b.interest_accrued)

    abbrev pub RowsOf : Table (GirviTransaction D) → List (GirviRow D) → Type 0
    RowsOf [] [] = Unit
    RowsOf [] (_ ∷ _) = ⊥
    RowsOf (_ ∷ _) [] = ⊥
    RowsOf (t ∷ ts) (r ∷ rs) = IsRowOf t r × RowsOf ts rs

    girvi_rows-RowsOf :
        (breakdowns : Table (OutstandingBreakdown D)) (rows : Table (GirviTransaction D))
        {results : List (GirviRow D)}
        → All (Agrees cal now s tenant breakdowns) (include_all s.payments rows)
        → girvi_rows cal now breakdowns rows ≡ ok results
        → RowsOf rows results
    unfolding girvi_rows for_outstanding
    girvi_rows-RowsOf breakdowns [] agrees h = subst (RowsOf []) (ok-injective h) tt
    girvi_rows-RowsOf breakdowns ((id, t) ∷ rows) (first, agrees) h0 =
        let (months, _, h1) =
          >>=-eq-ok (calculate_calendar_months_elapsed cal t.pledge_date now) _ h0 in
        let (rest, made, h) = >>=-eq-ok (girvi_rows cal now breakdowns rows) _ h1 in
        let (rules, b, active, computed, found) = first in
        subst (RowsOf ((id, t) ∷ rows)) (ok-injective h) (
          (refl, rules, b, active, computed, rw found),
          girvi_rows-RowsOf breakdowns rows agrees made,
        )

  -- When the list returns, its rows are those of the page, in order, and the interest that each
  -- shows is that of computeBreakdown for the loan under its metal's active rules, if no two loans
  -- of the page have the same id.
  pub list_girvi-RowsOf :
      (cal : Calendar) (now : Instant) (s : Store D) (ctx : Context) (query : ListGirvi)
      (matches : GirviTransaction D → Bool)
      (order : Table (GirviTransaction D) → Table (GirviTransaction D)) {answer : GirviPage D}
      → DistinctIds (include_all s.payments (page_of s ctx query matches order))
      → list_girvi cal now s ctx query matches order ≡ ok answer
      → RowsOf cal now s ctx.tenant_id (page_of s ctx query matches order) answer.results
  unfolding list_girvi
  list_girvi-RowsOf cal now s ctx query matches order unique h0 =
      let rows = page_of s ctx query matches order in
      let (breakdowns, computed, h1) =
        >>=-eq-ok
          (compute_outstanding_for_preloaded cal now s ctx.tenant_id (include_all s.payments rows))
          _ h0 in
      let (results, made, h) = >>=-eq-ok (girvi_rows cal now breakdowns rows) _ h1 in
      let agrees =
        compute_outstanding_for_preloaded-Agrees cal now s ctx.tenant_id
          (include_all s.payments rows) unique computed in
      subst (λ (q : GirviPage D). RowsOf cal now s ctx.tenant_id rows q.results) (ok-injective h)
        (girvi_rows-RowsOf cal now s ctx.tenant_id breakdowns rows agrees made)
