-- ===== src/Outstanding/Bulk.antt =====
-- `computeOutstandingForPreloaded`: the bulk path agrees with the single one.
use girvi_ghata_backend.Base.{
  ℕ, ◌≡◌, ◌≢◌, ◌∙◌, inl, inr, false, some, List, [], ◌∷◌, map, arith, ◌==◌, Bool-cases, All,
  ==_refl, distinct,
}
use girvi_ghata_backend.Decimal.{Decimal}
use girvi_ghata_backend.Calendar.{Instant, Calendar}
use girvi_ghata_backend.Result.{
  ok, >>=-eq-ok, or_throw-found, ok-injective, transaction_not_found, no_active_rules,
}
use girvi_ghata_backend.Types.{BusinessRules, OutstandingBreakdown}
use girvi_ghata_backend.Table.{Table, find, put, find-put}
use girvi_ghata_backend.Store.{Store}
use girvi_ghata_backend.Rules.{get_active_rules}
use girvi_ghata_backend.Outstanding.{
  TransactionForOutstanding, first_metal, compute_breakdown, rules_by_metal, breakdowns,
  compute_outstanding_for_preloaded,
}

module _ {D : Type 0} ⦃d : Decimal D⦄ where
  -- Every entry is the active rules of its metal.
  abbrev IsSound : Store D → ℕ → Table (BusinessRules D) → Type 0
  IsSound s tenant table =
      (m : ℕ) (r : BusinessRules D)
      → find m table ≡ some r
      → get_active_rules s.rule_sets tenant m ≡ ok r

  put-IsSound :
      (s : Store D) (tenant m : ℕ) (r : BusinessRules D) (table : Table (BusinessRules D))
      → get_active_rules s.rule_sets tenant m ≡ ok r
      → IsSound s tenant table
      → IsSound s tenant (put m r table)
  put-IsSound s tenant m r table active h k q found = elim (Bool-cases (k == m)) [
    | inl e ↦
        let same : k ≡ m = ground arith in
        let it : some r ≡ some q = rw (find-put k m r table, e) at found in cc
    | inr e ↦ h k q (rw (find-put k m r table, e) at found)
  ]

  rules_by_metal-IsSound :
      (s : Store D) (tenant : ℕ) (ms : List ℕ) (acc : Table (BusinessRules D))
      {table : Table (BusinessRules D)}
      → IsSound s tenant acc
      → rules_by_metal s tenant ms acc ≡ ok table
      → IsSound s tenant table
  unfolding rules_by_metal
  rules_by_metal-IsSound s tenant [] acc h e = rw⁻¹ (ok-injective e) h
  rules_by_metal-IsSound s tenant (m ∷ ms) acc h e =
      let (r, active, rest) = >>=-eq-ok (get_active_rules s.rule_sets tenant m) _ e in
      rules_by_metal-IsSound s tenant ms (put m r acc) (put-IsSound s tenant m r acc active h) rest

  abbrev pub DistinctIds : List (TransactionForOutstanding D) → Type 0
  DistinctIds [] = Unit
  DistinctIds (t ∷ ts) = All (λ u. t.id ≢ u.id) ts × DistinctIds ts

  module _ (cal : Calendar) (now : Instant) (s : Store D) (tenant : ℕ) where
    -- The entry of a loan is what the shared calculation gives for it under its metal's active rules.
    abbrev pub Agrees : Table (OutstandingBreakdown D) → TransactionForOutstanding D → Type 0
    Agrees results t =
        (rules : BusinessRules D) × (b : OutstandingBreakdown D) × (get_active_rules s.rule_sets
            tenant (first_metal t.items)
          ≡ ok rules)
        × (compute_breakdown cal now t rules ≡ ok b)
        × (find t.id results ≡ some b)

    breakdowns-keeps :
        (table : Table (BusinessRules D)) (ts : List (TransactionForOutstanding D))
        (acc : Table (OutstandingBreakdown D)) {results : Table (OutstandingBreakdown D)} (k : ℕ)
        → All (λ u. k ≢ u.id) ts
        → breakdowns cal now table ts acc ≡ ok results
        → find k results ≡ find k acc
    unfolding breakdowns
    breakdowns-keeps table [] acc k other e = rw (ok-injective e)
    breakdowns-keeps table (t ∷ ts) acc k (ne, others) e0 =
        let (_, _, e1) = or_throw-found t.valuation transaction_not_found _ e0 in
        let (active, _, e2) =
          or_throw-found (find (first_metal t.items) table) no_active_rules _ e1 in
        let (b, _, e3) = >>=-eq-ok (compute_breakdown cal now t active) _ e2 in
        let differ : (k == t.id) ≡ false = ground arith in
        breakdowns-keeps table ts (put t.id b acc) k others e3 ∙ rw (find-put k t.id b acc, differ)

    breakdowns-Agrees :
        (table : Table (BusinessRules D)) (ts : List (TransactionForOutstanding D))
        (acc : Table (OutstandingBreakdown D)) {results : Table (OutstandingBreakdown D)}
        → IsSound s tenant table
        → DistinctIds ts
        → breakdowns cal now table ts acc ≡ ok results
        → All (Agrees results) ts
    unfolding breakdowns
    breakdowns-Agrees table [] acc sound ids e = tt
    breakdowns-Agrees table (t ∷ ts) acc sound (fresh, ids) e0 =
        let (_, _, e1) = or_throw-found t.valuation transaction_not_found _ e0 in
        let (active, found, e2) =
          or_throw-found (find (first_metal t.items) table) no_active_rules _ e1 in
        let (b, computed, e3) = >>=-eq-ok (compute_breakdown cal now t active) _ e2 in
        (
          (
            active,
            b,
            sound _ active found,
            computed,
            breakdowns-keeps table ts (put t.id b acc) t.id fresh e3
                ∙ rw (find-put t.id t.id b acc, ==_refl t.id),
          ),
          breakdowns-Agrees table ts (put t.id b acc) sound ids e3,
        )

    no_rules-IsSound : IsSound s tenant []
    unfolding find
    no_rules-IsSound m r h = cc

    -- When the bulk path returns, the entry of every loan handed to it, where no two have the same
    -- id, is what computeBreakdown gives for that loan under its metal's active rules, as on the
    -- path of a single loan.
    pub compute_outstanding_for_preloaded-Agrees :
        (ts : List (TransactionForOutstanding D)) {results : Table (OutstandingBreakdown D)}
        → DistinctIds ts
        → compute_outstanding_for_preloaded cal now s tenant ts ≡ ok results
        → All (Agrees results) ts
    unfolding compute_outstanding_for_preloaded
    compute_outstanding_for_preloaded-Agrees [] ids e = tt
    compute_outstanding_for_preloaded-Agrees (t ∷ ts) ids e0 =
        let metals = distinct (map (λ u. first_metal u.items) (t ∷ ts)) in
        let (table, made, e1) = >>=-eq-ok (rules_by_metal s tenant metals []) _ e0 in
        breakdowns-Agrees table (t ∷ ts) []
          (rules_by_metal-IsSound s tenant metals [] no_rules-IsSound made) ids e1
