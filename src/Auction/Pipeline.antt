-- ===== src/Auction/Pipeline.antt =====
-- The operations of the auction, each of them one step of a case's pipeline.
use mathlib.Core.Path.{subst}
use girvi_ghata_backend.Base.{
  ℕ, ◌+◌, ◌≤◌, ◌≡◌, ◌≢◌, inl, inr, refl, sym, ap, ◌∙◌, false, not, Option, none, some, arith, ◌==◌,
  if◌then◌else◌, Bool-cases,
}
use girvi_ghata_backend.Decimal.{Decimal}
use girvi_ghata_backend.Calendar.{Instant, Calendar}
use girvi_ghata_backend.Result.{
  Error, ok, >>=-eq-ok, or_throw-found, throw_if-passed, ok-injective, or_throw,
  transaction_not_found, not_overdue, case_exists, case_not_found, wrong_case_status, no_settlement,
}
use girvi_ghata_backend.Engine.{override, calculate_outstanding}
use girvi_ghata_backend.Table.{
  Table, find, find_where, update, create, find-update_self, find-update_ne, find-create_self,
  find-create_ne,
}
use girvi_ghata_backend.Store.{Store, Columns, Context, AuctionCase, AuctionStatus}
use girvi_ghata_backend.Outstanding.{get_outstanding, of_tenant}
use girvi_ghata_backend.Auction.{
  is_overdue, status_code, get_case, case_if, send_notice, mark_eligible, schedule, record_sale,
  close_case,
}
use girvi_ghata_backend.Redemption.Release.{is_there-none}
use girvi_ghata_backend.Redemption.{is_there}
use girvi_ghata_backend.Auction.Cases.{
  CaseStep, notify, make_eligible, plan, sell, finish, AllConsistent, CaseStep-IsConsistent,
  CaseStep-stage, stage,
}

status_at : ℕ → AuctionStatus
status_at n =
    if n == 0
    then AuctionStatus.notice
    else if n == 1
    then AuctionStatus.auction_eligible
    else if n == 2
    then AuctionStatus.scheduled
    else if n == 3
    then AuctionStatus.auctioned
    else AuctionStatus.closed

status_at-status_code : (a : AuctionStatus) → status_at (status_code a) ≡ a
unfolding status_at
status_at-status_code AuctionStatus.notice = refl
status_at-status_code AuctionStatus.auction_eligible = refl
status_at-status_code AuctionStatus.scheduled = refl
status_at-status_code AuctionStatus.auctioned = refl
status_at-status_code AuctionStatus.closed = refl

-- `assertTransition` lets through only the expected status.
status_code-injective : (a b : AuctionStatus) → not (status_code a == status_code b) ≡ false → a ≡ b
status_code-injective a b h =
    let same : status_code a ≡ status_code b = ground arith in
    sym (status_at-status_code a) ∙ ap status_at same ∙ status_at-status_code b

or_throw-some : {A : Type 0} (o : Option A) (e : Error) {a : A} → or_throw o e ≡ ok a → o ≡ some a
or_throw-some none e h = cc
or_throw-some (some _) e h = ap some (ok-injective h)

module _ {D : Type 0} where
  case_if-found :
      {A : Type 0} (o : Option A) (c : Option (AuctionCase D)) {x : AuctionCase D}
      → case_if o c ≡ some x
      → c ≡ some x
  case_if-found none c h = cc
  case_if-found (some _) c h = h

  get_case-found :
      (s : Store D) (tenant id : ℕ) {c : AuctionCase D}
      → get_case s tenant id ≡ ok c
      → find id s.auction_cases ≡ some c
  unfolding get_case
  get_case-found s tenant id h =
      case_if-found (find_where id (of_tenant tenant) s.transactions) _ (or_throw-some _ _ h)

module _ {D : Type 0} ⦃d : Decimal D⦄ ⦃col : Columns D⦄ where
  -- A step of the case of one transaction: it is a step of the pipeline, and no other case changes.
  abbrev pub Moves : ℕ → Table (AuctionCase D) → AuctionCase D → Table (AuctionCase D) → Type 0
  Moves id cases c cases' =
      CaseStep (find id cases) c
      × (find id cases' ≡ some c)
      × ((k : ℕ) → k ≢ id → find k cases' ≡ find k cases)

  updated :
      (id : ℕ) (cases : Table (AuctionCase D)) (c : AuctionCase D)
      (set : AuctionCase D → AuctionCase D)
      → find id cases ≡ some c
      → CaseStep (some c) (set c)
      → Moves id cases (set c) (update id set cases)
  updated id cases c set found step = (
    subst (λ o. CaseStep o (set c)) (sym found) step,
    find-update_self id set cases found,
    λ k ne. find-update_ne k id set cases ne,
  )

  added :
      (id : ℕ) (cases : Table (AuctionCase D)) (c : AuctionCase D)
      → find id cases ≡ none
      → CaseStep none c
      → Moves id cases c (create id c cases)
  added id cases c first step = (
    subst (λ o. CaseStep o c) (sym first) step,
    find-create_self id c cases,
    λ k ne. find-create_ne k id c cases ne,
  )

  module _ (s : Store D) (ctx : Context) (id : ℕ) {c : AuctionCase D} {s' : Store D} where
    send_notice-Moves :
        (now : Instant)
        → send_notice now s ctx id ≡ ok (c, s')
        → Moves id s.auction_cases c s'.auction_cases
    unfolding send_notice
    send_notice-Moves now h0 =
        let (row, _, h1) =
          or_throw-found (find_where id (of_tenant ctx.tenant_id) s.transactions)
            transaction_not_found _ h0 in
        let (_, h2) = throw_if-passed (not (is_overdue row.status)) not_overdue _ h1 in
        let (first, h3) = throw_if-passed (is_there (find id s.auction_cases)) case_exists _ h2 in
        subst (λ (q : AuctionCase D × Store D). Moves id s.auction_cases q.0 q.1.auction_cases)
          (ok-injective h3)
          (added id s.auction_cases _ (is_there-none _ first) (notify now ctx.user_id))

    schedule-Moves :
        (at : Instant)
        → schedule at s ctx id ≡ ok (c, s')
        → Moves id s.auction_cases c s'.auction_cases
    unfolding schedule
    schedule-Moves at h0 =
        let (a, e, h1) = >>=-eq-ok (get_case s ctx.tenant_id id) _ h0 in
        let (ready, h2) =
          throw_if-passed (not (status_code a.status == status_code AuctionStatus.auction_eligible))
            wrong_case_status _ h1 in
        subst (λ (q : AuctionCase D × Store D). Moves id s.auction_cases q.0 q.1.auction_cases)
          (ok-injective h2)
          (updated id s.auction_cases a _ (get_case-found s ctx.tenant_id id e)
            (plan at a (status_code-injective _ _ ready)))

    close_case-Moves :
        close_case s ctx id ≡ ok (c, s') → Moves id s.auction_cases c s'.auction_cases
    unfolding close_case
    close_case-Moves h0 =
        let (a, e, h1) = >>=-eq-ok (get_case s ctx.tenant_id id) _ h0 in
        let (ready, h2) =
          throw_if-passed (not (status_code a.status == status_code AuctionStatus.auctioned))
            wrong_case_status _ h1 in
        subst (λ (q : AuctionCase D × Store D). Moves id s.auction_cases q.0 q.1.auction_cases)
          (ok-injective h2)
          (updated id s.auction_cases a _ (get_case-found s ctx.tenant_id id e)
            (finish a (status_code-injective _ _ ready)))

    mark_eligible-Moves :
        (cal : Calendar) (now : Instant) (reserve : Option D)
        → mark_eligible cal now s ctx id reserve ≡ ok (c, s')
        → Moves id s.auction_cases c s'.auction_cases
    unfolding mark_eligible
    mark_eligible-Moves cal now reserve h0 =
        let (a, e, h1) = >>=-eq-ok (get_case s ctx.tenant_id id) _ h0 in
        let (ready, h2) =
          throw_if-passed (not (status_code a.status == status_code AuctionStatus.notice))
            wrong_case_status _ h1 in
        let (b, _, h3) = >>=-eq-ok (get_outstanding cal now s ctx.tenant_id id) _ h2 in
        subst (λ (q : AuctionCase D × Store D). Moves id s.auction_cases q.0 q.1.auction_cases)
          (ok-injective h3)
          (updated id s.auction_cases a _ (get_case-found s ctx.tenant_id id e) (
            make_eligible now b (override reserve (calculate_outstanding b)) a
              (status_code-injective _ _ ready)))

    record_sale-Moves :
        (now : Instant) (sale : D) (buyer : ℕ)
        → record_sale now s ctx id sale buyer ≡ ok (c, s')
        → Moves id s.auction_cases c s'.auction_cases
    unfolding record_sale
    record_sale-Moves now sale buyer h =
        let (_, _, h0) =
          or_throw-found (find_where id (of_tenant ctx.tenant_id) s.transactions) case_not_found _
            h in
        let (a, e, h1) = >>=-eq-ok (get_case s ctx.tenant_id id) _ h0 in
        let (ready, h2) =
          throw_if-passed (not (status_code a.status == status_code AuctionStatus.scheduled))
            wrong_case_status _ h1 in
        let (t, settled, h3) = or_throw-found a.settlement no_settlement _ h2 in
        subst (λ (q : AuctionCase D × Store D). Moves id s.auction_cases q.0 q.1.auction_cases)
          (ok-injective h3)
          (updated id s.auction_cases a _ (get_case-found s ctx.tenant_id id e)
            (sell now sale buyer t a (status_code-injective _ _ ready) settled))

  -- A call of one of the five operations that returns.
  pub data Step : Store D → Store D → Type 0 where
    send_notice_step :
        (now : Instant) (s : Store D) (ctx : Context) (id : ℕ) (c : AuctionCase D) (s' : Store D)
        → send_notice now s ctx id ≡ ok (c, s')
        → Step s s'
    mark_eligible_step :
        (cal : Calendar) (now : Instant) (s : Store D) (ctx : Context) (id : ℕ) (reserve : Option D)
        (c : AuctionCase D) (s' : Store D)
        → mark_eligible cal now s ctx id reserve ≡ ok (c, s')
        → Step s s'
    schedule_step :
        (date : Instant) (s : Store D) (ctx : Context) (id : ℕ) (c : AuctionCase D) (s' : Store D)
        → schedule date s ctx id ≡ ok (c, s')
        → Step s s'
    record_sale_step :
        (now : Instant) (s : Store D) (ctx : Context) (id : ℕ) (sale : D) (buyer : ℕ)
        (c : AuctionCase D) (s' : Store D)
        → record_sale now s ctx id sale buyer ≡ ok (c, s')
        → Step s s'
    close_step :
        (s : Store D) (ctx : Context) (id : ℕ) (c : AuctionCase D) (s' : Store D)
        → close_case s ctx id ≡ ok (c, s')
        → Step s s'

  pub data Steps (s : Store D) : Store D → Type 0 where
    here : Steps s s
    more : {t u : Store D} → Steps s t → Step t u → Steps s u

  -- Each call of an operation of the auction that returns takes one case one step along the
  -- pipeline NOTICE, AUCTION_ELIGIBLE, SCHEDULED, AUCTIONED, CLOSED, from the stage just before,
  -- and leaves every other case as it was.
  pub Step-Moves :
      {s s' : Store D}
      → Step s s'
      → (id : ℕ) × (c : AuctionCase D) × Moves id s.auction_cases c s'.auction_cases
  Step-Moves (send_notice_step now s ctx id c s' h) = (id, c, send_notice-Moves s ctx id now h)
  Step-Moves (mark_eligible_step cal now s ctx id reserve c s' h) =
      (id, c, mark_eligible-Moves s ctx id cal now reserve h)
  Step-Moves (schedule_step date s ctx id c s' h) = (id, c, schedule-Moves s ctx id date h)
  Step-Moves (record_sale_step now s ctx id sale buyer c s' h) =
      (id, c, record_sale-Moves s ctx id now sale buyer h)
  Step-Moves (close_step s ctx id c s' h) = (id, c, close_case-Moves s ctx id h)

  abbrev pub CasesConsistent : Store D → Type 0
  CasesConsistent s = (k : ℕ) → AllConsistent (find k s.auction_cases)

  Step-CasesConsistent : {s s' : Store D} → Step s s' → CasesConsistent s → CasesConsistent s'
  Step-CasesConsistent step h k =
      let (id, c, (moved, now, others)) = Step-Moves step in
      elim (Bool-cases (k == id)) [
        | inl e ↦
            let same : k ≡ id = ground arith in rw (same, now) (CaseStep-IsConsistent moved (h id))
        | inr e ↦ let differ : k ≢ id = ground arith in rw (others k differ) (h k)
      ]

  -- After any run of the auction's five operations every case still has what its status promises: a
  -- notice has no settlement, an eligible or scheduled case has one without a sale, and a sold or
  -- closed case records its dates, its sale, and the sale less principal, interest and charges as
  -- its profit.
  pub Steps-CasesConsistent : {s s' : Store D} → Steps s s' → CasesConsistent s → CasesConsistent s'
  Steps-CasesConsistent here h = h
  Steps-CasesConsistent (more steps step) h =
      Step-CasesConsistent step (Steps-CasesConsistent steps h)

  Step-stage :
      {s s' : Store D} (k : ℕ)
      → Step s s'
      → stage (find k s.auction_cases) ≤ stage (find k s'.auction_cases)
  Step-stage k step =
      let (id, c, (moved, now, others)) = Step-Moves step in
      elim (Bool-cases (k == id)) [
        | inl e ↦
            let same : k ≡ id = ground arith in
            let next : stage (some c) ≡ stage (find id _) + 1 = CaseStep-stage moved in
            rw (same, now) (omega arith)
        | inr e ↦ let differ : k ≢ id = ground arith in rw (others k differ) (omega arith)
      ]

  -- A run of the auction's operations never takes a case back to an earlier stage.
  pub Steps-stage :
      {s s' : Store D} (k : ℕ)
      → Steps s s'
      → stage (find k s.auction_cases) ≤ stage (find k s'.auction_cases)
  Steps-stage k here = omega arith
  Steps-stage k (more steps step) =
      let first = Steps-stage k steps in let second = Step-stage k step in omega arith
