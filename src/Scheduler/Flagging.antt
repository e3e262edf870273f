-- ===== src/Scheduler/Flagging.antt =====
-- `flagOverdueTransactions`: it flags exactly the loans that are past their due date and its grace.
use girvi_ghata_backend.Base.{
  ℕ, ◌+◌, ◌*◌, ◌≤◌, ◌<◌, ◌≡◌, ◌⊎◌, ◌↔◌, refl, inl, inr, map, Option-cases, Bool, true, false, not,
  ◌&&◌, Option, none, some, [], ◌∷◌, arith, if◌then◌else◌, ◌==◌, Bool-cases, length,
}
use girvi_ghata_backend.Calendar.{Instant}
use girvi_ghata_backend.Result.{Error, ok, err, Result-cases}
use girvi_ghata_backend.Types.{BusinessRules}
use girvi_ghata_backend.Rules.{get_active_rules}
use girvi_ghata_backend.Outstanding.{first_metal}
use girvi_ghata_backend.Table.{Table, find, select, find-update, update_option, keep_if}
use girvi_ghata_backend.Store.{Store, GirviTransaction, GirviStatus, RuleSet}
use girvi_ghata_backend.Payments.{metals_of, set_status}
use girvi_ghata_backend.Scheduler.{
  system_actor, can_become_overdue, is_candidate, in_grace, grace_days, flag_one, flag_all,
  flag_overdue_transactions,
}

abbrev pub IsFlaggable : GirviStatus → Type 0
IsFlaggable status =
    (status ≡ GirviStatus.active)
    ⊎ ((status ≡ GirviStatus.partially_paid) ⊎ (status ≡ GirviStatus.renewed))

can_become_overdue-IsFlaggable :
    (status : GirviStatus) → (can_become_overdue status ≡ true) ↔ IsFlaggable status
can_become_overdue-IsFlaggable status =
    (forward status, λ h. elim h [ inl e ↦ rw e | inr (inl e) ↦ rw e | inr (inr e) ↦ rw e ])
  where
    forward : (status : GirviStatus) → can_become_overdue status ≡ true → IsFlaggable status
    forward GirviStatus.active h = inl refl
    forward GirviStatus.partially_paid h = inr (inl refl)
    forward GirviStatus.renewed h = inr (inr refl)
    forward _ h = cc h

module _ {D : Type 0} where
  -- The test of the job's query and loop.
  abbrev pub is_due : Instant → Table (RuleSet D) → GirviTransaction D → Bool
  is_due now rules t = is_candidate now t && not (in_grace now (grace_days rules t) t.due_date)

  abbrev pub flag : GirviTransaction D → GirviTransaction D
  flag = set_status GirviStatus.overdue system_actor

  abbrev pub flag_if : Instant → Table (RuleSet D) → GirviTransaction D → GirviTransaction D
  flag_if now rules t = if is_due now rules t then flag t else t

  -- No id stands twice in the table, as the primary key promises.
  abbrev pub Unique : Table (GirviTransaction D) → Type 0
  Unique [] = Unit
  Unique ((k, t) ∷ ts) = (find k ts ≡ none) × Unique ts

  select-find :
      (p : GirviTransaction D → Bool) (k : ℕ) (ts : Table (GirviTransaction D))
      → Unique ts
      → find k (select p ts) ≡ keep_if p (find k ts)
  unfolding find select
  select-find p k [] u = refl
  select-find p k ((j, t) ∷ ts) (fresh, u) =
      let ih = select-find p k ts u in
      elim (Bool-cases (k == j)) [
        | inl e ↦
            let same : k ≡ j = ground arith in
            let gone : find k ts ≡ none = rw same fresh in
            elim (Bool-cases (p t)) [ inl y ↦ rw (y, e, y) | inr n ↦ rw (n, e, n, ih, gone) ]
        | inr e ↦ elim (Bool-cases (p t)) [ inl y ↦ rw (y, e, ih) | inr n ↦ rw (n, e, ih) ]
      ]

  Unique-select :
      (p : GirviTransaction D → Bool) (ts : Table (GirviTransaction D))
      → Unique ts
      → Unique (select p ts)
  unfolding select
  Unique-select p [] u = tt
  Unique-select p ((j, t) ∷ ts) (fresh, u) = elim (Bool-cases (p t)) [
    | inl y ↦ rw y (rw (select-find p j ts u, fresh) refl, Unique-select p ts u)
    | inr n ↦ rw n (Unique-select p ts u)
  ]

  -- What the loop makes of a row whose candidate, if it is one, is given.
  abbrev outcome :
      Instant
      → Table (RuleSet D)
      → Option (GirviTransaction D)
      → Option (GirviTransaction D)
      → Option (GirviTransaction D)
  outcome now rules none row = row
  outcome now rules (some t) row =
      if in_grace now (grace_days rules t) t.due_date then row else update_option flag row

  flag_one-rules :
      (now : Instant) (c : ℕ × GirviTransaction D) (acc : ℕ × Store D)
      → (flag_one now c acc).1.rule_sets ≡ acc.1.rule_sets
  unfolding flag_one
  flag_one-rules now (j, c) (n, s) =
      elim (Bool-cases (in_grace now (grace_days s.rule_sets c) c.due_date)) [
        | inl g ↦ rw g
        | inr g ↦ rw g
      ]

  flag_one-find :
      (now : Instant) (j k : ℕ) (c : GirviTransaction D) (acc : ℕ × Store D)
      → find k (flag_one now (j, c) acc).1.transactions ≡ (
          if k == j
          then outcome now acc.1.rule_sets (some c) (find k acc.1.transactions)
          else find k acc.1.transactions)
  unfolding flag_one
  flag_one-find now j k c (n, s) =
      elim (Bool-cases (in_grace now (grace_days s.rule_sets c) c.due_date)) [
        | inl g ↦ rw g (elim (Bool-cases (k == j)) [ inl e ↦ rw e | inr e ↦ rw e ])
        | inr g ↦ rw (g, find-update k j flag s.transactions)
      ]

  flag_all-find :
      (now : Instant) (cs : Table (GirviTransaction D)) (acc : ℕ × Store D) (k : ℕ)
      → Unique cs
      → find k (flag_all now cs acc).1.transactions
        ≡ outcome now acc.1.rule_sets (find k cs) (find k acc.1.transactions)
  unfolding flag_all find
  flag_all-find now [] acc k u = refl
  flag_all-find now ((j, c) ∷ cs) acc k (fresh, u) =
      let ih = flag_all-find now cs (flag_one now (j, c) acc) k u in
      rw (ih, flag_one-rules now (j, c) acc, flag_one-find now j k c acc)
        (elim (Bool-cases (k == j)) [
          | inl e ↦
              let same : k ≡ j = ground arith in
              let gone : find k cs ≡ none = rw same fresh in rw (e, gone)
          | inr e ↦ rw e
        ])

  outcome-flag_if :
      (now : Instant) (rules : Table (RuleSet D)) (row : Option (GirviTransaction D))
      → outcome now rules (keep_if (is_candidate now) row) row
        ≡ update_option (flag_if now rules) row
  outcome-flag_if now rules none = refl
  outcome-flag_if now rules (some t) = elim (Bool-cases (is_candidate now t)) [
    | inl c ↦ elim (Bool-cases (in_grace now (grace_days rules t) t.due_date)) [
      | inl g ↦ rw (c, g)
      | inr g ↦ rw (c, g)
    ]
    | inr c ↦ rw c
  ]

  flag_overdue_transactions-flag_if :
      (now : Instant) (s : Store D) (k : ℕ)
      → Unique s.transactions
      → find k (flag_overdue_transactions now s).1.transactions
        ≡ update_option (flag_if now s.rule_sets) (find k s.transactions)
  unfolding flag_overdue_transactions
  flag_overdue_transactions-flag_if now s k u =
      rw
        (
          flag_all-find now (select (is_candidate now) s.transactions) (0, s) k
              (Unique-select (is_candidate now) s.transactions u),
          select-find (is_candidate now) k s.transactions u,
        )
        (outcome-flag_if now s.rule_sets (find k s.transactions))

  -- The days of grace: those of the active rules of the loan's first metal, none without such rules.
  abbrev pub HasGrace : Table (RuleSet D) → GirviTransaction D → ℕ → Type 0
  HasGrace rule_sets t days =
      ((rules : BusinessRules D) × (get_active_rules rule_sets t.tenant
            (first_metal (map (λ i. i.metal_code) t.items))
          ≡ ok rules)
        × (days ≡ rules.grace_period_days))
      ⊎ ((e : Error) × (get_active_rules rule_sets t.tenant
              (first_metal (map (λ i. i.metal_code) t.items))
            ≡ err e)
          × (days ≡ 0))

  -- A loan is due: it is open, past its due date, and past the days of grace.
  pub record IsDue (now : Instant) (rule_sets : Table (RuleSet D)) (t : GirviTransaction D)
      : Type 0 where
    pub status : IsFlaggable t.status
    pub due : Instant
    pub due_on : t.due_date ≡ some due
    pub past : due < now
    pub days : ℕ
    pub grace : HasGrace rule_sets t days
    pub over : due + days * 86_400_000 ≤ now

  grace_days-HasGrace :
      (rule_sets : Table (RuleSet D)) (t : GirviTransaction D)
      → HasGrace rule_sets t (grace_days rule_sets t)
  grace_days-HasGrace rule_sets t =
      elim (Result-cases (get_active_rules rule_sets t.tenant (first_metal (metals_of t)))) [
        | inl (rules, e) ↦ inl (rules, e, rw e)
        | inr (e, h) ↦ inr (e, h, rw h)
      ]

  HasGrace-unique :
      (rule_sets : Table (RuleSet D)) (t : GirviTransaction D) (days : ℕ)
      → HasGrace rule_sets t days
      → days ≡ grace_days rule_sets t
  HasGrace-unique rule_sets t days (inl (rules, e, n)) = rw (e, n)
  HasGrace-unique rule_sets t days (inr (e, h, n)) = rw (h, n)

  is_due-IsDue :
      (now : Instant) (rule_sets : Table (RuleSet D)) (t : GirviTransaction D)
      → (is_due now rule_sets t ≡ true) ↔ IsDue now rule_sets t
  is_due-IsDue now rule_sets t = (
    λ h. elim (Option-cases t.due_date) [
      | inl e ↦ ground (arith, rw e at h)
      | inr (due, e) ↦
          let h' = rw e at h in
          record {
            status = (can_become_overdue-IsFlaggable t.status).0 (ground (arith, h'));
            due = due;
            due_on = e;
            past = ground (arith, h');
            days = grace_days rule_sets t;
            grace = grace_days-HasGrace rule_sets t;
            over = ground (arith, h');
          }
    ],
    λ h.
        let open' = (can_become_overdue-IsFlaggable t.status).1 h.status in
        let days = HasGrace-unique rule_sets t h.days h.grace in
        let over' = rw days at h.over in
        let past = h.past in rw (h.due_on, open') (ground (arith, past, over')),
  )

  -- After the overdue job a loan that was ACTIVE, PARTIALLY_PAID or RENEWED, past its due date and
  -- past the days of grace of the active rules of its first metal, with no grace if there are no
  -- such rules, is OVERDUE, and every other loan is as it was, if no id stands twice in the table.
  pub flag_overdue_transactions_lem :
      (now : Instant) (s : Store D) (k : ℕ) (t : GirviTransaction D)
      → Unique s.transactions
      → find k s.transactions ≡ some t
      → (IsDue now s.rule_sets t
          × (find k (flag_overdue_transactions now s).1.transactions
              ≡ some (record t { status = GirviStatus.overdue; updated_by = some system_actor })))
        ⊎ ((¬ IsDue now s.rule_sets t)
            × (find k (flag_overdue_transactions now s).1.transactions ≡ some t))
  flag_overdue_transactions_lem now s k t u found =
      let after = flag_overdue_transactions-flag_if now s k u in
      elim (Bool-cases (is_due now s.rule_sets t)) [
        | inl e ↦ inl ((is_due-IsDue now s.rule_sets t).0 e, rw (found, e) at after)
        | inr e ↦ inr (
          λ due. let e' = (is_due-IsDue now s.rule_sets t).1 due in cc (e, e'),
          rw (found, e) at after,
        )
      ]

  flag_one-spared :
      (now : Instant) (j : ℕ) (t : GirviTransaction D) (n : ℕ) (s : Store D)
      → in_grace now (grace_days s.rule_sets t) t.due_date ≡ true
      → (flag_one now (j, t) (n, s)).0 ≡ n
  unfolding flag_one
  flag_one-spared now j t n s g = rw g

  flag_one-counted :
      (now : Instant) (j : ℕ) (t : GirviTransaction D) (n : ℕ) (s : Store D)
      → in_grace now (grace_days s.rule_sets t) t.due_date ≡ false
      → (flag_one now (j, t) (n, s)).0 ≡ n + 1
  unfolding flag_one
  flag_one-counted now j t n s g = rw g

  flag_all-count :
      (now : Instant) (ts : Table (GirviTransaction D)) (acc : ℕ × Store D)
      → (flag_all now (select (is_candidate now) ts) acc).0
        ≡ acc.0 + length (select (is_due now acc.1.rule_sets) ts)
  unfolding flag_all select flag_one
  flag_all-count now [] acc = omega arith
  flag_all-count now ((j, t) ∷ ts) (n, s) = elim (Bool-cases (is_candidate now t)) [
    | inl c ↦ elim (Bool-cases (in_grace now (grace_days s.rule_sets t) t.due_date)) [
      | inl g ↦
          let ih = flag_all-count now ts (flag_one now (j, t) (n, s)) in
          let ih' = rw (flag_one-rules now (j, t) (n, s), flag_one-spared now j t n s g) at ih in
          rw (c, g) (omega (arith, ih'))
      | inr g ↦
          let ih = flag_all-count now ts (flag_one now (j, t) (n, s)) in
          let ih' = rw (flag_one-rules now (j, t) (n, s), flag_one-counted now j t n s g) at ih in
          rw (c, g) (omega (arith, ih'))
    ]
    | inr c ↦ rw c (flag_all-count now ts (n, s))
  ]

  -- The number that the overdue job counts is the number of loans that were due.
  pub flag_overdue_transactions-count :
      (now : Instant) (s : Store D)
      → (flag_overdue_transactions now s).0
        ≡ length (select (is_due now s.rule_sets) s.transactions)
  unfolding flag_overdue_transactions
  flag_overdue_transactions-count now s =
      let h = flag_all-count now s.transactions (0, s) in omega (arith, h)
