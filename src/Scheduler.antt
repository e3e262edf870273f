-- ===== src/Scheduler.antt =====
-- src/modules/scheduler/overdue-scheduler.service.ts
pub mod Flagging
use girvi_ghata_backend.Base.{
  ℕ, ◌+◌, ◌*◌, Bool, true, false, ◌&&◌, Option, none, some, List, [], ◌∷◌, map, ltb, if◌then◌else◌,
}
use girvi_ghata_backend.Calendar.{Instant, day_ms}
use girvi_ghata_backend.Result.{Result, ok, err}
use girvi_ghata_backend.Table.{Table, select, update}
use girvi_ghata_backend.Types.{BusinessRules}
use girvi_ghata_backend.Store.{
  Store, RuleSet, GirviTransaction, GirviStatus, AuditEntry, girvi_auto_overdue,
}
use girvi_ghata_backend.Rules.{get_active_rules}
use girvi_ghata_backend.Outstanding.{first_metal}
use girvi_ghata_backend.Payments.{metals_of, set_status}

-- The user id 'system-scheduler', which no user has.
abbrev pub system_actor : ℕ
system_actor = 0

-- ['ACTIVE', 'PARTIALLY_PAID', 'RENEWED']
abbrev pub can_become_overdue : GirviStatus → Bool
can_become_overdue GirviStatus.active = true
can_become_overdue GirviStatus.partially_paid = true
can_become_overdue GirviStatus.renewed = true
can_become_overdue _ = false

-- `dueDate: { not: null, lt: now }`
abbrev pub is_past : Instant → Option Instant → Bool
is_past now none = false
is_past now (some due) = ltb due now

-- `graceDeadline.getTime() > Date.now()`, where the due date is there
abbrev pub in_grace : Instant → ℕ → Option Instant → Bool
in_grace now grace none = true
in_grace now grace (some due) = ltb now (due + grace * day_ms)

module _ {D : Type 0} where
  abbrev pub is_candidate : Instant → GirviTransaction D → Bool
  is_candidate now t = can_become_overdue t.status && is_past now t.due_date

  abbrev pub grace_of : Result (BusinessRules D) → ℕ
  grace_of (ok rules) = rules.grace_period_days
  grace_of (err _) = 0

  -- No grace if the metal has no active rules.
  abbrev pub grace_days : Table (RuleSet D) → GirviTransaction D → ℕ
  grace_days rule_sets t =
      grace_of (get_active_rules rule_sets t.tenant (first_metal (metals_of t)))

  -- One round of the loop: the store, and how many were flagged.
  unfoldable pub flag_one : Instant → ℕ × GirviTransaction D → ℕ × Store D → ℕ × Store D
  flag_one now (id, t) (flagged, s) =
      let entry : AuditEntry = record {
        tenant = t.tenant;
        actor = none;
        action = girvi_auto_overdue;
        entity_id = id;
      } in
      let s' = record s {
        transactions = update id (set_status GirviStatus.overdue system_actor) s.transactions;
        audit = entry ∷ s.audit;
      } in
      if in_grace now (grace_days s.rule_sets t) t.due_date then (flagged, s) else (flagged + 1, s')

  unfoldable pub flag_all : Instant → Table (GirviTransaction D) → ℕ × Store D → ℕ × Store D
  flag_all now [] acc = acc
  flag_all now (c ∷ cs) acc = flag_all now cs (flag_one now c acc)

  unfoldable pub flag_overdue_transactions : Instant → Store D → ℕ × Store D
  flag_overdue_transactions now s = flag_all now (select (is_candidate now) s.transactions) (0, s)
