-- ===== src/Rules.antt =====
-- src/modules/rules/rules.service.ts
pub mod Versions
use girvi_ghata_backend.Base.{
  ℕ, ◌+◌, Bool, true, false, not, ◌&&◌, Option, none, some, List, [], ◌∷◌, ltb, ◌==◌, if◌then◌else◌,
  is_none,
}
use girvi_ghata_backend.Result.{
  Result, no_active_rules, unique_violation, or_throw, throw_if, ◌>>=◌, ◌>>◌, ok,
}
use girvi_ghata_backend.Types.{BusinessRules}
use girvi_ghata_backend.Table.{Table, find_first, select, update, create}
use girvi_ghata_backend.Store.{Store, RuleSet, Context, AuditEntry, rules_change}

module _ {D : Type 0} where
  abbrev pub is_current : ℕ → ℕ → RuleSet D → Bool
  is_current tenant metal r = r.tenant == tenant && r.metal_code == metal && r.is_active

  -- `orderBy: { version: 'desc' }`, and the first row
  unfoldable pub latest : Table (RuleSet D) → Option (ℕ × RuleSet D)
  latest [] = none
  latest (r ∷ rs) = elim (latest rs) [
    | none ↦ some r
    | some b ↦ if ltb r.1.version b.1.version then some b else some r
  ]

  unfoldable pub find_active : Table (RuleSet D) → ℕ → ℕ → Option (ℕ × RuleSet D)
  find_active rows tenant metal = latest (select (is_current tenant metal) rows)

  unfoldable pub get_active_rules : Table (RuleSet D) → ℕ → ℕ → Result (BusinessRules D)
  get_active_rules rows tenant metal = do
    row ← or_throw (find_active rows tenant metal) no_active_rules
    ok (record row.1.rules { rule_set_id = row.0 })

  retire : Option (ℕ × RuleSet D) → Table (RuleSet D) → Table (RuleSet D)
  retire none rows = rows
  retire (some (k, _)) rows = update k (λ r. record r { is_active = false }) rows

  unfoldable pub next_version : Option (ℕ × RuleSet D) → ℕ
  next_version none = 1
  next_version (some (_, r)) = r.version + 1

  -- The unique index of the rule sets.
  abbrev pub is_version : ℕ → ℕ → ℕ → RuleSet D → Bool
  is_version tenant metal version r =
      r.tenant == tenant && r.metal_code == metal && r.version == version

  -- What the transaction of `createNewVersion` writes.
  unfoldable pub write_version : Store D → Context → ℕ → BusinessRules D → ℕ → RuleSet D × Store D
  unfolding retire
  write_version s ctx metal rules id =
      let previous = find_active s.rule_sets ctx.tenant_id metal in
      let created : RuleSet D = record {
        tenant = ctx.tenant_id;
        metal_code = metal;
        version = next_version previous;
        is_active = true;
        rules = rules;
      } in
      let entry : AuditEntry = record {
        tenant = ctx.tenant_id;
        actor = some ctx.user_id;
        action = rules_change;
        entity_id = id;
      } in
      (
        created,
        record s {
          rule_sets = create id created (retire previous s.rule_sets);
          audit = entry ∷ s.audit;
        },
      )

  -- `id` is the one that the database draws for the new row; `metal` and `rules` are the DTO.
  unfoldable pub create_new_version :
      Store D → Context → ℕ → BusinessRules D → ℕ → Result (RuleSet D × Store D)
  create_new_version s ctx metal rules id = do
    let version = next_version (find_active s.rule_sets ctx.tenant_id metal)
    throw_if (not (is_none (find_first (is_version ctx.tenant_id metal version) s.rule_sets)))
        unique_violation
    ok (write_version s ctx metal rules id)
