-- ===== src/Rules/Versions.antt =====
-- `createNewVersion`: one active version for each metal, and old versions kept.
use mathlib.Core.Path.{subst}
use girvi_ghata_backend.Base.{
  ℕ, ◌≡◌, refl, inl, inr, false, Option, none, some, [], ◌∷◌, arith, if◌then◌else◌, ◌==◌,
  Bool-cases, ==_refl,
}
use girvi_ghata_backend.Result.{ok, Returns, throw_if-passed, ok-injective, unique_violation}
use girvi_ghata_backend.Types.{BusinessRules}
use girvi_ghata_backend.Table.{Table, find_first, select, update}
use girvi_ghata_backend.Store.{Store, RuleSet, Context}
use girvi_ghata_backend.Rules.{
  is_current, latest, find_active, get_active_rules, is_version, next_version, write_version,
  create_new_version, retire,
}

module _ {D : Type 0} where
  abbrev pub deactivate : RuleSet D → RuleSet D
  deactivate r = record r { is_active = false }

  -- The active versions of a metal are at most one.
  abbrev pub AtMostOne : Table (RuleSet D) → Type 0
  AtMostOne [] = Unit
  AtMostOne (_ ∷ []) = Unit
  AtMostOne (_ ∷ _ ∷ _) = ⊥

  abbrev pub OneActive : Table (RuleSet D) → Type 0
  OneActive rows = (tenant metal : ℕ) → AtMostOne (select (is_current tenant metal) rows)

  drop_id : ℕ → Table (RuleSet D) → Table (RuleSet D)
  drop_id k [] = []
  drop_id k ((j, r) ∷ rs) = let rest = drop_id k rs in if k == j then rest else (j, r) ∷ rest

  deactivated : (tenant metal : ℕ) (r : RuleSet D) → is_current tenant metal (deactivate r) ≡ false
  deactivated tenant metal r = elim (Bool-cases (r.tenant == tenant)) [
    | inl e ↦ elim (Bool-cases (r.metal_code == metal)) [ inl f ↦ rw (e, f) | inr f ↦ rw (e, f) ]
    | inr e ↦ rw e
  ]

  select-deactivate :
      (tenant metal k : ℕ) (rows : Table (RuleSet D))
      → select (is_current tenant metal) (update k deactivate rows)
        ≡ drop_id k (select (is_current tenant metal) rows)
  unfolding select update drop_id
  select-deactivate tenant metal k [] = refl
  select-deactivate tenant metal k ((j, r) ∷ rs) =
      let ih = select-deactivate tenant metal k rs in
      elim (Bool-cases (k == j)) [
        | inl e ↦ elim (Bool-cases (is_current tenant metal r)) [
          | inl c ↦ rw (e, deactivated tenant metal r, c, e) ih
          | inr c ↦ rw (e, deactivated tenant metal r, c) ih
        ]
        | inr e ↦ elim (Bool-cases (is_current tenant metal r)) [
          | inl c ↦ rw (e, c, e, ih)
          | inr c ↦ rw (e, c) ih
        ]
      ]

  drop_id-AtMostOne :
      (k : ℕ) (rows : Table (RuleSet D)) → AtMostOne rows → AtMostOne (drop_id k rows)
  unfolding drop_id
  drop_id-AtMostOne k [] h = tt
  drop_id-AtMostOne k ((j, r) ∷ []) h = elim (Bool-cases (k == j)) [
    | inl e ↦ rw e tt
    | inr e ↦ rw e tt
  ]
  drop_id-AtMostOne k (_ ∷ _ ∷ _) h = elim h [ ]

  -- Retiring the latest of at most one active version leaves none.
  retire_only :
      (tenant metal : ℕ) (rows : Table (RuleSet D)) (active : Table (RuleSet D))
      → select (is_current tenant metal) rows ≡ active
      → AtMostOne active
      → select (is_current tenant metal) (retire (latest active) rows) ≡ []
  unfolding retire latest drop_id
  retire_only tenant metal rows [] e h = e
  retire_only tenant metal rows ((k, r) ∷ []) e h =
      rw (select-deactivate tenant metal k rows, e, ==_refl k)
  retire_only tenant metal rows (_ ∷ _ ∷ _) e h = elim h [ ]

  retire-AtMostOne :
      (tenant metal : ℕ) (o : Option (ℕ × RuleSet D)) (rows : Table (RuleSet D))
      → AtMostOne (select (is_current tenant metal) rows)
      → AtMostOne (select (is_current tenant metal) (retire o rows))
  unfolding retire
  retire-AtMostOne tenant metal none rows h = h
  retire-AtMostOne tenant metal (some (k, r)) rows h =
      rw (select-deactivate tenant metal k rows) (drop_id-AtMostOne k _ h)

  module _ (s : Store D) (ctx : Context) (metal : ℕ) (rules : BusinessRules D) (id : ℕ) where
    only_new :
        OneActive s.rule_sets
        → select (is_current ctx.tenant_id metal) (write_version s ctx metal rules id).1.rule_sets
          ≡ (id, (write_version s ctx metal rules id).0) ∷ []
    unfolding write_version select find_active
    only_new h =
        let none_left =
          retire_only ctx.tenant_id metal s.rule_sets
            (select (is_current ctx.tenant_id metal) s.rule_sets) refl (h ctx.tenant_id metal) in
        rw (==_refl ctx.tenant_id, ==_refl metal, none_left)

    one_new :
        OneActive s.rule_sets
        → AtMostOne (
            select
              (is_current ctx.tenant_id metal)
              (write_version s ctx metal rules id).1.rule_sets)
    one_new h = rw (only_new h) tt

    one_at :
        {tenant other : ℕ}
        → ctx.tenant_id ≡ tenant
        → metal ≡ other
        → OneActive s.rule_sets
        → AtMostOne
            (select (is_current tenant other) (write_version s ctx metal rules id).1.rule_sets)
    one_at {tenant} t m h =
        let rows = (write_version s ctx metal rules id).1.rule_sets in
        subst (λ q. AtMostOne (select (is_current tenant q) rows)) m
          (subst (λ q. AtMostOne (select (is_current q metal) rows)) t (one_new h))

    write_version-OneActive :
        OneActive s.rule_sets → OneActive (write_version s ctx metal rules id).1.rule_sets
    unfolding write_version select find_active
    write_version-OneActive h tenant other =
        let previous = find_active s.rule_sets ctx.tenant_id metal in
        let kept = retire-AtMostOne tenant other previous s.rule_sets (h tenant other) in
        elim (Bool-cases (ctx.tenant_id == tenant)) [
          | inl e ↦ elim (Bool-cases (metal == other)) [
            | inl f ↦
                let t : ctx.tenant_id ≡ tenant = ground arith in
                let m : metal ≡ other = ground arith in one_at t m h
            | inr f ↦ rw (e, f) kept
          ]
          | inr e ↦ rw e kept
        ]

    write_version-active :
        OneActive s.rule_sets
        → get_active_rules (write_version s ctx metal rules id).1.rule_sets ctx.tenant_id metal
          ≡ ok (record rules { rule_set_id = id })
    unfolding get_active_rules find_active latest write_version
    write_version-active h = rw (only_new h)

    -- A new version of the rules that is created keeps at most one active version for each tenant
    -- and metal.
    pub create_new_version-OneActive :
        {r : RuleSet D} {s' : Store D}
        → create_new_version s ctx metal rules id ≡ ok (r, s')
        → OneActive s.rule_sets
        → OneActive s'.rule_sets
    unfolding create_new_version
    create_new_version-OneActive h one =
        let (_, h') = throw_if-passed _ unique_violation _ h in
        subst (λ (q : RuleSet D × Store D). OneActive q.1.rule_sets) (ok-injective h')
          (write_version-OneActive one)

    -- A new version is created if no row of its tenant and metal has the version after the active
    -- one, and the active rules of its metal are then its rules, under its id, if at most one
    -- version was active for each tenant and metal before.
    pub create_new_version-active :
        OneActive s.rule_sets
        → find_first
            (is_version ctx.tenant_id metal
              (next_version (find_active s.rule_sets ctx.tenant_id metal)))
            s.rule_sets
          ≡ none
        → Returns (create_new_version s ctx metal rules id) λ (q : RuleSet D × Store D).
          get_active_rules q.1.rule_sets ctx.tenant_id metal
          ≡ ok (record rules { rule_set_id = id })
    unfolding create_new_version
    create_new_version-active one fresh = rw fresh (write_version-active one)
