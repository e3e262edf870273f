-- ===== src/Tenants/Plans.antt =====
-- The limits of a tenant's subscription plan over calls of the account services.
use girvi_ghata_backend.Base.{
  ℕ, suc, ◌≤◌, ◌≡◌, inl, inr, refl, Bool, true, false, Option, none, some, ◌==◌, ◌&&◌, ◌∙◌,
  Bool-cases, arith,
}
use girvi_ghata_backend.Table.{
  Table, count, update, create, count-update, count-create, count-create_other,
}
use girvi_ghata_backend.Store.{Store, User}
use girvi_ghata_backend.Auth.{Credentials, Environment, login, with_next_version, seen}
use girvi_ghata_backend.Tenants.{
  is_user, is_branch, user_limit, branch_limit, is_reached, switched_off,
}
use girvi_ghata_backend.Tenants.Accounts.{
  AccountStep, AccountSteps, login_step, logout_step, branch_step, role_step, user_step,
  deactivate_step, done, step, IsUpdated, login-IsUpdated, logout_all-IsUpdated,
  deactivate_user-IsUpdated, create_branch-IsCreated, create_role-IsUpdated, create_user-IsCreated,
}

abbrev pub Within : Option ℕ → ℕ → Type 0
Within none n = Unit
Within (some most) n = n ≤ most

-- One more, where the limit is not reached.
Within-suc : (limit : Option ℕ) (n m : ℕ) → is_reached limit n ≡ false → m ≤ suc n → Within limit m
Within-suc none n m h l = tt
Within-suc (some most) n m h l = ground arith

Within-create :
    {V : Type 0} (p : V → Bool) (id : ℕ) (v : V) (t : Table V) (limit : Option ℕ)
    → (p v ≡ true → is_reached limit (count p t) ≡ false)
    → Within limit (count p t)
    → Within limit (count p (create id v t))
Within-create p id v t limit room h = elim (Bool-cases (p v)) [
  | inl e ↦ Within-suc limit (count p t) (count p (create id v t)) (room e) (count-create p id v t)
  | inr e ↦ rw (count-create_other p id v t e) h
]

own_tenant : (a b : ℕ) (rest : Bool) → (a == b && rest) ≡ true → b ≡ a
own_tenant a b rest h = ground arith

module _ {D : Type 0} where
  -- Every tenant has at most the branches and the users that its plan allows.
  abbrev pub WithinPlan : Store D → Type 0
  WithinPlan s =
      (tenant : ℕ)
      → Within (branch_limit s tenant) (count (is_branch tenant) s.branches)
        × Within (user_limit s tenant) (count (is_user tenant) s.users)

  WithinPlan-users :
      (s s' : Store D) (t : Table User)
      → IsUpdated s s' t
      → ((tenant : ℕ) → Within (user_limit s tenant) (count (is_user tenant) t))
      → WithinPlan s
      → WithinPlan s'
  WithinPlan-users s s' t r within plan tenant =
      rw (r.subscriptions, r.users, r.branches) ((plan tenant).0, within tenant)

  WithinPlan-update :
      (s s' : Store D) (k : ℕ) (f : User → User)
      → ((tenant : ℕ) (u : User) → is_user tenant (f u) ≡ is_user tenant u)
      → IsUpdated s s' (update k f s.users)
      → WithinPlan s
      → WithinPlan s'
  WithinPlan-update s s' k f same r plan =
      WithinPlan-users s s' (update k f s.users) r
        (λ tenant. rw (count-update (is_user tenant) k f s.users (same tenant)) ((plan tenant).1))
        plan

module _ {D T : Type 0} (lib : Credentials T) (env : Environment) where
  AccountStep-WithinPlan :
      {s s' : Store D} → AccountStep lib env s s' → WithinPlan s → WithinPlan s'
  AccountStep-WithinPlan {s} (login_step now email password) plan =
      let after = (login lib env now s email password).1 in
      elim (login-IsUpdated lib env now s email password) [
        | inl r ↦ WithinPlan-users s after s.users r (λ tenant. (plan tenant).1) plan
        | inr (id, r) ↦ WithinPlan-update s after id (seen now) (λ _ _. refl) r plan
      ]
  AccountStep-WithinPlan {s} {s'} (logout_step id h) plan =
      WithinPlan-update s s' id with_next_version (λ _ _. refl) (logout_all-IsUpdated s id h) plan
  AccountStep-WithinPlan {s} (branch_step ctx dto id b h) plan =
      let (room, mine, e) = create_branch-IsCreated s ctx dto id h in
      λ tenant. rw e (
        Within-create (is_branch tenant) id b s.branches (branch_limit s tenant)
            (λ live. rw (own_tenant b.tenant tenant _ live ∙ mine) room) ((plan tenant).0),
        (plan tenant).1,
      )
  AccountStep-WithinPlan {s} {s'} (role_step ctx dto id r h) plan =
      WithinPlan-users s s' s.users (create_role-IsUpdated s ctx dto id h)
        (λ tenant. (plan tenant).1) plan
  AccountStep-WithinPlan {s} {s'} (user_step ctx dto salt id u fresh h) plan =
      let (room, r) = create_user-IsCreated lib s ctx dto salt id h in
      WithinPlan-users s s' _ r
        (λ tenant.
          Within-create (is_user tenant) id _ s.users (user_limit s tenant)
            (λ live. rw (own_tenant ctx.tenant_id tenant _ live) room) ((plan tenant).1))
        plan
  AccountStep-WithinPlan {s} {s'} (deactivate_step ctx id u h) plan =
      WithinPlan-update s s' id switched_off (λ _ _. refl) (deactivate_user-IsUpdated s ctx id h)
        plan

  -- Calls of the account services, in any number and order, keep every tenant within its plan.
  pub AccountSteps-WithinPlan :
      {s s' : Store D} → AccountSteps lib env s s' → WithinPlan s → WithinPlan s'
  AccountSteps-WithinPlan done plan = plan
  AccountSteps-WithinPlan (step one rest) plan =
      AccountSteps-WithinPlan rest (AccountStep-WithinPlan one plan)
