-- ===== src/Tenants/Accounts.antt =====
-- The operations of AuthService and TenantsService that change a tenant's accounts, as steps, and
-- what each leaves of the users.
use mathlib.Core.Path.{subst}
use girvi_ghata_backend.Base.{
  ℕ, ◌≤◌, ◌≡◌, ◌⊎◌, inl, inr, refl, false, not, ◌||◌, Option, none, some, ◌==◌, Bool-cases, arith,
}
use girvi_ghata_backend.Calendar.{Instant}
use girvi_ghata_backend.Result.{
  ok, >>=-eq-ok, or_throw-found, throw_if-passed, ok-injective, plan_limit_reached,
  unknown_permission, unique_violation, user_not_found, record_not_found,
}
use girvi_ghata_backend.Table.{
  Table, find, find_where, find_first, count, update, create, find-update,
}
use girvi_ghata_backend.Store.{Store, Context, User, Role, Branch}
use girvi_ghata_backend.Auth.{
  Credentials, Environment, login, login_as, logout_all, has_email, with_next_version, seen,
}
use girvi_ghata_backend.Tenants.{
  CreateBranch, CreateRole, CreateUser, SafeUser, create_branch, create_role, create_user,
  deactivate_user, switched_off, check_user, is_reached, new_user, branch_limit, user_limit,
  is_branch, is_user,
}

module _ {D T : Type 0} (lib : Credentials T) (env : Environment) where
  -- One call; a new user gets an id that none has.
  pub data AccountStep : Store D → Store D → Type 0 where
    login_step :
        {s : Store D} (now : Instant) (email password : ℕ)
        → AccountStep s (login lib env now s email password).1
    logout_step : {s s' : Store D} (id : ℕ) → logout_all s id ≡ ok s' → AccountStep s s'
    branch_step :
        {s s' : Store D} (ctx : Context) (dto : CreateBranch) (id : ℕ) (b : Branch)
        → create_branch s ctx dto id ≡ ok (b, s')
        → AccountStep s s'
    role_step :
        {s s' : Store D} (ctx : Context) (dto : CreateRole) (id : ℕ) (r : Role)
        → create_role s ctx dto id ≡ ok (r, s')
        → AccountStep s s'
    user_step :
        {s s' : Store D} (ctx : Context) (dto : CreateUser) (salt id : ℕ) (u : SafeUser)
        → find id s.users ≡ none
        → create_user lib s ctx dto salt id ≡ ok (u, s')
        → AccountStep s s'
    deactivate_step :
        {s s' : Store D} (ctx : Context) (id : ℕ) (u : SafeUser)
        → deactivate_user s ctx id ≡ ok (u, s')
        → AccountStep s s'

  pub data AccountSteps : Store D → Store D → Type 0 where
    done : {s : Store D} → AccountSteps s s
    step : {s s' s'' : Store D} → AccountStep s s' → AccountSteps s' s'' → AccountSteps s s''

-- The row of a user is there, with no lower token version, and active only if it was.
abbrev pub IsNewer : User → User → Type 0
IsNewer u v = (u.token_version ≤ v.token_version) × (u.is_active ≡ false → v.is_active ≡ false)

abbrev pub Keeps : Table User → Table User → Type 0
Keeps t t' =
    (id : ℕ) (u : User) → find id t ≡ some u → (v : User) × (find id t' ≡ some v) × IsNewer u v

pub Keeps-refl : (t : Table User) → Keeps t t
Keeps-refl t id u h = (u, h, (omega arith, λ off. off))

pub Keeps-trans : (a b c : Table User) → Keeps a b → Keeps b c → Keeps a c
Keeps-trans a b c p q id u h =
    let (v, there, (later, off)) = p id u h in
    let (w, there', (later', off')) = q id v there in
    (w, there', (omega (arith, later, later'), λ e. off' (off e)))

Keeps-update :
    (k : ℕ) (f : User → User) (t : Table User)
    → ((u : User) → IsNewer u (f u))
    → Keeps t (update k f t)
Keeps-update k f t newer id u h = elim (Bool-cases (id == k)) [
  | inl e ↦ (f u, rw (find-update, e, h), newer u)
  | inr e ↦ (u, rw (find-update, e, h), (omega arith, λ off. off))
]

Keeps-create : (k : ℕ) (v : User) (t : Table User) → find k t ≡ none → Keeps t (create k v t)
unfolding find
Keeps-create k v t fresh id u h = elim (Bool-cases (id == k)) [
  | inl e ↦ ground (arith, fresh, h)
  | inr e ↦ (u, rw (e, h), (omega arith, λ off. off))
]

module _ {D : Type 0} where
  -- What a call leaves of the tables that the limits of the plan count.
  pub record IsUpdated (s s' : Store D) (t : Table User) : Type 0 where
    pub users : s'.users ≡ t
    pub branches : s'.branches ≡ s.branches
    pub subscriptions : s'.subscriptions ≡ s.subscriptions

  pub logout_all-IsUpdated :
      (s : Store D) (id : ℕ) {s' : Store D}
      → logout_all s id ≡ ok s'
      → IsUpdated s s' (update id with_next_version s.users)
  unfolding logout_all
  logout_all-IsUpdated s id h0 =
      let (u, found, h) = or_throw-found (find id s.users) record_not_found _ h0 in
      subst (λ (q : Store D). IsUpdated s q (update id with_next_version s.users)) (ok-injective h)
        (record { users = refl; branches = refl; subscriptions = refl })

  pub deactivate_user-IsUpdated :
      (s : Store D) (ctx : Context) (id : ℕ) {u : SafeUser} {s' : Store D}
      → deactivate_user s ctx id ≡ ok (u, s')
      → IsUpdated s s' (update id switched_off s.users)
  unfolding deactivate_user
  deactivate_user-IsUpdated s ctx id h0 =
      let (u, found, h) =
        or_throw-found (find_where id (λ v. v.tenant == ctx.tenant_id) s.users) user_not_found _
          h0 in
      subst (λ (q : SafeUser × Store D). IsUpdated s q.1 (update id switched_off s.users))
        (ok-injective h) (record { users = refl; branches = refl; subscriptions = refl })

  pub create_branch-IsCreated :
      (s : Store D) (ctx : Context) (dto : CreateBranch) (id : ℕ) {b : Branch} {s' : Store D}
      → create_branch s ctx dto id ≡ ok (b, s')
      → (is_reached (branch_limit s ctx.tenant_id) (count (is_branch ctx.tenant_id) s.branches)
          ≡ false)
        × (b.tenant ≡ ctx.tenant_id)
        × (s' ≡ record s { branches = create id b s.branches })
  unfolding create_branch
  create_branch-IsCreated s ctx dto id h0 =
      let (room, h1) = throw_if-passed _ plan_limit_reached _ h0 in
      let (new, h) = throw_if-passed _ unique_violation _ h1 in
      subst
        (λ (q : Branch × Store D).
          (is_reached (branch_limit s ctx.tenant_id) (count (is_branch ctx.tenant_id) s.branches)
            ≡ false)
          × (q.0.tenant ≡ ctx.tenant_id)
          × (q.1 ≡ record s { branches = create id q.0 s.branches }))
        (ok-injective h) (room, refl, refl)

  pub create_role-IsUpdated :
      (s : Store D) (ctx : Context) (dto : CreateRole) (id : ℕ) {r : Role} {s' : Store D}
      → create_role s ctx dto id ≡ ok (r, s')
      → IsUpdated s s' s.users
  unfolding create_role
  create_role-IsUpdated s ctx dto id h0 =
      let (known, h1) = throw_if-passed _ unknown_permission _ h0 in
      let (new, h) = throw_if-passed _ unique_violation _ h1 in
      subst (λ (q : Role × Store D). IsUpdated s q.1 s.users) (ok-injective h)
        (record { users = refl; branches = refl; subscriptions = refl })

  pub check_user-room :
      (s : Store D) (ctx : Context) (dto : CreateUser) {u : Unit {0}}
      → check_user s ctx dto ≡ ok u
      → is_reached (user_limit s ctx.tenant_id) (count (is_user ctx.tenant_id) s.users) ≡ false
  unfolding check_user
  check_user-room s ctx dto h = (throw_if-passed _ plan_limit_reached _ h).0

module _ {D T : Type 0} (lib : Credentials T) where
  -- A user that is created fits in the plan, and its hash is of the password that was sent.
  pub create_user-IsCreated :
      (s : Store D) (ctx : Context) (dto : CreateUser) (salt id : ℕ) {u : SafeUser} {s' : Store D}
      → create_user lib s ctx dto salt id ≡ ok (u, s')
      → (is_reached (user_limit s ctx.tenant_id) (count (is_user ctx.tenant_id) s.users) ≡ false)
        × IsUpdated s s' (create id (new_user ctx dto (lib.hash salt dto.password)) s.users)
  unfolding create_user
  create_user-IsCreated s ctx dto salt id h0 =
      let (_, checked, h1) = >>=-eq-ok (check_user s ctx dto) _ h0 in
      let (new, h) = throw_if-passed _ unique_violation _ h1 in
      subst
        (λ (q : SafeUser × Store D).
          (is_reached (user_limit s ctx.tenant_id) (count (is_user ctx.tenant_id) s.users) ≡ false)
          × IsUpdated s q.1 (create id (new_user ctx dto (lib.hash salt dto.password)) s.users))
        (ok-injective h)
        (
          check_user-room s ctx dto checked,
          record { users = refl; branches = refl; subscriptions = refl },
        )

  module _ (env : Environment) (now : Instant) where
    login_as-IsUpdated :
        (s : Store D) (password : ℕ) (o : Option (ℕ × User))
        → IsUpdated s (login_as lib env now s password o).1 s.users
          ⊎ ((id : ℕ) × IsUpdated s
                (login_as lib env now s password o).1
                (update id (seen now) s.users))
    login_as-IsUpdated s password none =
        inl (record { users = refl; branches = refl; subscriptions = refl })
    login_as-IsUpdated s password (some (id, u)) =
        elim (Bool-cases (not (lib.verify_password u.password_hash password) || not u.is_active)) [
          | inl e ↦ rw e (inl (record { users = refl; branches = refl; subscriptions = refl }))
          | inr e ↦ rw e (inr (id, record { users = refl; branches = refl; subscriptions = refl }))
        ]

    -- A login changes at most when its user was last seen.
    pub login-IsUpdated :
        (s : Store D) (email password : ℕ)
        → IsUpdated s (login lib env now s email password).1 s.users
          ⊎ ((id : ℕ) × IsUpdated s
                (login lib env now s email password).1
                (update id (seen now) s.users))
    unfolding login
    login-IsUpdated s email password =
        login_as-IsUpdated s password (find_first (has_email email) s.users)

  module _ (env : Environment) where
    pub AccountStep-Keeps : {s s' : Store D} → AccountStep lib env s s' → Keeps s.users s'.users
    AccountStep-Keeps {s} (login_step now email password) =
        elim (login-IsUpdated env now s email password) [
          | inl r ↦ rw r.users (Keeps-refl s.users)
          | inr (id, r) ↦
              rw r.users (Keeps-update id (seen now) s.users λ u. (omega arith, λ off. off))
        ]
    AccountStep-Keeps {s} (logout_step id h) =
        rw ((logout_all-IsUpdated s id h).users)
          (Keeps-update id with_next_version s.users λ u. (omega arith, λ off. off))
    AccountStep-Keeps {s} (branch_step ctx dto id b h) =
        rw ((create_branch-IsCreated s ctx dto id h).2) (Keeps-refl s.users)
    AccountStep-Keeps {s} (role_step ctx dto id r h) =
        rw ((create_role-IsUpdated s ctx dto id h).users) (Keeps-refl s.users)
    AccountStep-Keeps {s} (user_step ctx dto salt id u fresh h) =
        rw ((create_user-IsCreated s ctx dto salt id h).1.users) (Keeps-create id _ s.users fresh)
    AccountStep-Keeps {s} (deactivate_step ctx id u h) =
        rw ((deactivate_user-IsUpdated s ctx id h).users)
          (Keeps-update id switched_off s.users λ u. (omega arith, λ off. refl))

    -- Calls keep every user, with no lower version, and one that is not active stays so.
    pub AccountSteps-Keeps : {s s' : Store D} → AccountSteps lib env s s' → Keeps s.users s'.users
    AccountSteps-Keeps {s} done = Keeps-refl s.users
    AccountSteps-Keeps (step {s} {s'} {s''} one rest) =
        Keeps-trans s.users s'.users s''.users (AccountStep-Keeps one) (AccountSteps-Keeps rest)
