-- ===== src/Tenants.antt =====
-- src/modules/tenants/tenants.service.ts
pub mod Accounts
pub mod Plans
pub mod Sessions
use girvi_ghata_backend.Base.{
  ℕ, ◌+◌, Bool, true, false, not, ◌&&◌, Option, none, some, List, [], ◌∷◌, map, length, leb, ◌==◌,
  includes, is_none, holds,
}
use girvi_ghata_backend.Calendar.{Instant}
use girvi_ghata_backend.Result.{
  Result, ok, throw_if, or_throw, ◌>>=◌, ◌>>◌, plan_limit_reached, unknown_permission,
  invalid_roles, invalid_branches, user_not_found, unique_violation,
}
use girvi_ghata_backend.Table.{
  Table, find, find_where, find_first, select, select_in, count, update, create,
}
use girvi_ghata_backend.Store.{
  Store, Context, SubscriptionPlan, Branch, User, Role, AuditAction, AuditEntry, user_create,
  user_deactivate,
}
use girvi_ghata_backend.Auth.{Credentials}

pub record CreateBranch : Type 0 where
  pub code : ℕ
  pub name : ℕ

pub record CreateRole : Type 0 where
  pub name : ℕ
  pub permission_codes : List ℕ

pub record CreateUser : Type 0 where
  pub full_name : ℕ
  pub email : ℕ
  pub password : ℕ
  pub role_ids : List ℕ
  pub branch_ids : List ℕ

abbrev pub is_branch : ℕ → Branch → Bool
is_branch tenant b = b.tenant == tenant && is_none b.deleted_at

abbrev pub is_user : ℕ → User → Bool
is_user tenant u = u.tenant == tenant && is_none u.deleted_at

-- The unique indexes of the tables.
abbrev pub same_code : ℕ → CreateBranch → Branch → Bool
same_code tenant dto b = b.tenant == tenant && b.code == dto.code

abbrev pub same_email : ℕ → CreateUser → User → Bool
same_email tenant dto u = u.tenant == tenant && holds dto.email u.email

-- `subscription?.plan.max… != null`, and the limit
abbrev pub limit_of : (SubscriptionPlan → Option ℕ) → Option SubscriptionPlan → Option ℕ
limit_of limit none = none
limit_of limit (some plan) = limit plan

abbrev pub is_reached : Option ℕ → ℕ → Bool
is_reached none n = false
is_reached (some most) n = leb most n

-- `map(r => r.id)`
abbrev pub ids_of : {V : Type 0} → Table V → List ℕ
ids_of rows = map (λ r. r.0) rows

-- `isActive: false, tokenVersion: { increment: 1 }`
abbrev pub switched_off : User → User
switched_off u = record u { is_active = false; token_version = u.token_version + 1 }

abbrev account_entry : Context → AuditAction → ℕ → AuditEntry
account_entry ctx action id = record {
  tenant = ctx.tenant_id;
  actor = some ctx.user_id;
  action = action;
  entity_id = id;
}

abbrev pub new_user : Context → CreateUser → ℕ → User
new_user ctx dto password_hash = record {
  tenant = ctx.tenant_id;
  full_name = dto.full_name;
  email = some dto.email;
  password_hash = password_hash;
  is_active = true;
  last_login_at = none;
  token_version = 0;
  roles = dto.role_ids;
  branches = dto.branch_ids;
  deleted_at = none;
}

-- A user without its password hash, as the service returns it.
pub record SafeUser : Type 0 where
  pub tenant : ℕ
  pub full_name : ℕ
  pub email : Option ℕ
  pub is_active : Bool
  pub last_login_at : Option Instant
  pub token_version : ℕ
  pub roles : List ℕ
  pub branches : List ℕ
  pub deleted_at : Option Instant

abbrev pub safe : User → SafeUser
safe u = record {
  tenant = u.tenant;
  full_name = u.full_name;
  email = u.email;
  is_active = u.is_active;
  last_login_at = u.last_login_at;
  token_version = u.token_version;
  roles = u.roles;
  branches = u.branches;
  deleted_at = u.deleted_at;
}

-- The unique index of the roles.
abbrev pub same_name : ℕ → CreateRole → Role → Bool
same_name tenant dto r = r.tenant == tenant && r.name == dto.name

module _ {D : Type 0} where
  abbrev pub branch_limit : Store D → ℕ → Option ℕ
  branch_limit s tenant = limit_of (λ p. p.max_branches) (find tenant s.subscriptions)

  abbrev pub user_limit : Store D → ℕ → Option ℕ
  user_limit s tenant = limit_of (λ p. p.max_users) (find tenant s.subscriptions)

  unfoldable pub create_branch : Store D → Context → CreateBranch → ℕ → Result (Branch × Store D)
  create_branch s ctx dto id = do
    throw_if
        (is_reached (branch_limit s ctx.tenant_id) (count (is_branch ctx.tenant_id) s.branches))
        plan_limit_reached
    throw_if (not (is_none (find_first (same_code ctx.tenant_id dto) s.branches))) unique_violation
    let created : Branch = record {
      tenant = ctx.tenant_id;
      code = dto.code;
      name = dto.name;
      deleted_at = none;
    }
    ok (created, record s { branches = create id created s.branches })

  unfoldable pub create_role : Store D → Context → CreateRole → ℕ → Result (Role × Store D)
  create_role s ctx dto id = do
    let found = select (λ code. includes dto.permission_codes code) s.permissions
    throw_if (not (length found == length dto.permission_codes)) unknown_permission
    throw_if (not (is_none (find_first (same_name ctx.tenant_id dto) s.roles))) unique_violation
    let created : Role = record {
      tenant = ctx.tenant_id;
      name = dto.name;
      permissions = ids_of found;
    }
    ok (created, record s { roles = create id created s.roles })

  -- The checks of `createUser` before the password is hashed.
  unfoldable pub check_user : Store D → Context → CreateUser → Result (Unit {0})
  check_user s ctx dto = do
    throw_if (is_reached (user_limit s ctx.tenant_id) (count (is_user ctx.tenant_id) s.users))
        plan_limit_reached
    let roles = select_in dto.role_ids (λ r. r.tenant == ctx.tenant_id) s.roles
    throw_if (not (length roles == length dto.role_ids)) invalid_roles
    let branches = select_in dto.branch_ids (λ b. b.tenant == ctx.tenant_id) s.branches
    throw_if (not (length branches == length dto.branch_ids)) invalid_branches

  -- `createUser`; `salt` is the one that the hash draws.
  unfoldable pub create_user :
      {T : Type 0}
      → Credentials T
      → Store D
      → Context
      → CreateUser
      → ℕ
      → ℕ
      → Result (SafeUser × Store D)
  unfolding account_entry
  create_user lib s ctx dto salt id = do
    checked ← check_user s ctx dto
    let created = new_user ctx dto (lib.hash salt dto.password)
    throw_if (not (is_none (find_first (same_email ctx.tenant_id dto) s.users))) unique_violation
    ok (
      safe created,
      record s {
        users = create id created s.users;
        audit = account_entry ctx user_create id ∷ s.audit;
      },
    )

  unfoldable pub deactivate_user : Store D → Context → ℕ → Result (SafeUser × Store D)
  unfolding account_entry
  deactivate_user s ctx id = do
    user ← or_throw (find_where id (λ u. u.tenant == ctx.tenant_id) s.users) user_not_found
    ok (
      safe (switched_off user),
      record s {
        users = update id switched_off s.users;
        audit = account_entry ctx user_deactivate id ∷ s.audit;
      },
    )

  unfoldable pub list_branches : Store D → Context → Table Branch
  list_branches s ctx = select (is_branch ctx.tenant_id) s.branches

  unfoldable pub list_roles : Store D → Context → Table Role
  list_roles s ctx = select (λ r. r.tenant == ctx.tenant_id) s.roles

  unfoldable pub list_users : Store D → Context → List SafeUser
  list_users s ctx = map (λ r. safe r.1) (select (is_user ctx.tenant_id) s.users)
