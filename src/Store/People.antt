-- ===== src/Store/People.antt =====
-- The rows of prisma/schema.prisma about tenants and their people. The rows of a join table stand in
-- the owner's row; addresses, telephone numbers and other texts that the code only passes on are left
-- out.
use girvi_ghata_backend.Base.{ℕ, Bool, Option, List}
use girvi_ghata_backend.Calendar.{Instant}

-- The plan of a tenant's subscription.
pub record SubscriptionPlan : Type 0 where
  pub max_branches : Option ℕ
  pub max_users : Option ℕ

pub record Branch : Type 0 where
  pub tenant : ℕ
  pub code : ℕ
  pub name : ℕ
  pub deleted_at : Option Instant

-- `roles` and `branches` are the ids of the `UserRole` and `UserBranch` rows.
pub record User : Type 0 where
  pub tenant : ℕ
  pub full_name : ℕ
  pub email : Option ℕ
  pub password_hash : ℕ
  pub is_active : Bool
  pub last_login_at : Option Instant
  pub token_version : ℕ
  pub roles : List ℕ
  pub branches : List ℕ
  pub deleted_at : Option Instant

-- `permissions` are the ids of the `RolePermission` rows; a permission itself is its code.
pub record Role : Type 0 where
  pub tenant : ℕ
  pub name : ℕ
  pub permissions : List ℕ

pub record LoginHistory : Type 0 where
  pub user : ℕ
  pub success : Bool
