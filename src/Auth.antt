-- ===== src/Auth.antt =====
-- src/modules/auth/auth.service.ts, the payloads of auth.types.ts and the strategy of
-- strategies/jwt.strategy.ts.
use girvi_ghata_backend.Base.{
  ℕ, ◌+◌, ◌≤◌, ◌≡◌, Bool, true, false, not, ◌&&◌, ◌||◌, Option, none, some, List, [], ◌∷◌, ◌++◌,
  ◌==◌, if◌then◌else◌, distinct, is_none, holds,
}
use girvi_ghata_backend.Calendar.{Instant}
use girvi_ghata_backend.Result.{
  Result, ok, err, throw_if, or_throw, ◌>>=◌, ◌>>◌, invalid_credentials, invalid_token,
  wrong_token_type, token_no_longer_valid, record_not_found,
}
use girvi_ghata_backend.Table.{find, find_first, update}
use girvi_ghata_backend.Store.{Store, Context, User, Role}

pub record AccessTokenPayload : Type 0 where
  pub sub : ℕ
  pub tenant_id : ℕ
  pub branch_ids : List ℕ
  pub permissions : List ℕ

pub record RefreshTokenPayload : Type 0 where
  pub sub : ℕ
  pub tenant_id : ℕ
  pub token_version : ℕ

-- What a token carries; the constructor is the payload's `type`.
pub data Payload : Type 0 where
  access : AccessTokenPayload → Payload
  refresh_payload : RefreshTokenPayload → Payload

pub record TokenPair (T : Type 0) : Type 0 where
  pub access_token : T
  pub refresh_token : T

-- `JwtService` of @nestjs/jwt and `argon2`, which are not part of the repository: `sign` takes the
-- secret, the lifetime, the time and the payload, and `verify` gives the payload or throws. A
-- password's hash is drawn with a salt.
pub record Credentials (T : Type 0) : Type 0 where
  pub sign : ℕ → ℕ → Instant → Payload → T
  pub verify : ℕ → Instant → T → Option Payload
  pub hash : ℕ → ℕ → ℕ
  pub verify_password : ℕ → ℕ → Bool

-- The environment variables of the service; a lifetime is in milliseconds.
pub record Environment : Type 0 where
  pub access_secret : ℕ
  pub refresh_secret : ℕ
  pub access_lifetime : ℕ
  pub refresh_lifetime : ℕ

-- What the code relies on: a signed token is accepted with its secret until a second before its
-- lifetime ends (the library counts whole seconds), and a password matches its own hash.
pub record IsSound {T : Type 0} (lib : Credentials T) : Type 0 where
  pub verify-sign :
      (secret lifetime : ℕ) (issued now : Instant) (p : Payload)
      → issued ≤ now
      → now + 1000 ≤ issued + lifetime
      → lib.verify secret now (lib.sign secret lifetime issued p) ≡ some p
  pub verify_password-hash :
      (salt password : ℕ) → lib.verify_password (lib.hash salt password) password ≡ true

-- `where: { email, deletedAt: null }`
abbrev pub has_email : ℕ → User → Bool
has_email email u = holds email u.email && is_none u.deleted_at

-- `tokenVersion: { increment: 1 }`
abbrev pub with_next_version : User → User
with_next_version u = record u { token_version = u.token_version + 1 }

abbrev pub seen : Instant → User → User
seen now u = record u { last_login_at = some now }

unfoldable pub as_refresh : Payload → Result RefreshTokenPayload
as_refresh (access _) = err wrong_token_type
as_refresh (refresh_payload p) = ok p

abbrev pub is_live : RefreshTokenPayload → User → Bool
is_live p u = u.is_active && u.token_version == p.token_version

module _ {D : Type 0} where
  -- The codes of a role, and those of all the user's roles, each once.
  abbrev pub permission_codes : Store D → List ℕ → List ℕ
  permission_codes s [] = []
  permission_codes s (id ∷ ids) = elim (find id s.permissions) [
    | none ↦ permission_codes s ids
    | some code ↦ code ∷ permission_codes s ids
  ]

  abbrev pub codes_of_role : Store D → Option Role → List ℕ
  codes_of_role s none = []
  codes_of_role s (some r) = permission_codes s r.permissions

  abbrev pub role_codes : Store D → List ℕ → List ℕ
  role_codes s [] = []
  role_codes s (id ∷ ids) = codes_of_role s (find id s.roles) ++ role_codes s ids

  abbrev pub permissions_of : Store D → User → List ℕ
  permissions_of s u = distinct (role_codes s u.roles)

  abbrev pub logged : ℕ → Bool → Store D → Store D
  logged id success s = record s {
    login_history = record { user = id; success = success } ∷ s.login_history;
  }

  -- `logoutAll`; Prisma's update throws when there is no such row.
  unfoldable pub logout_all : Store D → ℕ → Result (Store D)
  logout_all s id = do
    user ← or_throw (find id s.users) record_not_found
    ok (record s { users = update id with_next_version s.users })

module _ {T : Type 0} (lib : Credentials T) (env : Environment) (now : Instant) where
  unfoldable pub issue_token_pair : ℕ → ℕ → List ℕ → List ℕ → ℕ → TokenPair T
  issue_token_pair user tenant branches permissions version = record {
    access_token = lib.sign env.access_secret env.access_lifetime now (
        access (record {
          sub = user;
          tenant_id = tenant;
          branch_ids = branches;
          permissions = permissions;
        }));
    refresh_token =
        lib.sign env.refresh_secret env.refresh_lifetime now
          (refresh_payload (record { sub = user; tenant_id = tenant; token_version = version }));
  }

  module _ {D : Type 0} where
    abbrev pub issue_for : Store D → ℕ → User → TokenPair T
    issue_for s id u = issue_token_pair id u.tenant u.branches (permissions_of s u) u.token_version

    -- The rest of `login`, with the user that has the email.
    abbrev pub login_as : Store D → ℕ → Option (ℕ × User) → Result (TokenPair T) × Store D
    login_as s password none = (err invalid_credentials, s)
    login_as s password (some (id, u)) =
        if not (lib.verify_password u.password_hash password) || not u.is_active
        then (err invalid_credentials, logged id false s)
        else (
          ok (issue_for s id u),
          logged id true (record s { users = update id (seen now) s.users }),
        )

    -- A login that fails for a known user writes to the history too.
    unfoldable pub login : Store D → ℕ → ℕ → Result (TokenPair T) × Store D
    login s email password = login_as s password (find_first (has_email email) s.users)

    -- A user whose version is not the token's is refused like one that is missing or not active.
    unfoldable pub refresh_with : Store D → RefreshTokenPayload → Result (TokenPair T)
    refresh_with s p = do
      user ← or_throw (find p.sub s.users) token_no_longer_valid
      throw_if (not (is_live p user)) token_no_longer_valid
      ok (issue_for s p.sub user)

    unfoldable pub refresh : Store D → T → Result (TokenPair T)
    refresh s token = do
      payload ← or_throw (lib.verify env.refresh_secret now token) invalid_token
      p ← as_refresh payload
      refresh_with s p

-- `validate` of the strategy
unfoldable pub validate : Payload → Result Context
validate (refresh_payload _) = err wrong_token_type
validate (access p) = ok (record {
  user_id = p.sub;
  tenant_id = p.tenant_id;
  branch_ids = p.branch_ids;
  permissions = p.permissions;
})
