-- ===== src/Guards.antt =====
-- src/common/guards: jwt-auth.guard.ts and permissions.guard.ts, in the order in which a request
-- passes them. Passport, which reads the bearer token, is not part of the repository: it verifies the
-- token with the access secret and hands the payload to the strategy.
pub mod Access
use girvi_ghata_backend.Base.{ℕ, Bool, not, Option, none, some, List, [], ◌∷◌, every, includes}
use girvi_ghata_backend.Base.{if◌then◌else◌}
use girvi_ghata_backend.Calendar.{Instant}
use girvi_ghata_backend.Result.{
  Result, ok, err, throw_if, or_throw, ◌>>=◌, ◌>>◌, invalid_token, no_context, missing_permission,
}
use girvi_ghata_backend.Store.{Context}
use girvi_ghata_backend.Auth.{Credentials, Environment, validate}

-- What the decorators of a handler say.
pub record Route : Type 0 where
  pub is_public : Bool
  pub required : List ℕ

-- `PermissionsGuard.canActivate`
unfoldable pub check_permissions : List ℕ → Option Context → Result (Unit {0})
check_permissions [] context = ok tt
check_permissions (p ∷ ps) none = err no_context
check_permissions (p ∷ ps) (some c) =
    throw_if (not (every (λ q. includes c.permissions q) (p ∷ ps))) missing_permission

module _ {T : Type 0} (lib : Credentials T) (env : Environment) (now : Instant) where
  -- `JwtAuthGuard.canActivate` and `handleRequest`: the context that the request gets
  unfoldable pub authenticate : Route → Option T → Result (Option Context)
  authenticate route bearer =
      let checked = (do
        token ← or_throw bearer invalid_token
        payload ← or_throw (lib.verify env.access_secret now token) invalid_token
        context ← validate payload
        ok (some context)) in
      if route.is_public then ok none else checked

  unfoldable pub can_activate : Route → Option T → Result (Option Context)
  can_activate route bearer = do
    context ← authenticate route bearer
    allowed ← check_permissions route.required context
    ok context
