-- ===== src/Tenants/Sessions.antt =====
-- How a session ends: the refresh tokens that a user still holds after `logoutAll` or
-- `deactivateUser`.
use girvi_ghata_backend.Base.{ℕ, ◌≤◌, ◌<◌, ◌≡◌, ◌⊎◌, inl, inr, false, none, some, arith, ==_refl}
use girvi_ghata_backend.Calendar.{Instant}
use girvi_ghata_backend.Result.{ok, err, token_no_longer_valid}
use girvi_ghata_backend.Table.{find, find-update_self, find_first}
use girvi_ghata_backend.Store.{Store, Context, User}
use girvi_ghata_backend.Auth.{
  Credentials, Environment, IsSound, login, issue_for, has_email, RefreshTokenPayload,
  refresh_payload, refresh, refresh_with, as_refresh, logout_all, with_next_version, is_live,
}
use girvi_ghata_backend.Tenants.{
  SafeUser, CreateUser, create_user, new_user, deactivate_user, switched_off,
}
use girvi_ghata_backend.Tenants.Accounts.{
  AccountSteps, AccountSteps-Keeps, logout_all-IsUpdated, deactivate_user-IsUpdated,
  create_user-IsCreated,
}

module _ {D T : Type 0} (lib : Credentials T) (env : Environment) where
  -- A token of a version that the user has left behind is refused.
  refresh-outdated :
      (now : Instant) (s : Store D) (token : T) (p : RefreshTokenPayload) (u : User)
      → lib.verify env.refresh_secret now token ≡ some (refresh_payload p)
      → find p.sub s.users ≡ some u
      → p.token_version < u.token_version
      → refresh lib env now s token ≡ err token_no_longer_valid
  unfolding refresh as_refresh refresh_with
  refresh-outdated now s token p u known found older =
      let stale : is_live p u ≡ false = ground arith in rw (known, found, stale)

  module _ (s : Store D) (token : T) (p : RefreshTokenPayload) (u : User)
      (found : find p.sub s.users ≡ some u) (issued : p.token_version ≤ u.token_version) where
    -- The call that ends the sessions: logoutAll, or deactivateUser by anyone.
    abbrev pub Ends : Store D → Type 0
    Ends s' =
        (logout_all s p.sub ≡ ok s')
        ⊎ ((ctx : Context) × (safe : SafeUser) × (deactivate_user s ctx p.sub ≡ ok (safe, s')))

    ended_version :
        {s' : Store D}
        → Ends s'
        → (v : User) × (find p.sub s'.users ≡ some v) × (p.token_version < v.token_version)
    ended_version (inl h) =
        let r = logout_all-IsUpdated s p.sub h in
        let there = find-update_self p.sub with_next_version s.users found in
        (with_next_version u, rw r.users there, omega (arith, issued))
    ended_version (inr (ctx, safe, h)) =
        let r = deactivate_user-IsUpdated s ctx p.sub h in
        let there = find-update_self p.sub switched_off s.users found in
        (switched_off u, rw r.users there, omega (arith, issued))

    -- After logoutAll or deactivateUser, and after any calls of the account services that follow
    -- it, a refresh token of the user that bears the version of that time or an earlier one is
    -- refused.
    pub ended-refused :
        {s' s'' : Store D}
        → Ends s'
        → AccountSteps lib env s' s''
        → (now : Instant) → lib.verify env.refresh_secret now token ≡ some (refresh_payload p)
        → refresh lib env now s'' token ≡ err token_no_longer_valid
    ended-refused {s''} h later now known =
        let (v, there, newer) = ended_version h in
        let (w, kept, (no_older, _)) = AccountSteps-Keeps lib env later p.sub v there in
        refresh-outdated now s'' token p w known kept (omega (arith, newer, no_older))

module _ {D T : Type 0} (lib : Credentials T) (sound : IsSound lib) (env : Environment) where
  -- A user that was just created logs in with its email and password, if no user that is there has
  -- this email.
  pub create_user-login :
      (s : Store D) (ctx : Context) (dto : CreateUser) (salt id : ℕ) {u : SafeUser} {s' : Store D}
      → create_user lib s ctx dto salt id ≡ ok (u, s')
      → find_first (has_email dto.email) s.users ≡ none
      → (now : Instant)
      → (login lib env now s' dto.email dto.password).0
        ≡ ok (issue_for lib env now s' id (new_user ctx dto (lib.hash salt dto.password)))
  unfolding login find_first
  create_user-login s ctx dto salt id h only now =
      let r = (create_user-IsCreated lib s ctx dto salt id h).1 in
      rw (r.users, ==_refl dto.email, sound.verify_password-hash salt dto.password)
