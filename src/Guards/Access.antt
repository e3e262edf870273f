-- ===== src/Guards/Access.antt =====
-- From a login to the routes that the guards open, and from a login to a refresh.
use girvi_ghata_backend.Base.{
  ℕ, ◌+◌, ◌≤◌, ◌≡◌, ◌↔◌, inl, inr, refl, sym, ap, Bool, true, false, not, ◌||◌, Option, none, some,
  List, [], ◌∷◌, arith, Bool-cases, includes, every, All, includes-distinct_iff, every-All, All-map,
  ==_refl, if◌then◌else◌,
}
use girvi_ghata_backend.Calendar.{Instant}
use girvi_ghata_backend.Result.{Result, ok, err, ok-injective, missing_permission}
use girvi_ghata_backend.Table.{find_first, update, UniqueIds, find_first-find, find-update_self}
use girvi_ghata_backend.Store.{Store, Context, User}
use girvi_ghata_backend.Auth.{
  Credentials, Environment, IsSound, TokenPair, access, refresh_payload, login, login_as, issue_for,
  issue_token_pair, has_email, role_codes, permissions_of, validate, refresh, as_refresh,
  refresh_with, seen, logged,
}
use girvi_ghata_backend.Guards.{Route, check_permissions, authenticate, can_activate}

abbrev pub context_of : {D : Type 0} → Store D → ℕ → User → Context
context_of s id u = record {
  user_id = id;
  tenant_id = u.tenant;
  branch_ids = u.branches;
  permissions = permissions_of s u;
}

check_permissions_lem :
    (required : List ℕ) (c : Context)
    → check_permissions required (some c)
      ≡ (if every (λ p. includes c.permissions p) required then ok tt else err missing_permission)
unfolding check_permissions
check_permissions_lem [] c = refl
check_permissions_lem (p ∷ ps) c =
    elim (Bool-cases (every (λ q. includes c.permissions q) (p ∷ ps))) [
      | inl e ↦ rw e
      | inr e ↦ rw e
    ]

module _ {D T : Type 0} (lib : Credentials T) (sound : IsSound lib) (env : Environment) where
  -- What a login that succeeds has found, and what it writes and issues.
  pub record IsLoggedIn (issued : Instant) (s : Store D) (email password : ℕ) (pair : TokenPair T)
      (s' : Store D) : Type 0 where
    pub id : ℕ
    pub user : User
    pub found : find_first (has_email email) s.users ≡ some (id, user)
    pub is_active : user.is_active ≡ true
    pub matches : lib.verify_password user.password_hash password ≡ true
    pub tokens : pair ≡ issue_for lib env issued s id user
    pub state : s' ≡ logged id true (record s { users = update id (seen issued) s.users })

  module _ (issued : Instant) (s : Store D) (email password : ℕ) {pair : TokenPair T}
      {s' : Store D} where
    login_as-IsLoggedIn :
        (o : Option (ℕ × User))
        → find_first (has_email email) s.users ≡ o
        → login_as lib env issued s password o ≡ (ok pair, s')
        → IsLoggedIn issued s email password pair s'
    login_as-IsLoggedIn none e h = cc (ap (λ (q : Result (TokenPair T) × Store D). q.0) h)
    login_as-IsLoggedIn (some (id, u)) e h =
        elim (Bool-cases (not (lib.verify_password u.password_hash password) || not u.is_active)) [
          | inl c ↦ cc (ap (λ (q : Result (TokenPair T) × Store D). q.0) (rw c at h))
          | inr c ↦
              let h' : (
                ok (issue_for lib env issued s id u),
                logged id true (record s { users = update id (seen issued) s.users }),
              )
                  ≡ (ok pair, s') =
                rw c at h in
              record {
                id = id;
                user = u;
                found = e;
                is_active = ground (arith, c);
                matches = ground (arith, c);
                tokens = sym (ok-injective (ap (λ (q : Result (TokenPair T) × Store D). q.0) h'));
                state = sym (ap (λ (q : Result (TokenPair T) × Store D). q.1) h');
              }
        ]

    pub login-IsLoggedIn :
        login lib env issued s email password ≡ (ok pair, s')
        → IsLoggedIn issued s email password pair s'
    unfolding login
    login-IsLoggedIn h = login_as-IsLoggedIn (find_first (has_email email) s.users) refl h

    -- The refresh token of a login is accepted until a second before its lifetime ends, while the
    -- rows stay as the login left them, and gives a pair for the same user, if the users' ids are
    -- unique.
    pub login-refresh :
        UniqueIds s.users
        → login lib env issued s email password ≡ (ok pair, s')
        → (now : Instant) → issued ≤ now
        → now + 1000 ≤ issued + env.refresh_lifetime
        → (id : ℕ) × (u : User) × (find_first (has_email email) s.users ≡ some (id, u))
          × (refresh lib env now s' pair.refresh_token
              ≡ ok (issue_for lib env now s' id (seen issued u)))
    unfolding refresh as_refresh refresh_with issue_token_pair
    login-refresh unique h now later within =
        let r = login-IsLoggedIn h in
        let row = find_first-find (has_email email) s.users unique r.found in
        let there = find-update_self r.id (seen issued) s.users row in
        let accepted =
          sound.verify-sign env.refresh_secret env.refresh_lifetime issued now
            (refresh_payload (record {
              sub = r.id;
              tenant_id = r.user.tenant;
              token_version = r.user.token_version;
            }))
            later within in
        (
          r.id,
          r.user,
          r.found,
          rw (r.tokens, r.state, accepted, there, r.is_active, ==_refl r.user.token_version),
        )

    -- With the access token of a login, a route that is not public lets the request pass, until a
    -- second before the token's lifetime ends, just if every permission that the route requires is
    -- one of the user's roles at the time of the login; the context is then that user's.
    pub login-can_activate :
        login lib env issued s email password ≡ (ok pair, s')
        → (now : Instant) → issued ≤ now
        → now + 1000 ≤ issued + env.access_lifetime
        → (route : Route) → route.is_public ≡ false
        → (id : ℕ) × (u : User) × (find_first (has_email email) s.users ≡ some (id, u))
          × ((can_activate lib env now route (some pair.access_token)
                ≡ ok (some (context_of s id u)))
              ↔ All (λ p. includes (role_codes s u.roles) p ≡ true) route.required)
    unfolding can_activate authenticate validate issue_token_pair
    login-can_activate h now later within route guarded =
        let r = login-IsLoggedIn h in
        let c = context_of s r.id r.user in
        let accepted =
          sound.verify-sign env.access_secret env.access_lifetime issued now
            (access (record {
              sub = r.id;
              tenant_id = r.user.tenant;
              branch_ids = r.user.branches;
              permissions = permissions_of s r.user;
            }))
            later within in
        let test : ℕ → Bool = λ p. includes c.permissions p in
        (
          r.id,
          r.user,
          r.found,
          elim (Bool-cases (every test route.required)) [
            | inl e ↦ (
              λ _.
                  All-map _ _ route.required (λ p. (includes-distinct_iff _ p).0)
                    ((every-All test route.required).0 e),
              λ _. rw (r.tokens, guarded, accepted, check_permissions_lem route.required c, e),
            )
            | inr e ↦ (
              λ passed. cc (
                  rw (r.tokens, guarded, accepted, check_permissions_lem route.required c, e) at
                    passed),
              λ all.
                  let yes =
                    (every-All test route.required).1
                      (All-map _ _ route.required (λ p. (includes-distinct_iff _ p).1) all) in
                  cc (e, yes),
            )
          ],
        )
