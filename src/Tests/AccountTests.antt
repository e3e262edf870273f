-- ===== src/Tests/AccountTests.antt =====
-- Witnesses for logins, guards, tenants and sessions: a token is its own record, a hash the password.
use girvi_ghata_backend.Base.{
  ℕ, ◌+◌, ◌≡◌, ◌↔◌, refl, true, false, ◌&&◌, none, some, [], ◌∷◌, ltb, ◌==◌, if◌then◌else◌, arith,
  inl, inr, Bool-cases, eq_of_==, ==_refl, All, includes,
}
use girvi_ghata_backend.Calendar.{Instant}
use girvi_ghata_backend.Fixed.{Fixed}
use girvi_ghata_backend.Result.{ok, err, IsOk, value_of, token_no_longer_valid}
use girvi_ghata_backend.Table.{find, find_first, update, select, select_in}
use girvi_ghata_backend.Store.{Store, Context, GirviStatus, User}
use girvi_ghata_backend.Auth.{
  Credentials, Environment, IsSound, Payload, access, TokenPair, RefreshTokenPayload,
  refresh_payload, login, validate, logout_all, refresh, issue_for, issue_token_pair, has_email,
  role_codes, seen,
}
use girvi_ghata_backend.Guards.{Route, authenticate, can_activate, check_permissions}
use girvi_ghata_backend.Guards.Access.{context_of, login-refresh, login-can_activate}
use girvi_ghata_backend.Routes.{
  PermissionCode, code, requires, is_get, Endpoint, PaymentsHandler, payments_handler, handler_of,
  of_auth,
}
use girvi_ghata_backend.Routes.Writes.{writes_guarded}
use girvi_ghata_backend.Tenants.{CreateUser, SafeUser, create_user, check_user, new_user}
use girvi_ghata_backend.Tenants.Accounts.{login_step, user_step, done, step}
use girvi_ghata_backend.Tenants.Plans.{WithinPlan, AccountSteps-WithinPlan}
use girvi_ghata_backend.Tenants.Sessions.{ended-refused, create_user-login}
use girvi_ghata_backend.Tests.{store_in, clerk, manager}

record Signed : Type 0 where
  secret : ℕ
  lifetime : ℕ
  issued : Instant
  payload : Payload

abbrev plain : Credentials Signed
plain = record {
  sign = λ secret lifetime issued payload. record {
    secret = secret;
    lifetime = lifetime;
    issued = issued;
    payload = payload;
  };
  verify = λ secret now t.
      if t.secret == secret && ltb now (t.issued + t.lifetime) then some t.payload else none;
  hash = λ salt password. password;
  verify_password = λ hashed password. hashed == password;
}

plain-IsSound : IsSound plain
plain-IsSound = record {
  verify-sign = λ secret lifetime issued now p later within.
      let live : ltb now (issued + lifetime) ≡ true = ground arith in rw (==_refl secret, live);
  verify_password-hash = λ salt password. ==_refl password;
}

abbrev env : Environment
env = record {
  access_secret = 1;
  refresh_secret = 2;
  access_lifetime = 900_000;
  refresh_lifetime = 604_800_000;
}

abbrev office : Store Fixed
office = store_in GirviStatus.active

abbrev pair : TokenPair Signed
pair = issue_for plain env 1000 office 8 manager

abbrev after_login : Store Fixed
after_login = record office {
  users = (8, seen 1000 manager) ∷ [];
  login_history = record { user = 8; success = true } ∷ [];
}

logs_in : login plain env 1000 office 90 77 ≡ (ok pair, after_login)
unfolding login find_first update
logs_in = refl

nothing : find {V = User} 8 [] ≡ none
unfolding find
nothing = refl

login-refresh_example :
    (id : ℕ) × (u : User) × (find_first (has_email 90) office.users ≡ some (id, u))
    × (refresh plain env 5_000_000 after_login pair.refresh_token
        ≡ ok (issue_for plain env 5_000_000 after_login id (seen 1000 u)))
login-refresh_example =
    login-refresh plain plain-IsSound env 1000 office 90 77 (nothing, tt) logs_in 5_000_000
      (omega arith) (omega arith)

abbrev payments_route : Route
payments_route = record { is_public = false; required = 52 ∷ [] }

login-can_activate_example :
    (id : ℕ) × (u : User) × (find_first (has_email 90) office.users ≡ some (id, u))
    × ((can_activate plain env 60_000 payments_route (some pair.access_token)
          ≡ ok (some (context_of office id u)))
        ↔ All (λ p. includes (role_codes office u.roles) p ≡ true) (52 ∷ []))
login-can_activate_example =
    login-can_activate plain plain-IsSound env 1000 office 90 77 logs_in 60_000 (omega arith)
      (omega arith) payments_route refl

abbrev receiver : Context
receiver = record {
  user_id = 8;
  tenant_id = 1;
  branch_ids = 1 ∷ [];
  permissions = code PermissionCode.payment_receive ∷ [];
}

abbrev receiver_token : Signed
receiver_token = plain.sign 1 900_000 1000 (
    access (record {
      sub = 8;
      tenant_id = 1;
      branch_ids = 1 ∷ [];
      permissions = code PermissionCode.payment_receive ∷ [];
    }))

lets_receive :
    can_activate plain env 60_000
      (handler_of (Endpoint.payments PaymentsHandler.receive)).route
      (some receiver_token)
    ≡ ok (some receiver)
unfolding can_activate authenticate validate check_permissions handler_of payments_handler requires
lets_receive = refl

writes_guarded_example :
    (c : Context) × (p : PermissionCode) × (some receiver ≡ some c)
    × ((handler_of (Endpoint.payments PaymentsHandler.receive)).route ≡ requires p)
    × (includes c.permissions (code p) ≡ true)
unfolding handler_of payments_handler of_auth is_get
writes_guarded_example =
    writes_guarded plain env 60_000 (Endpoint.payments PaymentsHandler.receive) refl refl
      (some receiver_token) lets_receive

abbrev cashier : CreateUser
cashier = record {
  full_name = 2;
  email = 91;
  password = 12;
  role_ids = 1 ∷ [];
  branch_ids = 1 ∷ [];
}

creates : IsOk (create_user plain office clerk cashier 3 9)
unfolding create_user check_user find find_first select select_in
creates = tt

created : (q : SafeUser × Store Fixed) × (create_user plain office clerk cashier 3 9 ≡ ok q)
created = value_of (create_user plain office clerk cashier 3 9) creates

no_user_9 : find 9 office.users ≡ none
unfolding find
no_user_9 = refl

office-WithinPlan : WithinPlan office
unfolding find select
office-WithinPlan tenant = elim (Bool-cases (tenant == 1)) [
  | inl e ↦ let same : tenant ≡ 1 = eq_of_== tenant 1 e in rw same (omega arith, omega arith)
  | inr e ↦ rw e (tt, tt)
]

AccountSteps-WithinPlan_example : WithinPlan created.0.1
AccountSteps-WithinPlan_example =
    AccountSteps-WithinPlan plain env
      (step (user_step clerk cashier 3 9 created.0.0 no_user_9 created.1) done) office-WithinPlan

no_email_91 : find_first (has_email 91) office.users ≡ none
unfolding find_first
no_email_91 = refl

create_user-login_example :
    (login plain env 2000 created.0.1 91 12).0
    ≡ ok (issue_for plain env 2000 created.0.1 9 (new_user clerk cashier 12))
create_user-login_example =
    create_user-login plain plain-IsSound env office clerk cashier 3 9 created.1 no_email_91 2000

abbrev claims : RefreshTokenPayload
claims = record { sub = 8; tenant_id = 1; token_version = 0 }

there : find 8 office.users ≡ some manager
unfolding find
there = refl

known : plain.verify 2 90_000 pair.refresh_token ≡ some (refresh_payload claims)
unfolding issue_token_pair
known = refl

logs_out : IsOk (logout_all office 8)
unfolding logout_all find
logs_out = tt

logged_out : (q : Store Fixed) × (logout_all office 8 ≡ ok q)
logged_out = value_of (logout_all office 8) logs_out

ended-refused_example :
    refresh plain env 90_000 (login plain env 50_000 logged_out.0 90 77).1 pair.refresh_token
    ≡ err token_no_longer_valid
ended-refused_example =
    ended-refused plain env office pair.refresh_token claims manager there (omega arith)
      (inl logged_out.1) (step (login_step 50_000 90 77) done) 90_000 known
