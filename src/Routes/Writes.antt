-- ===== src/Routes/Writes.antt =====
-- Who reaches a handler that writes.
use girvi_ghata_backend.Base.{
  ℕ, ◌≡◌, ◌⊎◌, inl, inr, refl, ap, true, false, Option, none, some, List, includes, Bool-cases,
}
use girvi_ghata_backend.Calendar.{Instant}
use girvi_ghata_backend.Result.{Result, ok, err, ◌>>=◌, >>=-eq-ok, ok-injective, throw_if}
use girvi_ghata_backend.Store.{Context}
use girvi_ghata_backend.Auth.{Credentials, Environment}
use girvi_ghata_backend.Guards.{Route, check_permissions, authenticate, can_activate}
use girvi_ghata_backend.Routes.{
  PermissionCode, code, is_get, Handler, requires, Endpoint, handler_of, of_auth, AuctionHandler,
  auction_handler, AuditHandler, audit_handler, CustomersHandler, customers_handler, GirviHandler,
  girvi_handler, InventoryHandler, inventory_handler, MetalsHandler, metals_handler,
  PaymentsHandler, payments_handler, RatesHandler, rates_handler, RedemptionHandler,
  redemption_handler, ReportsHandler, reports_handler, RulesHandler, rules_handler, TenantsHandler,
  tenants_handler, UploadsHandler, uploads_handler,
}

-- It only reads, or one permission opens it.
IsRestricted : Handler → Type 0
IsRestricted h = (is_get h.method ≡ true) ⊎ ((p : PermissionCode) × (h.route ≡ requires p))

auction-IsRestricted : (h : AuctionHandler) → IsRestricted (auction_handler h)
unfolding auction_handler IsRestricted is_get
auction-IsRestricted AuctionHandler.send_notice = inr (PermissionCode.auction_manage, refl)
auction-IsRestricted AuctionHandler.mark_eligible = inr (PermissionCode.auction_manage, refl)
auction-IsRestricted AuctionHandler.schedule = inr (PermissionCode.auction_manage, refl)
auction-IsRestricted AuctionHandler.record_sale = inr (PermissionCode.auction_manage, refl)
auction-IsRestricted AuctionHandler.close = inr (PermissionCode.auction_manage, refl)

audit-IsRestricted : (h : AuditHandler) → IsRestricted (audit_handler h)
unfolding audit_handler IsRestricted is_get
audit-IsRestricted AuditHandler.query = inl refl

customers-IsRestricted : (h : CustomersHandler) → IsRestricted (customers_handler h)
unfolding customers_handler IsRestricted is_get
customers-IsRestricted CustomersHandler.create = inr (PermissionCode.customer_create, refl)
customers-IsRestricted CustomersHandler.search = inl refl
customers-IsRestricted CustomersHandler.find_one = inl refl
customers-IsRestricted CustomersHandler.update = inr (PermissionCode.customer_edit, refl)

girvi-IsRestricted : (h : GirviHandler) → IsRestricted (girvi_handler h)
unfolding girvi_handler IsRestricted is_get
girvi-IsRestricted GirviHandler.create = inr (PermissionCode.girvi_create, refl)
girvi-IsRestricted GirviHandler.list = inl refl
girvi-IsRestricted GirviHandler.find_one = inl refl
girvi-IsRestricted GirviHandler.top_up = inr (PermissionCode.girvi_modify, refl)
girvi-IsRestricted GirviHandler.get_current_valuation = inl refl
girvi-IsRestricted GirviHandler.update_pledge_date = inr (PermissionCode.girvi_modify, refl)

inventory-IsRestricted : (h : InventoryHandler) → IsRestricted (inventory_handler h)
unfolding inventory_handler IsRestricted is_get
inventory-IsRestricted InventoryHandler.create_location = inr (PermissionCode.girvi_approve, refl)
inventory-IsRestricted InventoryHandler.list_locations = inl refl
inventory-IsRestricted InventoryHandler.assign_packet = inr (PermissionCode.girvi_create, refl)
inventory-IsRestricted InventoryHandler.move = inr (PermissionCode.girvi_create, refl)
inventory-IsRestricted InventoryHandler.find_by_qr = inl refl

metals-IsRestricted : (h : MetalsHandler) → IsRestricted (metals_handler h)
unfolding metals_handler IsRestricted is_get
metals-IsRestricted MetalsHandler.list = inl refl

payments-IsRestricted : (h : PaymentsHandler) → IsRestricted (payments_handler h)
unfolding payments_handler IsRestricted is_get
payments-IsRestricted PaymentsHandler.receive = inr (PermissionCode.payment_receive, refl)
payments-IsRestricted PaymentsHandler.reverse = inr (PermissionCode.payment_cancel, refl)
payments-IsRestricted PaymentsHandler.outstanding = inl refl

rates-IsRestricted : (h : RatesHandler) → IsRestricted (rates_handler h)
unfolding rates_handler IsRestricted is_get
rates-IsRestricted RatesHandler.get_current = inl refl
rates-IsRestricted RatesHandler.get_status = inl refl
rates-IsRestricted RatesHandler.set_rate = inr (PermissionCode.rate_change, refl)
rates-IsRestricted RatesHandler.history = inl refl

redemption-IsRestricted : (h : RedemptionHandler) → IsRestricted (redemption_handler h)
unfolding redemption_handler IsRestricted is_get
redemption-IsRestricted RedemptionHandler.redeem = inr (PermissionCode.item_redeem, refl)

reports-IsRestricted : (h : ReportsHandler) → IsRestricted (reports_handler h)
unfolding reports_handler IsRestricted is_get
reports-IsRestricted ReportsHandler.dashboard = inl refl
reports-IsRestricted ReportsHandler.customer_statement = inl refl
reports-IsRestricted ReportsHandler.cash_book = inl refl
reports-IsRestricted ReportsHandler.record_daily_closing = inr (PermissionCode.reports_view, refl)
reports-IsRestricted ReportsHandler.metal_by_purity = inl refl
reports-IsRestricted ReportsHandler.collections_by_staff = inl refl

rules-IsRestricted : (h : RulesHandler) → IsRestricted (rules_handler h)
unfolding rules_handler IsRestricted is_get
rules-IsRestricted RulesHandler.list_versions = inl refl
rules-IsRestricted RulesHandler.create_new_version = inr (PermissionCode.rules_change, refl)

tenants-IsRestricted : (h : TenantsHandler) → IsRestricted (tenants_handler h)
unfolding tenants_handler IsRestricted is_get
tenants-IsRestricted TenantsHandler.create_branch = inr (PermissionCode.tenant_manage, refl)
tenants-IsRestricted TenantsHandler.list_branches = inl refl
tenants-IsRestricted TenantsHandler.create_role = inr (PermissionCode.tenant_manage, refl)
tenants-IsRestricted TenantsHandler.list_roles = inl refl
tenants-IsRestricted TenantsHandler.list_permissions = inl refl
tenants-IsRestricted TenantsHandler.create_user = inr (PermissionCode.tenant_manage, refl)
tenants-IsRestricted TenantsHandler.list_users = inl refl
tenants-IsRestricted TenantsHandler.deactivate_user = inr (PermissionCode.tenant_manage, refl)

uploads-IsRestricted : (h : UploadsHandler) → IsRestricted (uploads_handler h)
unfolding uploads_handler IsRestricted is_get
uploads-IsRestricted UploadsHandler.upload_signature = inr (PermissionCode.girvi_create, refl)

handler_of-IsRestricted : (e : Endpoint) → of_auth e ≡ false → IsRestricted (handler_of e)
unfolding handler_of of_auth
handler_of-IsRestricted (Endpoint.auction h) guarded = auction-IsRestricted h
handler_of-IsRestricted (Endpoint.audit h) guarded = audit-IsRestricted h
handler_of-IsRestricted (Endpoint.auth h) guarded = cc guarded
handler_of-IsRestricted (Endpoint.customers h) guarded = customers-IsRestricted h
handler_of-IsRestricted (Endpoint.girvi h) guarded = girvi-IsRestricted h
handler_of-IsRestricted (Endpoint.inventory h) guarded = inventory-IsRestricted h
handler_of-IsRestricted (Endpoint.metals h) guarded = metals-IsRestricted h
handler_of-IsRestricted (Endpoint.payments h) guarded = payments-IsRestricted h
handler_of-IsRestricted (Endpoint.rates h) guarded = rates-IsRestricted h
handler_of-IsRestricted (Endpoint.redemption h) guarded = redemption-IsRestricted h
handler_of-IsRestricted (Endpoint.reports h) guarded = reports-IsRestricted h
handler_of-IsRestricted (Endpoint.rules h) guarded = rules-IsRestricted h
handler_of-IsRestricted (Endpoint.tenants h) guarded = tenants-IsRestricted h
handler_of-IsRestricted (Endpoint.uploads h) guarded = uploads-IsRestricted h

check_permissions-requires :
    (p : PermissionCode) (context : Option Context) {u : Unit {0}}
    → check_permissions (requires p).required context ≡ ok u
    → (c : Context) × (context ≡ some c) × (includes c.permissions (code p) ≡ true)
unfolding check_permissions requires throw_if
check_permissions-requires p none h = cc h
check_permissions-requires p (some c) h = elim (Bool-cases (includes c.permissions (code p))) [
  | inl held ↦ (c, refl, held)
  | inr missing ↦ cc (rw missing at h)
]

activated-checked :
    (required : List ℕ) (authenticated : Result (Option Context)) {context : Option Context}
    → (authenticated >>= (λ c. check_permissions required c >>= (λ _. ok c))) ≡ ok context
    → check_permissions required context ≡ ok tt
activated-checked required (err e) h = cc
activated-checked required (ok c) h =
    let (u, checked, same) = >>=-eq-ok (check_permissions required c) (λ _. ok c) h in
    rw (ok-injective same) at checked

module _ {T : Type 0} (lib : Credentials T) (env : Environment) (now : Instant) where
  -- A request that the guards let through to a handler that does not answer GET, outside the
  -- authentication controller, has a context, and there is a permission that the handler requires
  -- and that the context has.
  pub writes_guarded :
      (e : Endpoint)
      → of_auth e ≡ false
      → is_get (handler_of e).method ≡ false
      → (bearer : Option T) {context : Option Context}
      → can_activate lib env now (handler_of e).route bearer ≡ ok context
      → (c : Context) × (p : PermissionCode) × (context ≡ some c)
        × ((handler_of e).route ≡ requires p)
        × (includes c.permissions (code p) ≡ true)
  unfolding can_activate IsRestricted
  writes_guarded e guarded writes bearer h = elim (handler_of-IsRestricted e guarded) [
    | inl reads ↦ cc (reads, writes)
    | inr (p, only) ↦
        let (c, granted, held) = check_permissions-requires p _ (
          rw (ap (λ (r : Route). r.required) only) at
            (activated-checked _ (authenticate lib env now (handler_of e).route bearer) h)) in
        (c, p, granted, only, held)
  ]
