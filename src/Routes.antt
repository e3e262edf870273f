-- ===== src/Routes.antt =====
-- The controllers under src/modules: the handlers of each, with the method and the decorators of each
-- handler.
pub mod Writes
use girvi_ghata_backend.Base.{ℕ, Bool, true, false, Option, none, some, List, [], ◌∷◌}
use girvi_ghata_backend.Guards.{Route}

-- The codes of the catalogue of prisma/seed.ts
pub data PermissionCode : Type 0 where
  customer_view customer_create customer_edit kyc_view_masked kyc_view_full girvi_create
        girvi_modify girvi_approve payment_receive payment_cancel item_redeem rate_change
        rules_change tenant_manage auction_manage reports_view reports_export records_delete
        audit_view :
      PermissionCode

-- A permission stands in the token by a number of its own: its place in the catalogue.
abbrev pub code : PermissionCode → ℕ
code PermissionCode.customer_view = 0
code PermissionCode.customer_create = 1
code PermissionCode.customer_edit = 2
code PermissionCode.kyc_view_masked = 3
code PermissionCode.kyc_view_full = 4
code PermissionCode.girvi_create = 5
code PermissionCode.girvi_modify = 6
code PermissionCode.girvi_approve = 7
code PermissionCode.payment_receive = 8
code PermissionCode.payment_cancel = 9
code PermissionCode.item_redeem = 10
code PermissionCode.rate_change = 11
code PermissionCode.rules_change = 12
code PermissionCode.tenant_manage = 13
code PermissionCode.auction_manage = 14
code PermissionCode.reports_view = 15
code PermissionCode.reports_export = 16
code PermissionCode.records_delete = 17
code PermissionCode.audit_view = 18

pub data Method : Type 0 where
  get post put patch : Method

unfoldable pub is_get : Method → Bool
is_get Method.get = true
is_get _ = false

pub record Handler : Type 0 where
  pub method : Method
  pub route : Route

-- `@Public()`
unfoldable pub open_to_all : Route
open_to_all = record { is_public = true; required = [] }

-- a handler with neither decorator
unfoldable pub signed_in : Route
signed_in = record { is_public = false; required = [] }

-- `@RequirePermissions(p)`; no handler names two permissions.
unfoldable pub requires : PermissionCode → Route
requires p = record { is_public = false; required = code p ∷ [] }

-- `AuctionController`
pub data AuctionHandler : Type 0 where
  send_notice mark_eligible schedule record_sale close : AuctionHandler

unfoldable pub auction_handler : AuctionHandler → Handler
auction_handler AuctionHandler.send_notice = record {
  method = Method.post;
  route = requires PermissionCode.auction_manage;
}
auction_handler AuctionHandler.mark_eligible = record {
  method = Method.post;
  route = requires PermissionCode.auction_manage;
}
auction_handler AuctionHandler.schedule = record {
  method = Method.post;
  route = requires PermissionCode.auction_manage;
}
auction_handler AuctionHandler.record_sale = record {
  method = Method.post;
  route = requires PermissionCode.auction_manage;
}
auction_handler AuctionHandler.close = record {
  method = Method.post;
  route = requires PermissionCode.auction_manage;
}

-- `AuditController`
pub data AuditHandler : Type 0 where
  query : AuditHandler

unfoldable pub audit_handler : AuditHandler → Handler
audit_handler AuditHandler.query = record {
  method = Method.get;
  route = requires PermissionCode.audit_view;
}

-- `AuthController`
pub data AuthHandler : Type 0 where
  login refresh logout_all : AuthHandler

unfoldable pub auth_handler : AuthHandler → Handler
auth_handler AuthHandler.login = record { method = Method.post; route = open_to_all }
auth_handler AuthHandler.refresh = record { method = Method.post; route = open_to_all }
auth_handler AuthHandler.logout_all = record { method = Method.post; route = signed_in }

-- `CustomersController`
pub data CustomersHandler : Type 0 where
  create search find_one update : CustomersHandler

unfoldable pub customers_handler : CustomersHandler → Handler
customers_handler CustomersHandler.create = record {
  method = Method.post;
  route = requires PermissionCode.customer_create;
}
customers_handler CustomersHandler.search = record {
  method = Method.get;
  route = requires PermissionCode.customer_view;
}
customers_handler CustomersHandler.find_one = record {
  method = Method.get;
  route = requires PermissionCode.customer_view;
}
customers_handler CustomersHandler.update = record {
  method = Method.patch;
  route = requires PermissionCode.customer_edit;
}

-- `GirviController`
pub data GirviHandler : Type 0 where
  create list find_one top_up get_current_valuation update_pledge_date : GirviHandler

unfoldable pub girvi_handler : GirviHandler → Handler
girvi_handler GirviHandler.create = record {
  method = Method.post;
  route = requires PermissionCode.girvi_create;
}
girvi_handler GirviHandler.list = record {
  method = Method.get;
  route = requires PermissionCode.girvi_create;
}
girvi_handler GirviHandler.find_one = record {
  method = Method.get;
  route = requires PermissionCode.girvi_create;
}
girvi_handler GirviHandler.top_up = record {
  method = Method.post;
  route = requires PermissionCode.girvi_modify;
}
girvi_handler GirviHandler.get_current_valuation = record {
  method = Method.get;
  route = requires PermissionCode.girvi_create;
}
girvi_handler GirviHandler.update_pledge_date = record {
  method = Method.put;
  route = requires PermissionCode.girvi_modify;
}

-- `InventoryController`
pub data InventoryHandler : Type 0 where
  create_location list_locations assign_packet move find_by_qr : InventoryHandler

unfoldable pub inventory_handler : InventoryHandler → Handler
inventory_handler InventoryHandler.create_location = record {
  method = Method.post;
  route = requires PermissionCode.girvi_approve;
}
inventory_handler InventoryHandler.list_locations = record {
  method = Method.get;
  route = requires PermissionCode.girvi_create;
}
inventory_handler InventoryHandler.assign_packet = record {
  method = Method.post;
  route = requires PermissionCode.girvi_create;
}
inventory_handler InventoryHandler.move = record {
  method = Method.patch;
  route = requires PermissionCode.girvi_create;
}
inventory_handler InventoryHandler.find_by_qr = record {
  method = Method.get;
  route = requires PermissionCode.girvi_create;
}

-- `MetalsController`
pub data MetalsHandler : Type 0 where
  list : MetalsHandler

unfoldable pub metals_handler : MetalsHandler → Handler
metals_handler MetalsHandler.list = record {
  method = Method.get;
  route = requires PermissionCode.girvi_create;
}

-- `PaymentsController`
pub data PaymentsHandler : Type 0 where
  receive reverse outstanding : PaymentsHandler

unfoldable pub payments_handler : PaymentsHandler → Handler
payments_handler PaymentsHandler.receive = record {
  method = Method.post;
  route = requires PermissionCode.payment_receive;
}
payments_handler PaymentsHandler.reverse = record {
  method = Method.post;
  route = requires PermissionCode.payment_cancel;
}
payments_handler PaymentsHandler.outstanding = record {
  method = Method.get;
  route = requires PermissionCode.payment_receive;
}

-- `RatesController`
pub data RatesHandler : Type 0 where
  get_current get_status set_rate history : RatesHandler

unfoldable pub rates_handler : RatesHandler → Handler
rates_handler RatesHandler.get_current = record {
  method = Method.get;
  route = requires PermissionCode.reports_view;
}
rates_handler RatesHandler.get_status = record { method = Method.get; route = signed_in }
rates_handler RatesHandler.set_rate = record {
  method = Method.post;
  route = requires PermissionCode.rate_change;
}
rates_handler RatesHandler.history = record {
  method = Method.get;
  route = requires PermissionCode.reports_view;
}

-- `RedemptionController`
pub data RedemptionHandler : Type 0 where
  redeem : RedemptionHandler

unfoldable pub redemption_handler : RedemptionHandler → Handler
redemption_handler RedemptionHandler.redeem = record {
  method = Method.post;
  route = requires PermissionCode.item_redeem;
}

-- `ReportsController`
pub data ReportsHandler : Type 0 where
  dashboard customer_statement cash_book record_daily_closing metal_by_purity collections_by_staff :
      ReportsHandler

unfoldable pub reports_handler : ReportsHandler → Handler
reports_handler ReportsHandler.dashboard = record {
  method = Method.get;
  route = requires PermissionCode.reports_view;
}
reports_handler ReportsHandler.customer_statement = record {
  method = Method.get;
  route = requires PermissionCode.reports_view;
}
reports_handler ReportsHandler.cash_book = record {
  method = Method.get;
  route = requires PermissionCode.reports_view;
}
reports_handler ReportsHandler.record_daily_closing = record {
  method = Method.post;
  route = requires PermissionCode.reports_view;
}
reports_handler ReportsHandler.metal_by_purity = record {
  method = Method.get;
  route = requires PermissionCode.reports_view;
}
reports_handler ReportsHandler.collections_by_staff = record {
  method = Method.get;
  route = requires PermissionCode.reports_view;
}

-- `RulesController`
pub data RulesHandler : Type 0 where
  list_versions create_new_version : RulesHandler

unfoldable pub rules_handler : RulesHandler → Handler
rules_handler RulesHandler.list_versions = record {
  method = Method.get;
  route = requires PermissionCode.reports_view;
}
rules_handler RulesHandler.create_new_version = record {
  method = Method.post;
  route = requires PermissionCode.rules_change;
}

-- `TenantsController`
pub data TenantsHandler : Type 0 where
  create_branch list_branches create_role list_roles list_permissions create_user list_users
        deactivate_user :
      TenantsHandler

unfoldable pub tenants_handler : TenantsHandler → Handler
tenants_handler TenantsHandler.create_branch = record {
  method = Method.post;
  route = requires PermissionCode.tenant_manage;
}
tenants_handler TenantsHandler.list_branches = record { method = Method.get; route = signed_in }
tenants_handler TenantsHandler.create_role = record {
  method = Method.post;
  route = requires PermissionCode.tenant_manage;
}
tenants_handler TenantsHandler.list_roles = record { method = Method.get; route = signed_in }
tenants_handler TenantsHandler.list_permissions = record { method = Method.get; route = signed_in }
tenants_handler TenantsHandler.create_user = record {
  method = Method.post;
  route = requires PermissionCode.tenant_manage;
}
tenants_handler TenantsHandler.list_users = record { method = Method.get; route = signed_in }
tenants_handler TenantsHandler.deactivate_user = record {
  method = Method.patch;
  route = requires PermissionCode.tenant_manage;
}

-- `UploadsController`
pub data UploadsHandler : Type 0 where
  upload_signature : UploadsHandler

unfoldable pub uploads_handler : UploadsHandler → Handler
uploads_handler UploadsHandler.upload_signature = record {
  method = Method.post;
  route = requires PermissionCode.girvi_create;
}

-- The handlers of the application.
pub data Endpoint : Type 0 where
  auction : AuctionHandler → Endpoint
  audit : AuditHandler → Endpoint
  auth : AuthHandler → Endpoint
  customers : CustomersHandler → Endpoint
  girvi : GirviHandler → Endpoint
  inventory : InventoryHandler → Endpoint
  metals : MetalsHandler → Endpoint
  payments : PaymentsHandler → Endpoint
  rates : RatesHandler → Endpoint
  redemption : RedemptionHandler → Endpoint
  reports : ReportsHandler → Endpoint
  rules : RulesHandler → Endpoint
  tenants : TenantsHandler → Endpoint
  uploads : UploadsHandler → Endpoint

unfoldable pub handler_of : Endpoint → Handler
handler_of (Endpoint.auction h) = auction_handler h
handler_of (Endpoint.audit h) = audit_handler h
handler_of (Endpoint.auth h) = auth_handler h
handler_of (Endpoint.customers h) = customers_handler h
handler_of (Endpoint.girvi h) = girvi_handler h
handler_of (Endpoint.inventory h) = inventory_handler h
handler_of (Endpoint.metals h) = metals_handler h
handler_of (Endpoint.payments h) = payments_handler h
handler_of (Endpoint.rates h) = rates_handler h
handler_of (Endpoint.redemption h) = redemption_handler h
handler_of (Endpoint.reports h) = reports_handler h
handler_of (Endpoint.rules h) = rules_handler h
handler_of (Endpoint.tenants h) = tenants_handler h
handler_of (Endpoint.uploads h) = uploads_handler h

unfoldable pub of_auth : Endpoint → Bool
of_auth (Endpoint.auth _) = true
of_auth _ = false
