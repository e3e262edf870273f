-- ===== src/Lib.antt =====
-- Verification of the services of the pawn-loan (girvi) backend.
--
-- A tenant lends money on pledged metal. The calculation engine
-- (src/modules/calculation-engine/calculation-engine.service.ts) is pure arithmetic: valuation,
-- months, interest, and the sharing of a payment. The outstanding service
-- (src/modules/payments/outstanding.service.ts) computes from the stored rows what a loan owes. The
-- payments, redemption and auction services and the overdue job change the rows inside database
-- transactions; the rules and the number sequences are shared by all of them. Around this core stand
-- the accounts (tenants, users, tokens and guards), the customers with their documents, the metal
-- rates behind a cache, the packets in their storage locations, and the reports.
--
-- Files and code:
--   Types, Engine          calculation.types.ts and CalculationEngineService; a method keeps its name
--   Outstanding            OutstandingService: getOutstanding, getOutstandingBulk,
--                          computeOutstandingForPreloaded, computeBreakdown
--   Payments               PaymentsService: receive (prepare, then record_payment), reverse,
--                          getOutstandingSummary
--   Redemption             RedemptionService: redeem
--   Auction                AuctionService (src/modules/auction): send_notice, mark_eligible, schedule,
--                          record_sale, close_case (close), get_owned, get_case
--   Girvi                  GirviService (src/modules/girvi): Creation has create, Changes has topUp,
--                          updatePledgeDate and computeCurrentValuation, Listing has findOne, list
--                          and getCurrentValuation
--   Scheduler              OverdueSchedulerService (src/modules/scheduler)
--   Rules                  RulesService (src/modules/rules)
--   Numbering              NumberSequenceService (src/common/numbering)
--   Auth, Guards           AuthService, JwtStrategy (src/modules/auth), JwtAuthGuard and
--                          PermissionsGuard (src/common/guards)
--   Routes                 the handlers of the controllers under src/modules, and the permission codes
--                          of prisma/seed.ts
--   Tenants                TenantsService (src/modules/tenants)
--   Customers, Crypto      CustomersService (src/modules/customers), CryptoService (src/common/crypto)
--   Rates, Cache, IstDate  RatesService and MetalsService (src/modules/rates), CacheService
--                          (src/common/cache), getIstBusinessDate (src/common/utils)
--   Inventory              InventoryService (src/modules/inventory)
--   Reports                ReportsService (src/modules/reports): Cash, Loans, Statement
--   Pagination             parsePagination and the sort parameters (src/common/pagination)
--   Store, Table           the rows of prisma/schema.prisma and the Prisma calls the code makes
--   Decimal, Calendar      decimal.js and the local calendar of Date, as interfaces with laws
--   Result, Base           errors as values, and shared helpers
--   Fixed, Tests           a concrete arithmetic, and examples that run the operations
-- The modules below a file hold its proofs.
--
-- The store is a record of tables, passed from call to call: an operation takes the store, the request
-- context and its arguments, and returns the value and the new store, or an error, in which case
-- nothing is written, as in a database transaction. The id that the database draws for a new row is an
-- argument. The several readings of the clock in one call are one instant. Loops are recursion on
-- lists, so there is no fuel. Codes and texts (metals, names, reasons) are numbers that are only
-- compared.
--
-- Libraries are arguments with laws: `Credentials` is JWT and argon2, `Cipher` is AES-GCM and base64,
-- `Days` are the local days of the server; ORDER BY and the text matching of a search are functions
-- that the definitions take. A call that writes before it throws (a failed login, the view of a
-- document) returns its result and the store side by side.
--
-- decimal.js is not part of the repository. `IsExact` states what is used of it: sums and differences
-- are exact (amounts of at most 14 digits, within its precision of 20), comparisons are those of the
-- values, products, quotients and rounding are monotone and keep 0. What a money column keeps of an
-- amount is the parameter `Columns.money`; values of other columns are taken to fit them. Two calls
-- that overlap in time are not modelled, but for a rate that is written to the cache after another
-- call (`fill`): a call is one step, which the row lock of the number sequences ensures only from that
-- lock on. The order of rows is kept only where the code pages through them.
--
-- Not modelled: audit queries, uploads, the rows of the seed script and the wiring, which mostly declare
-- or call libraries. Of a controller only the method and the decorators of its handlers are modelled:
-- what a handler does is a call of its service. JSON values in audit rows, log lines, and texts that are
-- only passed on (addresses, telephone numbers, remarks) are left out.
pub mod Auth
pub mod Guards
pub mod Routes
pub mod Tenants
pub mod Cache
pub mod IstDate
pub mod Rates
pub mod Pagination
pub mod Crypto
pub mod Customers
pub mod Inventory
pub mod Reports
pub mod Base
pub mod Decimal
pub mod Result
pub mod Calendar
pub mod Types
pub mod Engine
pub mod Fixed
pub mod Table
pub mod Store
pub mod Numbering
pub mod Rules
pub mod Outstanding
pub mod Payments
pub mod Redemption
pub mod Auction
pub mod Scheduler
pub mod Girvi
pub mod Tests
