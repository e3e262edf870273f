-- ===== src/Reports/Loans.antt =====
-- `dashboardSummary`, `metalByPurity` and `collectionsByStaff` of
-- src/modules/reports/reports.service.ts.
use girvi_ghata_backend.Base.{
  ℕ, ◌+◌, ◌*◌, Bool, true, false, not, ◌&&◌, Option, none, some, List, [], ◌∷◌, map, length, leb,
  ◌==◌, is_none, if◌then◌else◌,
}
use girvi_ghata_backend.Decimal.{Decimal, sum_from}
use girvi_ghata_backend.Calendar.{Instant, Calendar, day_ms}
use girvi_ghata_backend.Result.{Result, ok, or_throw, ◌>>=◌, record_not_found}
use girvi_ghata_backend.Types.{OutstandingBreakdown, gold, silver}
use girvi_ghata_backend.Table.{Table, find, select}
use girvi_ghata_backend.Store.{
  Store, Context, GirviTransaction, GirviStatus, PledgedItem, Payment, User,
}
use girvi_ghata_backend.Outstanding.{compute_outstanding_for_preloaded, include_all}
use girvi_ghata_backend.Payments.{is_open}
use girvi_ghata_backend.Reports.{Days}

pub record DashboardSummary (D : Type 0) : Type 0 where
  pub active_girvi_count : ℕ
  pub principal_outstanding : D
  pub interest_outstanding : D
  pub todays_collections : D
  pub month_collections : D
  pub overdue_count : ℕ
  pub due_soon_count : ℕ
  pub gold_pledged_grams : D
  pub silver_pledged_grams : D
  pub total_cash_deployed : D

-- The variables of the dashboard's loop.
pub record DashboardTotals (D : Type 0) : Type 0 where
  pub principal_outstanding : D
  pub interest_outstanding : D
  pub gold_weight : D
  pub silver_weight : D
  pub overdue_count : ℕ
  pub due_soon_count : ℕ

pub record PurityWeight (D : Type 0) : Type 0 where
  pub metal_code : ℕ
  pub purity_code : ℕ
  pub total_net_weight_grams : D

-- A name that is missing is shown as `Unknown`.
pub record StaffCollection (D : Type 0) : Type 0 where
  pub staff_id : ℕ
  pub staff_name : Option ℕ
  pub total_collected : D
  pub payment_count : ℕ

abbrev pub is_overdue_status : GirviStatus → Bool
is_overdue_status GirviStatus.overdue = true
is_overdue_status _ = false

abbrev pub seven_days_ms : ℕ
seven_days_ms = 7 * day_ms

abbrev pub is_due_soon : Instant → Option Instant → Bool
is_due_soon now none = false
is_due_soon now (some due) = leb due (now + seven_days_ms) && leb now due

abbrev pub count_if : Bool → ℕ → ℕ
count_if true n = n + 1
count_if false n = n

-- An optional bound of a range of dates.
abbrev pub from_bound : Option Instant → Instant → Bool
from_bound none t = true
from_bound (some from) t = leb from t

abbrev pub to_bound : Option Instant → Instant → Bool
to_bound none t = true
to_bound (some last) t = leb t last

abbrev pub name_of : Option User → Option ℕ
name_of none = none
name_of (some u) = some u.full_name

module _ {D : Type 0} where
  abbrev pub running : ℕ → Table (GirviTransaction D) → Table (GirviTransaction D)
  running tenant rows = select (λ t. t.tenant == tenant && is_open t.status) rows

  abbrev pub collected_since : ℕ → Instant → Payment D → Bool
  collected_since tenant start p =
      p.tenant == tenant && (not p.is_reversed && leb start p.payment_date)

  abbrev pub items_of : Table (GirviTransaction D) → List (PledgedItem D)
  items_of [] = []
  items_of ((_, t) ∷ rows) = append_standing t.items (items_of rows)
    where
      append_standing : List (PledgedItem D) → List (PledgedItem D) → List (PledgedItem D)
      append_standing [] rest = rest
      append_standing (i ∷ is) rest =
          let tail = append_standing is rest in if is_none i.deleted_at then i ∷ tail else tail

module _ {D : Type 0} ⦃d : Decimal D⦄ where
  open d use {of_ℕ, plus}

  -- The loop over the items of a transaction, for one metal.
  unfoldable pub add_weights : ℕ → D → List (PledgedItem D) → D
  add_weights metal weight [] = weight
  add_weights metal weight (i ∷ is) =
      add_weights metal (if i.metal_code == metal then plus weight i.net_weight else weight) is

  abbrev pub add_loan :
      Instant → GirviTransaction D → OutstandingBreakdown D → DashboardTotals D → DashboardTotals D
  add_loan now t b sums = record {
    principal_outstanding = plus sums.principal_outstanding b.principal;
    interest_outstanding = plus sums.interest_outstanding b.interest_accrued;
    gold_weight = add_weights gold sums.gold_weight t.items;
    silver_weight = add_weights silver sums.silver_weight t.items;
    overdue_count = count_if (is_overdue_status t.status) sums.overdue_count;
    due_soon_count = count_if (is_due_soon now t.due_date) sums.due_soon_count;
  }

  -- A missing breakdown is an access to a field of `undefined`.
  unfoldable pub add_loans :
      Instant
      → Table (OutstandingBreakdown D)
      → Table (GirviTransaction D)
      → DashboardTotals D
      → Result (DashboardTotals D)
  add_loans now breakdowns [] sums = ok sums
  add_loans now breakdowns ((id, t) ∷ rows) sums = do
    b ← or_throw (find id breakdowns) record_not_found
    add_loans now breakdowns rows (add_loan now t b sums)

  abbrev pub collections : ℕ → Instant → Table (Payment D) → D
  collections tenant start payments =
      sum_from (of_ℕ 0) (map (λ p. p.1.amount) (select (collected_since tenant start) payments))

  abbrev pub no_totals : DashboardTotals D
  no_totals = record {
    principal_outstanding = of_ℕ 0;
    interest_outstanding = of_ℕ 0;
    gold_weight = of_ℕ 0;
    silver_weight = of_ℕ 0;
    overdue_count = 0;
    due_soon_count = 0;
  }

  unfoldable pub dashboard_summary :
      Calendar → Days → Instant → Store D → Context → Result (DashboardSummary D)
  dashboard_summary cal days now s ctx = do
    let loans = running ctx.tenant_id s.transactions
    breakdowns ←
        compute_outstanding_for_preloaded cal now s ctx.tenant_id (include_all s.payments loans)
    sums ← add_loans now breakdowns loans no_totals
    ok (record {
      active_girvi_count = length loans;
      principal_outstanding = sums.principal_outstanding;
      interest_outstanding = sums.interest_outstanding;
      todays_collections = collections ctx.tenant_id (days.start_of_day now) s.payments;
      month_collections = collections ctx.tenant_id (days.start_of_month now) s.payments;
      overdue_count = sums.overdue_count;
      due_soon_count = sums.due_soon_count;
      gold_pledged_grams = sums.gold_weight;
      silver_pledged_grams = sums.silver_weight;
      total_cash_deployed = sums.principal_outstanding;
    })

  -- `grouped.set(key, (grouped.get(key) ?? 0).plus(netWeight))`, and the entries in their order
  unfoldable pub add_purity : PledgedItem D → List (PurityWeight D) → List (PurityWeight D)
  add_purity i [] =
      record {
        metal_code = i.metal_code;
        purity_code = i.purity_code;
        total_net_weight_grams = plus (of_ℕ 0) i.net_weight;
      }
      ∷ []
  add_purity i (g ∷ gs) =
      let rest = add_purity i gs in
      if g.metal_code == i.metal_code && g.purity_code == i.purity_code
      then record g { total_net_weight_grams = plus g.total_net_weight_grams i.net_weight } ∷ gs
      else g ∷ rest

  unfoldable pub group_by_purity :
      List (PledgedItem D) → List (PurityWeight D) → List (PurityWeight D)
  group_by_purity [] groups = groups
  group_by_purity (i ∷ is) groups = group_by_purity is (add_purity i groups)

  unfoldable pub metal_by_purity : Store D → Context → List (PurityWeight D)
  metal_by_purity s ctx = group_by_purity (items_of (running ctx.tenant_id s.transactions)) []

  -- `groupBy({ by: ['receivedBy'], _sum, _count })`
  unfoldable pub add_collection :
      Table User → Payment D → List (StaffCollection D) → List (StaffCollection D)
  add_collection users p [] =
      record {
        staff_id = p.received_by;
        staff_name = name_of (find p.received_by users);
        total_collected = p.amount;
        payment_count = 1;
      }
      ∷ []
  add_collection users p (g ∷ gs) =
      let rest = add_collection users p gs in
      if g.staff_id == p.received_by
      then record g {
        total_collected = plus g.total_collected p.amount;
        payment_count = g.payment_count + 1;
      }
        ∷ gs
      else g ∷ rest

  unfoldable pub group_by_staff :
      Table User → Table (Payment D) → List (StaffCollection D) → List (StaffCollection D)
  group_by_staff users [] groups = groups
  group_by_staff users ((_, p) ∷ rows) groups =
      group_by_staff users rows (add_collection users p groups)

  unfoldable pub collections_by_staff :
      Store D → Context → Option Instant → Option Instant → List (StaffCollection D)
  collections_by_staff s ctx from last =
      group_by_staff s.users
        (select
          (λ p.
            p.tenant == ctx.tenant_id
            && (not p.is_reversed
                && (from_bound from p.payment_date && to_bound last p.payment_date)))
          s.payments)
        []
