-- ===== src/Tests/LifecycleTests.antt =====
-- Witnesses for redemption, auction, the overdue job, the rules and the numbering.
use girvi_ghata_backend.Base.{
  ℕ, ◌+◌, ◌*◌, ◌≡◌, ◌⊎◌, refl, true, false, none, some, [], ◌∷◌, Bool-cases, inl, inr,
}
use girvi_ghata_backend.Base.Int.{◌+ℤ◌, ◌-ℤ◌, ◌*ℤ◌}
use girvi_ghata_backend.Calendar.{thirty_days, day_ms}
use girvi_ghata_backend.Fixed.{Fixed, fixed_decimal, Fixed-IsExact}
use girvi_ghata_backend.Result.{ok, err, IsOk, Returns, value_of, already_settled}
use girvi_ghata_backend.Types.{Category, gold}
use girvi_ghata_backend.Table.{Table, find, find_first, select, update}
use girvi_ghata_backend.Store.{
  Store, GirviTransaction, RuleSet, Payment, Mode, Redemption, AuctionCase, GirviStatus, Entity,
  NumberSequence,
}
use girvi_ghata_backend.Engine.{
  calculate_outstanding, calculate_interest, calculate_calendar_months_elapsed,
}
use girvi_ghata_backend.Numbering.{next, is_sequence}
use girvi_ghata_backend.Numbering.Gapless.{issue, issue_lem}
use girvi_ghata_backend.Rules.{
  get_active_rules, find_active, latest, create_new_version, is_current, is_version, next_version,
}
use girvi_ghata_backend.Rules.Versions.{
  OneActive, create_new_version-OneActive, create_new_version-active,
}
use girvi_ghata_backend.Outstanding.{
  get_outstanding, outstanding_of, for_outstanding, compute_breakdown, accrue, accrue_tranche,
  periods_elapsed, paid_from,
}
use girvi_ghata_backend.Redemption.{redeem, free_packet}
use girvi_ghata_backend.Redemption.Release.{IsReleased, redeem-IsReleased, redeem_once}
use girvi_ghata_backend.Auction.{send_notice, mark_eligible, schedule, record_sale, get_case}
use girvi_ghata_backend.Auction.Pipeline.{
  Step, Steps, here, more, send_notice_step, mark_eligible_step, schedule_step, record_sale_step,
  Step-Moves, Moves, CasesConsistent, Steps-CasesConsistent,
}
use girvi_ghata_backend.Scheduler.{system_actor, flag_overdue_transactions}
use girvi_ghata_backend.Scheduler.Flagging.{Unique, IsDue, flag_overdue_transactions_lem}
use girvi_ghata_backend.Tests.{
  gold_rules, gold_rule_set, rupees, two_places, store_in, loan_in, clerk, day_35, sequences,
}

abbrev last_payment : Payment Fixed
last_payment = record {
  tenant = 1;
  girvi_transaction_id = 10;
  receipt_number = record { prefix = 1; year = some 0; number = 41 };
  amount = rupees 10_400;
  discount_amount = rupees 0;
  mode = Mode.cash;
  payment_date = day_35;
  received_by = 8;
  is_reversed = false;
  reversal_reason = none;
  allocations =
      record { category = Category.interest; amount = rupees 400 }
      ∷ record { category = Category.principal; amount = rupees 10_000 }
      ∷ [];
}

-- The test loan after its last payment.
abbrev settled : Store Fixed
settled = record (store_in GirviStatus.closed) { payments = (7, last_payment) ∷ [] }

redeems : IsOk (redeem thirty_days day_35 settled clerk 10)
unfolding redeem free_packet next get_active_rules find_active latest get_outstanding outstanding_of
    for_outstanding compute_breakdown accrue accrue_tranche periods_elapsed paid_from
    calculate_outstanding calculate_interest calculate_calendar_months_elapsed find update select
    find_first ◌+ℤ◌ ◌-ℤ◌ ◌*ℤ◌
redeems = tt

redemption :
    (q : Redemption Fixed × Store Fixed) × (redeem thirty_days day_35 settled clerk 10 ≡ ok q)
redemption = value_of (redeem thirty_days day_35 settled clerk 10) redeems

redeem-IsReleased_example :
    IsReleased Fixed-IsExact thirty_days day_35 settled clerk 10 redemption.0.0 redemption.0.1
redeem-IsReleased_example =
    redeem-IsReleased Fixed-IsExact thirty_days day_35 settled clerk 10 redemption.1

redeem_once_example : redeem thirty_days (day_35 + 1) redemption.0.1 clerk 10 ≡ err already_settled
redeem_once_example =
    redeem_once Fixed-IsExact thirty_days day_35 settled clerk 10 redemption.1 (day_35 + 1) clerk
      refl

-- The test loan, overdue.
abbrev late : Store Fixed
late = store_in GirviStatus.overdue

notices : IsOk (send_notice day_35 late clerk 10)
unfolding send_notice find
notices = tt

unfoldable noticed :
    (q : AuctionCase Fixed × Store Fixed) × (send_notice day_35 late clerk 10 ≡ ok q)
noticed = value_of (send_notice day_35 late clerk 10) notices

becomes_eligible : IsOk (mark_eligible thirty_days day_35 noticed.0.1 clerk 10 none)
unfolding mark_eligible noticed value_of send_notice get_case get_active_rules find_active latest
    get_outstanding outstanding_of for_outstanding compute_breakdown accrue accrue_tranche
    periods_elapsed paid_from calculate_outstanding calculate_interest
    calculate_calendar_months_elapsed find update select ◌+ℤ◌ ◌-ℤ◌ ◌*ℤ◌
becomes_eligible = tt

unfoldable eligible :
    (q : AuctionCase Fixed × Store Fixed) × (mark_eligible thirty_days day_35 noticed.0.1 clerk 10
        none
      ≡ ok q)
eligible = value_of (mark_eligible thirty_days day_35 noticed.0.1 clerk 10 none) becomes_eligible

plans : IsOk (schedule (40 * day_ms) eligible.0.1 clerk 10)
unfolding schedule mark_eligible noticed eligible value_of send_notice get_case get_active_rules
    find_active latest get_outstanding outstanding_of for_outstanding compute_breakdown accrue
    accrue_tranche periods_elapsed paid_from calculate_outstanding calculate_interest
    calculate_calendar_months_elapsed find update select ◌+ℤ◌ ◌-ℤ◌ ◌*ℤ◌
plans = tt

unfoldable planned :
    (q : AuctionCase Fixed × Store Fixed) × (schedule (40 * day_ms) eligible.0.1 clerk 10 ≡ ok q)
planned = value_of (schedule (40 * day_ms) eligible.0.1 clerk 10) plans

sells : IsOk (record_sale (41 * day_ms) planned.0.1 clerk 10 (rupees 12_000) 5)
unfolding record_sale planned schedule mark_eligible noticed eligible value_of send_notice get_case
    get_active_rules find_active latest get_outstanding outstanding_of for_outstanding
    compute_breakdown accrue accrue_tranche periods_elapsed paid_from calculate_outstanding
    calculate_interest calculate_calendar_months_elapsed find update select ◌+ℤ◌ ◌-ℤ◌ ◌*ℤ◌
sells = tt

sold :
    (q : AuctionCase Fixed × Store Fixed) × (record_sale
        (41 * day_ms)
        planned.0.1
        clerk
        10
        (rupees 12_000)
        5
      ≡ ok q)
sold = value_of (record_sale (41 * day_ms) planned.0.1 clerk 10 (rupees 12_000) 5) sells

notice-Step : Step late noticed.0.1
notice-Step = send_notice_step day_35 late clerk 10 noticed.0.0 noticed.0.1 noticed.1

eligible-Step : Step noticed.0.1 eligible.0.1
eligible-Step =
    mark_eligible_step thirty_days day_35 noticed.0.1 clerk 10 none eligible.0.0 eligible.0.1
      eligible.1

planned-Step : Step eligible.0.1 planned.0.1
planned-Step = schedule_step (40 * day_ms) eligible.0.1 clerk 10 planned.0.0 planned.0.1 planned.1

sold-Step : Step planned.0.1 sold.0.1
sold-Step =
    record_sale_step (41 * day_ms) planned.0.1 clerk 10 (rupees 12_000) 5 sold.0.0 sold.0.1 sold.1

to_sale-Steps : Steps late sold.0.1
to_sale-Steps = more (more (more (more here notice-Step) eligible-Step) planned-Step) sold-Step

Step-Moves_example :
    (id : ℕ) × (c : AuctionCase Fixed) × Moves id late.auction_cases c noticed.0.1.auction_cases
Step-Moves_example = Step-Moves notice-Step

no_cases : CasesConsistent late
unfolding find
no_cases k = tt

Steps-CasesConsistent_example : CasesConsistent sold.0.1
Steps-CasesConsistent_example = Steps-CasesConsistent to_sale-Steps no_cases

-- The test loan, active, on the first day after the due date and its grace.
abbrev open_loans : Store Fixed
open_loans = store_in GirviStatus.active

abbrev open_loan : GirviTransaction Fixed
open_loan = loan_in GirviStatus.active

open_loan_found : find 10 open_loans.transactions ≡ some open_loan
unfolding find
open_loan_found = refl

ids : Unique open_loans.transactions
unfolding find
ids = (refl, tt)

flag_overdue_transactions_lem_example :
    (IsDue (36 * day_ms) open_loans.rule_sets open_loan
      × (find 10 (flag_overdue_transactions (36 * day_ms) open_loans).1.transactions
          ≡ some
              (record open_loan { status = GirviStatus.overdue; updated_by = some system_actor })))
    ⊎ ((¬ IsDue (36 * day_ms) open_loans.rule_sets open_loan)
        × (find 10 (flag_overdue_transactions (36 * day_ms) open_loans).1.transactions
            ≡ some open_loan))
flag_overdue_transactions_lem_example =
    flag_overdue_transactions_lem (36 * day_ms) open_loans 10 open_loan ids open_loan_found

one_rule_set : OneActive open_loans.rule_sets
unfolding select
one_rule_set tenant metal = elim (Bool-cases (is_current tenant metal gold_rule_set)) [
  | inl e ↦ rw e tt
  | inr e ↦ rw e tt
]

makes_version : IsOk (create_new_version open_loans clerk gold gold_rules 2)
unfolding create_new_version find_active find_first latest select next_version
makes_version = tt

version_made :
    (q : RuleSet Fixed × Store Fixed) × (create_new_version open_loans clerk gold gold_rules 2
      ≡ ok q)
version_made = value_of (create_new_version open_loans clerk gold gold_rules 2) makes_version

create_new_version-OneActive_example : OneActive version_made.0.1.rule_sets
create_new_version-OneActive_example =
    create_new_version-OneActive open_loans clerk gold gold_rules 2 version_made.1 one_rule_set

version_2_is_free :
    find_first
      (is_version 1 gold (next_version (find_active open_loans.rule_sets 1 gold)))
      open_loans.rule_sets
    ≡ none
unfolding find_active find_first latest select next_version
version_2_is_free = refl

create_new_version-active_example :
    Returns
      (create_new_version open_loans clerk gold gold_rules 2)
      λ (q : RuleSet Fixed × Store Fixed).
        get_active_rules q.1.rule_sets 1 gold ≡ ok (record gold_rules { rule_set_id = 2 })
create_new_version-active_example =
    create_new_version-active open_loans clerk gold gold_rules 2 one_rule_set version_2_is_free

payment_sequence :
    find_first (is_sequence 1 Entity.payment_number) sequences
    ≡ some (
      1,
      record {
        tenant = 1;
        entity = Entity.payment_number;
        prefix = 1;
        year_in_key = true;
        last_value = 41;
      },
    )
unfolding find_first
payment_sequence = refl

issue_lem_example :
    (rows : Table NumberSequence) × (issue thirty_days 1 Entity.payment_number
        (0 ∷ day_35 ∷ [])
        sequences
      ≡ ok (42 ∷ 43 ∷ [], rows))
issue_lem_example =
    issue_lem thirty_days 1 Entity.payment_number (0 ∷ day_35 ∷ []) sequences 1
      (record {
        tenant = 1;
        entity = Entity.payment_number;
        prefix = 1;
        year_in_key = true;
        last_value = 41;
      })
      payment_sequence

found_loan : find 10 open_loans.transactions ≡ some (loan_in GirviStatus.active)
unfolding find
found_loan = refl
