-- ===== src/Tests/OfficeTests.antt =====
-- Witnesses for customers, packets and reports.
use mathlib.Core.List.Perm
use girvi_ghata_backend.Base.{
  ◌+◌, ◌*◌, ◌/◌, ◌≤◌, ◌≡◌, refl, Bool, true, none, some, [], ◌∷◌, map, arith, ◌==◌, ◌&&◌,
}
use girvi_ghata_backend.Base.Int.{◌+ℤ◌, ◌-ℤ◌, ◌*ℤ◌}
use girvi_ghata_backend.Calendar.{thirty_days, day_ms}
use girvi_ghata_backend.Fixed.{Fixed, fixed_decimal, Fixed-IsExact}
use girvi_ghata_backend.Result.{ok, IsOk, value_of}
use girvi_ghata_backend.Table.{Table, find, find_first, select}
use girvi_ghata_backend.Store.{Store, GirviStatus, Customer, Packet, DailyClosing, DateInput}
use girvi_ghata_backend.Numbering.{next}
use girvi_ghata_backend.Crypto.{Text, Cipher, IsCipher}
use girvi_ghata_backend.Pagination.{missing, parse_pagination}
use girvi_ghata_backend.Customers.{
  CreateCustomer, SafeCustomer, create_customer, to_safe_customer, search, shown_row,
}
use girvi_ghata_backend.Customers.Kyc.{IsShown, create_customer-IsShown}
use girvi_ghata_backend.Customers.Search.{pages, matching, search_all}
use girvi_ghata_backend.Inventory.{AssignPacket, assign_packet, check_location}
use girvi_ghata_backend.Inventory.Packets.{
  OnePacket, assign_step, no_more, one_more, PacketSteps-OnePacket,
}
use girvi_ghata_backend.Reports.{Days, IsDays}
use girvi_ghata_backend.Reports.Cash.{
  RecordDailyClosing, opening_from, flows_from, daily_cash_book, record_daily_closing,
}
use girvi_ghata_backend.Reports.Closing.{daily_cash_book-carries}
use girvi_ghata_backend.Reports.Recorded.{IsClosed, record_daily_closing-IsClosed}
use girvi_ghata_backend.Reports.Statement.{CustomerStatement, customer_statement}
use girvi_ghata_backend.Reports.Statement.Balance.{
  last_balance, principal_left, customer_statement-balance,
}
use girvi_ghata_backend.Tests.{rupees, store_in, clerk, day_35, two_places}

abbrev counter : Store Fixed
counter = store_in GirviStatus.active

-- A cipher that leaves the text, with a tag of zeros.
abbrev zeros : Text
zeros = 0 ∷ 0 ∷ 0 ∷ 0 ∷ 0 ∷ 0 ∷ 0 ∷ 0 ∷ 0 ∷ 0 ∷ 0 ∷ 0 ∷ 0 ∷ 0 ∷ 0 ∷ 0 ∷ []

abbrev clear : Cipher
clear = record {
  seal = λ key iv text. (text, zeros);
  open_sealed = λ key iv tag text. some text;
  to_base64 = λ bytes. bytes;
  from_base64 = λ text. text;
}

clear-IsCipher : IsCipher clear
clear-IsCipher = record {
  tag_length = λ key iv text. refl;
  open_sealed-seal = λ key iv text. refl;
  from_base64-to_base64 = λ bytes. refl;
  from_base64-empty = refl;
}

abbrev vector : Text
vector = 1 ∷ 2 ∷ 3 ∷ 4 ∷ 5 ∷ 6 ∷ 7 ∷ 8 ∷ 9 ∷ 10 ∷ 11 ∷ 12 ∷ []

abbrev aadhaar : Text
aadhaar = 50 ∷ 51 ∷ 52 ∷ 53 ∷ 54 ∷ 55 ∷ 56 ∷ 57 ∷ 48 ∷ 49 ∷ 50 ∷ 51 ∷ []

abbrev ravi : CreateCustomer
ravi = record {
  branch_id = some 1;
  full_name = 3;
  mobile = none;
  aadhaar_number = some aadhaar;
  pan_number = some (65 ∷ 66 ∷ 67 ∷ 68 ∷ 69 ∷ []);
}

registers : IsOk (create_customer clear [] thirty_days day_35 counter clerk ravi 2 vector)
unfolding create_customer to_safe_customer next find_first
registers = tt

registered :
    (q : SafeCustomer × Store Fixed) × (create_customer clear [] thirty_days day_35 counter clerk
        ravi 2 vector
      ≡ ok q)
registered =
    value_of (create_customer clear [] thirty_days day_35 counter clerk ravi 2 vector) registers

create_customer-IsShown_example :
    IsShown clear clear-IsCipher [] vector refl thirty_days day_35 counter clerk ravi 2 aadhaar
      registered.0.1 clerk
create_customer-IsShown_example =
    create_customer-IsShown clear clear-IsCipher [] vector refl thirty_days day_35 counter clerk
      ravi 2 aadhaar refl refl registered.1 clerk refl

abbrev anyone : Customer → Bool
anyone c = true

abbrev as_stored : Table Customer → Table Customer
as_stored rows = rows

enough :
    (search counter clerk anyone as_stored missing missing).total
    ≤ 1 * (search counter clerk anyone as_stored missing missing).page_size
unfolding search parse_pagination select
enough = omega arith

search_all_example :
    pages counter clerk anyone as_stored missing 1
    ≡ map (shown_row counter) (matching counter clerk anyone as_stored)
search_all_example = search_all counter clerk anyone as_stored missing (λ rows. refl) 1 enough

abbrev to_vault : AssignPacket
to_vault = record { girvi_transaction_id = 10; storage_location_id = some 3 }

assigns : IsOk (assign_packet counter clerk to_vault 6 2)
unfolding assign_packet check_location find
assigns = tt

assigned : (q : Packet × Store Fixed) × (assign_packet counter clerk to_vault 6 2 ≡ ok q)
assigned = value_of (assign_packet counter clerk to_vault 6 2) assigns

counter-OnePacket : OnePacket counter.packets
unfolding select
counter-OnePacket transaction = ground arith

PacketSteps-OnePacket_example : OnePacket assigned.0.1.packets
PacketSteps-OnePacket_example =
    PacketSteps-OnePacket Fixed-IsExact
      (one_more (assign_step clerk to_vault 6 2 assigned.0.0 assigned.1) no_more) counter-OnePacket

abbrev utc_days : Days
utc_days = record {
  start_of_day = λ t. t / day_ms * day_ms;
  next_day = λ t. t + day_ms;
  start_of_month = λ t. t / (30 * day_ms) * (30 * day_ms);
}

utc_days-IsDays : IsDays utc_days
utc_days-IsDays = record { start_lt_next = λ t. omega arith }

daily_cash_book-carries_example :
    Fixed-IsExact.value (daily_cash_book utc_days counter clerk 1 (day_35 + day_ms)).opening_cash
    ≡ Fixed-IsExact.value (daily_cash_book utc_days counter clerk 1 day_35).expected_closing_cash
daily_cash_book-carries_example =
    daily_cash_book-carries Fixed-IsExact utc_days counter clerk 1 utc_days-IsDays day_35
      (day_35 + day_ms) refl

abbrev counted : RecordDailyClosing Fixed
counted = record {
  branch_id = 1;
  date = DateInput.omitted;
  actual_cash = rupees 20;
  discrepancy_reason = some 5;
}

closes : IsOk (record_daily_closing utc_days day_35 counter clerk counted 4)
unfolding record_daily_closing daily_cash_book opening_from flows_from ◌+ℤ◌ ◌-ℤ◌ ◌*ℤ◌
closes = tt

closing :
    (q : DailyClosing Fixed × Store Fixed) × (record_daily_closing utc_days day_35 counter clerk
        counted 4
      ≡ ok q)
closing = value_of (record_daily_closing utc_days day_35 counter clerk counted 4) closes

record_daily_closing-IsClosed_example :
    IsClosed Fixed-IsExact utc_days day_35 counter clerk counted closing.0.0 closing.0.1
record_daily_closing-IsClosed_example =
    record_daily_closing-IsClosed Fixed-IsExact utc_days day_35 counter clerk counted 4 closing.1

states : IsOk (customer_statement (λ ts. ts) (λ ps. map (λ p. p.1) ps) counter clerk 1)
unfolding customer_statement find
states = tt

statement :
    (q : CustomerStatement Fixed) × (customer_statement
        (λ ts. ts)
        (λ ps. map (λ p. p.1) ps)
        counter
        clerk
        1
      ≡ ok q)
statement =
    value_of (customer_statement (λ ts. ts) (λ ps. map (λ p. p.1) ps) counter clerk 1) states

customer_statement-balance_example :
    Fixed-IsExact.value (last_balance (fixed_decimal.of_ℕ 0) statement.0.rows)
    ≡ principal_left Fixed-IsExact counter.payments
        (select (λ t. t.tenant == 1 && t.customer == 1) counter.transactions)
customer_statement-balance_example =
    customer_statement-balance Fixed-IsExact (λ ts. ts) (λ ps. map (λ p. p.1) ps) counter clerk 1
      (λ rows. Perm.refl (map (λ r. r.1) rows)) statement.1
