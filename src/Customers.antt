-- ===== src/Customers.antt =====
-- src/modules/customers/customers.service.ts. Of a customer's fields the ones that the code reads are
-- kept; dates of birth and addresses are passed on. The texts of a search are matched by the database.
mod Documents
pub mod Kyc
pub mod Search
unfoldable pub use Documents.*
use girvi_ghata_backend.Base.{
  ℕ, Bool, true, false, not, ◌&&◌, ◌||◌, Option, none, some, List, [], ◌∷◌, ◌++◌, map, ◌==◌,
  includes, is_none,
}
use girvi_ghata_backend.Calendar.{Instant, Calendar}
use girvi_ghata_backend.Result.{
  Result, ok, err, throw_if, or_throw, ◌>>=◌, ◌>>◌, customer_not_found, missing_permission,
}
use girvi_ghata_backend.Table.{Table, find, find_where, select, count, update, create}
use girvi_ghata_backend.Routes.{PermissionCode, code}
use girvi_ghata_backend.Store.{
  Store, Columns, Context, Customer, CustomerKyc, DocumentNumber, GirviTransaction, GirviStatus,
  Payment, ValuationSnapshot, AuditAction, AuditEntry, customer_number, customer_create,
  customer_edit, kyc_unmask_view,
}
use girvi_ghata_backend.Numbering.{next}
use girvi_ghata_backend.Crypto.{Text, Cipher}
use girvi_ghata_backend.Pagination.{PageInput, parse_pagination, rows_of}

-- A field that is left out stays as it is.
pub record UpdateCustomer : Type 0 where
  pub full_name : Option ℕ
  pub mobile : Option ℕ

pub record LoanSummary (D : Type 0) : Type 0 where
  pub id : ℕ
  pub girvi_number : DocumentNumber
  pub status : GirviStatus
  pub pledge_date : Instant
  pub due_date : Option Instant
  pub loan_amount : D
  pub total_paid : D

pub record Profile (D : Type 0) : Type 0 where
  pub customer : SafeCustomer
  pub transactions : List (LoanSummary D)

pub record CustomerPage : Type 0 where
  pub results : List SafeCustomer
  pub total : ℕ
  pub page : ℕ
  pub page_size : ℕ

-- The permission `kyc:view_full`
abbrev pub kyc_view_full : ℕ
kyc_view_full = code PermissionCode.kyc_view_full

abbrev pub is_owned : ℕ → Customer → Bool
is_owned tenant c = c.tenant == tenant && is_none c.deleted_at

-- The rows of a search: `matches` is the test of the text by the database.
abbrev pub is_match : ℕ → (Customer → Bool) → Customer → Bool
is_match tenant matches c = is_owned tenant c && matches c

abbrev pub add_kyc : ℕ → CustomerKyc → Bool → Table CustomerKyc → Table CustomerKyc
add_kyc id row false rows = rows
add_kyc id row true rows = create id row rows

abbrev pub or_kept : {A : Type 0} → Option A → A → A
or_kept none kept = kept
or_kept (some new) kept = new

abbrev pub or_kept_option : {A : Type 0} → Option A → Option A → Option A
or_kept_option none kept = kept
or_kept_option (some new) kept = some new

abbrev pub edited : UpdateCustomer → Customer → Customer
edited dto c = record c {
  full_name = or_kept dto.full_name c.full_name;
  mobile = or_kept_option dto.mobile c.mobile;
}

abbrev pub customer_entry : Context → AuditAction → ℕ → AuditEntry
customer_entry ctx action id = record {
  tenant = ctx.tenant_id;
  actor = some ctx.user_id;
  action = action;
  entity_id = id;
}

module _ (lib : Cipher) (key : Text) where
  module _ {D : Type 0} where
    -- `create`; `id` is the one that the database draws.
    unfoldable pub create_customer :
        Calendar
        → Instant
        → Store D
        → Context
        → CreateCustomer
        → ℕ
        → Text
        → Result (SafeCustomer × Store D)
    create_customer cal now s ctx dto id iv = do
      (code, sequences) ← next cal now s.sequences ctx.tenant_id customer_number
      let customer : Customer = record {
        tenant = ctx.tenant_id;
        branch = dto.branch_id;
        customer_code = code;
        full_name = dto.full_name;
        mobile = dto.mobile;
        deleted_at = none;
      }
      let documents =
          not (is_none (truthy dto.aadhaar_number)) || not (is_none (truthy dto.pan_number))
      safe ← to_safe_customer lib key customer none false
      ok (
        safe,
        record s {
          sequences = sequences;
          customers = create id customer s.customers;
          kyc = add_kyc id (kyc_row lib key iv dto) documents s.kyc;
          audit = customer_entry ctx customer_create id ∷ s.audit;
        },
      )

    unfoldable pub get_owned_or_throw : Store D → ℕ → ℕ → Result Customer
    get_owned_or_throw s tenant id =
        or_throw (find_where id (is_owned tenant) s.customers) customer_not_found

  module _ {D : Type 0} ⦃col : Columns D⦄ where
    open col use {number_sum}

    abbrev pub loan_of : Option (ValuationSnapshot D) → List D
    loan_of none = []
    loan_of (some v) = v.actual_loan_amount ∷ []

    abbrev pub summary_of : Table (Payment D) → ℕ × GirviTransaction D → LoanSummary D
    summary_of payments row =
        let t = row.1 in
        let paid = select (λ p. p.girvi_transaction_id == row.0 && not p.is_reversed) payments in
        record {
          id = row.0;
          girvi_number = t.girvi_number;
          status = t.status;
          pledge_date = t.pledge_date;
          due_date = t.due_date;
          loan_amount =
              number_sum (loan_of t.valuation ++ (number_sum (map (λ u. u.amount) t.top_ups) ∷ []));
          total_paid = number_sum (map (λ p. p.1.amount) paid);
        }

    -- The rest of `findOne`, with the store that the audit row is written to.
    abbrev pub profile_of : Store D → Context → ℕ → Customer → Bool → Result (Profile D)
    profile_of s ctx id customer unmask = do
      safe ← to_safe_customer lib key customer (find id s.kyc) unmask
      let loans = select (λ t. t.tenant == ctx.tenant_id && t.customer == id) s.transactions
      ok (record { customer = safe; transactions = map (summary_of s.payments) loans })

    abbrev pub audited : Store D → Context → ℕ → Bool → Store D
    audited s ctx id false = s
    audited s ctx id true = record s { audit = customer_entry ctx kyc_unmask_view id ∷ s.audit }

    -- The checks of `findOne`.
    unfoldable pub may_view : Store D → Context → ℕ → Bool → Result Customer
    may_view s ctx id unmask = do
      customer ← get_owned_or_throw s ctx.tenant_id id
      throw_if (unmask && not (includes ctx.permissions kyc_view_full)) missing_permission
      ok customer

    abbrev pub shown_profile :
        Store D → Context → ℕ → Bool → Result Customer → Result (Profile D) × Store D
    shown_profile s ctx id unmask (err e) = (err e, s)
    shown_profile s ctx id unmask (ok customer) =
        (profile_of s ctx id customer unmask, audited s ctx id unmask)

    -- `findOne`: the audit row stays when what follows it fails.
    unfoldable pub find_one : Store D → Context → ℕ → Bool → Result (Profile D) × Store D
    find_one s ctx id unmask = shown_profile s ctx id unmask (may_view s ctx id unmask)

    abbrev pub edit : Store D → Context → ℕ → UpdateCustomer → Store D
    edit s ctx id dto = record s {
      customers = update id (edited dto) s.customers;
      audit = customer_entry ctx customer_edit id ∷ s.audit;
    }

    abbrev pub edit_owned :
        Store D → Context → ℕ → UpdateCustomer → Result Customer → Result (Profile D) × Store D
    edit_owned s ctx id dto (err e) = (err e, s)
    edit_owned s ctx id dto (ok existing) = find_one (edit s ctx id dto) ctx id false

    -- `update`
    unfoldable pub update_customer :
        Store D → Context → ℕ → UpdateCustomer → Result (Profile D) × Store D
    update_customer s ctx id dto = edit_owned s ctx id dto (get_owned_or_throw s ctx.tenant_id id)

module _ {D : Type 0} where
  abbrev pub shown_row : Store D → ℕ × Customer → SafeCustomer
  shown_row s (id, c) = with_kyc c (map_option masked_kyc (find id s.kyc))

  -- `search`: `order` is the database's ORDER BY of the field and order that were resolved.
  unfoldable pub search :
      Store D
      → Context
      → (Customer → Bool)
      → (Table Customer → Table Customer)
      → PageInput
      → PageInput
      → CustomerPage
  search s ctx matches order page page_size =
      let parsed = parse_pagination page page_size 25 100 in
      record {
        results =
            map (shown_row s)
              (rows_of parsed (order (select (is_match ctx.tenant_id matches) s.customers)));
        total = count (is_match ctx.tenant_id matches) s.customers;
        page = parsed.page;
        page_size = parsed.page_size;
      }
