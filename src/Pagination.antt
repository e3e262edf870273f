-- ===== src/Pagination.antt =====
-- src/common/pagination/pagination.util.ts. A query parameter is the number that `parseInt` reads
-- from it, if it reads a finite one. A name of a field is a number that is only compared, and no
-- allowlist has the empty name.
pub mod Pages
use girvi_ghata_backend.Base.{
  ℕ, ◌-◌, ◌*◌, Bool, Option, none, some, List, take, skip, includes, ltb, if◌then◌else◌,
}
use girvi_ghata_backend.Base.Int.{ℤ, pos, negsuc}

pub data PageInput : Type 0 where
  missing unreadable : PageInput
  number : ℤ → PageInput

pub data SortOrder : Type 0 where
  asc desc : SortOrder

pub record ParsedPagination : Type 0 where
  pub page : ℕ
  pub page_size : ℕ
  pub skip : ℕ
  pub take : ℕ

abbrev pub default_page_size : ℕ
default_page_size = 20

abbrev pub max_page_size : ℕ
max_page_size = 100

-- The number that was read, or the fallback if there is none that is at least 1.
abbrev pub at_least_1 : PageInput → ℕ → ℕ
at_least_1 missing fallback = fallback
at_least_1 unreadable fallback = fallback
at_least_1 (number (negsuc n)) fallback = fallback
at_least_1 (number (pos n)) fallback = if ltb n 1 then fallback else n

unfoldable pub parse_pagination : PageInput → PageInput → ℕ → ℕ → ParsedPagination
parse_pagination page page_size default_size max_size =
    let p = at_least_1 page 1 in
    let wanted = at_least_1 page_size default_size in
    let ps = if ltb max_size wanted then max_size else wanted in
    record { page = p; page_size = ps; skip = (p - 1) * ps; take = ps }

unfoldable pub resolve_sort_field : Option ℕ → List ℕ → ℕ → ℕ
resolve_sort_field none allowed fallback = fallback
resolve_sort_field (some field) allowed fallback =
    if includes allowed field then field else fallback

unfoldable pub resolve_sort_order : Option SortOrder → SortOrder
resolve_sort_order none = SortOrder.desc
resolve_sort_order (some order) = order

-- The rows that a query with `skip` and `take` returns.
abbrev pub rows_of {ℓ} : {A : Type ℓ} → ParsedPagination → List A → List A
rows_of p xs = take p.take (skip p.skip xs)
