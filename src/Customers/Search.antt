-- ===== src/Customers/Search.antt =====
-- The pages of a search together.
use girvi_ghata_backend.Base.{
  ℕ, zero, suc, ◌*◌, ◌≤◌, ◌≡◌, ◌∙◌, refl, sym, ap, Bool, List, [], ◌∷◌, ◌++◌, map, length,
}
use girvi_ghata_backend.Base.Int.{pos}
use girvi_ghata_backend.Table.{Table, select}
use girvi_ghata_backend.Store.{Store, Context, Customer}
use girvi_ghata_backend.Pagination.{PageInput, missing, number}
use girvi_ghata_backend.Pagination.Pages.{walk, walk_all}
use girvi_ghata_backend.Customers.{SafeCustomer, search, shown_row, is_match}

map-append : {A B : Type 0} (f : A → B) (xs ys : List A) → map f (xs ++ ys) ≡ map f xs ++ map f ys
map-append f [] ys = refl
map-append f (x ∷ xs) ys = rw (map-append f xs ys)

module _ {D : Type 0} (s : Store D) (ctx : Context) (matches : Customer → Bool)
    (order : Table Customer → Table Customer) where
  abbrev pub matching : Table Customer
  matching = order (select (is_match ctx.tenant_id matches) s.customers)

module _ {D : Type 0} (s : Store D) (ctx : Context) (matches : Customer → Bool)
    (order : Table Customer → Table Customer) (page_size : PageInput) where
  abbrev rows : Table Customer
  rows = matching s ctx matches order

  -- What a client collects that asks for the pages 1, 2, ... up to n.
  unfoldable pub pages : ℕ → List SafeCustomer
  pages zero = []
  pages (suc n) = pages n ++ (search s ctx matches order (number (pos (suc n))) page_size).results

  pages-walk : (n : ℕ) → pages n ≡ map (shown_row s) (walk page_size 25 100 n rows)
  unfolding pages walk search
  pages-walk zero = refl
  pages-walk (suc n) =
      rw (pages-walk n) (sym (map-append (shown_row s) (walk page_size 25 100 n rows) _))

  -- A client that asks for as many pages as the total and the page size of the answers call for
  -- collects every customer of the tenant that is not deleted and matches, once and in the order of
  -- the query, if that order keeps the number of rows.
  pub search_all :
      ((t : Table Customer) → length (order t) ≡ length t)
      → (n : ℕ)
      → (search s ctx matches order missing page_size).total
        ≤ n * (search s ctx matches order missing page_size).page_size
      → pages n ≡ map (shown_row s) rows
  unfolding search
  search_all keeps n enough =
      pages-walk n
      ∙ ap (map (shown_row s)) (
          walk_all page_size 25 100 n rows
            (rw (keeps (select (is_match ctx.tenant_id matches) s.customers)) enough))
