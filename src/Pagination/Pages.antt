-- ===== src/Pagination/Pages.antt =====
-- What the parsed parameters promise, and that the pages of a list are the list.
use girvi_ghata_backend.Base.{
  ℕ, zero, suc, ◌+◌, ◌-◌, ◌*◌, ◌≤◌, ◌≡◌, ◌∙◌, refl, sym, false, List, [], ◌∷◌, ◌++◌, length, take,
  skip, arith, ltb,
}
use girvi_ghata_backend.Base.Int.{pos, negsuc}
use girvi_ghata_backend.Pagination.{
  PageInput, missing, unreadable, number, at_least_1, parse_pagination, rows_of,
}

at_least_1_lem : (input : PageInput) (fallback : ℕ) → 1 ≤ fallback → 1 ≤ at_least_1 input fallback
at_least_1_lem missing fallback h = h
at_least_1_lem unreadable fallback h = h
at_least_1_lem (number (pos n)) fallback h = ground arith
at_least_1_lem (number (negsuc n)) fallback h = h

-- Whatever the request says, the page is at least 1, its size is between 1 and the maximum, and the
-- rows before it are those of the earlier pages, if the default size is at least 1 and the maximum
-- too.
pub parse_pagination-bounds :
    (page page_size : PageInput) (default_size max_size : ℕ)
    → 1 ≤ default_size
    → 1 ≤ max_size
    → (1 ≤ (parse_pagination page page_size default_size max_size).page)
      × (1 ≤ (parse_pagination page page_size default_size max_size).page_size)
      × ((parse_pagination page page_size default_size max_size).page_size ≤ max_size)
unfolding parse_pagination
parse_pagination-bounds page page_size default_size max_size h k =
    let p = at_least_1_lem page 1 (omega arith) in
    let w = at_least_1_lem page_size default_size h in (p, ground (arith, w), ground (arith, w))

module _ {ℓ} {A : Type ℓ} where
  take_nil : (n : ℕ) → take {A = A} n [] ≡ []
  take_nil zero = refl
  take_nil (suc n) = refl

  take-add : (a b : ℕ) (xs : List A) → take (a + b) xs ≡ take a xs ++ take b (skip a xs)
  take-add zero b xs = let e : 0 + b ≡ b = omega arith in rw e
  take-add (suc a) b [] = take_nil (suc a + b) ∙ sym (rw (take_nil b))
  take-add (suc a) b (x ∷ xs) =
      let e : suc a + b ≡ suc (a + b) = omega arith in rw (e, take-add a b xs)

  take_all : (n : ℕ) (xs : List A) → length xs ≤ n → take n xs ≡ xs
  take_all n [] h = take_nil n
  take_all zero (x ∷ xs) h = ground (arith, h)
  take_all (suc n) (x ∷ xs) h =
      let fits : length xs ≤ n = omega (arith, h) in rw (take_all n xs fits)

  -- The rows of the first pages, one request after the other.
  unfoldable pub walk : PageInput → ℕ → ℕ → ℕ → List A → List A
  walk page_size default_size max_size zero xs = []
  walk page_size default_size max_size (suc n) xs =
      walk page_size default_size max_size n xs
      ++ rows_of (parse_pagination (number (pos (suc n))) page_size default_size max_size) xs

  page_at :
      (page_size : PageInput) (default_size max_size n : ℕ) (xs : List A)
      → rows_of (parse_pagination (number (pos (suc n))) page_size default_size max_size) xs
        ≡ take
            (parse_pagination missing page_size default_size max_size).page_size
            (skip (n * (parse_pagination missing page_size default_size max_size).page_size) xs)
  unfolding parse_pagination
  page_at page_size default_size max_size n xs =
      let large : ltb (suc n) 1 ≡ false = ground arith in
      let before : suc n - 1 ≡ n = omega arith in rw (large, before)

  walk-take :
      (page_size : PageInput) (default_size max_size n : ℕ) (xs : List A)
      → walk page_size default_size max_size n xs
        ≡ take (n * (parse_pagination missing page_size default_size max_size).page_size) xs
  unfolding walk
  walk-take page_size default_size max_size zero xs =
      let e : 0 * (parse_pagination missing page_size default_size max_size).page_size ≡ 0 =
        omega arith in
      rw e
  walk-take page_size default_size max_size (suc n) xs =
      let ps = (parse_pagination missing page_size default_size max_size).page_size in
      let e : suc n * ps ≡ n * ps + ps = omega arith in
      rw (
        walk-take page_size default_size max_size n xs,
        page_at page_size default_size max_size n xs,
        e,
        take-add (n * ps) ps xs,
      )

  -- The pages 1, 2, ... up to n are the list, each row once and in its order, if n pages of the size
  -- that the request leads to hold as many rows as there are.
  pub walk_all :
      (page_size : PageInput) (default_size max_size n : ℕ) (xs : List A)
      → length xs ≤ n * (parse_pagination missing page_size default_size max_size).page_size
      → walk page_size default_size max_size n xs ≡ xs
  walk_all page_size default_size max_size n xs h =
      walk-take page_size default_size max_size n xs ∙ take_all _ xs h
