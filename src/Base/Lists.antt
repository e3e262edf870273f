-- ===== src/Base/Lists.antt =====
-- Lists measured by native numbers, predicates on all elements, and Boolean membership.
use Prim.Native.Nat.{ℕ, zero, suc, ◌+◌}
use mathlib.Core.Path.{◌≡◌, refl}
use mathlib.Core.Bool.{Bool, true, false, ◌||◌, ◌&&◌}
use mathlib.Core.List.{List, [], ◌∷◌, ◌++◌}
use native.Mathlib.Omega.{arith}
use girvi_ghata_backend.Base.Tests.{◌==◌, if◌then◌else◌, Bool-cases, ==_refl, eq_of_==}
use mathlib.Core.Logic.{inl, inr, ◌↔◌}

module _ {ℓ} {A : Type ℓ} where
  abbrev pub length : List A → ℕ
  length [] = 0
  length (_ ∷ xs) = suc (length xs)

  -- The first rows of a query, and those after an offset: `take` and `skip`.
  abbrev pub take : ℕ → List A → List A
  take zero xs = []
  take (suc n) [] = []
  take (suc n) (x ∷ xs) = x ∷ take n xs

  abbrev pub skip : ℕ → List A → List A
  skip zero xs = xs
  skip (suc n) [] = []
  skip (suc n) (x ∷ xs) = skip n xs

  pub length-append : (xs ys : List A) → length (xs ++ ys) ≡ length xs + length ys
  length-append [] ys = omega arith
  length-append (x ∷ xs) ys = omega (arith, length-append xs ys)

  pub take-append : (xs ys : List A) → take (length xs) (xs ++ ys) ≡ xs
  take-append [] ys = refl
  take-append (x ∷ xs) ys = rw (take-append xs ys)

  pub skip-append : (xs ys : List A) → skip (length xs) (xs ++ ys) ≡ ys
  skip-append [] ys = refl
  skip-append (x ∷ xs) ys = skip-append xs ys

  pub empty_of_length : (xs : List A) → length xs ≡ 0 → xs ≡ []
  empty_of_length [] h = refl
  empty_of_length (x ∷ xs) h = ground (arith, h)

  abbrev pub All {κ} : (A → Type κ) → List A → Type κ
  All P [] = Unit
  All P (x ∷ xs) = P x × All P xs

  -- `Array.prototype.filter`
  abbrev pub filter : (A → Bool) → List A → List A
  filter p [] = []
  filter p (x ∷ xs) = if p x then x ∷ filter p xs else filter p xs

  -- `Array.prototype.every`
  abbrev pub every : (A → Bool) → List A → Bool
  every p [] = true
  every p (x ∷ xs) = p x && every p xs

-- `Array.prototype.includes`
abbrev pub includes : List ℕ → ℕ → Bool
includes [] a = false
includes (x ∷ xs) a = x == a || includes xs a

-- `Array.from(new Set(xs))`: the first of each
abbrev pub distinct_after : List ℕ → List ℕ → List ℕ
distinct_after seen [] = []
distinct_after seen (x ∷ xs) =
    let skip = distinct_after seen xs in
    let keep = x ∷ distinct_after (x ∷ seen) xs in if includes seen x then skip else keep

abbrev pub distinct : List ℕ → List ℕ
distinct = distinct_after []

-- Each element that is not in the list already seen is among the distinct ones.
pub includes-distinct_after :
    (seen xs : List ℕ) (a : ℕ)
    → includes seen a ≡ false
    → includes xs a ≡ true
    → includes (distinct_after seen xs) a ≡ true
includes-distinct_after seen [] a n h = cc
includes-distinct_after seen (x ∷ xs) a n h = elim (Bool-cases (x == a)) [
  | inl e ↦ rw (eq_of_== x a e, n, ==_refl a)
  | inr e ↦
      ground
        (arith, e, includes-distinct_after seen xs a n, includes-distinct_after (x ∷ seen) xs a)
]

pub includes-distinct :
    (xs : List ℕ) (a : ℕ) → includes xs a ≡ true → includes (distinct xs) a ≡ true
includes-distinct xs a h = includes-distinct_after [] xs a refl h

pub includes-distinct_after_back :
    (seen xs : List ℕ) (a : ℕ) → includes (distinct_after seen xs) a ≡ true → includes xs a ≡ true
includes-distinct_after_back seen [] a h = h
includes-distinct_after_back seen (x ∷ xs) a h =
    ground
      (arith, includes-distinct_after_back seen xs a, includes-distinct_after_back (x ∷ seen) xs a)

-- The distinct elements are the elements.
pub includes-distinct_iff :
    (xs : List ℕ) (a : ℕ) → (includes (distinct xs) a ≡ true) ↔ (includes xs a ≡ true)
includes-distinct_iff xs a = (includes-distinct_after_back [] xs a, includes-distinct xs a)

module _ {ℓ} {A : Type ℓ} where
  pub every-All : (p : A → Bool) (xs : List A) → (every p xs ≡ true) ↔ All (λ x. p x ≡ true) xs
  every-All p [] = (λ _. tt, λ _. refl)
  every-All p (x ∷ xs) = elim (Bool-cases (p x)) [
    | inl e ↦
        (λ h. (e, (every-All p xs).0 (rw e at h)), λ (_, rest). rw e ((every-All p xs).1 rest))
    | inr e ↦ (λ h. cc (e, h), λ (first, _). cc (e, first))
  ]

  pub All-map {κ} : (P Q : A → Type κ) (xs : List A) → ((x : A) → P x → Q x) → All P xs → All Q xs
  All-map P Q [] f h = tt
  All-map P Q (x ∷ xs) f (h, hs) = (f x h, All-map P Q xs f hs)
