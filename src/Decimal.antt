-- ===== src/Decimal.antt =====
-- The part of decimal.js that the services use. The package is not part of the repository, so its
-- operations are an argument of every definition, and what the code relies on is the record
-- `IsExact`.
use girvi_ghata_backend.Base.{ℕ, ◌+◌, ◌≡◌, Bool, not, if◌then◌else◌, List, [], ◌∷◌}
use girvi_ghata_backend.Base.Int.{
  ℤ, pos, pos_part, neg_part, ◌+ℤ◌, ◌-ℤ◌, ◌≤ℤ◌, ltb_ℤ, +ℤ_parts, -ℤ_parts,
}

-- `of_ℕ n` is `new Decimal(n)`, and `round_half_up` is `toDecimalPlaces(0, ROUND_HALF_UP)`.
pub record Decimal (D : Type 0) : Type 0 where
  pub of_ℕ : ℕ → D
  pub plus : D → D → D
  pub minus : D → D → D
  pub times : D → D → D
  pub divided_by : D → D → D
  pub round_half_up : D → D
  pub less_than : D → D → Bool
  pub is_negative : D → Bool

module _ {D : Type 0} ⦃d : Decimal D⦄ where
  open d use {less_than}

  -- The values are never NaN, so the other tests are those of a total order.
  abbrev pub greater_than : D → D → Bool
  greater_than a b = less_than b a

  abbrev pub less_than_or_equal_to : D → D → Bool
  less_than_or_equal_to a b = not (less_than b a)

  abbrev pub min : D → D → D
  min a b = if less_than b a then b else a

  abbrev pub max : D → D → D
  max a b = if less_than a b then b else a

  -- `reduce((sum, x) => sum.plus(x), acc)`
  abbrev pub sum_from : D → List D → D
  sum_from acc [] = acc
  sum_from acc (x ∷ xs) = sum_from (d.plus acc x) xs

-- decimal.js works with 20 significant digits, and the amounts of the schema have at most 14. On
-- such amounts sums and differences are exact: they are those of `value`, the amount in its
-- smallest unit. Of products, quotients and roundings only signs and order are assumed.
pub record IsExact (D : Type 0) ⦃d : Decimal D⦄ : Type 0 where
  pub value : D → ℤ
  pub zero_value : value (d.of_ℕ 0) ≡ pos 0
  pub plus_value : (a b : D) → value (d.plus a b) ≡ value a +ℤ value b
  pub minus_value : (a b : D) → value (d.minus a b) ≡ value a -ℤ value b
  pub less_than_value : (a b : D) → d.less_than a b ≡ ltb_ℤ (value a) (value b)
  pub is_negative_value : (a : D) → d.is_negative a ≡ ltb_ℤ (value a) (pos 0)
  pub zero_times : (a b : D) → value a ≡ pos 0 → value (d.times a b) ≡ pos 0
  pub zero_divided : (a : D) (n : ℕ) → value a ≡ pos 0 → value (d.divided_by a (d.of_ℕ n)) ≡ pos 0
  pub zero_round : (a : D) → value a ≡ pos 0 → value (d.round_half_up a) ≡ pos 0
  pub of_ℕ_nonneg : (n : ℕ) → pos 0 ≤ℤ value (d.of_ℕ n)
  pub times_mono :
      (a b c e : D)
      → pos 0 ≤ℤ value a
      → pos 0 ≤ℤ value c
      → value a ≤ℤ value b
      → value c ≤ℤ value e
      → value (d.times a c) ≤ℤ value (d.times b e)
  pub divided_mono :
      (a b : D) (n : ℕ)
      → value a ≤ℤ value b
      → value (d.divided_by a (d.of_ℕ n)) ≤ℤ value (d.divided_by b (d.of_ℕ n))
  pub round_mono :
      (a b : D) → value a ≤ℤ value b → value (d.round_half_up a) ≤ℤ value (d.round_half_up b)

module _ {D : Type 0} ⦃d : Decimal D⦄ (laws : IsExact D) where
  open laws use {value, plus_value, minus_value}

  pub plus_parts :
      (a b : D)
      → pos_part (value (d.plus a b)) + neg_part (value a) + neg_part (value b)
        ≡ neg_part (value (d.plus a b)) + pos_part (value a) + pos_part (value b)
  plus_parts a b = rw plus_value (+ℤ_parts (value a) (value b))

  pub minus_parts :
      (a b : D)
      → pos_part (value (d.minus a b)) + neg_part (value a) + pos_part (value b)
        ≡ neg_part (value (d.minus a b)) + pos_part (value a) + neg_part (value b)
  minus_parts a b = rw minus_value (-ℤ_parts (value a) (value b))
