-- ===== src/Engine/Allocation.antt =====
-- `calculatePaymentAllocation`: the loop over the allocation order hands out the payment without
-- loss, no category gets more than its due, and a category is served only when those before it are
-- covered.
use girvi_ghata_backend.Base.{
  ◌≡◌, sym, ◌∙◌, ◌≢◌, inl, inr, refl, false, List, [], ◌∷◌, arith, All, Bool-cases,
}
use girvi_ghata_backend.Base.Int.{ℤ, pos, ◌+ℤ◌, ◌-ℤ◌, ◌≤ℤ◌, int_laws}
use girvi_ghata_backend.Decimal.{Decimal, IsExact, less_than_or_equal_to, min, minus_parts}
use girvi_ghata_backend.Types.{OutstandingBreakdown, PaymentAllocationResult, Category}
use girvi_ghata_backend.Engine.{due_by_category, assign, allocate_loop}

-- One of four summands, at first zero, is set to `v`.
set_1 : (x a b c v : ℤ) → x ≡ pos 0 → v +ℤ a +ℤ (b +ℤ c) ≡ x +ℤ a +ℤ (b +ℤ c) +ℤ v
set_1 x a b c v h = rw h (omega int_laws)

set_2 : (x a b c v : ℤ) → x ≡ pos 0 → a +ℤ v +ℤ (b +ℤ c) ≡ a +ℤ x +ℤ (b +ℤ c) +ℤ v
set_2 x a b c v h = rw h (omega int_laws)

set_3 : (x a b c v : ℤ) → x ≡ pos 0 → a +ℤ b +ℤ (v +ℤ c) ≡ a +ℤ b +ℤ (x +ℤ c) +ℤ v
set_3 x a b c v h = rw h (omega int_laws)

set_4 : (x a b c v : ℤ) → x ≡ pos 0 → a +ℤ b +ℤ (c +ℤ v) ≡ a +ℤ b +ℤ (c +ℤ x) +ℤ v
set_4 x a b c v h = rw h (omega int_laws)

move : (t t' x x' v : ℤ) → t' ≡ t +ℤ v → x' ≡ x -ℤ v → t' +ℤ x' ≡ t +ℤ x
move t t' x x' v h k = rw (h, k) (omega int_laws)

-- no category is listed twice
abbrev pub Distinct : List Category → Type 0
Distinct [] = Unit
Distinct (c ∷ cs) = All (λ e. e ≢ c) cs × Distinct cs

module _ {D : Type 0} ⦃d : Decimal D⦄ (laws : IsExact D) where
  open d use {of_ℕ, minus}
  open laws use {value, zero_value, less_than_value, minus_value}

  abbrev pub part : Category → PaymentAllocationResult D → ℤ
  part Category.penalty r = value r.penalty
  part Category.charges r = value r.charges
  part Category.interest r = value r.interest
  part Category.principal r = value r.principal

  -- what all categories got together
  abbrev pub allocated : PaymentAllocationResult D → ℤ
  allocated r = value r.penalty +ℤ value r.charges +ℤ (value r.interest +ℤ value r.principal)

  abbrev pub due : OutstandingBreakdown D → Category → ℤ
  due b c = value (due_by_category b c)

  pub part-assign_self :
      (c : Category) (a : D) (r : PaymentAllocationResult D) → part c (assign c a r) ≡ value a
  part-assign_self Category.penalty a r = refl
  part-assign_self c a r = refl

  part-assign_ne :
      (c e : Category) (a : D) (r : PaymentAllocationResult D)
      → e ≢ c
      → part e (assign c a r) ≡ part e r
  part-assign_ne c e a r h = ground arith

  allocated-assign :
      (c : Category) (a : D) (r : PaymentAllocationResult D)
      → part c r ≡ pos 0
      → allocated (assign c a r) ≡ allocated r +ℤ value a
  allocated-assign Category.penalty a r h =
      set_1 (value r.penalty) (value r.charges) (value r.interest) (value r.principal) (value a) h
  allocated-assign Category.charges a r h =
      set_2 (value r.charges) (value r.penalty) (value r.interest) (value r.principal) (value a) h
  allocated-assign Category.interest a r h =
      set_3 (value r.interest) (value r.penalty) (value r.charges) (value r.principal) (value a) h
  allocated-assign Category.principal a r h =
      set_4 (value r.principal) (value r.penalty) (value r.charges) (value r.interest) (value a) h

  pub All-part-assign :
      (c : Category) (a : D) (r : PaymentAllocationResult D) (cs : List Category)
      → All (λ e. e ≢ c) cs
      → All (λ e. part e r ≡ pos 0) cs
      → All (λ e. part e (assign c a r) ≡ pos 0) cs
  All-part-assign c a r [] n z = tt
  All-part-assign c a r (e ∷ cs) (n, ns) (z, zs) =
      (part-assign_ne c e a r n ∙ z, All-part-assign c a r cs ns zs)

  -- The loop moves money from what remains to the categories, and nothing is lost.
  pub allocate_loop-conserves :
      (b : OutstandingBreakdown D) (cs : List Category) (rem : D) (r : PaymentAllocationResult D)
      → Distinct cs
      → All (λ e. part e r ≡ pos 0) cs
      → let (rem', r') = allocate_loop b cs rem r in
        allocated r' +ℤ value rem' ≡ allocated r +ℤ value rem
  unfolding allocate_loop
  allocate_loop-conserves b [] rem r n z = refl
  allocate_loop-conserves b (c ∷ cs) rem r (n, ns) (z, zs) =
      let a = min rem (due_by_category b c) in
      elim (Bool-cases (less_than_or_equal_to rem (of_ℕ 0))) [
        | inl e ↦ rw e
        | inr e ↦ rw e (
            allocate_loop-conserves b cs (minus rem a) (assign c a r) ns
              (All-part-assign c a r cs n zs)
            ∙ move (allocated r) (allocated (assign c a r)) (value rem) (value (minus rem a))
                (value a) (allocated-assign c a r z) (minus_value rem a))
      ]

  -- the four parts, each at least 0 and at most its due
  abbrev pub IsWithin : OutstandingBreakdown D → PaymentAllocationResult D → Type 0
  IsWithin b r = (c : Category) → (pos 0 ≤ℤ part c r) × (part c r ≤ℤ due b c)

  abbrev pub DuesNonneg : OutstandingBreakdown D → Type 0
  DuesNonneg b = (c : Category) → pos 0 ≤ℤ due b c

  assign-IsWithin :
      (b : OutstandingBreakdown D) (c : Category) (a : D) (r : PaymentAllocationResult D)
      → pos 0 ≤ℤ value a
      → value a ≤ℤ due b c
      → IsWithin b r
      → IsWithin b (assign c a r)
  assign-IsWithin b Category.penalty a r p q w Category.penalty = (p, q)
  assign-IsWithin b Category.charges a r p q w Category.charges = (p, q)
  assign-IsWithin b Category.interest a r p q w Category.interest = (p, q)
  assign-IsWithin b Category.principal a r p q w Category.principal = (p, q)
  assign-IsWithin b c a r p q w e = ground (arith, w e)

  -- what one round of the loop hands out
  applied_bounds :
      (rem x : D)
      → less_than_or_equal_to rem (of_ℕ 0) ≡ false
      → pos 0 ≤ℤ value x
      → (pos 0 ≤ℤ value (min rem x))
        × (value (min rem x) ≤ℤ value x)
        × (value (min rem x) ≤ℤ value rem)
  applied_bounds rem x e h =
      ground (arith, less_than_value x rem, less_than_value (of_ℕ 0) rem, zero_value)

  pub allocate_loop-IsWithin :
      (b : OutstandingBreakdown D) (cs : List Category) (rem : D) (r : PaymentAllocationResult D)
      → DuesNonneg b
      → pos 0 ≤ℤ value rem
      → IsWithin b r
      → let (rem', r') = allocate_loop b cs rem r in (pos 0 ≤ℤ value rem') × IsWithin b r'
  unfolding allocate_loop
  allocate_loop-IsWithin b [] rem r n p w = (p, w)
  allocate_loop-IsWithin b (c ∷ cs) rem r n p w =
      let a = min rem (due_by_category b c) in
      elim (Bool-cases (less_than_or_equal_to rem (of_ℕ 0))) [
        | inl e ↦ rw e (p, w)
        | inr e ↦
            let (low, high, fits) = applied_bounds rem (due_by_category b c) e (n c) in
            rw e (
              allocate_loop-IsWithin b cs (minus rem a) (assign c a r) n
                (omega (arith, minus_parts laws rem a)) (assign-IsWithin b c a r low high w))
      ]

  -- a category that is not in the rest of the order keeps its part
  pub allocate_loop-part :
      (b : OutstandingBreakdown D) (e : Category) (cs : List Category) (rem : D)
      (r : PaymentAllocationResult D)
      → All (λ c. c ≢ e) cs
      → part e (allocate_loop b cs rem r).1 ≡ part e r
  unfolding allocate_loop
  allocate_loop-part b e [] rem r n = refl
  allocate_loop-part b e (c ∷ cs) rem r (n, ns) =
      let a = min rem (due_by_category b c) in
      elim (Bool-cases (less_than_or_equal_to rem (of_ℕ 0))) [
        | inl t ↦ rw t
        | inr t ↦ rw t (
            allocate_loop-part b e cs (minus rem a) (assign c a r) ns
            ∙ part-assign_ne c e a r (λ q. n (sym q)))
      ]
