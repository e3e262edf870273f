-- ===== src/Engine/Waterfall.antt =====
-- The whole of `calculatePaymentAllocation`: the payment is handed out in full, in the order of the
-- rules, and what it leaves outstanding.
use mathlib.Core.Path.{subst}
use girvi_ghata_backend.Base.{
  ◌≡◌, sym, ◌∙◌, ap, ◌⊎◌, inl, inr, refl, true, false, List, [], ◌∷◌, arith, All, if◌then◌else◌,
  Bool-cases,
}
use girvi_ghata_backend.Base.Int.{ℤ, pos, ◌+ℤ◌, ◌-ℤ◌, ◌≤ℤ◌, int_laws}
use girvi_ghata_backend.Decimal.{Decimal, IsExact, less_than_or_equal_to, min, minus_parts}
use girvi_ghata_backend.Types.{
  BusinessRules, OutstandingBreakdown, PaymentAllocationResult, Category,
}
use girvi_ghata_backend.Engine.{
  due_by_category, assign, allocate_loop, no_allocation, calculate_payment_allocation,
  calculate_outstanding,
}
use girvi_ghata_backend.Engine.Allocation.{
  Distinct, part, allocated, due, part-assign_self, All-part-assign, allocate_loop-part, IsWithin,
  DuesNonneg, allocate_loop-conserves, allocate_loop-IsWithin,
}

-- the category stands in the order
abbrev pub Listed : Category → List Category → Type 0
Listed c [] = ⊥
Listed c (e ∷ cs) = (e ≡ c) ⊎ Listed c cs

module _ {D : Type 0} ⦃d : Decimal D⦄ (laws : IsExact D) where
  open d use {of_ℕ, minus, less_than}
  open laws use {value, zero_value, less_than_value, is_negative_value, plus_value, minus_value}

  -- Each category is covered in full, or those after it got nothing.
  abbrev pub IsWaterfall :
      OutstandingBreakdown D → List Category → PaymentAllocationResult D → Type 0
  IsWaterfall b [] r = Unit
  IsWaterfall b (c ∷ cs) r =
      ((part laws c r ≡ due laws b c) ⊎ All (λ e. part laws e r ≡ pos 0) cs) × IsWaterfall b cs r

  All-zero-IsWaterfall :
      (b : OutstandingBreakdown D) (cs : List Category) (r : PaymentAllocationResult D)
      → All (λ e. part laws e r ≡ pos 0) cs
      → IsWaterfall b cs r
  All-zero-IsWaterfall b [] r z = tt
  All-zero-IsWaterfall b (c ∷ cs) r (z, zs) = (inr zs, All-zero-IsWaterfall b cs r zs)

  -- With nothing left the loop ends at once.
  allocate_loop_stop :
      (b : OutstandingBreakdown D) (cs : List Category) (rem : D) (r : PaymentAllocationResult D)
      → less_than_or_equal_to rem (of_ℕ 0) ≡ true
      → allocate_loop b cs rem r ≡ (rem, r)
  unfolding allocate_loop
  allocate_loop_stop b [] rem r h = refl
  allocate_loop_stop b (c ∷ cs) rem r h = rw h

  used_up : (rem : D) → less_than_or_equal_to (minus rem rem) (of_ℕ 0) ≡ true
  used_up rem =
      ground (arith, less_than_value (of_ℕ 0) (minus rem rem), zero_value, minus_parts laws rem rem)

  min-cases : (x y : D) → (min x y ≡ y) ⊎ (min x y ≡ x)
  min-cases x y = elim (Bool-cases (less_than y x)) [ inl e ↦ inl (rw e) | inr e ↦ inr (rw e) ]

  -- Once a payment is used up by a category, the later ones keep what they had.
  spent :
      (b : OutstandingBreakdown D) (cs : List Category) (rem a : D) (r : PaymentAllocationResult D)
      → a ≡ rem
      → allocate_loop b cs (minus rem a) r ≡ (minus rem a, r)
  spent b cs rem a r h = allocate_loop_stop b cs (minus rem a) r (rw h (used_up rem))

  allocate_loop-IsWaterfall :
      (b : OutstandingBreakdown D) (cs : List Category) (rem : D) (r : PaymentAllocationResult D)
      → Distinct cs
      → All (λ e. part laws e r ≡ pos 0) cs
      → IsWaterfall b cs (allocate_loop b cs rem r).1
  unfolding allocate_loop
  allocate_loop-IsWaterfall b [] rem r n z = tt
  allocate_loop-IsWaterfall b (c ∷ cs) rem r (n, ns) (z, zs) =
      let x = due_by_category b c in
      let a = min rem x in
      let zs' = All-part-assign laws c a r cs n zs in
      let later = allocate_loop-IsWaterfall b cs (minus rem a) (assign c a r) ns zs' in
      let kept =
        allocate_loop-part laws b c cs (minus rem a) (assign c a r) n
        ∙ part-assign_self laws c a r in
      elim (Bool-cases (less_than_or_equal_to rem (of_ℕ 0))) [
        | inl e ↦ rw e (inr zs, All-zero-IsWaterfall b cs r zs)
        | inr e ↦ rw e (elim (min-cases rem x) [
          | inl full ↦ (inl (kept ∙ ap value full), later)
          | inr short ↦
              let stop = ap (λ t. t.1) (spent b cs rem a (assign c a r) short) in
              (inr (rw stop zs'), later)
        ])
      ]

  -- If the loop leaves something of the payment, every listed category is covered.
  allocate_loop-covers :
      (b : OutstandingBreakdown D) (e : Category) (cs : List Category) (rem : D)
      (r : PaymentAllocationResult D)
      → Distinct cs
      → Listed e cs
      → less_than_or_equal_to (allocate_loop b cs rem r).0 (of_ℕ 0) ≡ false
      → part laws e (allocate_loop b cs rem r).1 ≡ due laws b e
  unfolding allocate_loop
  allocate_loop-covers b e [] rem r n m h = elim m [ ]
  allocate_loop-covers b e (c ∷ cs) rem r (n, ns) m h =
      let x = due_by_category b c in
      let a = min rem x in
      elim (Bool-cases (less_than_or_equal_to rem (of_ℕ 0))) [
        | inl t ↦ cc (rw t at h)
        | inr t ↦
            let h' : less_than_or_equal_to (allocate_loop b cs (minus rem a) (assign c a r)).0
                  (of_ℕ 0)
                ≡ false =
              rw t at h in
            rw t (elim (min-cases rem x) [
              | inr short ↦
                  let stop = ap (λ t. t.0) (spent b cs rem a (assign c a r) short) in
                  cc (rw stop at h', used_up rem)
              | inl full ↦ elim m [
                | inl same ↦
                    subst
                      (λ k.
                        part laws k (allocate_loop b cs (minus rem a) (assign c a r)).1
                        ≡ due laws b k)
                      same
                      (allocate_loop-part laws b c cs (minus rem a) (assign c a r) n
                        ∙ part-assign_self laws c a r
                        ∙ ap value full)
                | inr m' ↦ allocate_loop-covers b e cs (minus rem a) (assign c a r) ns m' h'
              ]
            ])
      ]

  -- The hypotheses of `calculatePaymentAllocation` in the services: the order lists each category
  -- once, nothing due is negative, the payments are already taken off the dues, and the payment is
  -- positive and at most the outstanding amount.
  pub record IsPayable (p : D) (b : OutstandingBreakdown D) (order : List Category) : Type 0 where
    pub distinct : Distinct order
    pub listed : (c : Category) → Listed c order
    pub nonneg : DuesNonneg laws b
    pub principal_settled : value b.payments_applied_to_principal ≡ pos 0
    pub interest_settled : value b.payments_applied_to_interest ≡ pos 0
    pub positive : pos 0 ≤ℤ value p
    pub covered : value p ≤ℤ value (calculate_outstanding b)

  abbrev pub total_due : OutstandingBreakdown D → ℤ
  total_due b =
      due laws b Category.penalty
      +ℤ due laws b Category.charges
      +ℤ (due laws b Category.interest +ℤ due laws b Category.principal)

  regroup :
      (p i c e x y : ℤ) → x ≡ pos 0 → y ≡ pos 0 → p +ℤ i +ℤ c +ℤ e -ℤ (x +ℤ y) ≡ e +ℤ c +ℤ (i +ℤ p)
  regroup p i c e x y h k = rw (h, k) (omega int_laws)

  -- `x.isNegative() ? 0 : x`, where `x` is not negative
  clamp-nonneg :
      (x : D) → pos 0 ≤ℤ value x → value (if d.is_negative x then of_ℕ 0 else x) ≡ value x
  clamp-nonneg x h = ground (arith, is_negative_value x)

  total_due_nonneg : (b : OutstandingBreakdown D) → DuesNonneg laws b → pos 0 ≤ℤ total_due b
  total_due_nonneg b n =
      omega (
        int_laws,
        n Category.penalty,
        n Category.charges,
        n Category.interest,
        n Category.principal,
      )

  -- Nothing is negative, so the outstanding amount is the sum of the four dues.
  pub outstanding-eq-total_due :
      (b : OutstandingBreakdown D)
      → DuesNonneg laws b
      → value b.payments_applied_to_principal ≡ pos 0
      → value b.payments_applied_to_interest ≡ pos 0
      → value (calculate_outstanding b) ≡ total_due b
  unfolding calculate_outstanding
  outstanding-eq-total_due b n p i =
      let paid = d.plus b.payments_applied_to_principal b.payments_applied_to_interest in
      let all = d.plus (d.plus (d.plus b.principal b.interest_accrued) b.charges) b.penalty in
      let sum : value (minus all paid) ≡ total_due b =
        simp (minus_value, plus_value)
          (regroup (value b.principal) (value b.interest_accrued) (value b.charges)
            (value b.penalty) (value b.payments_applied_to_principal)
            (value b.payments_applied_to_interest) p i) in
      clamp-nonneg (minus all paid) (rw sum (total_due_nonneg b n)) ∙ sum

  no_allocation-zeros : (cs : List Category) → All (λ e. part laws e no_allocation ≡ pos 0) cs
  no_allocation-zeros [] = tt
  no_allocation-zeros (Category.penalty ∷ cs) = (zero_value, no_allocation-zeros cs)
  no_allocation-zeros (Category.charges ∷ cs) = (zero_value, no_allocation-zeros cs)
  no_allocation-zeros (Category.interest ∷ cs) = (zero_value, no_allocation-zeros cs)
  no_allocation-zeros (Category.principal ∷ cs) = (zero_value, no_allocation-zeros cs)

  no_allocation-IsWithin :
      (b : OutstandingBreakdown D) → DuesNonneg laws b → IsWithin laws b no_allocation
  no_allocation-IsWithin b n Category.penalty = rw zero_value (omega arith, n Category.penalty)
  no_allocation-IsWithin b n Category.charges = rw zero_value (omega arith, n Category.charges)
  no_allocation-IsWithin b n Category.interest = rw zero_value (omega arith, n Category.interest)
  no_allocation-IsWithin b n Category.principal = rw zero_value (omega arith, n Category.principal)

  all_covered :
      (r : PaymentAllocationResult D) (b : OutstandingBreakdown D)
      → ((c : Category) → part laws c r ≡ due laws b c)
      → allocated laws r ≡ total_due b
  all_covered r b h =
      rw (h Category.penalty, h Category.charges, h Category.interest, h Category.principal)

  settle_sum : (a r : ℤ) → pos 0 ≤ℤ r → (r ≤ℤ pos 0) ⊎ (a +ℤ r ≤ℤ a) → (r ≡ pos 0) × (a ≡ a +ℤ r)
  settle_sum a r low h = (omega int_laws, omega int_laws)

  settle :
      (a r : ℤ) {p : ℤ} → a +ℤ r ≡ p → pos 0 ≤ℤ r → (r ≤ℤ pos 0) ⊎ (p ≤ℤ a) → (r ≡ pos 0) × (a ≡ p)
  settle a r e low h = rw (← e) (settle_sum a r low (rw (← e) at h))

  -- What the loop makes of a payable amount: nothing of it is left.
  allocate_loop-payable :
      (p : D) (b : OutstandingBreakdown D) (order : List Category)
      → IsPayable p b order
      → let (rem, r) = allocate_loop b order p no_allocation in
        (value rem ≡ pos 0) × (allocated laws r ≡ value p)
  allocate_loop-payable p b order h =
      let out = allocate_loop b order p no_allocation in
      let sum : allocated laws out.1 +ℤ value out.0 ≡ value p =
        allocate_loop-conserves laws b order p no_allocation h.distinct (no_allocation-zeros order)
        ∙ start (value p) in
      let (low, within) =
        allocate_loop-IsWithin laws b order p no_allocation h.nonneg h.positive
          (no_allocation-IsWithin b h.nonneg) in
      let total = outstanding-eq-total_due b h.nonneg h.principal_settled h.interest_settled in
      settle (allocated laws out.1) (value out.0) sum low
        (elim (Bool-cases (less_than_or_equal_to out.0 (of_ℕ 0))) [
          | inl e ↦ inl (ground (arith, less_than_value (of_ℕ 0) out.0, zero_value))
          | inr e ↦
              let full =
                all_covered out.1 b
                  λ c. allocate_loop-covers b c order p no_allocation h.distinct (h.listed c) e in
              inr (rw (full, ← total) h.covered)
        ])
    where
      start : (v : ℤ) → allocated laws no_allocation +ℤ v ≡ v
      start v = rw zero_value (omega int_laws)

  module _ (r r' : PaymentAllocationResult D)
      (same : (c : Category) → part laws c r ≡ part laws c r') where
    IsWithin-congr : (b : OutstandingBreakdown D) → IsWithin laws b r → IsWithin laws b r'
    IsWithin-congr b w c = rw (← same c) (w c)

    All-zero-congr :
        (cs : List Category)
        → All (λ e. part laws e r ≡ pos 0) cs
        → All (λ e. part laws e r' ≡ pos 0) cs
    All-zero-congr [] z = tt
    All-zero-congr (c ∷ cs) (z, zs) = (sym (same c) ∙ z, All-zero-congr cs zs)

    IsWaterfall-congr :
        (b : OutstandingBreakdown D) (cs : List Category) → IsWaterfall b cs r → IsWaterfall b cs r'
    IsWaterfall-congr b [] w = tt
    IsWaterfall-congr b (c ∷ cs) (inl full, w) =
        (inl (sym (same c) ∙ full), IsWaterfall-congr b cs w)
    IsWaterfall-congr b (c ∷ cs) (inr empty, w) =
        (inr (All-zero-congr cs empty), IsWaterfall-congr b cs w)

  part-remaining :
      (r : PaymentAllocationResult D) (x : D) (c : Category)
      → part laws c r ≡ part laws c (record r { remaining_outstanding = x })
  part-remaining r x Category.penalty = refl
  part-remaining r x Category.charges = refl
  part-remaining r x Category.interest = refl
  part-remaining r x Category.principal = refl

  cancel : (x y : ℤ) → x -ℤ (y -ℤ pos 0) ≡ x -ℤ y
  cancel x y = omega int_laws

  difference_nonneg : (x y : ℤ) → x ≤ℤ y → pos 0 ≤ℤ y -ℤ x
  difference_nonneg x y k = omega int_laws

  module _ (p : D) (b : OutstandingBreakdown D) (rules : BusinessRules D) where
    -- A payment of at least 0 and at most the outstanding amount, of which nothing is due below 0
    -- or already applied, under an order that lists every category once, is handed out in full: the
    -- four parts add up to it, each is at least 0 and at most its due, a category is served only
    -- when those before it are covered, and what remains outstanding is the old amount less the
    -- payment.
    pub payment_allocation_lem :
        IsPayable p b rules.payment_allocation_order
        → let r = calculate_payment_allocation p b rules in
          (allocated laws r ≡ value p)
          × IsWithin laws b r
          × IsWaterfall b rules.payment_allocation_order r
          × (value r.remaining_outstanding ≡ value (calculate_outstanding b) -ℤ value p)
    unfolding calculate_payment_allocation
    payment_allocation_lem h =
        let order = rules.payment_allocation_order in
        let out = allocate_loop b order p no_allocation in
        let (used, sum) = allocate_loop-payable p b order h in
        let left = minus (calculate_outstanding b) (minus p out.0) in
        let left_value : value left ≡ value (calculate_outstanding b) -ℤ value p =
          simp (minus_value, used) (cancel (value (calculate_outstanding b)) (value p)) in
        let r = calculate_payment_allocation p b rules in
        let same = part-remaining out.1 r.remaining_outstanding in
        let (_, within) =
          allocate_loop-IsWithin laws b order p no_allocation h.nonneg h.positive
            (no_allocation-IsWithin b h.nonneg) in
        let falls =
          allocate_loop-IsWaterfall b order p no_allocation h.distinct
            (no_allocation-zeros order) in
        let rest = difference_nonneg (value p) (value (calculate_outstanding b)) h.covered in
        (
          sum,
          IsWithin-congr out.1 r same b within,
          IsWaterfall-congr out.1 r same b order falls,
          clamp-nonneg left (rw left_value rest) ∙ left_value,
        )
