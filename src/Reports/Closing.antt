-- ===== src/Reports/Closing.antt =====
-- The cash book from one day to the next, and what a recorded closing is.
use girvi_ghata_backend.Base.{
  ℕ, ◌≤◌, ◌≡◌, ◌∙◌, ◌⊎◌, inl, inr, refl, sym, Bool, false, List, [], ◌∷◌, ltb, filter, Bool-cases,
  arith, if◌then◌else◌,
}
use girvi_ghata_backend.Base.Int.{
  ℤ, pos, ◌+ℤ◌, ◌-ℤ◌, +ℤ_assoc, zero_+ℤ, +ℤ_zero, -ℤ_opposite, +ℤ_swap, none_+ℤ, add_-ℤ_add,
  -ℤ_add_add, add_sub_assoc,
}
use girvi_ghata_backend.Decimal.{Decimal, IsExact}
use girvi_ghata_backend.Calendar.{Instant}
use girvi_ghata_backend.Store.{Store, Context, LedgerEntry, Direction, inward, outward}
use girvi_ghata_backend.Reports.{Days, IsDays}
use girvi_ghata_backend.Reports.Cash.{
  is_of, is_before, is_within, opening_from, flows_from, daily_cash_book,
}

Direction-cases : (x : Direction) → (x ≡ inward) ⊎ (x ≡ outward)
Direction-cases inward = inl refl
Direction-cases outward = inr refl

module _ {D : Type 0} ⦃d : Decimal D⦄ (laws : IsExact D) where
  open d use {of_ℕ, plus, minus}
  open laws use {value, zero_value, plus_value, minus_value}

  -- What an entry adds to the cash, and what the entries that pass a test add together.
  abbrev pub signed_amount : LedgerEntry D → ℤ
  signed_amount e = elim e.direction [ inward ↦ value e.amount | outward ↦ pos 0 -ℤ value e.amount ]

  abbrev pub net : (LedgerEntry D → Bool) → List (LedgerEntry D) → ℤ
  net p [] = pos 0
  net p (e ∷ es) = (if p e then signed_amount e else pos 0) +ℤ net p es

  opening_from_lem :
      (p : LedgerEntry D → Bool) (acc : D) (es : List (LedgerEntry D))
      → value (opening_from acc (filter p es)) ≡ value acc +ℤ net p es
  unfolding opening_from
  opening_from_lem p acc [] = sym (+ℤ_zero (value acc))
  opening_from_lem p acc (e ∷ es) = elim (Bool-cases (p e)) [
    | inl t ↦ elim (Direction-cases e.direction) [
      | inl i ↦ rw (
        t,
        i,
        opening_from_lem p (plus acc e.amount) es,
        plus_value,
        +ℤ_assoc (value acc) (value e.amount) (net p es),
      )
      | inr o ↦ rw (
        t,
        o,
        opening_from_lem p (minus acc e.amount) es,
        minus_value,
        -ℤ_opposite (value acc) (value e.amount),
        +ℤ_assoc (value acc) (pos 0 -ℤ value e.amount) (net p es),
      )
    ]
    | inr t ↦ rw (t, opening_from_lem p acc es, zero_+ℤ (net p es))
  ]

  flows_from_lem :
      (p : LedgerEntry D → Bool) (i o : D) (es : List (LedgerEntry D))
      → value (flows_from i o (filter p es)).0 -ℤ value (flows_from i o (filter p es)).1
        ≡ value i -ℤ value o +ℤ net p es
  unfolding flows_from
  flows_from_lem p i o [] = sym (+ℤ_zero (value i -ℤ value o))
  flows_from_lem p i o (e ∷ es) = elim (Bool-cases (p e)) [
    | inl t ↦ elim (Direction-cases e.direction) [
      | inl w ↦ rw (
        t,
        w,
        flows_from_lem p (plus i e.amount) o es,
        plus_value,
        add_-ℤ_add (value i) (value e.amount) (value o) (net p es),
      )
      | inr w ↦ rw (
        t,
        w,
        flows_from_lem p i (plus o e.amount) es,
        plus_value,
        -ℤ_add_add (value i) (value o) (value e.amount) (net p es),
      )
    ]
    | inr t ↦ rw (t, flows_from_lem p i o es, zero_+ℤ (net p es))
  ]

  net-split :
      (p q r : LedgerEntry D → Bool) (es : List (LedgerEntry D))
      → ((e : LedgerEntry D) → ((r e ≡ p e) × (q e ≡ false)) ⊎ ((r e ≡ q e) × (p e ≡ false)))
      → net r es ≡ net p es +ℤ net q es
  net-split p q r [] h = sym (+ℤ_zero (pos 0))
  net-split p q r (e ∷ es) h =
      let ih = net-split p q r es h in
      elim (h e) [
        | inl (same, out) ↦ rw (
          same,
          out,
          ih,
          zero_+ℤ (net q es),
          +ℤ_assoc (if p e then signed_amount e else pos 0) (net p es) (net q es),
        )
        | inr (same, out) ↦ rw (
          same,
          out,
          ih,
          zero_+ℤ (net p es),
          +ℤ_swap (if q e then signed_amount e else pos 0) (net p es) (net q es),
        )
      ]

  module _ (days : Days) (s : Store D) (ctx : Context) (branch : ℕ) where
    -- The opening cash of a day, and what is expected in the end, as nets of the ledger.
    opening_net :
        (date : Instant)
        → value (daily_cash_book days s ctx branch date).opening_cash
          ≡ net (is_before ctx.tenant_id branch (days.start_of_day date)) s.ledger
    unfolding daily_cash_book
    opening_net date =
        opening_from_lem (is_before ctx.tenant_id branch (days.start_of_day date)) (of_ℕ 0) s.ledger
        ∙ rw zero_value (zero_+ℤ _)

    expected_net :
        (date : Instant)
        → value (daily_cash_book days s ctx branch date).expected_closing_cash
          ≡ net (is_before ctx.tenant_id branch (days.start_of_day date)) s.ledger
            +ℤ net
                (is_within ctx.tenant_id branch
                  (days.start_of_day date)
                  (days.next_day (days.start_of_day date)))
                s.ledger
    unfolding daily_cash_book
    expected_net date =
        let start = days.start_of_day date in
        let q : LedgerEntry D → Bool = is_within ctx.tenant_id branch start (days.next_day start) in
        let flows = flows_from (of_ℕ 0) (of_ℕ 0) (filter q s.ledger) in
        let moved : value flows.0 -ℤ value flows.1 ≡ net q s.ledger =
          flows_from_lem q (of_ℕ 0) (of_ℕ 0) s.ledger ∙ rw zero_value (none_+ℤ (net q s.ledger)) in
        rw (
          minus_value,
          plus_value,
          add_sub_assoc (value (daily_cash_book days s ctx branch date).opening_cash)
              (value flows.0) (value flows.1),
          opening_net date,
          moved,
        )

    split_at :
        (start end : Instant)
        → start ≤ end
        → (e : LedgerEntry D)
        → ((is_before ctx.tenant_id branch end e ≡ is_before ctx.tenant_id branch start e)
            × (is_within ctx.tenant_id branch start end e ≡ false))
          ⊎ ((is_before ctx.tenant_id branch end e ≡ is_within ctx.tenant_id branch start end e)
              × (is_before ctx.tenant_id branch start e ≡ false))
    split_at start end h e = elim (Bool-cases (is_of ctx.tenant_id branch e)) [
      | inl t ↦ elim (Bool-cases (ltb e.created_at start)) [
        | inl l ↦ rw t (inl (ground arith, ground arith))
        | inr l ↦ rw t (inr (ground arith, l))
      ]
      | inr t ↦ rw t (inl (refl, refl))
    ]

    -- The cash that a day's book expects in the end is the cash with which the book of the next day
    -- opens, for the same ledger.
    pub daily_cash_book-carries :
        IsDays days
        → (date next : Instant) → days.start_of_day next ≡ days.next_day (days.start_of_day date)
        → value (daily_cash_book days s ctx branch next).opening_cash
          ≡ value (daily_cash_book days s ctx branch date).expected_closing_cash
    daily_cash_book-carries ordered date next same =
        let start = days.start_of_day date in
        let later = ordered.start_lt_next date in
        opening_net next
        ∙ (rw same (
              net-split (is_before ctx.tenant_id branch start)
                (is_within ctx.tenant_id branch start (days.next_day start))
                (is_before ctx.tenant_id branch (days.next_day start)) s.ledger
                (split_at start (days.next_day start) (omega (arith, later))))
            ∙ sym (expected_net date))
