-- ===== src/Numbering/Gapless.antt =====
-- `next`: the numbers that one sequence issues follow each other without a gap.
use girvi_ghata_backend.Base.{
  ℕ, ◌+◌, ◌≡◌, refl, inl, inr, none, some, List, [], ◌∷◌, if◌then◌else◌, ◌==◌, Bool-cases, ==_refl,
}
use girvi_ghata_backend.Calendar.{Instant, Calendar}
use girvi_ghata_backend.Result.{Result, ok, ◌>>=◌}
use girvi_ghata_backend.Table.{Table, find_first, update}
use girvi_ghata_backend.Store.{Entity, NumberSequence}
use girvi_ghata_backend.Numbering.{is_sequence, next}

abbrev advance : ℕ → NumberSequence → NumberSequence
advance n q = record q { last_value = n }

-- The first sequence of a kind stays the first when some row's counter is set.
find_first-update :
    (tenant : ℕ) (entity : Entity) (k n : ℕ) (rows : Table NumberSequence)
    → find_first (is_sequence tenant entity) (update k (advance n) rows)
      ≡ elim (find_first (is_sequence tenant entity) rows) [
        | none ↦ none
        | some (j, q) ↦ some (j, if k == j then advance n q else q)
      ]
unfolding find_first update
find_first-update tenant entity k n [] = refl
find_first-update tenant entity k n ((j, q) ∷ rows) =
    let ih = find_first-update tenant entity k n rows in
    elim (Bool-cases (is_sequence tenant entity q)) [
      | inl c ↦ elim (Bool-cases (k == j)) [ inl e ↦ rw (e, c, e) | inr e ↦ rw (e, c, e) ]
      | inr c ↦ elim (Bool-cases (k == j)) [ inl e ↦ rw (e, c) ih | inr e ↦ rw (e, c) ih ]
    ]

module _ (cal : Calendar) (tenant : ℕ) (entity : Entity) where
  -- `n` calls after each other, at any instants, and the numbers they return.
  unfoldable pub issue :
      List Instant → Table NumberSequence → Result (List ℕ × Table NumberSequence)
  issue [] rows = ok ([], rows)
  issue (t ∷ ts) rows = do
    first ← next cal t rows tenant entity
    rest ← issue ts first.1
    ok (first.0.number ∷ rest.0, rest.1)

  -- The numbers after `n`, one for each call.
  abbrev pub count_from : ℕ → List Instant → List ℕ
  count_from n [] = []
  count_from n (_ ∷ ts) = (n + 1) ∷ count_from (n + 1) ts

  next-found :
      (t : Instant) (rows : Table NumberSequence) (k : ℕ) (q : NumberSequence)
      → find_first (is_sequence tenant entity) rows ≡ some (k, q)
      → next cal t rows tenant entity
        ≡ ok (
          record {
            prefix = q.prefix;
            year = if q.year_in_key then some (cal t).year else none;
            number = q.last_value + 1;
          },
          update k (advance (q.last_value + 1)) rows,
        )
  unfolding next
  next-found t rows k q h = rw h

  advanced :
      (rows : Table NumberSequence) (k : ℕ) (q : NumberSequence)
      → find_first (is_sequence tenant entity) rows ≡ some (k, q)
      → find_first (is_sequence tenant entity) (update k (advance (q.last_value + 1)) rows)
        ≡ some (k, advance (q.last_value + 1) q)
  advanced rows k q h = rw (find_first-update tenant entity k (q.last_value + 1) rows, h, ==_refl k)

  -- Calls of next after each other for one tenant and kind, whenever they are made, return the
  -- numbers that follow the sequence's last value, each once and without a gap, and none of them
  -- fails, if the sequence is there.
  pub issue_lem :
      (ts : List Instant) (rows : Table NumberSequence) (k : ℕ) (q : NumberSequence)
      → find_first (is_sequence tenant entity) rows ≡ some (k, q)
      → (rows' : Table NumberSequence) × (issue ts rows ≡ ok (count_from q.last_value ts, rows'))
  unfolding issue
  issue_lem [] rows k q h = (rows, refl)
  issue_lem (t ∷ ts) rows k q h =
      let (rows', e) = issue_lem ts _ k (advance (q.last_value + 1) q) (advanced rows k q h) in
      (rows', rw (next-found t rows k q h, e))
