-- ===== src/Table.antt =====
-- A database table as the services use it through Prisma: rows by their id. Prisma and Postgres are
-- not part of the repository; this is the documented meaning of the calls that the code makes.
use mathlib.Core.Option.{some-injective}
use girvi_ghata_backend.Base.{
  ℕ, ◌≡◌, ◌≢◌, refl, sym, Bool, true, Option, none, some, List, [], ◌∷◌, arith, ◌==◌, if◌then◌else◌,
  ==_refl, ap, ◌&&◌, length, includes, suc, ◌≤◌, false, Bool-cases, inl, inr,
}

abbrev pub Table {ℓ} : Type ℓ → Type ℓ
Table V = List (ℕ × V)

module _ {ℓ} {V : Type ℓ} where
  -- `findUnique({ where: { id } })`
  unfoldable pub find : ℕ → Table V → Option V
  find k [] = none
  find k ((j, v) ∷ t) = if k == j then some v else find k t

  -- `findFirst({ where: { id, ... } })`, with the further conditions as a test of the row
  abbrev pub keep_if : (V → Bool) → Option V → Option V
  keep_if p none = none
  keep_if p (some v) = if p v then some v else none

  abbrev pub find_where : ℕ → (V → Bool) → Table V → Option V
  find_where k p t = keep_if p (find k t)

  -- `update({ where: { id }, data })`
  unfoldable pub update : ℕ → (V → V) → Table V → Table V
  update k f [] = []
  update k f ((j, v) ∷ t) = (j, if k == j then f v else v) ∷ update k f t

  -- `create({ data })`, with the id that the database draws
  abbrev pub create : ℕ → V → Table V → Table V
  create k v t = (k, v) ∷ t

  -- `findMany({ where })`: the rows that pass a test
  unfoldable pub select : (V → Bool) → Table V → Table V
  select p [] = []
  select p ((j, v) ∷ t) = let rest = select p t in if p v then (j, v) ∷ rest else rest

  -- `findMany({ where: { id: { in: ids }, ... } })`
  unfoldable pub select_in : List ℕ → (V → Bool) → Table V → Table V
  select_in ids p [] = []
  select_in ids p ((j, v) ∷ t) =
      let rest = select_in ids p t in if includes ids j && p v then (j, v) ∷ rest else rest

  -- `count({ where })`
  abbrev pub count : (V → Bool) → Table V → ℕ
  count p t = length (select p t)

  -- `findFirst({ where })`
  unfoldable pub find_first : (V → Bool) → Table V → Option (ℕ × V)
  find_first p [] = none
  find_first p ((j, v) ∷ t) = if p v then some (j, v) else find_first p t

  -- `Map.set`, or an upsert
  unfoldable pub put : ℕ → V → Table V → Table V
  put k v [] = (k, v) ∷ []
  put k v ((j, w) ∷ t) = if k == j then (k, v) ∷ t else (j, w) ∷ put k v t

  abbrev pub update_option : (V → V) → Option V → Option V
  update_option f none = none
  update_option f (some v) = some (f v)

  pub find-update :
      (j k : ℕ) (f : V → V) (t : Table V)
      → find j (update k f t) ≡ (if j == k then update_option f (find j t) else find j t)
  unfolding find update
  find-update j k f [] = ground arith
  find-update j k f ((i, v) ∷ t) = ground (arith, find-update j k f t)

  pub find-put :
      (j k : ℕ) (v : V) (t : Table V) → find j (put k v t) ≡ (if j == k then some v else find j t)
  unfolding find put
  find-put j k v [] = refl
  find-put j k v ((i, w) ∷ t) = ground (arith, find-put j k v t)

  -- An update at an id that no row has changes nothing.
  pub update_absent : (k : ℕ) (f : V → V) (t : Table V) → find k t ≡ none → update k f t ≡ t
  unfolding find update
  update_absent k f [] h = refl
  update_absent k f ((j, v) ∷ t) h = ground (arith, update_absent k f t)

  pub find-update_self :
      (k : ℕ) (f : V → V) (t : Table V) {v : V}
      → find k t ≡ some v
      → find k (update k f t) ≡ some (f v)
  find-update_self k f t h = rw (find-update, ==_refl k, h)

  pub find-update_ne :
      (j k : ℕ) (f : V → V) (t : Table V) → j ≢ k → find j (update k f t) ≡ find j t
  find-update_ne j k f t h = ground (arith, find-update j k f t)

  pub find-create_self : (k : ℕ) (v : V) (t : Table V) → find k (create k v t) ≡ some v
  unfolding find
  find-create_self k v t = rw (==_refl k)

  pub find-create_ne : (j k : ℕ) (v : V) (t : Table V) → j ≢ k → find j (create k v t) ≡ find j t
  unfolding find
  find-create_ne j k v t h = ground arith

  pub keep_if-eq-some : (p : V → Bool) (o : Option V) {v : V} → keep_if p o ≡ some v → o ≡ some v
  keep_if-eq-some p o h = ground arith

  pub keep_if-passed : (p : V → Bool) (o : Option V) {v : V} → keep_if p o ≡ some v → p v ≡ true
  keep_if-passed p o h = ground arith

  -- An update that leaves the test of a row as it was leaves the number of rows that pass.
  pub count-update :
      (p : V → Bool) (k : ℕ) (f : V → V) (t : Table V)
      → ((v : V) → p (f v) ≡ p v)
      → count p (update k f t) ≡ count p t
  unfolding select update
  count-update p k f [] h = refl
  count-update p k f ((j, v) ∷ t) h = ground (arith, h v, count-update p k f t h)

  pub count-create :
      (p : V → Bool) (k : ℕ) (v : V) (t : Table V) → count p (create k v t) ≤ suc (count p t)
  unfolding select
  count-create p k v t = elim (Bool-cases (p v)) [
    | inl e ↦ rw e (omega arith)
    | inr e ↦ rw e (omega arith)
  ]

  pub count-create_other :
      (p : V → Bool) (k : ℕ) (v : V) (t : Table V)
      → p v ≡ false
      → count p (create k v t) ≡ count p t
  unfolding select
  count-create_other p k v t h = rw h

  -- Every row has an id of its own.
  abbrev pub UniqueIds : Table V → Type ℓ
  UniqueIds [] = Unit
  UniqueIds ((j, _) ∷ t) = (find j t ≡ none) × UniqueIds t

  pub find_first-find :
      (p : V → Bool) (t : Table V) {k : ℕ} {v : V}
      → UniqueIds t
      → find_first p t ≡ some (k, v)
      → find k t ≡ some v
  unfolding find find_first
  find_first-find p [] u h = cc
  find_first-find p ((j, w) ∷ t) {k} {v} (fresh, u) h = elim (Bool-cases (p w)) [
    | inl e ↦
        let same : (j, w) ≡ (k, v) = some-injective (j, w) (k, v) (rw e at h) in
        ground (arith, ap (λ (r : ℕ × V). r.0) same, ap (λ (r : ℕ × V). r.1) same)
    | inr e ↦
        let ih = find_first-find p t u (rw e at h) in
        elim (Bool-cases (k == j)) [ inl c ↦ ground (arith, fresh, ih) | inr c ↦ rw c ih ]
  ]

  -- The row that a `findFirst` finds, after an update that leaves the test as it was.
  pub find_first-update :
      (p : V → Bool) (k : ℕ) (f : V → V) (t : Table V) {v : V}
      → ((w : V) → p (f w) ≡ p w)
      → find_first p t ≡ some (k, v)
      → find_first p (update k f t) ≡ some (k, f v)
  unfolding find_first update
  find_first-update p k f [] same h = cc h
  find_first-update p k f ((j, w) ∷ t) {v} same h = elim (Bool-cases (p w)) [
    | inl e ↦
        let here : (j, w) ≡ (k, v) = some-injective (j, w) (k, v) (rw e at h) in
        let id = ap (λ (r : ℕ × V). r.0) here in
        let row = ap (λ (r : ℕ × V). r.1) here in rw (id, ==_refl k, same w, e, row)
    | inr e ↦
        let ih = find_first-update p k f t same (rw e at h) in
        elim (Bool-cases (k == j)) [ inl c ↦ rw (c, same w, e) ih | inr c ↦ rw (c, e) ih ]
  ]

  pub find_first-passed :
      (p : V → Bool) (t : Table V) {k : ℕ} {v : V} → find_first p t ≡ some (k, v) → p v ≡ true
  unfolding find_first
  find_first-passed p [] h = cc h
  find_first-passed p ((j, w) ∷ t) {k} {v} h = elim (Bool-cases (p w)) [
    | inl e ↦
        let row = ap (λ (r : ℕ × V). r.1) (some-injective (j, w) (k, v) (rw e at h)) in
        rw (sym row) e
    | inr e ↦ find_first-passed p t (rw e at h)
  ]
