-- ===== src/Rates/Current.antt =====
-- The current rate of a metal over `setRate` and `getCurrent`, with the cache between them.
use girvi_ghata_backend.Base.{
  ℕ, ◌+◌, ◌-◌, ◌≤◌, ◌≡◌, ◌∙◌, inl, inr, refl, ap, sym, false, Option, none, some, [], ◌∷◌,
  if◌then◌else◌, ◌==◌, Bool-cases, Option-cases, ==_refl, arith, ltb, empty_of_length,
}
use girvi_ghata_backend.Calendar.{Instant}
use girvi_ghata_backend.Result.{
  Result, ok, err, or_throw-found, >>=-eq-ok, ok-injective, metal_not_configured,
}
use girvi_ghata_backend.Table.{
  Table, find_first, select, count, update, count-create, count-create_other,
}
use girvi_ghata_backend.Store.{Store, Columns, Context, Metal, MetalRate}
use girvi_ghata_backend.Cache.{Cache}
use girvi_ghata_backend.Cache.Views.{view, cache-IsViewed, same_key_refl}
use girvi_ghata_backend.Girvi.{is_metal, is_current_rate, current_rate, latest_rate}
use girvi_ghata_backend.Rates.{
  Rate, SetRate, rate_key, read_current, fill, filled, or_read, get_current, close_rate,
  close_previous, invalidate, write_rate, commit_rate, set_rate,
}

module _ {D : Type 0} where
  -- No metal of a tenant has two rates that have not ended.
  abbrev pub OneCurrent : Table (MetalRate D) → Type 0
  OneCurrent rows = (tenant metal : ℕ) → count (is_current_rate tenant metal) rows ≤ 1

  module _ (now : Instant) (tenant metal : ℕ) where
    closed : (r : MetalRate D) → is_current_rate tenant metal (close_rate now r) ≡ false
    closed r = refl

    count-close :
        (k : ℕ) (rows : Table (MetalRate D))
        → count (is_current_rate tenant metal) (update k (close_rate now) rows)
          ≤ count (is_current_rate tenant metal) rows
    unfolding update select
    count-close k [] = omega arith
    count-close k ((j, r) ∷ rows) =
        let ih = count-close k rows in
        elim (Bool-cases (k == j)) [
          | inl e ↦ elim (Bool-cases (is_current_rate tenant metal r)) [
            | inl c ↦ rw (e, c) (omega (arith, ih))
            | inr c ↦ rw (e, c) ih
          ]
          | inr e ↦ elim (Bool-cases (is_current_rate tenant metal r)) [
            | inl c ↦ rw (e, c) (omega (arith, ih))
            | inr c ↦ rw (e, c) ih
          ]
        ]

    -- Closing the first current rate leaves one less.
    count-close_previous :
        (rows : Table (MetalRate D))
        → count
            (is_current_rate tenant metal)
            (close_previous now (find_first (is_current_rate tenant metal) rows) rows)
          ≤ count (is_current_rate tenant metal) rows - 1
    unfolding update select find_first
    count-close_previous [] = omega arith
    count-close_previous ((j, r) ∷ rows) =
        let ih = count-close_previous rows in
        elim (Bool-cases (is_current_rate tenant metal r)) [
          | inl c ↦ let less = count-close j rows in rw (c, ==_refl j) (omega (arith, less))
          | inr c ↦ elim (Option-cases (find_first (is_current_rate tenant metal) rows)) [
            | inl none_found ↦ rw (c, none_found, c) (rw none_found at ih)
            | inr ((k, q), found) ↦ elim (Bool-cases (k == j)) [
              | inl e ↦ rw (c, found, e) (rw found at ih)
              | inr e ↦ rw (c, found, e, c) (rw found at ih)
            ]
          ]
        ]

    count-close_any :
        (o : Option (Rate D)) (rows : Table (MetalRate D))
        → count (is_current_rate tenant metal) (close_previous now o rows)
          ≤ count (is_current_rate tenant metal) rows
    count-close_any none rows = omega arith
    count-close_any (some (k, r)) rows = count-close k rows

module _ {D : Type 0} ⦃col : Columns D⦄ (now : Instant) (s : Store D) (ctx : Context)
    (dto : SetRate D) (metal id : ℕ) where
  abbrev pub rows_after : Table (MetalRate D)
  rows_after =
      close_previous now (find_first (is_current_rate ctx.tenant_id metal) s.metal_rates)
        s.metal_rates

  abbrev created : MetalRate D
  created = (write_rate now s ctx dto metal id).0

  pub none_left :
      OneCurrent s.metal_rates → count (is_current_rate ctx.tenant_id metal) rows_after ≡ 0
  none_left one =
      let least = count-close_previous now ctx.tenant_id metal s.metal_rates in
      let most = one ctx.tenant_id metal in omega (arith, least, most)

  write_rate-OneCurrent :
      OneCurrent s.metal_rates → OneCurrent (write_rate now s ctx dto metal id).1.metal_rates
  unfolding write_rate
  write_rate-OneCurrent one tenant k = elim (Bool-cases (is_current_rate tenant k created)) [
    | inl e ↦
        let same : ctx.tenant_id ≡ tenant = ground (arith, e) in
        let same' : metal ≡ k = ground (arith, e) in
        let added = count-create (is_current_rate tenant k) id created rows_after in
        let left : count (is_current_rate tenant k) rows_after ≡ 0 =
          rw (sym same, sym same') (none_left one) in
        omega (arith, added, left)
    | inr e ↦
        let other = count-create_other (is_current_rate tenant k) id created rows_after e in
        let kept =
          count-close_any now tenant k
            (find_first (is_current_rate ctx.tenant_id metal) s.metal_rates) s.metal_rates in
        let most = one tenant k in omega (arith, other, kept, most)
  ]

  write_rate-current :
      OneCurrent s.metal_rates
      → current_rate (write_rate now s ctx dto metal id).1 ctx.tenant_id metal
        ≡ some (id, (write_rate now s ctx dto metal id).0)
  unfolding current_rate write_rate latest_rate select
  write_rate-current one =
      let nothing = empty_of_length _ (none_left one) in
      rw (==_refl ctx.tenant_id, ==_refl metal, nothing)

module _ {D : Type 0} where
  -- What `getCurrent` answers, by what it sees in the cache.
  abbrev answer : Store D → Context → ℕ → Option (Rate D) → Result (Rate D)
  answer s ctx code none = read_current s ctx code
  answer s ctx code (some rate) = ok rate

  filled_first :
      (now : Instant) (ctx : Context) (code : ℕ) (cache : Cache (Rate D)) (r : Result (Rate D))
      → (filled now ctx code cache r).0 ≡ r
  filled_first now ctx code cache (err e) = refl
  filled_first now ctx code cache (ok rate) = refl

  or_read_first :
      (now : Instant) (s : Store D) (ctx : Context) (code : ℕ) (o : Option (Rate D))
      (cache : Cache (Rate D))
      → (or_read now s ctx code (o, cache)).0 ≡ answer s ctx code o
  or_read_first now s ctx code none cache =
      filled_first now ctx code cache (read_current s ctx code)
  or_read_first now s ctx code (some rate) cache = refl

  get_current-view :
      (now : Instant) (s : Store D) (cache : Cache (Rate D)) (ctx : Context) (code : ℕ)
      → (get_current now s cache ctx code).0
        ≡ answer s ctx code (view now cache (rate_key ctx.tenant_id code))
  unfolding get_current
  get_current-view now s cache ctx code =
      or_read_first now s ctx code _ _
      ∙ ap (answer s ctx code) ((cache-IsViewed now cache).answered (rate_key ctx.tenant_id code))

module _ {D : Type 0} ⦃col : Columns D⦄ where
  -- What a `setRate` that returns has found and written.
  pub record IsWrittenRate (now : Instant) (s : Store D) (cache : Cache (Rate D)) (ctx : Context)
      (dto : SetRate D) (id : ℕ) (r : MetalRate D) (s' : Store D) (cache' : Cache (Rate D))
      : Type 0 where
    pub metal : ℕ × Metal D
    pub found : find_first (is_metal ctx.tenant_id dto.metal_code) s.metals ≡ some metal
    pub row : r ≡ (write_rate now s ctx dto metal.0 id).0
    pub state : s' ≡ (write_rate now s ctx dto metal.0 id).1
    pub cleared : cache' ≡ invalidate ctx dto.metal_code cache

  module _ (now : Instant) (s : Store D) (cache : Cache (Rate D)) (ctx : Context) (dto : SetRate D)
      (id : ℕ) {r : MetalRate D} {s' : Store D} {cache' : Cache (Rate D)} where
    pub set_rate-IsWrittenRate :
        set_rate now s cache ctx dto id ≡ ok (r, s', cache')
        → IsWrittenRate now s cache ctx dto id r s' cache'
    unfolding set_rate commit_rate
    set_rate-IsWrittenRate h0 =
        let (w, h1, h) = >>=-eq-ok (commit_rate now s ctx dto id) _ h0 in
        let (m, found, h2) =
          or_throw-found (find_first (is_metal ctx.tenant_id dto.metal_code) s.metals)
            metal_not_configured _ h1 in
        let e : w ≡ write_rate now s ctx dto m.0 id = sym (ok-injective h2) in
        let q = ok-injective h in
        record {
          metal = m;
          found = found;
          row =
              sym (ap (λ (t : MetalRate D × Store D × Cache (Rate D)). t.0) q)
              ∙ ap (λ (t : MetalRate D × Store D). t.0) e;
          state =
              sym (ap (λ (t : MetalRate D × Store D × Cache (Rate D)). t.1) q)
              ∙ ap (λ (t : MetalRate D × Store D). t.1) e;
          cleared = sym (ap (λ (t : MetalRate D × Store D × Cache (Rate D)). t.2) q);
        }

    -- No reading of the database after a `setRate` gives another rate than the new one.
    read_current-set :
        OneCurrent s.metal_rates
        → set_rate now s cache ctx dto id ≡ ok (r, s', cache')
        → read_current s' ctx dto.metal_code ≡ ok (id, r)
    unfolding read_current write_rate
    read_current-set one h =
        let q = set_rate-IsWrittenRate h in
        let same = write_rate-current now s ctx dto q.metal.0 id one in
        rw (q.state, q.row, q.found, same)

    -- A setRate that returns leaves at most one rate of each metal of each tenant without an end,
    -- if there was at most one before, and getCurrent of its tenant and metal then returns the new
    -- rate, whenever it is called.
    pub set_rate-get_current :
        OneCurrent s.metal_rates
        → set_rate now s cache ctx dto id ≡ ok (r, s', cache')
        → OneCurrent s'.metal_rates
          × ((later : Instant) → (get_current later s' cache' ctx dto.metal_code).0 ≡ ok (id, r))
    unfolding invalidate
    set_rate-get_current one h =
        let q = set_rate-IsWrittenRate h in
        let key = rate_key ctx.tenant_id dto.metal_code in
        (
          rw (q.state) (write_rate-OneCurrent now s ctx dto q.metal.0 id one),
          λ later.
              get_current-view later s' cache' ctx dto.metal_code
              ∙ rw (q.cleared, (cache-IsViewed now cache).hidden key key later, same_key_refl key)
                  (read_current-set one h),
        )

    -- When a reading of the rate that began before a setRate is written to the cache only after it,
    -- getCurrent returns the rate that was read until 60 seconds after that write, and then the new
    -- one, while nothing else is written, if each metal had at most one rate without an end.
    pub late_fill-ends :
        OneCurrent s.metal_rates
        → set_rate now s cache ctx dto id ≡ ok (r, s', cache')
        → (old : Rate D) → read_current s ctx dto.metal_code ≡ ok old
        → (written later : Instant)
        → (get_current later s' (fill written ctx dto.metal_code old cache') ctx dto.metal_code).0
          ≡ (if ltb (written + 60_000) later then ok (id, r) else ok old)
    unfolding fill
    late_fill-ends one h old read written later =
        let key = rate_key ctx.tenant_id dto.metal_code in
        let seen = (cache-IsViewed written cache').shown key key old 60 later in
        get_current-view later s' _ ctx dto.metal_code
        ∙ elim (Bool-cases (ltb (written + 60_000) later)) [
          | inl e ↦ rw (seen, same_key_refl key, e) (read_current-set one h)
          | inr e ↦ rw (seen, same_key_refl key, e)
        ]
