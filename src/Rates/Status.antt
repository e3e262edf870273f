-- ===== src/Rates/Status.antt =====
-- `getStatus`: when the rates of the day are complete, and that `setRate` completes a metal's.
use girvi_ghata_backend.Base.{
  ℕ, ◌≤◌, ◌≡◌, ◌↔◌, ◌⊎◌, inl, inr, refl, true, false, Option, none, some, [], ◌∷◌, length, ◌==◌,
  All, All-map, Bool-cases, Option-cases, arith, ==_refl,
}
use girvi_ghata_backend.Calendar.{Instant, day_ms}
use girvi_ghata_backend.Result.{ok}
use girvi_ghata_backend.Table.{Table, find_first, select, count, create}
use girvi_ghata_backend.Store.{Store, Columns, Context, Metal, MetalRate}
use girvi_ghata_backend.Cache.{Cache}
use girvi_ghata_backend.IstDate.{get_ist_business_date, get_ist_business_date-holds, ist_day}
use girvi_ghata_backend.Girvi.{is_current_rate, is_metal}
use girvi_ghata_backend.Rates.{
  Rate, SetRate, last_of, is_open_rate, is_stale, stale_metals_of, get_status, set_rate, write_rate,
}
use girvi_ghata_backend.Rates.Current.{OneCurrent, set_rate-IsWrittenRate, none_left, rows_after}

-- The rate is there, and has been in effect since an instant of the business day.
abbrev pub IsToday : {D : Type 0} → Instant → Option (MetalRate D) → Type 0
IsToday now none = ⊥
IsToday now (some r) =
    ((get_ist_business_date now).start_utc ≤ r.effective_from)
    × (r.effective_from ≤ (get_ist_business_date now).end_utc)

module _ {D : Type 0} where
  is_stale_lem :
      (now : Instant) (o : Option (MetalRate D)) → (is_stale now o ≡ false) ↔ IsToday now o
  is_stale_lem now none = (λ h. cc h, λ h. elim h [ ])
  is_stale_lem now (some r) =
      (λ h. (ground (arith, h), ground (arith, h)), λ (from, until). ground arith)

  none_stale :
      (now : Instant) (rates : Table (MetalRate D)) (metals : Table (Metal D))
      → (length (stale_metals_of now rates metals) ≡ 0)
        ↔ All (λ m. IsToday now (last_of m.0 rates)) metals
  none_stale now rates [] = (λ _. tt, λ _. refl)
  none_stale now rates ((id, m) ∷ metals) =
      let (there, back) = none_stale now rates metals in
      let (today, fresh) = is_stale_lem now (last_of id rates) in
      elim (Bool-cases (is_stale now (last_of id rates))) [
        | inl e ↦ (λ h. ground (arith, e, h), λ (first, _). cc (e, fresh first))
        | inr e ↦ (λ h. (today e, there (rw e at h)), λ (_, rest). rw e (back rest))
      ]

  -- The status says that the rates are up to date just if every metal of the tenant has a rate
  -- without an end, the last of them having been in effect since an instant of the business day.
  pub get_status-up_to_date :
      (now : Instant) (s : Store D) (ctx : Context)
      → ((get_status now s ctx).up_to_date ≡ true)
        ↔ All
            (λ m. IsToday now (last_of m.0 (select (is_open_rate ctx.tenant_id) s.metal_rates)))
            (select (λ m. m.tenant == ctx.tenant_id) s.metals)
  unfolding get_status
  get_status-up_to_date now s ctx =
      let (there, back) =
        none_stale now (select (is_open_rate ctx.tenant_id) s.metal_rates)
          (select (λ m. m.tenant == ctx.tenant_id) s.metals) in
      (λ h. there (ground (arith, h)), λ all. let none_left = back all in rw none_left)

  -- Whether the status is up to date once one metal is.
  status_of_others :
      (now : Instant) (s : Store D) (ctx : Context) (metal : ℕ)
      → IsToday now (last_of metal (select (is_open_rate ctx.tenant_id) s.metal_rates))
      → ((get_status now s ctx).up_to_date ≡ true)
        ↔ All
            (λ x.
              (x.0 ≡ metal)
              ⊎ IsToday now (last_of x.0 (select (is_open_rate ctx.tenant_id) s.metal_rates)))
            (select (λ x. x.tenant == ctx.tenant_id) s.metals)
  status_of_others now s ctx metal today =
      let (there, back) = get_status-up_to_date now s ctx in
      let metals = select (λ x. x.tenant == ctx.tenant_id) s.metals in
      (
        λ h. All-map _ _ metals (λ _ t. inr t) (there h),
        λ all. back (All-map _ _ metals (λ _ h. elim h [ inl e ↦ rw e today | inr t ↦ t ]) all),
      )

  current_of :
      (tenant metal : ℕ) (r : MetalRate D)
      → is_open_rate tenant r ≡ true
      → (r.metal == metal) ≡ true
      → is_current_rate tenant metal r ≡ true
  current_of tenant metal r o m = elim (Option-cases r.effective_to) [
    | inl e ↦ ground (arith, rw e at o, e)
    | inr (t, e) ↦ ground (arith, rw e at o)
  ]

  none_open :
      (tenant metal : ℕ) (rows : Table (MetalRate D))
      → count (is_current_rate tenant metal) rows ≡ 0
      → last_of metal (select (is_open_rate tenant) rows) ≡ none
  unfolding select last_of
  none_open tenant metal [] h = refl
  none_open tenant metal ((j, r) ∷ rows) h = elim (Bool-cases (is_current_rate tenant metal r)) [
    | inl c ↦ ground (arith, rw c at h)
    | inr c ↦
        let ih = none_open tenant metal rows (rw c at h) in
        elim (Bool-cases (is_open_rate tenant r)) [
          | inl o ↦ elim (Bool-cases (r.metal == metal)) [
            | inl m ↦ cc (current_of tenant metal r o m, c)
            | inr m ↦ rw (o, ih, m)
          ]
          | inr o ↦ rw o ih
        ]
  ]

  last_of-create :
      (tenant metal id : ℕ) (r : MetalRate D) (rows : Table (MetalRate D))
      → is_open_rate tenant r ≡ true
      → (r.metal == metal) ≡ true
      → last_of metal (select (is_open_rate tenant) rows) ≡ none
      → last_of metal (select (is_open_rate tenant) (create id r rows)) ≡ some r
  unfolding select last_of
  last_of-create tenant metal id r rows live same nothing = rw (live, nothing, same)

module _ {D : Type 0} ⦃col : Columns D⦄ (now : Instant) (s : Store D) (cache : Cache (Rate D))
    (ctx : Context) (dto : SetRate D) (id : ℕ) {r : MetalRate D} {s' : Store D}
    {cache' : Cache (Rate D)} where
  -- After a setRate, and until the business day of its instant is over, the metal's last rate
  -- without an end has been in effect since an instant of that day, and the status says that the
  -- rates are up to date just if that is so of every other metal of the tenant, if each metal had
  -- at most one rate without an end and the clock is past its first day.
  pub set_rate-IsToday :
      OneCurrent s.metal_rates
      → set_rate now s cache ctx dto id ≡ ok (r, s', cache')
      → (later : Instant) → day_ms ≤ now
      → day_ms ≤ later
      → ist_day now ≡ ist_day later
      → (m : ℕ × Metal D) × (find_first (is_metal ctx.tenant_id dto.metal_code) s.metals ≡ some m)
        × IsToday later (last_of m.0 (select (is_open_rate ctx.tenant_id) s'.metal_rates))
        × (((get_status later s' ctx).up_to_date ≡ true)
            ↔ All
                (λ x.
                  (x.0 ≡ m.0)
                  ⊎ IsToday later
                      (last_of x.0 (select (is_open_rate ctx.tenant_id) s'.metal_rates)))
                (select (λ x. x.tenant == ctx.tenant_id) s'.metals))
  unfolding write_rate get_ist_business_date
  set_rate-IsToday one h later past past' same =
      let q = set_rate-IsWrittenRate now s cache ctx dto id h in
      let nothing =
        none_open ctx.tenant_id q.metal.0 (rows_after now s ctx dto q.metal.0 id)
          (none_left now s ctx dto q.metal.0 id one) in
      let (_, _, _, day) = get_ist_business_date-holds later now past' past in
      let there =
        last_of-create ctx.tenant_id q.metal.0 id (write_rate now s ctx dto q.metal.0 id).0
          (rows_after now s ctx dto q.metal.0 id) (rw (==_refl ctx.tenant_id)) (==_refl q.metal.0)
          nothing in
      let today : IsToday later
          (last_of q.metal.0 (select (is_open_rate ctx.tenant_id) s'.metal_rates)) =
        rw (q.state, there) (day.1 same) in
      (q.metal, q.found, today, status_of_others later s' ctx q.metal.0 today)
