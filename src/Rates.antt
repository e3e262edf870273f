-- ===== src/Rates.antt =====
-- src/modules/rates: rates.service.ts and metals.service.ts, with the cache that each reads through.
pub mod Current
pub mod Status
use girvi_ghata_backend.Base.{
  ℕ, Bool, true, false, not, ◌&&◌, Option, none, some, List, [], ◌∷◌, map, length, leb, ◌==◌,
  includes, is_none, filter, take, if◌then◌else◌,
}
use girvi_ghata_backend.Calendar.{Instant}
use girvi_ghata_backend.Result.{
  Result, ok, err, or_throw, ◌>>=◌, metal_not_configured, no_current_rate,
}
use girvi_ghata_backend.Table.{Table, find_first, select, update, create}
use girvi_ghata_backend.Store.{
  Store, Columns, Context, Metal, MetalRate, MetalRateHistory, AuditEntry, rate_change,
}
use girvi_ghata_backend.Cache.{Cache, Key, get, set, delete}
use girvi_ghata_backend.IstDate.{get_ist_business_date}
use girvi_ghata_backend.Girvi.{is_metal, is_current_rate, current_rate}

-- `SetRateDto`
pub record SetRate (D : Type 0) : Type 0 where
  pub metal_code : ℕ
  pub rate_per_gram : D

pub record RateStatusResult : Type 0 where
  pub up_to_date : Bool
  pub as_of_date : ℕ
  pub stale_metals : List ℕ

abbrev pub current_rate_ttl_seconds : ℕ
current_rate_ttl_seconds = 60

abbrev pub metals_list_ttl_seconds : ℕ
metals_list_ttl_seconds = 300

-- `rates:current:tenant:metal`, and `metals:list:tenant`
abbrev pub rate_key : ℕ → ℕ → Key
rate_key tenant code = 0 ∷ 1 ∷ tenant ∷ code ∷ []

abbrev pub metals_key : ℕ → Key
metals_key tenant = 2 ∷ 3 ∷ tenant ∷ []

-- A rate with its id.
abbrev pub Rate : Type 0 → Type 0
Rate D = ℕ × MetalRate D

module _ {D : Type 0} where
  -- What `getCurrent` reads from the database when the cache has nothing.
  unfoldable pub read_current : Store D → Context → ℕ → Result (Rate D)
  read_current s ctx code = do
    metal ← or_throw (find_first (is_metal ctx.tenant_id code) s.metals) metal_not_configured
    or_throw (current_rate s ctx.tenant_id metal.0) no_current_rate

  -- The write of what was read to the cache, which may come later than the reading.
  unfoldable pub fill : Instant → Context → ℕ → Rate D → Cache (Rate D) → Cache (Rate D)
  fill now ctx code rate cache =
      set now (rate_key ctx.tenant_id code) rate current_rate_ttl_seconds cache

  abbrev pub filled :
      Instant → Context → ℕ → Cache (Rate D) → Result (Rate D) → Result (Rate D) × Cache (Rate D)
  filled now ctx code cache (err e) = (err e, cache)
  filled now ctx code cache (ok rate) = (ok rate, fill now ctx code rate cache)

  -- `invalidateCurrentRateCache`
  unfoldable pub invalidate : Context → ℕ → Cache (Rate D) → Cache (Rate D)
  invalidate ctx code cache = delete (rate_key ctx.tenant_id code) cache

  -- The rest of `getCurrent`, with what the cache gave.
  abbrev pub or_read :
      Instant
      → Store D
      → Context
      → ℕ
      → Option (Rate D) × Cache (Rate D)
      → Result (Rate D) × Cache (Rate D)
  or_read now s ctx code (some rate, cache) = (ok rate, cache)
  or_read now s ctx code (none, cache) = filled now ctx code cache (read_current s ctx code)

  unfoldable pub get_current :
      Instant → Store D → Cache (Rate D) → Context → ℕ → Result (Rate D) × Cache (Rate D)
  get_current now s cache ctx code =
      or_read now s ctx code (get now (rate_key ctx.tenant_id code) cache)

  abbrev pub close_rate : Instant → MetalRate D → MetalRate D
  close_rate now r = record r { effective_to = some now }

  abbrev pub close_previous : Instant → Option (Rate D) → Table (MetalRate D) → Table (MetalRate D)
  close_previous now none rows = rows
  close_previous now (some (id, _)) rows = update id (close_rate now) rows

  abbrev pub old_rate : Option (Rate D) → Option D
  old_rate none = none
  old_rate (some (_, r)) = some r.rate_per_gram

  unfoldable pub history : Store D → Context → ℕ → ℕ → Result (List (MetalRateHistory D))
  history s ctx code limit = do
    metal ← or_throw (find_first (is_metal ctx.tenant_id code) s.metals) metal_not_configured
    ok (take limit (filter (λ h. h.tenant == ctx.tenant_id && h.metal == metal.0) s.rate_history))

  -- `new Map(rates.map(r => [r.metalId, r])).get(id)`: the last row of the metal
  unfoldable pub last_of : ℕ → Table (MetalRate D) → Option (MetalRate D)
  last_of metal [] = none
  last_of metal ((_, r) ∷ rows) = elim (last_of metal rows) [
    | some later ↦ some later
    | none ↦ if r.metal == metal then some r else none
  ]

  abbrev pub is_open_rate : ℕ → MetalRate D → Bool
  is_open_rate tenant r = r.tenant == tenant && is_none r.effective_to

  abbrev pub is_stale : Instant → Option (MetalRate D) → Bool
  is_stale now none = true
  is_stale now (some r) = not (
      leb (get_ist_business_date now).start_utc r.effective_from
      && leb r.effective_from (get_ist_business_date now).end_utc)

  abbrev pub stale_metals_of : Instant → Table (MetalRate D) → Table (Metal D) → List ℕ
  stale_metals_of now rates [] = []
  stale_metals_of now rates ((id, m) ∷ metals) =
      let rest = stale_metals_of now rates metals in
      if is_stale now (last_of id rates) then m.code ∷ rest else rest

  -- The filter `metalId: { in: ... }` keeps what the map is asked for, so it is left out; a tenant
  -- without metals has no stale ones.
  unfoldable pub get_status : Instant → Store D → Context → RateStatusResult
  get_status now s ctx =
      let metals = select (λ m. m.tenant == ctx.tenant_id) s.metals in
      let stale = stale_metals_of now (select (is_open_rate ctx.tenant_id) s.metal_rates) metals in
      record {
        up_to_date = length stale == 0;
        as_of_date = (get_ist_business_date now).date;
        stale_metals = stale;
      }

  -- `include: { purities: { where: { isActive: true } } }`
  abbrev pub with_active : Metal D → Metal D
  with_active m = record m { purities = select (λ p. p.is_active) m.purities }

  abbrev pub or_list :
      Instant
      → Store D
      → Context
      → Option (Table (Metal D)) × Cache (Table (Metal D))
      → Table (Metal D) × Cache (Table (Metal D))
  or_list now s ctx (some metals, cache) = (metals, cache)
  or_list now s ctx (none, cache) =
      let metals =
        map (λ m. (m.0, with_active m.1)) (select (λ m. m.tenant == ctx.tenant_id) s.metals) in
      (metals, set now (metals_key ctx.tenant_id) metals metals_list_ttl_seconds cache)

  -- `MetalsService.list`
  unfoldable pub list_metals :
      Instant
      → Store D
      → Cache (Table (Metal D))
      → Context
      → Table (Metal D) × Cache (Table (Metal D))
  list_metals now s cache ctx = or_list now s ctx (get now (metals_key ctx.tenant_id) cache)

module _ {D : Type 0} ⦃col : Columns D⦄ where
  open col use {money}

  -- The transaction of `setRate`; `id` is the one that the database draws for the rate.
  unfoldable pub write_rate :
      Instant → Store D → Context → SetRate D → ℕ → ℕ → MetalRate D × Store D
  write_rate now s ctx dto metal id =
      let previous = find_first (is_current_rate ctx.tenant_id metal) s.metal_rates in
      let created : MetalRate D = record {
        tenant = ctx.tenant_id;
        metal = metal;
        rate_per_gram = money dto.rate_per_gram;
        effective_from = now;
        effective_to = none;
      } in
      let change : MetalRateHistory D = record {
        tenant = ctx.tenant_id;
        metal = metal;
        old_rate = old_rate previous;
        new_rate = money dto.rate_per_gram;
        changed_by = ctx.user_id;
      } in
      let entry : AuditEntry = record {
        tenant = ctx.tenant_id;
        actor = some ctx.user_id;
        action = rate_change;
        entity_id = id;
      } in
      (
        created,
        record s {
          metal_rates = create id created (close_previous now previous s.metal_rates);
          rate_history = change ∷ s.rate_history;
          audit = entry ∷ s.audit;
        },
      )

  -- `setRate`: the transaction, and then the cache
  unfoldable pub commit_rate :
      Instant → Store D → Context → SetRate D → ℕ → Result (MetalRate D × Store D)
  commit_rate now s ctx dto id = do
    metal ←
        or_throw (find_first (is_metal ctx.tenant_id dto.metal_code) s.metals) metal_not_configured
    ok (write_rate now s ctx dto metal.0 id)

  unfoldable pub set_rate :
      Instant
      → Store D
      → Cache (Rate D)
      → Context
      → SetRate D
      → ℕ
      → Result (MetalRate D × Store D × Cache (Rate D))
  set_rate now s cache ctx dto id = do
    written ← commit_rate now s ctx dto id
    ok (written.0, written.1, invalidate ctx dto.metal_code cache)
