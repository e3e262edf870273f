-- ===== src/Cache.antt =====
-- src/common/cache/cache.service.ts. A key such as `rates:current:tenant:metal` is the list of its
-- parts between the colons; ids and codes have no colon. A prefix ends at a colon. The entries of two
-- services have different keys, so what a service keeps is a map of its own.
pub mod Views
use girvi_ghata_backend.Base.{
  ℕ, ◌+◌, ◌*◌, Bool, true, false, ◌&&◌, Option, none, some, List, [], ◌∷◌, ◌==◌, ltb, if◌then◌else◌,
}
use girvi_ghata_backend.Calendar.{Instant}

abbrev pub Key : Type 0
Key = List ℕ

-- `startsWith`
abbrev pub starts_with : Key → Key → Bool
starts_with key [] = true
starts_with [] (p ∷ ps) = false
starts_with (k ∷ ks) (p ∷ ps) = k == p && starts_with ks ps

abbrev pub same_key : Key → Key → Bool
same_key [] [] = true
same_key [] (p ∷ ps) = false
same_key (k ∷ ks) [] = false
same_key (k ∷ ks) (p ∷ ps) = k == p && same_key ks ps

pub record CacheEntry {ℓ} (V : Type ℓ) : Type ℓ where
  pub value : V
  pub expires_at : Instant

abbrev pub Cache {ℓ} : Type ℓ → Type ℓ
Cache V = List (Key × CacheEntry V)

module _ {ℓ} {V : Type ℓ} where
  -- `Map.get`, `Map.delete` and `Map.set`
  unfoldable pub lookup : Key → Cache V → Option (CacheEntry V)
  lookup key [] = none
  lookup key ((k, e) ∷ c) = if same_key key k then some e else lookup key c

  unfoldable pub delete : Key → Cache V → Cache V
  delete key [] = []
  delete key ((k, e) ∷ c) =
      let rest = delete key c in if same_key key k then rest else (k, e) ∷ rest

  unfoldable pub put_entry : Key → CacheEntry V → Cache V → Cache V
  put_entry key entry [] = (key, entry) ∷ []
  put_entry key entry ((k, e) ∷ c) =
      let rest = put_entry key entry c in if same_key key k then (k, entry) ∷ c else (k, e) ∷ rest

  -- The rest of `get`, with what the map has for the key.
  abbrev pub get_found : Instant → Key → Cache V → Option (CacheEntry V) → Option V × Cache V
  get_found now key c none = (none, c)
  get_found now key c (some entry) =
      if ltb entry.expires_at now then (none, delete key c) else (some entry.value, c)

  unfoldable pub get : Instant → Key → Cache V → Option V × Cache V
  get now key c = get_found now key c (lookup key c)

  unfoldable pub set : Instant → Key → V → ℕ → Cache V → Cache V
  set now key value ttl_seconds c =
      put_entry key (record { value = value; expires_at = now + ttl_seconds * 1000 }) c

  unfoldable pub delete_by_prefix : Key → Cache V → Cache V
  delete_by_prefix prefix [] = []
  delete_by_prefix prefix ((k, e) ∷ c) =
      let rest = delete_by_prefix prefix c in if starts_with k prefix then rest else (k, e) ∷ rest
