-- ===== src/Cache/Views.antt =====
-- The cache as a map of values that end: what a reader sees at a time.
use girvi_ghata_backend.Base.{
  ℕ, ◌+◌, ◌*◌, ◌≤◌, ◌≡◌, inl, inr, refl, ◌∙◌, true, Option, none, some, [], ◌∷◌, ltb, if◌then◌else◌,
  Bool-cases, Option-cases, ==_refl, arith,
}
use girvi_ghata_backend.Calendar.{Instant}
use girvi_ghata_backend.Cache.{
  Key, CacheEntry, Cache, starts_with, same_key, lookup, delete, put_entry, get, set,
  delete_by_prefix,
}

pub same_key_refl : (k : Key) → same_key k k ≡ true
same_key_refl [] = refl
same_key_refl (k ∷ ks) = rw (==_refl k, same_key_refl ks)

eq_of_same_key : (k j : Key) → same_key k j ≡ true → k ≡ j
eq_of_same_key [] [] h = refl
eq_of_same_key [] (j ∷ js) h = cc h
eq_of_same_key (k ∷ ks) [] h = cc h
eq_of_same_key (k ∷ ks) (j ∷ js) h =
    let first : k ≡ j = ground arith in
    let rest = eq_of_same_key ks js (ground arith) in cc (first, rest)

same_key_sym : (k j : Key) → same_key k j ≡ same_key j k
same_key_sym [] [] = refl
same_key_sym [] (j ∷ js) = refl
same_key_sym (k ∷ ks) [] = refl
same_key_sym (k ∷ ks) (j ∷ js) = ground (arith, same_key_sym ks js)

module _ {ℓ} {V : Type ℓ} where
  -- The value of an entry that has not ended.
  abbrev pub live : Instant → Option (CacheEntry V) → Option V
  live now none = none
  live now (some e) = if ltb e.expires_at now then none else some e.value

  -- What a reader sees under a key.
  abbrev pub view : Instant → Cache V → Key → Option V
  view now c key = live now (lookup key c)

  lookup-delete :
      (key k : Key) (c : Cache V)
      → lookup k (delete key c) ≡ (if same_key key k then none else lookup k c)
  unfolding lookup delete
  lookup-delete key k [] = ground arith
  lookup-delete key k ((j, e) ∷ c) = elim (Bool-cases (same_key k j)) [
    | inl a ↦ elim (Bool-cases (same_key key j)) [
      | inl b ↦ rw (eq_of_same_key k j a, b) (lookup-delete key j c ∙ rw b)
      | inr b ↦ rw (eq_of_same_key k j a, b, same_key_refl j)
    ]
    | inr a ↦ elim (Bool-cases (same_key key j)) [
      | inl b ↦ rw (b, a) (lookup-delete key k c)
      | inr b ↦ rw (b, a) (lookup-delete key k c)
    ]
  ]

  lookup-put_entry :
      (key k : Key) (entry : CacheEntry V) (c : Cache V)
      → lookup k (put_entry key entry c) ≡ (if same_key key k then some entry else lookup k c)
  unfolding lookup put_entry
  lookup-put_entry key k entry [] = rw (same_key_sym k key)
  lookup-put_entry key k entry ((j, e) ∷ c) = elim (Bool-cases (same_key k j)) [
    | inl a ↦ elim (Bool-cases (same_key key j)) [
      | inl b ↦ rw (eq_of_same_key k j a, b, same_key_refl j)
      | inr b ↦ rw (eq_of_same_key k j a, b, same_key_refl j)
    ]
    | inr a ↦ elim (Bool-cases (same_key key j)) [
      | inl b ↦ rw (eq_of_same_key key j b, same_key_refl j, same_key_sym j k, a)
      | inr b ↦ rw (b, a) (lookup-put_entry key k entry c)
    ]
  ]

  lookup-delete_by_prefix :
      (prefix k : Key) (c : Cache V)
      → lookup k (delete_by_prefix prefix c) ≡ (if starts_with k prefix then none else lookup k c)
  unfolding lookup delete_by_prefix
  lookup-delete_by_prefix prefix k [] = ground arith
  lookup-delete_by_prefix prefix k ((j, e) ∷ c) = elim (Bool-cases (same_key k j)) [
    | inl a ↦ elim (Bool-cases (starts_with j prefix)) [
      | inl b ↦ rw (eq_of_same_key k j a, b) (lookup-delete_by_prefix prefix j c ∙ rw b)
      | inr b ↦ rw (eq_of_same_key k j a, b, same_key_refl j)
    ]
    | inr a ↦ elim (Bool-cases (starts_with j prefix)) [
      | inl b ↦ rw (b, a) (lookup-delete_by_prefix prefix k c)
      | inr b ↦ rw (b, a) (lookup-delete_by_prefix prefix k c)
    ]
  ]

  -- The operations, by what every reader sees at every later time: `get` answers what is seen and
  -- changes nothing of it, `set` shows the value under its key until its seconds have passed, and
  -- the two deletions hide a key, and all keys with a prefix.
  pub record IsViewed (now : Instant) (c : Cache V) : Type ℓ where
    pub answered : (key : Key) → (get now key c).0 ≡ view now c key
    pub unchanged :
        (key k : Key) (later : Instant)
        → now ≤ later
        → view later (get now key c).1 k ≡ view later c k
    pub shown :
        (key k : Key) (value : V) (seconds : ℕ) (later : Instant)
        → view later (set now key value seconds c) k ≡ (
            if same_key key k
            then if ltb (now + seconds * 1000) later then none else some value
            else view later c k)
    pub hidden :
        (key k : Key) (later : Instant)
        → view later (delete key c) k ≡ (if same_key key k then none else view later c k)
    pub prefix_hidden :
        (prefix k : Key) (later : Instant)
        → view later (delete_by_prefix prefix c) k
          ≡ (if starts_with k prefix then none else view later c k)

  get-view : (now : Instant) (c : Cache V) (key : Key) → (get now key c).0 ≡ view now c key
  unfolding get
  get-view now c key = elim (Option-cases (lookup key c)) [
    | inl e ↦ rw e
    | inr (entry, e) ↦ elim (Bool-cases (ltb entry.expires_at now)) [
      | inl t ↦ rw (e, t)
      | inr t ↦ rw (e, t)
    ]
  ]

  -- What a read drops had ended.
  get-unchanged :
      (now : Instant) (c : Cache V) (key k : Key) (later : Instant)
      → now ≤ later
      → view later (get now key c).1 k ≡ view later c k
  unfolding get
  get-unchanged now c key k later h = elim (Option-cases (lookup key c)) [
    | inl e ↦ rw e
    | inr (entry, e) ↦ elim (Bool-cases (ltb entry.expires_at now)) [
      | inl t ↦ elim (Bool-cases (same_key key k)) [
        | inl a ↦
            let ended : ltb entry.expires_at later ≡ true = ground arith in
            let there : lookup k c ≡ some entry = rw (eq_of_same_key key k a) at e in
            rw (e, t, lookup-delete key k c, a, there, ended)
        | inr a ↦ rw (e, t, lookup-delete key k c, a)
      ]
      | inr t ↦ rw (e, t)
    ]
  ]

  -- The operations of the cache, by what every reader sees at every later time: get answers what is
  -- seen and changes nothing of it, set shows the value under its key until its seconds have
  -- passed, and the two deletions hide a key, and all keys with a prefix.
  pub cache-IsViewed : (now : Instant) (c : Cache V) → IsViewed now c
  unfolding set
  cache-IsViewed now c = record {
    answered = λ key. get-view now c key;
    unchanged = λ key k later h. get-unchanged now c key k later h;
    shown = λ key k value seconds later. elim (Bool-cases (same_key key k)) [
      | inl a ↦ rw (lookup-put_entry key k _ c, a)
      | inr a ↦ rw (lookup-put_entry key k _ c, a)
    ];
    hidden = λ key k later. elim (Bool-cases (same_key key k)) [
      | inl a ↦ rw (lookup-delete key k c, a)
      | inr a ↦ rw (lookup-delete key k c, a)
    ];
    prefix_hidden = λ prefix k later. elim (Bool-cases (starts_with k prefix)) [
      | inl a ↦ rw (lookup-delete_by_prefix prefix k c, a)
      | inr a ↦ rw (lookup-delete_by_prefix prefix k c, a)
    ];
  }
