-- ===== src/Customers/Kyc.antt =====
-- What the profile of a new customer shows of the documents, and to whom.
use mathlib.Core.Path.{subst}
use girvi_ghata_backend.Base.{
  ℕ, zero, suc, ◌-◌, ◌≤◌, ◌<◌, ◌≡◌, ◌⊎◌, inl, inr, Option, take, All, Bool-cases, ltb, ◌∙◌, refl,
  sym, ap, true, false, none, some, List, [], ◌∷◌, ◌++◌, length, skip, ◌==◌, includes, arith,
  ==_refl, length-append,
}
use girvi_ghata_backend.Calendar.{Instant, Calendar}
use girvi_ghata_backend.Result.{ok, err, Returns, >>=-eq-ok, ok-injective, missing_permission}
use girvi_ghata_backend.Table.{find, find-create_self}
use girvi_ghata_backend.Store.{Store, Columns, Context, Customer, customer_number, kyc_unmask_view}
use girvi_ghata_backend.Numbering.{next}
use girvi_ghata_backend.Crypto.{
  Text, Cipher, IsCipher, encrypt, decrypt-encrypt, mask_aadhaar, x_marks,
}
use girvi_ghata_backend.Customers.{
  CreateCustomer, SafeCustomer, Profile, last4, truthy, mask_pan, map_option, kyc_row, full_aadhaar,
  unmasked_kyc, to_safe_customer, kyc_view_full, create_customer, get_owned_or_throw, may_view,
  find_one,
}

-- How a PAN is shown: of at least four characters, all but the last four are X; a shorter one is
-- ten X.
abbrev pub IsMaskedPan : Text → Text → Type 0
IsMaskedPan pan shown =
    ((length pan < 4) × (shown ≡ 88 ∷ 88 ∷ 88 ∷ 88 ∷ 88 ∷ 88 ∷ 88 ∷ 88 ∷ 88 ∷ 88 ∷ []))
    ⊎ ((4 ≤ length pan)
        × (length shown ≡ length pan)
        × (skip (length pan - 4) shown ≡ skip (length pan - 4) pan)
        × All (λ c. c ≡ 88) (take (length pan - 4) shown))

abbrev pub PanShown : Option Text → Option Text → Type 0
PanShown none shown = shown ≡ none
PanShown (some []) shown = shown ≡ none
PanShown (some (c ∷ cs)) shown = (x : Text) × (shown ≡ some x) × IsMaskedPan (c ∷ cs) x

length-x_marks : (n : ℕ) → length (x_marks n) ≡ n
length-x_marks zero = refl
length-x_marks (suc n) = omega (arith, length-x_marks n)

All-x_marks : (n : ℕ) → All (λ c. c ≡ 88) (x_marks n)
All-x_marks zero = tt
All-x_marks (suc n) = (refl, All-x_marks n)

take-x_marks : (n : ℕ) (xs : Text) → take n (x_marks n ++ xs) ≡ x_marks n
take-x_marks zero xs = refl
take-x_marks (suc n) xs = rw (take-x_marks n xs)

skip-x_marks : (n : ℕ) (xs : Text) → skip n (x_marks n ++ xs) ≡ xs
skip-x_marks zero xs = refl
skip-x_marks (suc n) xs = skip-x_marks n xs

-- `XXXX-XXXX-` and the rest
abbrev pub x_x : Text → Text
x_x rest = 88 ∷ 88 ∷ 88 ∷ 88 ∷ 45 ∷ 88 ∷ 88 ∷ 88 ∷ 88 ∷ 45 ∷ rest

mask_aadhaar_lem : (a : Text) → length a ≡ 12 → mask_aadhaar (last4 a) ≡ x_x (skip 8 a)
unfolding mask_aadhaar
mask_aadhaar_lem a full = rw full

length-skip : {A : Type 0} (n : ℕ) (xs : List A) → length (skip n xs) ≡ length xs - n
length-skip zero xs = omega arith
length-skip (suc n) [] = omega arith
length-skip (suc n) (x ∷ xs) = omega (arith, length-skip n xs)

mask_pan-IsMaskedPan : (pan : Text) → IsMaskedPan pan (mask_pan pan)
unfolding mask_pan
mask_pan-IsMaskedPan pan = elim (Bool-cases (ltb (length pan) 4)) [
  | inl e ↦ inl (ground (arith, e), rw e)
  | inr e ↦
      let n = length pan - 4 in
      let long : 4 ≤ length pan = ground (arith, e) in
      inr (
        long,
        rw e (
            omega (
              arith,
              length-append (x_marks n) (last4 pan),
              length-x_marks n,
              length-skip n pan,
              long,
            )),
        rw e (skip-x_marks n (last4 pan)),
        rw (e, take-x_marks n (last4 pan)) (All-x_marks n),
      )
]

masked-PanShown : (given : Option Text) → PanShown given (map_option mask_pan (truthy given))
masked-PanShown none = refl
masked-PanShown (some []) = refl
masked-PanShown (some (c ∷ cs)) = (mask_pan (c ∷ cs), refl, mask_pan-IsMaskedPan (c ∷ cs))

truthy_lem : (t : Text) → 1 ≤ length t → truthy (some t) ≡ some t
truthy_lem [] h = ground (arith, h)
truthy_lem (c ∷ cs) h = refl

module _ (lib : Cipher) (laws : IsCipher lib) (key iv : Text) (twelve : length iv ≡ 12) where
  not_empty : (e plain : Text) → encrypt lib key iv plain ≡ e → 1 ≤ length e
  unfolding encrypt
  not_empty [] plain h =
      let sealed = lib.seal key iv plain in
      let bytes : Text = iv ++ (sealed.1 ++ sealed.0) in
      let none_left : bytes ≡ [] =
        sym (laws.from_base64-to_base64 bytes) ∙ (ap lib.from_base64 h ∙ laws.from_base64-empty) in
      let size = length-append iv (sealed.1 ++ sealed.0) in
      let zero_size = ap (λ (b : Text). length b) none_left in
      ground (arith, size, zero_size, twelve)
  not_empty (c ∷ cs) plain h = omega arith

  module _ {D : Type 0} (cal : Calendar) (now : Instant) (s : Store D) (ctx : Context)
      (dto : CreateCustomer) (id : ℕ) where
    -- The rows of a customer that was created with an Aadhaar number.
    pub record IsStored (s' : Store D) : Type 0 where
      customer : Customer
      mine : (customer.tenant == ctx.tenant_id) ≡ true
      standing : customer.deleted_at ≡ none
      row : find id s'.customers ≡ some customer
      documents : find id s'.kyc ≡ some (kyc_row lib key iv dto)

    create_customer-IsStored :
        {safe : SafeCustomer} {s' : Store D} (a : Text)
        → truthy dto.aadhaar_number ≡ some a
        → create_customer lib key cal now s ctx dto id iv ≡ ok (safe, s')
        → IsStored s'
    unfolding create_customer to_safe_customer
    create_customer-IsStored a given h0 =
        let ((code, sequences), _, h) =
          >>=-eq-ok (next cal now s.sequences ctx.tenant_id customer_number) _ h0 in
        subst (λ (q : SafeCustomer × Store D). IsStored q.1) (ok-injective h)
          (record {
            customer = record {
              tenant = ctx.tenant_id;
              branch = dto.branch_id;
              customer_code = code;
              full_name = dto.full_name;
              mobile = dto.mobile;
              deleted_at = none;
            };
            mine = ==_refl ctx.tenant_id;
            standing = refl;
            row = find-create_self id _ s.customers;
            documents = rw given (find-create_self id _ s.kyc);
          })

    full_aadhaar_lem :
        (a : Text) → full_aadhaar lib key (truthy (some (encrypt lib key iv a))) ≡ ok (some a)
    unfolding full_aadhaar
    full_aadhaar_lem a = rw (
      truthy_lem (encrypt lib key iv a) (not_empty _ a refl),
      decrypt-encrypt laws key iv a twelve,
    )

    last4_lem : (a : Text) → length a ≡ 12 → truthy (some (last4 a)) ≡ some (last4 a)
    last4_lem a full = truthy_lem (last4 a) (ground (arith, full, length-skip (length a - 4) a))

  module _ {D : Type 0} ⦃col : Columns D⦄ (cal : Calendar) (now : Instant) (s : Store D)
      (ctx : Context) (dto : CreateCustomer) (id : ℕ) where
    -- What a reader of the same tenant gets of the new customer's documents.
    pub record IsShown (a : Text) (s' : Store D) (reader : Context) : Type 0 where
      pub masked : Returns (find_one lib key s' reader id false).0 λ (p : Profile D).
          (pan : Option Text) × PanShown dto.pan_number pan
          × (p.customer.kyc
              ≡ some (record {
                aadhaar_masked = some (x_x (skip 8 a));
                aadhaar_full = none;
                pan_number = pan;
              }))
      pub unmasked :
          includes reader.permissions kyc_view_full ≡ true
          → Returns (find_one lib key s' reader id true).0 λ (p : Profile D).
            p.customer.kyc
            ≡ some (record {
              aadhaar_masked = some (x_x (skip 8 a));
              aadhaar_full = some a;
              pan_number = dto.pan_number;
            })
      pub recorded :
          includes reader.permissions kyc_view_full ≡ true
          → (find_one lib key s' reader id true).1.audit
            ≡ record {
              tenant = reader.tenant_id;
              actor = some reader.user_id;
              action = kyc_unmask_view;
              entity_id = id;
            }
              ∷ s'.audit
      pub refused :
          includes reader.permissions kyc_view_full ≡ false
          → find_one lib key s' reader id true ≡ (err missing_permission, s')

    -- Of a customer that was just created with an Aadhaar number of 12 characters, a reader of the
    -- same tenant sees the last four behind XXXX-XXXX-, and of a PAN of at least four characters
    -- the last four behind as many X as it has characters before them, of a shorter one ten X; the
    -- numbers in full only when it asks for them and has the permission kyc:view_full, which writes
    -- an audit row; without the permission it is refused and nothing is written.
    pub create_customer-IsShown :
        (a : Text)
        → truthy dto.aadhaar_number ≡ some a
        → length a ≡ 12
        → {safe : SafeCustomer} {s' : Store D}
        → create_customer lib key cal now s ctx dto id iv ≡ ok (safe, s')
        → (reader : Context) → reader.tenant_id ≡ ctx.tenant_id
        → IsShown a s' reader
    unfolding find_one may_view get_owned_or_throw to_safe_customer unmasked_kyc
    create_customer-IsShown a given full h reader same =
        let r = create_customer-IsStored cal now s ctx dto id a given h in
        let four = last4_lem cal now s ctx dto id a full in
        let opened = full_aadhaar_lem cal now s ctx dto id a in
        record {
          masked =
              rw
                (r.row, same, r.mine, r.standing, r.documents, given, four, mask_aadhaar_lem a full)
                (map_option mask_pan (truthy dto.pan_number), masked-PanShown dto.pan_number, refl);
          unmasked = λ allowed.
              rw
                (
                  r.row,
                  same,
                  r.mine,
                  r.standing,
                  allowed,
                  r.documents,
                  given,
                  four,
                  opened,
                  mask_aadhaar_lem a full,
                )
                refl;
          recorded = λ allowed. rw (r.row, same, r.mine, r.standing, allowed);
          refused = λ denied. rw (r.row, same, r.mine, r.standing, denied);
        }
