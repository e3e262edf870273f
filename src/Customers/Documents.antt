-- ===== src/Customers/Documents.antt =====
-- The documents of a customer in src/modules/customers/customers.service.ts: what is stored, what
-- `toSafeCustomer` shows, and the masks.
use girvi_ghata_backend.Base.{
  ℕ, ◌-◌, Bool, true, false, Option, none, some, ◌∷◌, ◌++◌, length, ltb, skip, if◌then◌else◌,
}
use girvi_ghata_backend.Result.{Result, ok, or_throw, ◌>>=◌, decryption_failed}
use girvi_ghata_backend.Store.{Customer, CustomerKyc, DocumentNumber}
use girvi_ghata_backend.Crypto.{Text, Cipher, encrypt, decrypt, mask_aadhaar, x_marks}

pub record CreateCustomer : Type 0 where
  pub branch_id : Option ℕ
  pub full_name : ℕ
  pub mobile : Option ℕ
  pub aadhaar_number : Option Text
  pub pan_number : Option Text

-- What `toSafeCustomer` shows of the documents.
pub record SafeKyc : Type 0 where
  pub aadhaar_masked : Option Text
  pub aadhaar_full : Option Text
  pub pan_number : Option Text

pub record SafeCustomer : Type 0 where
  pub tenant : ℕ
  pub branch : Option ℕ
  pub customer_code : DocumentNumber
  pub full_name : ℕ
  pub mobile : Option ℕ
  pub kyc : Option SafeKyc

-- `slice(-4)`
abbrev pub last4 : Text → Text
last4 text = skip (length text - 4) text

-- A text that is there and not empty, as a condition reads it.
abbrev pub truthy : Option Text → Option Text
truthy (some (c ∷ cs)) = some (c ∷ cs)
truthy _ = none

unfoldable pub mask_pan : Text → Text
mask_pan pan = if ltb (length pan) 4 then x_marks 10 else x_marks (length pan - 4) ++ last4 pan

abbrev pub map_option : {A B : Type 0} → (A → B) → Option A → Option B
map_option f none = none
map_option f (some a) = some (f a)

abbrev pub with_kyc : Customer → Option SafeKyc → SafeCustomer
with_kyc c kyc = record {
  tenant = c.tenant;
  branch = c.branch;
  customer_code = c.customer_code;
  full_name = c.full_name;
  mobile = c.mobile;
  kyc = kyc;
}

abbrev pub masked_kyc : CustomerKyc → SafeKyc
masked_kyc k = record {
  aadhaar_masked = map_option mask_aadhaar (truthy k.aadhaar_last4);
  aadhaar_full = none;
  pan_number = map_option mask_pan (truthy k.pan_number);
}

-- The row as `create` writes it, if one of the two documents is given; `iv` is what the encryption
-- draws.
abbrev pub kyc_row : Cipher → Text → Text → CreateCustomer → CustomerKyc
kyc_row lib key iv dto = record {
  aadhaar_encrypted = map_option (λ a. encrypt lib key iv a) (truthy dto.aadhaar_number);
  aadhaar_last4 = map_option last4 (truthy dto.aadhaar_number);
  pan_number = dto.pan_number;
}

module _ (lib : Cipher) (key : Text) where
  -- `aadhaarFull`, when it is asked for
  unfoldable pub full_aadhaar : Option Text → Result (Option Text)
  full_aadhaar none = ok none
  full_aadhaar (some payload) = do
    plain ← or_throw (decrypt lib key payload) decryption_failed
    ok (some plain)

  unfoldable pub unmasked_kyc : CustomerKyc → Result SafeKyc
  unmasked_kyc k = do
    full ← full_aadhaar (truthy k.aadhaar_encrypted)
    ok (record {
      aadhaar_masked = map_option mask_aadhaar (truthy k.aadhaar_last4);
      aadhaar_full = full;
      pan_number = k.pan_number;
    })

  -- `toSafeCustomer(customer, kyc, unmask)`
  unfoldable pub to_safe_customer : Customer → Option CustomerKyc → Bool → Result SafeCustomer
  to_safe_customer c none unmask = ok (with_kyc c none)
  to_safe_customer c (some k) false = ok (with_kyc c (some (masked_kyc k)))
  to_safe_customer c (some k) true = do kyc ← unmasked_kyc k; ok (with_kyc c (some kyc))
