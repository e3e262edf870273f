-- ===== src/Result.antt =====
-- Errors as values: one constructor of `Error` for each exception that the modelled services throw.
use girvi_ghata_backend.Base.{Bool, true, false, Option, none, some, ◌≡◌, ◌⊎◌, inl, inr, refl, ap}

pub data Error : Type 0 where
  stone_exceeds_gross no_rate_snapshot as_of_before_pledge : Error
  transaction_not_found no_active_rules now_before_pledge : Error
  payment_not_positive negative_discount status_not_payable : Error
  invalid_date date_in_future date_before_pledge : Error
  discount_exceeds_interest payment_exceeds_outstanding : Error
  payment_not_found already_reversed : Error
  already_settled outstanding_not_zero : Error
  no_sequence unique_violation : Error
  not_overdue case_exists case_not_found wrong_case_status no_settlement : Error
  customer_not_found metal_not_configured no_current_rate purity_not_configured : Error
  percent_out_of_range loan_exceeds_maximum loan_not_positive : Error
  status_not_toppable top_up_not_positive : Error
  location_not_found packet_not_found : Error
  no_context missing_permission : Error
  invalid_credentials invalid_token wrong_token_type token_no_longer_valid : Error
  plan_limit_reached unknown_permission invalid_roles invalid_branches user_not_found : Error
  discrepancy_reason_required record_not_found decryption_failed : Error

-- What a call gives its caller: an exception, or the value that it returns.
pub data Result {ℓ} (V : Type ℓ) : Type ℓ where
  err : Error → Result V
  ok : V → Result V

-- `if (c) throw e`
abbrev pub throw_if : Bool → Error → Result (Unit {0})
throw_if true e = err e
throw_if false e = ok tt

infixl 5 ◌>>=◌ ◌>>◌
-- `await`, and then the rest of the function
abbrev pub ◌>>=◌ {ℓ κ} : {V : Type ℓ} {W : Type κ} → Result V → (V → Result W) → Result W
err e >>= rest = err e
ok v >>= rest = rest v

-- `if (!o) throw e`, and otherwise the value
abbrev pub or_throw {ℓ} : {A : Type ℓ} → Option A → Error → Result A
or_throw none e = err e
or_throw (some a) e = ok a

-- a statement whose value is not used
abbrev pub ◌>>◌ {ℓ} : {W : Type ℓ} → Result (Unit {0}) → Result W → Result W
call >> rest = call >>= λ _. rest

-- What holds of the value of a call that returns.
abbrev pub Returns {ℓ} : {A : Type ℓ} → Result A → (A → Type 0) → Type 0
Returns (ok a) P = P a
Returns (err _) P = ⊥

-- The call returns.
abbrev pub IsOk {ℓ} : {A : Type ℓ} → Result A → Type 0
IsOk r = Returns r λ _. Unit

unfoldable pub value_of {ℓ} : {A : Type ℓ} (r : Result A) → IsOk r → (a : A) × (r ≡ ok a)
value_of (ok a) h = (a, refl)
value_of (err e) h = elim h [ ]

pub IsOk-eq {ℓ} : {A : Type ℓ} {r : Result A} {a : A} → r ≡ ok a → IsOk r
IsOk-eq h = rw h tt

pub Result-cases {ℓ} :
    {V : Type ℓ} (r : Result V) → ((v : V) × (r ≡ ok v)) ⊎ ((e : Error) × (r ≡ err e))
Result-cases (ok v) = inl (v, refl)
Result-cases (err e) = inr (e, refl)

pub >>=-eq-ok {ℓ κ} :
    {V : Type ℓ} {W : Type κ} (call : Result V) (rest : V → Result W) {w : W}
    → (call >>= rest) ≡ ok w
    → (v : V) × (call ≡ ok v) × (rest v ≡ ok w)
>>=-eq-ok (err e) rest h = cc
>>=-eq-ok (ok v) rest h = (v, refl, h)

-- Inversion of a guard, and of a value that is looked up, before the rest of a call.
pub throw_if-passed {ℓ} :
    {B : Type ℓ} (c : Bool) (e : Error) (m : Result B) {b : B}
    → (throw_if c e >> m) ≡ ok b
    → (c ≡ false) × (m ≡ ok b)
throw_if-passed true e m h = cc
throw_if-passed false e m h = (refl, h)

pub or_throw-found {ℓ κ} :
    {A : Type ℓ} {B : Type κ} (o : Option A) (e : Error) (f : A → Result B) {b : B}
    → (or_throw o e >>= f) ≡ ok b
    → (a : A) × (o ≡ some a) × (f a ≡ ok b)
or_throw-found none e f h = cc
or_throw-found (some a) e f h = (a, refl, h)

value_or {ℓ} : {A : Type ℓ} → A → Result A → A
value_or d (ok a) = a
value_or d (err e) = d

pub ok-injective {ℓ} : {A : Type ℓ} {a b : A} → ok a ≡ ok b → a ≡ b
unfolding value_or
ok-injective {a} h = ap (value_or a) h
