-- ===== src/Fixed.antt =====
-- A concrete arithmetic that meets `IsExact`: signed amounts with four decimal places, products and
-- quotients cut off after the fourth. The examples run on it.
use native.Mathlib.Nat.{mul-le-mul, zero-div}
use girvi_ghata_backend.Base.{ℕ, suc, ◌+◌, ◌*◌, ◌/◌, ◌≤◌, ◌≡◌, refl, arith}
use girvi_ghata_backend.Base.Int.{
  ℤ, pos, negsuc, pos_part, neg_part, sub_ℕ, ◌+ℤ◌, ◌-ℤ◌, ◌*ℤ◌, ◌≤ℤ◌, ltb_ℤ,
}
use girvi_ghata_backend.Decimal.{Decimal, IsExact}

abbrev pub Fixed : Type 0
Fixed = ℤ

-- a function of the magnitude, with the sign kept
abbrev pub signed : (ℕ → ℕ) → ℤ → ℤ
signed f a = sub_ℕ (f (pos_part a)) (f (neg_part a))

instance abbrev pub fixed_decimal : Decimal Fixed
unfolding ◌+ℤ◌ ◌-ℤ◌ ◌*ℤ◌
fixed_decimal = record {
  of_ℕ = λ n. pos (n * 10_000);
  plus = λ a b. a +ℤ b;
  minus = λ a b. a -ℤ b;
  times = λ a b. signed (λ n. n / 10_000) (a *ℤ b);
  divided_by = λ a b. signed (λ n. n * 10_000 / pos_part b) a;
  round_half_up = λ a. signed (λ n. (n + 5000) / 10_000 * 10_000) a;
  less_than = ltb_ℤ;
  is_negative = λ a. ltb_ℤ a (pos 0);
}

pub div_mono : (a b n : ℕ) → a ≤ b → a / n ≤ b / n
div_mono a b n h = grind arith

pub signed_mono :
    (f : ℕ → ℕ)
    → ((m n : ℕ) → m ≤ n → f m ≤ f n)
    → f 0 ≡ 0
    → (a b : ℤ) → a ≤ℤ b
    → signed f a ≤ℤ signed f b
signed_mono f mono z (pos a) (pos b) h = ground (arith, mono a b)
signed_mono f mono z (pos a) (negsuc b) h = ground arith
signed_mono f mono z (negsuc a) (pos b) h = ground arith
signed_mono f mono z (negsuc a) (negsuc b) h = ground (arith, mono (suc b) (suc a))

pub signed_zero : (f : ℕ → ℕ) → f 0 ≡ 0 → (a : ℤ) → a ≡ pos 0 → signed f a ≡ pos 0
signed_zero f z a h = rw (h, z)

pub times_mono : (a b c e : ℤ) → pos 0 ≤ℤ a → pos 0 ≤ℤ c → a ≤ℤ b → c ≤ℤ e → a *ℤ c ≤ℤ b *ℤ e
unfolding ◌*ℤ◌
times_mono (pos a) (pos b) (pos c) (pos e) p q h k = ground (arith, mul-le-mul h k)
times_mono a b c e p q h k = ground arith

pub zero_times : (a b : ℤ) → a ≡ pos 0 → a *ℤ b ≡ pos 0
unfolding ◌*ℤ◌
zero_times a b h = ground arith

unfoldable pub Fixed-IsExact : IsExact Fixed
unfolding ◌+ℤ◌ ◌-ℤ◌ ◌*ℤ◌
Fixed-IsExact = record {
  value = λ a. a;
  zero_value = refl;
  plus_value = λ a b. refl;
  minus_value = λ a b. refl;
  less_than_value = λ a b. refl;
  is_negative_value = λ a. refl;
  zero_times = λ a b h. signed_zero (λ n. n / 10_000) refl (a *ℤ b) (zero_times a b h);
  zero_divided = λ a n. signed_zero (λ m. m * 10_000 / (n * 10_000)) (zero-div (n * 10_000)) a;
  zero_round = signed_zero (λ n. (n + 5000) / 10_000 * 10_000) refl;
  of_ℕ_nonneg = λ n. omega arith;
  times_mono = λ a b c e p q h k.
      signed_mono (λ n. n / 10_000) (λ m n. div_mono m n 10_000) refl (a *ℤ c) (b *ℤ e)
        (times_mono a b c e p q h k);
  divided_mono = λ a b n.
      signed_mono (λ m. m * 10_000 / (n * 10_000))
        (λ m k h. div_mono (m * 10_000) (k * 10_000) (n * 10_000) (omega arith))
        (zero-div (n * 10_000)) a b;
  round_mono = signed_mono (λ n. (n + 5000) / 10_000 * 10_000) (λ m n h. omega arith) refl;
}
