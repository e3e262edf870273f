-- ===== src/Base/Int.antt =====
-- Signed integers over the native numbers; their laws go through the two parts of an integer.
use Prim.Native.Nat.{ℕ, suc, ◌+◌, ◌-◌, ◌*◌, ◌≤◌, ◌<◌}
use mathlib.Core.Path.{◌≡◌}
use mathlib.Core.Bool.{Bool}
use native.Mathlib.Omega.{arith}
use girvi_ghata_backend.Base.Tests.{ltb, leb, if◌then◌else◌}

-- `negsuc n` is -(n + 1)
pub data ℤ : Type 0 where
  pos : ℕ → ℤ
  negsuc : ℕ → ℤ

abbrev pub pos_part : ℤ → ℕ
pos_part (pos n) = n
pos_part (negsuc _) = 0

abbrev pub neg_part : ℤ → ℕ
neg_part (pos _) = 0
neg_part (negsuc n) = suc n

-- a - b, as an integer
abbrev pub sub_ℕ : ℕ → ℕ → ℤ
sub_ℕ a b = if leb b a then pos (a - b) else negsuc (b - a - 1)

infixl 65 ◌+ℤ◌ ◌-ℤ◌
infixl 70 ◌*ℤ◌
infix 50 ◌≤ℤ◌ ◌<ℤ◌
unfoldable pub ◌+ℤ◌ : ℤ → ℤ → ℤ
a +ℤ b = sub_ℕ (pos_part a + pos_part b) (neg_part a + neg_part b)

unfoldable pub ◌-ℤ◌ : ℤ → ℤ → ℤ
a -ℤ b = sub_ℕ (pos_part a + neg_part b) (neg_part a + pos_part b)

unfoldable pub ◌*ℤ◌ : ℤ → ℤ → ℤ
a *ℤ b =
    sub_ℕ (pos_part a * pos_part b + neg_part a * neg_part b)
      (pos_part a * neg_part b + neg_part a * pos_part b)

abbrev pub ◌≤ℤ◌ : ℤ → ℤ → Type 0
a ≤ℤ b = pos_part a + neg_part b ≤ pos_part b + neg_part a

abbrev pub ◌<ℤ◌ : ℤ → ℤ → Type 0
a <ℤ b = pos_part a + neg_part b < pos_part b + neg_part a

abbrev pub ltb_ℤ : ℤ → ℤ → Bool
ltb_ℤ a b = ltb (pos_part a + neg_part b) (pos_part b + neg_part a)

pub +ℤ_parts :
    (a b : ℤ)
    → pos_part (a +ℤ b) + neg_part a + neg_part b ≡ neg_part (a +ℤ b) + pos_part a + pos_part b
unfolding ◌+ℤ◌
+ℤ_parts a b = ground arith

pub -ℤ_parts :
    (a b : ℤ)
    → pos_part (a -ℤ b) + neg_part a + pos_part b ≡ neg_part (a -ℤ b) + pos_part a + neg_part b
unfolding ◌-ℤ◌
-ℤ_parts a b = ground arith

pub eq_of_parts : (a b : ℤ) → pos_part a + neg_part b ≡ pos_part b + neg_part a → a ≡ b
eq_of_parts a b h = ground arith

pub ruleset int_laws = (arith, +ℤ_parts, -ℤ_parts, eq_of_parts)

pub +ℤ_assoc : (a b c : ℤ) → a +ℤ b +ℤ c ≡ a +ℤ (b +ℤ c)
+ℤ_assoc a b c =
    eq_of_parts (a +ℤ b +ℤ c) (a +ℤ (b +ℤ c))
      (omega (arith, +ℤ_parts a b, +ℤ_parts (a +ℤ b) c, +ℤ_parts b c, +ℤ_parts a (b +ℤ c)))

pub +ℤ_comm : (a b : ℤ) → a +ℤ b ≡ b +ℤ a
+ℤ_comm a b = eq_of_parts (a +ℤ b) (b +ℤ a) (omega (arith, +ℤ_parts a b, +ℤ_parts b a))

pub +ℤ_zero : (a : ℤ) → a +ℤ pos 0 ≡ a
+ℤ_zero a = eq_of_parts (a +ℤ pos 0) a (omega (arith, +ℤ_parts a (pos 0)))

pub zero_+ℤ : (a : ℤ) → pos 0 +ℤ a ≡ a
zero_+ℤ a = eq_of_parts (pos 0 +ℤ a) a (omega (arith, +ℤ_parts (pos 0) a))

-- A difference is the sum with the opposite.
pub -ℤ_opposite : (a b : ℤ) → a -ℤ b ≡ a +ℤ (pos 0 -ℤ b)
-ℤ_opposite a b =
    eq_of_parts (a -ℤ b) (a +ℤ (pos 0 -ℤ b))
      (omega (arith, -ℤ_parts a b, -ℤ_parts (pos 0) b, +ℤ_parts a (pos 0 -ℤ b)))

pub +ℤ_swap : (x a b : ℤ) → x +ℤ (a +ℤ b) ≡ a +ℤ (x +ℤ b)
+ℤ_swap x a b =
    eq_of_parts (x +ℤ (a +ℤ b)) (a +ℤ (x +ℤ b))
      (omega (arith, +ℤ_parts x b, +ℤ_parts a b, +ℤ_parts x (a +ℤ b), +ℤ_parts a (x +ℤ b)))

-- One more on either side of a difference, moved to what is added to it.
pub add_-ℤ_add : (i x o n : ℤ) → i +ℤ x -ℤ o +ℤ n ≡ i -ℤ o +ℤ (x +ℤ n)
add_-ℤ_add i x o n = eq_of_parts (i +ℤ x -ℤ o +ℤ n) (i -ℤ o +ℤ (x +ℤ n)) (
    omega (
      arith,
      +ℤ_parts i x,
      -ℤ_parts (i +ℤ x) o,
      +ℤ_parts (i +ℤ x -ℤ o) n,
      -ℤ_parts i o,
      +ℤ_parts x n,
      +ℤ_parts (i -ℤ o) (x +ℤ n),
    ))

pub -ℤ_add_add : (i o x n : ℤ) → i -ℤ (o +ℤ x) +ℤ n ≡ i -ℤ o +ℤ (pos 0 -ℤ x +ℤ n)
-ℤ_add_add i o x n = eq_of_parts (i -ℤ (o +ℤ x) +ℤ n) (i -ℤ o +ℤ (pos 0 -ℤ x +ℤ n)) (
    omega (
      arith,
      +ℤ_parts o x,
      -ℤ_parts i (o +ℤ x),
      +ℤ_parts (i -ℤ (o +ℤ x)) n,
      -ℤ_parts i o,
      -ℤ_parts (pos 0) x,
      +ℤ_parts (pos 0 -ℤ x) n,
      +ℤ_parts (i -ℤ o) (pos 0 -ℤ x +ℤ n),
    ))

pub add_sub_assoc : (a b c : ℤ) → a +ℤ b -ℤ c ≡ a +ℤ (b -ℤ c)
add_sub_assoc a b c =
    eq_of_parts (a +ℤ b -ℤ c) (a +ℤ (b -ℤ c))
      (omega (arith, +ℤ_parts a b, -ℤ_parts (a +ℤ b) c, -ℤ_parts b c, +ℤ_parts a (b -ℤ c)))

pub none_+ℤ : (n : ℤ) → pos 0 -ℤ pos 0 +ℤ n ≡ n
none_+ℤ n =
    eq_of_parts (pos 0 -ℤ pos 0 +ℤ n) n
      (omega (arith, -ℤ_parts (pos 0) (pos 0), +ℤ_parts (pos 0 -ℤ pos 0) n))

pub -ℤ_zero : (a : ℤ) → a -ℤ pos 0 ≡ a
-ℤ_zero a = eq_of_parts (a -ℤ pos 0) a (omega (arith, -ℤ_parts a (pos 0)))

pub sub_sub : (a b c : ℤ) → a -ℤ b -ℤ c ≡ a -ℤ (b +ℤ c)
sub_sub a b c =
    eq_of_parts (a -ℤ b -ℤ c) (a -ℤ (b +ℤ c))
      (omega (arith, -ℤ_parts a b, -ℤ_parts (a -ℤ b) c, +ℤ_parts b c, -ℤ_parts a (b +ℤ c)))

pub ℤ-IsSet : IsSet ℤ
ℤ-IsSet = hlevel
