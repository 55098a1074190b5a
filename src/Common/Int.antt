-- ===== src/Common/Int.antt =====
-- Go's int64 (and int, on a 64-bit platform): integers, with the wrap-around of each operation.
use Prim.Native.Nat.{ℕ, suc, ◌+◌, ◌-◌, ◌%◌, ◌/◌, ◌≤◌, ◌<◌}
use mathlib.Core.Path.{◌≡◌}
use mathlib.Core.Logic.{◌↔◌}
use mathlib.Core.Bool.{Bool, true}
use mathlib.Core.List.{List}
use mathlib.Core.Option.{Option, none}
use native.Mathlib.Omega.{arith}
use ddbr.Common.Tests.{ltb, leb, nat_eq, if◌then◌else◌}
use ddbr.Common.Lists.{get_elem?}

-- `negsuc n` is -(n + 1).
pub data ℤ : Type 0 where
  pos : ℕ → ℤ
  negsuc : ℕ → ℤ

abbrev pub pos_part : ℤ → ℕ
pos_part (pos n) = n
pos_part (negsuc n) = 0

abbrev pub neg_part : ℤ → ℕ
neg_part (pos n) = 0
neg_part (negsuc n) = suc n

abbrev pub sub_ℕ : ℕ → ℕ → ℤ
sub_ℕ a b = if leb b a then pos (a - b) else negsuc (b - a - 1)

infix 50 ◌≤ℤ◌ ◌<ℤ◌
abbrev pub ◌≤ℤ◌ : ℤ → ℤ → Type 0
a ≤ℤ b = pos_part a + neg_part b ≤ pos_part b + neg_part a

abbrev pub ◌<ℤ◌ : ℤ → ℤ → Type 0
a <ℤ b = pos_part a + neg_part b < pos_part b + neg_part a

abbrev pub ltb_ℤ : ℤ → ℤ → Bool
ltb_ℤ a b = ltb (pos_part a + neg_part b) (pos_part b + neg_part a)

abbrev pub leb_ℤ : ℤ → ℤ → Bool
leb_ℤ a b = leb (pos_part a + neg_part b) (pos_part b + neg_part a)

abbrev pub eqb_ℤ : ℤ → ℤ → Bool
eqb_ℤ a b = nat_eq (pos_part a + neg_part b) (pos_part b + neg_part a)

pub eqb_ℤ_iff : (a b : ℤ) → (eqb_ℤ a b ≡ true) ↔ (a ≡ b)
eqb_ℤ_iff a b = ground arith

pub eq_of_parts : (a b : ℤ) → pos_part a + neg_part b ≡ pos_part b + neg_part a → a ≡ b
eq_of_parts a b h = ground arith

-- 2^63 and 2^64
abbrev pub two_63 : ℕ
two_63 = 9223372036854775808

abbrev pub two_64 : ℕ
two_64 = 18446744073709551616

-- The int64 that an integer is cut down to.
unfoldable pub wrap : ℤ → ℤ
wrap (pos n) = let m = n % two_64 in if ltb m two_63 then pos m else negsuc (two_64 - 1 - m)
wrap (negsuc n) = let m = n % two_64 in if ltb m two_63 then negsuc m else pos (two_64 - 1 - m)

infixl 65 ◌+ℤ◌ ◌-ℤ◌
unfoldable pub ◌+ℤ◌ : ℤ → ℤ → ℤ
unfolding wrap
a +ℤ b = wrap (sub_ℕ (pos_part a + pos_part b) (neg_part a + neg_part b))

unfoldable pub ◌-ℤ◌ : ℤ → ℤ → ℤ
unfolding wrap
a -ℤ b = wrap (sub_ℕ (pos_part a + neg_part b) (neg_part a + pos_part b))

-- Division by 2, which Go rounds towards 0.
unfoldable pub half : ℤ → ℤ
half (pos n) = pos (n / 2)
half (negsuc n) = sub_ℕ 0 (suc n / 2)

-- A value that an int64 can hold.
abbrev pub InRange : ℤ → Type 0
InRange a = (pos_part a < two_63) × (neg_part a ≤ two_63)

pub wrap_lem : (a : ℤ) → InRange a → wrap a ≡ a
unfolding wrap
wrap_lem (pos n) h = ground arith
wrap_lem (negsuc n) h = ground arith

pub pos-+ℤ : (a b : ℕ) → a + b < two_63 → pos a +ℤ pos b ≡ pos (a + b)
unfolding ◌+ℤ◌
pos-+ℤ a b h = ground arith

pub pos-ℤ_one : (a : ℕ) → suc a < two_63 → pos (suc a) -ℤ pos 1 ≡ pos a
unfolding ◌-ℤ◌
pos-ℤ_one a h = ground arith

pub pos-+ℤ_one : (a : ℕ) → suc a < two_63 → pos a +ℤ pos 1 ≡ pos (suc a)
unfolding ◌+ℤ◌
pos-+ℤ_one a h = ground arith

-- A term or an index goes up by one, unless it is the greatest int64.
pub lt-+ℤ_one : (a : ℤ) → InRange a → a <ℤ pos (two_63 - 1) → a <ℤ a +ℤ pos 1
unfolding ◌+ℤ◌
lt-+ℤ_one (pos n) r h = ground arith
lt-+ℤ_one (negsuc n) r h = ground arith

-- `s[i]`: an index out of range is a panic, here `none`.
abbrev pub slice_get {ℓ} : {A : Type ℓ} → List A → ℤ → Option A
slice_get xs (pos n) = get_elem? xs n
slice_get xs (negsuc n) = none
