-- ===== src/Base/Int.antt =====
-- Signed integers over the native numbers, and Go's int32 as the integers that a wrap-around
-- leaves in place.
use Prim.Native.Nat.{ℕ, suc, ◌+◌, ◌-◌, ◌*◌, ◌/◌, ◌%◌, ◌≤◌, ◌<◌}
use mathlib.Core.Path.{◌≡◌, refl}
use mathlib.Core.Logic.{◌⊎◌, ◌↔◌}
use mathlib.Core.Bool.{Bool, true, false}
use native.Mathlib.Omega.{arith}
use ih_server.Base.Tests.{ltb, leb, ◌==◌, if◌then◌else◌}

-- `negsuc n` is -(n + 1).
pub data ℤ : Type 0 where
  pos : ℕ → ℤ
  negsuc : ℕ → ℤ

abbrev pub pos_part : ℤ → ℕ
pos_part (pos n) = n
pos_part (negsuc n) = 0

abbrev pub neg_part : ℤ → ℕ
neg_part (pos n) = 0
neg_part (negsuc n) = suc n

-- a - b, as an integer.
abbrev pub sub_ℕ : ℕ → ℕ → ℤ
sub_ℕ a b = if leb b a then pos (a - b) else negsuc (b - a - 1)

infixl 65 ◌+ℤ◌ ◌-ℤ◌
infixl 70 ◌*ℤ◌
infix 50 ◌≤ℤ◌ ◌<ℤ◌ ◌<?◌ ◌≤?◌ ◌=?◌
unfoldable pub ◌+ℤ◌ : ℤ → ℤ → ℤ
a +ℤ b = sub_ℕ (pos_part a + pos_part b) (neg_part a + neg_part b)

unfoldable pub ◌-ℤ◌ : ℤ → ℤ → ℤ
a -ℤ b = sub_ℕ (pos_part a + neg_part b) (neg_part a + pos_part b)

unfoldable pub ◌*ℤ◌ : ℤ → ℤ → ℤ
a *ℤ b =
    sub_ℕ (pos_part a * pos_part b + neg_part a * neg_part b)
      (pos_part a * neg_part b + neg_part a * pos_part b)

abbrev pub ◌≤ℤ◌ : ℤ → ℤ → Type 0
a ≤ℤ b = pos_part a + neg_part b ≤ pos_part b + neg_part a

abbrev pub ◌<ℤ◌ : ℤ → ℤ → Type 0
a <ℤ b = pos_part a + neg_part b < pos_part b + neg_part a

-- Go's comparisons.
abbrev pub ◌<?◌ : ℤ → ℤ → Bool
a <? b = ltb (pos_part a + neg_part b) (pos_part b + neg_part a)

abbrev pub ◌≤?◌ : ℤ → ℤ → Bool
a ≤? b = leb (pos_part a + neg_part b) (pos_part b + neg_part a)

abbrev pub ◌=?◌ : ℤ → ℤ → Bool
pos a =? pos b = a == b
negsuc a =? negsuc b = a == b
pos a =? negsuc b = false
negsuc a =? pos b = false

pub =?-iff : (a b : ℤ) → ((a =? b) ≡ true) ↔ (a ≡ b)
=?-iff (pos a) (pos b) = ground arith
=?-iff (pos a) (negsuc b) = ground arith
=?-iff (negsuc a) (pos b) = ground arith
=?-iff (negsuc a) (negsuc b) = ground arith

pub =?-refl : (a : ℤ) → (a =? a) ≡ true
=?-refl a = (=?-iff a a).1 refl

-- math.MaxInt32
abbrev pub max_int32 : ℤ
max_int32 = pos 2147483647

abbrev pub min_int32 : ℤ
min_int32 = negsuc 2147483647

-- A value that an int32 can hold, in a form that arithmetic reads.
abbrev pub IsInt32 : ℤ → Type 0
IsInt32 a = (pos_part a ≤ 2147483647) × (neg_part a ≤ 2147483648)

abbrev wrap_pos : ℕ → ℤ
wrap_pos r = if ltb r 2147483648 then pos r else negsuc (4294967295 - r)

abbrev wrap_neg : ℕ → ℤ
wrap_neg r = if ltb r 2147483648 then negsuc r else pos (4294967295 - r)

-- The int32 that is congruent to an integer modulo 2 ^ 32.
unfoldable pub wrap32 : ℤ → ℤ
wrap32 (pos n) = wrap_pos (n % 4294967296)
wrap32 (negsuc n) = wrap_neg (n % 4294967296)

infixl 65 ◌+₃₂◌ ◌-₃₂◌
infixl 70 ◌*₃₂◌
unfoldable pub ◌+₃₂◌ : ℤ → ℤ → ℤ
a +₃₂ b = wrap32 (a +ℤ b)

unfoldable pub ◌-₃₂◌ : ℤ → ℤ → ℤ
a -₃₂ b = wrap32 (a -ℤ b)

unfoldable pub ◌*₃₂◌ : ℤ → ℤ → ℤ
a *₃₂ b = wrap32 (a *ℤ b)

unfoldable pub neg32 : ℤ → ℤ
neg32 a = pos 0 -₃₂ a

pub wrap32-eq : (a : ℤ) → IsInt32 a → wrap32 a ≡ a
unfolding wrap32
wrap32-eq (pos n) h = ground arith
wrap32-eq (negsuc n) h = ground arith

pub wrap32-IsInt32 : (a : ℤ) → IsInt32 (wrap32 a)
unfolding wrap32
wrap32-IsInt32 (pos n) = ground arith
wrap32-IsInt32 (negsuc n) = ground arith

pub +ℤ_parts :
    (a b : ℤ)
    → pos_part (a +ℤ b) + neg_part a + neg_part b ≡ neg_part (a +ℤ b) + pos_part a + pos_part b
unfolding ◌+ℤ◌
+ℤ_parts a b = ground arith

pub -ℤ_parts :
    (a b : ℤ)
    → pos_part (a -ℤ b) + neg_part a + pos_part b ≡ neg_part (a -ℤ b) + pos_part a + neg_part b
unfolding ◌-ℤ◌
-ℤ_parts a b = ground arith

pub eq_of_parts : (a b : ℤ) → pos_part a + neg_part b ≡ pos_part b + neg_part a → a ≡ b
eq_of_parts a b h = ground arith

pub parts_disjoint : (a : ℤ) → (pos_part a ≡ 0) ⊎ (neg_part a ≡ 0)
parts_disjoint (pos n) = omega arith
parts_disjoint (negsuc n) = omega arith

-- Go's quotient by a positive number, which rounds towards zero.
unfoldable pub quot : ℤ → ℕ → ℤ
quot (pos a) n = pos (a / n)
quot (negsuc a) n = sub_ℕ 0 (suc a / n)

-- Its remainder, which has the sign of the dividend.
unfoldable pub rem : ℤ → ℕ → ℤ
rem (pos a) n = pos (a % n)
rem (negsuc a) n = sub_ℕ 0 (suc a % n)
