-- ===== src/Common/Int.antt =====
-- Python's signed integers over the native numbers.
use Prim.Native.Nat.{ℕ, suc, ◌+◌, ◌-◌, ◌^◌, ◌<◌}
use mathlib.Core.Path.{◌≡◌}
use mathlib.Core.Bool.{Bool, true, ◌&&◌}
use native.Mathlib.Omega.{arith}
use vertex_testbed.Common.Tests.{ltb, leb, if◌then◌else◌}

-- `negsuc n` is -(n + 1).
pub data ℤ : Type 0 where
  pos : ℕ → ℤ
  negsuc : ℕ → ℤ

abbrev pub pos_part : ℤ → ℕ
pos_part (pos n) = n
pos_part (negsuc n) = 0

abbrev pub neg_part : ℤ → ℕ
neg_part (pos n) = 0
neg_part (negsuc n) = suc n

-- a - b, as an integer.
abbrev pub sub_ℕ : ℕ → ℕ → ℤ
sub_ℕ a b = if leb b a then pos (a - b) else negsuc (b - a - 1)

abbrev pub leb_ℤ : ℤ → ℤ → Bool
leb_ℤ a b = leb (pos_part a + neg_part b) (pos_part b + neg_part a)

-- `_INT32_MIN <= v <= _INT32_MAX`
abbrev pub fits_int32 : ℤ → Bool
fits_int32 v = leb_ℤ (negsuc (2 ^ 31 - 1)) v && leb_ℤ v (pos (2 ^ 31 - 1))

-- The two's complement pattern of a signed value of `m` patterns, and the value of a pattern.
unfoldable pub to_word : ℕ → ℤ → ℕ
to_word m (pos n) = n
to_word m (negsuc n) = m - suc n

unfoldable pub of_word : ℕ → ℕ → ℤ
of_word m w = if ltb (w + w) m then pos w else negsuc (m - w - 1)

pub of_word-to_word_int32 :
    (v : ℤ) → fits_int32 v ≡ true → of_word (2 ^ 32) (to_word (2 ^ 32) v) ≡ v
unfolding of_word to_word
of_word-to_word_int32 (pos n) h = ground arith
of_word-to_word_int32 (negsuc n) h = ground arith

pub to_word-lt_int32 : (v : ℤ) → fits_int32 v ≡ true → to_word (2 ^ 32) v < 2 ^ 32
unfolding to_word
to_word-lt_int32 (pos n) h = ground arith
to_word-lt_int32 (negsuc n) h = ground arith

pub fits_int32-of_word : (w : ℕ) → w < 2 ^ 32 → fits_int32 (of_word (2 ^ 32) w) ≡ true
unfolding of_word
fits_int32-of_word w h = ground arith

pub to_word-of_word : (w : ℕ) → w < 2 ^ 32 → to_word (2 ^ 32) (of_word (2 ^ 32) w) ≡ w
unfolding of_word to_word
to_word-of_word w h = ground arith

infixl 65 ◌-ℤ◌
unfoldable pub ◌-ℤ◌ : ℤ → ℤ → ℤ
a -ℤ b = sub_ℕ (pos_part a + neg_part b) (neg_part a + pos_part b)

-- `-128 <= v <= 127`
abbrev pub fits_int8 : ℤ → Bool
fits_int8 v = leb_ℤ (negsuc 127) v && leb_ℤ v (pos 127)

pub of_word-to_word_int8 : (v : ℤ) → fits_int8 v ≡ true → of_word 256 (to_word 256 v) ≡ v
unfolding of_word to_word
of_word-to_word_int8 (pos n) h = ground arith
of_word-to_word_int8 (negsuc n) h = ground arith

pub to_word-lt_int8 : (v : ℤ) → fits_int8 v ≡ true → to_word 256 v < 256
unfolding to_word
to_word-lt_int8 (pos n) h = ground arith
to_word-lt_int8 (negsuc n) h = ground arith
