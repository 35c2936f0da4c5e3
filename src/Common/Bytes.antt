-- ===== src/Common/Bytes.antt =====
-- Python's `bytes` as lists of numbers, and the little-endian fields of `struct` and `int.to_bytes`.
use Prim.Native.Nat.{ℕ, zero, suc, ◌+◌, ◌*◌, ◌/◌, ◌%◌, ◌^◌, ◌≤◌, ◌<◌}
use mathlib.Core.Path.{◌≡◌, refl, ap, ap₂, ◌∙◌}
use mathlib.Core.List.{List, [], ◌∷◌, ◌++◌}
use mathlib.Core.Bool.{true}
use native.Mathlib.Omega.{arith}
use native.Mathlib.Nat.{pow-succ'}
use vertex_testbed.Common.Tests.{ltb, if◌then◌else◌}
use vertex_testbed.Common.Lists.{sum, length-append, length, take, drop, All}
use vertex_testbed.Common.Results.{Result, ok, err, Exception, ◌>>=◌}
use vertex_testbed.Common.Int.{
  fits_int8, to_word-lt_int8, of_word-to_word_int8, to_word-lt_int32, of_word-to_word_int32, ℤ,
  to_word, of_word, fits_int32,
}

abbrev pub Bytes : Type 0
Bytes = List ℕ

abbrev pub IsByte : ℕ → Type 0
IsByte b = b < 256

-- The `k` lowest bytes of `n`, lowest first.
unfoldable pub le_bytes : ℕ → ℕ → Bytes
le_bytes zero n = []
le_bytes (suc k) n = n % 256 ∷ le_bytes k (n / 256)

-- `int.from_bytes(data, "little")`
unfoldable pub from_le : Bytes → ℕ
from_le [] = 0
from_le (b ∷ bs) = b + 256 * from_le bs

pub from_le-le_bytes : (k n : ℕ) → n < 256 ^ k → from_le (le_bytes k n) ≡ n
unfolding from_le le_bytes
from_le-le_bytes zero n h = omega arith
from_le-le_bytes (suc k) n h = omega (arith, from_le-le_bytes k (n / 256) (omega arith))

pub le_bytes-IsByte : (k n : ℕ) → All IsByte (le_bytes k n)
unfolding le_bytes
le_bytes-IsByte zero n = tt
le_bytes-IsByte (suc k) n = (omega arith, le_bytes-IsByte k (n / 256))

pub length-le_bytes : (k n : ℕ) → length (le_bytes k n) ≡ k
unfolding le_bytes
length-le_bytes zero n = omega arith
length-le_bytes (suc k) n = omega (arith, length-le_bytes k (n / 256))

pub from_le-lt : (bs : Bytes) → All IsByte bs → from_le bs < 256 ^ length bs
unfolding from_le
from_le-lt [] h = omega arith
from_le-lt (b ∷ bs) h = omega (arith, from_le-lt bs h.1, pow-succ' 256 (length bs))

pub take-le_bytes : (k n : ℕ) (rest : Bytes) → take k (le_bytes k n ++ rest) ≡ le_bytes k n
unfolding le_bytes
take-le_bytes zero n rest = refl
take-le_bytes (suc k) n rest = ap (λ l. n % 256 ∷ l) (take-le_bytes k (n / 256) rest)

pub drop-le_bytes : (k n : ℕ) (rest : Bytes) → drop k (le_bytes k n ++ rest) ≡ rest
unfolding le_bytes
drop-le_bytes zero n rest = refl
drop-le_bytes (suc k) n rest = drop-le_bytes k (n / 256) rest

-- One unsigned field of `k` bytes of a `struct.pack`.
unfoldable pub pack_u : ℕ → ℕ → Result Bytes
pack_u k n = if ltb n (256 ^ k) then ok (le_bytes k n) else err Exception.struct_error

-- One `i` field of a `struct.pack`.
unfoldable pub pack_i32 : ℤ → Result Bytes
pack_i32 v =
    if fits_int32 v then ok (le_bytes 4 (to_word (2 ^ 32) v)) else err Exception.struct_error

-- `n.to_bytes(k, "little")`
unfoldable pub to_bytes : ℕ → ℕ → Result Bytes
to_bytes k n = if ltb n (256 ^ k) then ok (le_bytes k n) else err Exception.overflow_error

-- One unsigned field of `k` bytes of a `struct.unpack_from`, with the bytes that follow it.
unfoldable pub unpack_u : ℕ → Bytes → Result (ℕ × Bytes)
unpack_u k bs =
    if ltb (length bs) k then err Exception.struct_error else ok (from_le (take k bs), drop k bs)

-- One `i` field.
unfoldable pub unpack_i32 : Bytes → Result (ℤ × Bytes)
unpack_i32 bs = do (w, rest) ← unpack_u 4 bs; ok (of_word (2 ^ 32) w, rest)

pub unpack_u-append :
    (k n : ℕ) (rest : Bytes) → n < 256 ^ k → unpack_u k (le_bytes k n ++ rest) ≡ ok (n, rest)
unfolding unpack_u
unpack_u-append k n rest h = ground (
  arith,
  take-le_bytes k n rest,
  drop-le_bytes k n rest,
  from_le-le_bytes k n h,
  length-append (le_bytes k n) rest,
  length-le_bytes k n,
)

pub unpack_i32-append :
    (v : ℤ) (rest : Bytes)
    → fits_int32 v ≡ true
    → unpack_i32 (le_bytes 4 (to_word (2 ^ 32) v) ++ rest) ≡ ok (v, rest)
unfolding unpack_i32
unpack_i32-append v rest h =
    rw (
      unpack_u-append 4 (to_word (2 ^ 32) v) rest (to_word-lt_int32 v h),
      of_word-to_word_int32 v h,
    )

pub le_bytes-from_le : (bs : Bytes) → All IsByte bs → le_bytes (length bs) (from_le bs) ≡ bs
unfolding le_bytes from_le
le_bytes-from_le [] h = refl
le_bytes-from_le (b ∷ bs) h =
    ap₂ (λ x l. x ∷ l) (omega arith)
      (ap (le_bytes (length bs)) (omega arith) ∙ le_bytes-from_le bs h.1)

-- A byte string splits into a field of `k` bytes and the rest.
pub split_field :
    (k : ℕ) (bs : Bytes)
    → All IsByte bs
    → k ≤ length bs
    → (n : ℕ) × (rest : Bytes) × (bs ≡ le_bytes k n ++ rest)
      × (n < 256 ^ k)
      × All IsByte rest
      × (length rest + k ≡ length bs)
unfolding le_bytes
split_field zero bs h e = (0, bs, refl, omega arith, h, omega arith)
split_field (suc k) [] h e = absurd (omega arith)
split_field (suc k) (b ∷ bs) h e =
    let (n, rest, same, small, bytes, len) = split_field k bs h.1 (omega arith) in
    (
      b + 256 * n,
      rest,
      ap₂ (λ x l. x ∷ l) (omega arith) (same ∙ ap (λ m. le_bytes k m ++ rest) (omega arith)),
      omega (arith, pow-succ' 256 k),
      bytes,
      omega arith,
    )

-- A byte string as fields of the widths `ks`, with nothing behind them.
abbrev pub Split : List ℕ → Bytes → Type 0
Split [] bs = bs ≡ []
Split (k ∷ ks) bs =
    (n : ℕ) × (rest : Bytes) × (bs ≡ le_bytes k n ++ rest) × (n < 256 ^ k) × Split ks rest

pub Split-fields : (ks : List ℕ) (bs : Bytes) → All IsByte bs → length bs ≡ sum ks → Split ks bs
Split-fields [] [] h e = refl
Split-fields [] (b ∷ bs) h e = absurd (omega arith)
Split-fields (k ∷ ks) bs h e =
    let (n, rest, same, small, bytes, len) = split_field k bs h (omega arith) in
    (n, rest, same, small, Split-fields ks rest bytes (omega arith))

pub unpack_i32-word :
    (w : ℕ) (rest : Bytes)
    → w < 2 ^ 32
    → unpack_i32 (le_bytes 4 w ++ rest) ≡ ok (of_word (2 ^ 32) w, rest)
unfolding unpack_i32
unpack_i32-word w rest h = rw (unpack_u-append 4 w rest h)

-- One `b` field.
unfoldable pub pack_i8 : ℤ → Result Bytes
pack_i8 v = if fits_int8 v then ok (le_bytes 1 (to_word 256 v)) else err Exception.struct_error

unfoldable pub unpack_i8 : Bytes → Result (ℤ × Bytes)
unpack_i8 bs = do (w, rest) ← unpack_u 1 bs; ok (of_word 256 w, rest)

pub unpack_i8-append :
    (v : ℤ) (rest : Bytes)
    → fits_int8 v ≡ true
    → unpack_i8 (le_bytes 1 (to_word 256 v) ++ rest) ≡ ok (v, rest)
unfolding unpack_i8
unpack_i8-append v rest h =
    rw (unpack_u-append 1 (to_word 256 v) rest (to_word-lt_int8 v h), of_word-to_word_int8 v h)
