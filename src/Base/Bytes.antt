-- ===== src/Base/Bytes.antt =====
-- Bytes as numbers below 256, and the little-endian words of `write_u64_le`, `read_u64_le` and
-- `u64::from_le_bytes`.
use native.Mathlib.Nat.{pow-suc}
use sendme.Base.Lists.{length, All}
use Prim.Native.Nat.{ℕ, zero, suc, ◌+◌, ◌*◌, ◌/◌, ◌%◌, ◌^◌, ◌<◌}
use mathlib.Core.Path.{◌≡◌, refl}
use mathlib.Core.List.{List, [], ◌∷◌}
use native.Mathlib.Omega.{arith}

abbrev pub Byte : Type 0
Byte = ℕ

abbrev pub IsByte : Byte → Type 0
IsByte b = b < 256

-- The number of values of a `u64`.
abbrev pub u64_mod : ℕ
u64_mod = 2 ^ 64

-- The sum of the lengths.
abbrev pub total_length : List (List Byte) → ℕ
total_length [] = 0
total_length (y ∷ ys) = length y + total_length ys

-- The `k` low bytes of `n`, the lowest first.
unfoldable pub to_le : ℕ → ℕ → List Byte
to_le zero n = []
to_le (suc k) n = (n % 256) ∷ to_le k (n / 256)

unfoldable pub from_le : List Byte → ℕ
from_le [] = 0
from_le (b ∷ bs) = b + 256 * from_le bs

pub length-to_le : (k n : ℕ) → length (to_le k n) ≡ k
unfolding to_le
length-to_le zero n = refl
length-to_le (suc k) n = omega (arith, length-to_le k (n / 256))

pub to_le-IsByte : (k n : ℕ) → All IsByte (to_le k n)
unfolding to_le
to_le-IsByte zero n = tt
to_le-IsByte (suc k) n = (omega arith, to_le-IsByte k (n / 256))

pub from_le-to_le : (k n : ℕ) → n < 256 ^ k → from_le (to_le k n) ≡ n
unfolding to_le from_le
from_le-to_le zero n h = omega arith
from_le-to_le (suc k) n h = omega (arith, from_le-to_le k (n / 256) (omega (arith, pow-suc 256 k)))

-- A word read from eight bytes is the word that was written.
pub from_le-to_le_word : (n : ℕ) → n < u64_mod → from_le (to_le 8 n) ≡ n
from_le-to_le_word n h = from_le-to_le 8 n (omega arith)

-- Bytes are read back from the word that they make.
pub from_le_bound : (l : List Byte) → All IsByte l → from_le l < 256 ^ length l
unfolding from_le
from_le_bound [] h = omega arith
from_le_bound (b ∷ l) (h, hs) = omega (arith, from_le_bound l hs, pow-suc 256 (length l))

pub to_le-from_le : (l : List Byte) → All IsByte l → to_le (length l) (from_le l) ≡ l
unfolding to_le from_le
to_le-from_le [] h = refl
to_le-from_le (b ∷ l) (h, hs) =
    let low : (b + 256 * from_le l) % 256 ≡ b = omega arith in
    let high : (b + 256 * from_le l) / 256 ≡ from_le l = omega arith in
    cc (low, high, to_le-from_le l hs)
