-- ===== src/Base/Ints.antt =====
-- Signed integers over the native numbers, for Go's `int64` and `int32` values that are compared.
use Prim.Native.Nat.{ℕ, ◌+◌, ◌*◌, ◌-◌, ◌<◌, ◌%◌, ◌^◌}
use mathlib.Core.Path.{◌≡◌}
use mathlib.Core.Logic.{◌↔◌}
use mathlib.Core.Bool.{Bool, true, false}
use native.Mathlib.Omega.{arith}
use nexentastor_csi_driver_b.Base.Tests.{ltb, ◌==◌, if◌then◌else◌}

-- `negsuc n` is -(n + 1).
pub data ℤ : Type 0 where
  pos : ℕ → ℤ
  negsuc : ℕ → ℤ

abbrev pub eq_ℤ : ℤ → ℤ → Bool
eq_ℤ (pos a) (pos b) = a == b
eq_ℤ (pos a) (negsuc b) = false
eq_ℤ (negsuc a) (pos b) = false
eq_ℤ (negsuc a) (negsuc b) = a == b

abbrev pub ltb_ℤ : ℤ → ℤ → Bool
ltb_ℤ (pos a) (pos b) = ltb a b
ltb_ℤ (pos a) (negsuc b) = false
ltb_ℤ (negsuc a) (pos b) = true
ltb_ℤ (negsuc a) (negsuc b) = ltb b a

-- The conversion `int32(n)` of a length: the low 32 bits as a signed number.
unfoldable pub int32 : ℕ → ℤ
int32 n = let m = n % 2 ^ 32 in if ltb m (2 ^ 31) then pos m else negsuc (2 ^ 32 - 1 - m)

-- A sum modulo 2^64, as a signed number of 64 bits.
unfoldable pub int64 : ℕ → ℤ
int64 n = let m = n % 2 ^ 64 in if ltb m (2 ^ 63) then pos m else negsuc (2 ^ 64 - 1 - m)

-- The product of an `int64` with a constant, which wraps around.
unfoldable pub times_int64 : ℕ → ℤ → ℤ
times_int64 k (pos n) = int64 (n * k)
times_int64 k (negsuc n) = int64 (2 ^ 64 - ((n + 1) * k) % 2 ^ 64)

-- A product that fits in 63 bits does not wrap.
pub times_int64_small : (k n : ℕ) → n * k < 2 ^ 63 → times_int64 k (pos n) ≡ pos (n * k)
unfolding times_int64 int64
times_int64_small k n h = let m = n * k in ground arith

pub eq_ℤ_iff : (a b : ℤ) → (eq_ℤ a b ≡ true) ↔ (a ≡ b)
eq_ℤ_iff (pos a) (pos b) = (λ h. ground arith, λ h. ground arith)
eq_ℤ_iff (pos a) (negsuc b) = (λ h. cc, λ h. cc)
eq_ℤ_iff (negsuc a) (pos b) = (λ h. cc, λ h. cc)
eq_ℤ_iff (negsuc a) (negsuc b) = (λ h. ground arith, λ h. ground arith)

-- A length that fits in 31 bits is converted to itself.
pub int32_small : (n : ℕ) → n < 2 ^ 31 → int32 n ≡ pos n
unfolding int32
int32_small n h = ground arith

pub ltb_ℤ_irrefl : (a : ℤ) → ltb_ℤ a a ≡ false
ltb_ℤ_irrefl (pos a) = ground arith
ltb_ℤ_irrefl (negsuc a) = ground arith
