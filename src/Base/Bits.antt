-- ===== src/Base/Bits.antt =====
-- One bit of a machine word: `w & (1 << k) != 0` and `w |= 1 << k`, digit by digit.
use Prim.Native.Nat.{ℕ, zero, suc, ◌+◌, ◌*◌, ◌/◌, ◌%◌, ◌<◌}
use mathlib.Core.Path.{◌≡◌, refl}
use mathlib.Core.Bool.{Bool, false, ◌||◌}
use native.Mathlib.Omega.{arith}
use tickersix.Base.Tests.{◌==◌}

unfoldable pub test_bit : ℕ → ℕ → Bool
test_bit w zero = w % 2 == 1
test_bit w (suc k) = test_bit (w / 2) k

unfoldable pub set_bit : ℕ → ℕ → ℕ
set_bit w zero = w / 2 * 2 + 1
set_bit w (suc k) = set_bit (w / 2) k * 2 + w % 2

half_set : (x r : ℕ) → r < 2 → (x * 2 + r) / 2 ≡ x
half_set x r h = omega arith

-- Setting bit `k` makes that bit true and leaves every other.
pub test_bit-set_bit : (w k j : ℕ) → test_bit (set_bit w k) j ≡ (k == j || test_bit w j)
unfolding test_bit set_bit
test_bit-set_bit w zero zero = ground arith
test_bit-set_bit w zero (suc j) = rw (half_set (w / 2) 1 (omega arith)) (ground arith)
test_bit-set_bit w (suc k) zero = ground arith
test_bit-set_bit w (suc k) (suc j) =
    rw (half_set (set_bit (w / 2) k) (w % 2) (omega arith))
      (ground (arith, test_bit-set_bit (w / 2) k j))

pub test_bit-zero : (j : ℕ) → test_bit 0 j ≡ false
unfolding test_bit
test_bit-zero zero = refl
test_bit-zero (suc j) = test_bit-zero j
