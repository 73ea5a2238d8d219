-- ===== src/Constants/Bits.antt =====
-- Laws of the asset bitmap of constants.rs.
use tickersix.Base.{
  ℕ, ◌%◌, ◌<◌, ◌≡◌, Bool, true, ◌||◌, ◌==◌, arith, test_bit-set_bit, test_bit-zero,
}
use tickersix.State.{Bitmap}
use tickersix.Constants.{has_asset, add_asset, eq_bitmap, empty_bitmap}

pub has_asset-empty : (i : ℕ) → has_asset empty_bitmap i ≡ Bool.false
unfolding has_asset
has_asset-empty i = ground (arith, test_bit-zero (i % 64))

-- Adding an asset sets its bit and no other.
pub has_asset-add_asset :
    (b : Bitmap) (i j : ℕ)
    → i < 256
    → j < 256
    → has_asset (add_asset b i) j ≡ (i == j || has_asset b j)
unfolding has_asset add_asset
has_asset-add_asset b i j hi hj = ground (
  arith,
  test_bit-set_bit b.word_0 (i % 64) (j % 64),
  test_bit-set_bit b.word_1 (i % 64) (j % 64),
  test_bit-set_bit b.word_2 (i % 64) (j % 64),
  test_bit-set_bit b.word_3 (i % 64) (j % 64),
)

pub eq_bitmap→eq : (a b : Bitmap) → eq_bitmap a b ≡ true → a ≡ b
unfolding eq_bitmap
eq_bitmap→eq a b h = ground arith
