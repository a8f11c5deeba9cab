-- ===== src/Examples/Tables.antt =====
-- util/bitmap.c at a small set.
use cuts.Base.{ℕ, ◌*◌, ◌/◌, ◌≡◌, refl, arith, ◌==◌, if◌then◌else◌, ok}
use cuts.Util.Bitmap
use cuts.Util.Bitmap.{Bitmap}
use cuts.Util.Bitmap.Laws.{IsBitmap}
use cuts.Util.Bitmap.Free.{LeastFree, get_free-LeastFree}

-- Sixteen bits, of which 0, 1 and 9 are set.
abbrev bits : Bitmap
bits = record { bytes = record { len = 2; at = λ i. if i == 0 then 3 else 2 }; size = 16 }

bits-IsBitmap : IsBitmap bits
bits-IsBitmap = record { len = refl; bytes = λ i. ground arith }

get_free-LeastFree_example :
    (r : ℕ) × (Bitmap.get_free bits ≡ ok r) × LeastFree bits.bytes (16 / 8 * 8) r
get_free-LeastFree_example = get_free-LeastFree bits bits-IsBitmap (omega arith)

free_is_two : Bitmap.get_free bits ≡ ok 2
unfolding Bitmap.get_free Bitmap.test_bit
free_is_two = refl
