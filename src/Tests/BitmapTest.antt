-- ===== src/Tests/BitmapTest.antt =====
-- util/bitmap.c on a cleared bitmap of twelve bits.
use vmsim.Prelude.{ℕ, ◌+◌, ◌-◌, ◌/◌, ◌≡◌, ◌==◌, ◌||◌, not, Option, arith, replicate}
use vmsim.Run.{ok}
use vmsim.Types.{success}
use vmsim.Bitmap.{Bitmap, bitmap_set, bitmap_first_clear, found_code}
use vmsim.Bitmap.Access.{IsBitmap, bit, cleared-IsBitmap, bitmap_set_lem}
use vmsim.Bitmap.Find.{IsFirst}
use vmsim.Bitmap.First.{bitmap_first_clear_lem}

abbrev cleared : Bitmap
cleared = record { data_blocks = replicate ((12 - 1) / 8 + 1) 0; size = 12 }

cleared-form : IsBitmap cleared
cleared-form = cleared-IsBitmap 12 (omega arith)

tenth :
    (bm' : Bitmap) × (bitmap_set cleared 10 ≡ ok (success, bm'))
    × IsBitmap bm'
    × (bm'.size ≡ 12)
    × ((j : ℕ) → bit bm' j ≡ ((10 == j) || bit cleared j))
tenth = bitmap_set_lem cleared-form 10 (omega arith)

bitmap_first_clear_lem_example :
    (r : Option ℕ) × (bitmap_first_clear tenth.0 (λ _. 255) ≡ ok (found_code r))
    × IsFirst (λ i. not (bit tenth.0 i)) 0 tenth.0.size r
bitmap_first_clear_lem_example = bitmap_first_clear_lem tenth.2 (λ _. 255)
