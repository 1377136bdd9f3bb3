-- ===== src/Tests/StoreTest.antt =====
-- vmsim/mm.c and vmsim/disk.c on four pages of two bytes.
use vmsim.Prelude.{
  ℕ, ◌+◌, ◌-◌, ◌/◌, ◌≡◌, refl, ◌∙◌, ◌≢◌, ◌≤◌, ◌<◌, true, false, ◌||◌, some, List, [], ◌∷◌, arith,
  ◌⊎◌, replicate,
}
use vmsim.Run.{ok}
use vmsim.Types.{success, fail}
use vmsim.Bytes.{slice}
use vmsim.Mm.{Mm}
use vmsim.Mm.Frames.{IsMm}
use vmsim.Bitmap.Access.{cleared-IsBitmap, cleared_bit}
use vmsim.Disk.{Disk, disk_get_page, disk_set_page, alloc_pages}
use vmsim.Disk.Pages.{IsDisk, allocated, disk_set_page_lem}
use vmsim.Disk.Blocks.{in_block, SameData, alloc_pages_lem}

abbrev pub eight_bytes : List ℕ
eight_bytes = 1 ∷ 2 ∷ 3 ∷ 4 ∷ 5 ∷ 6 ∷ 7 ∷ 8 ∷ []

abbrev four_frames : Mm
four_frames = record { bytes = some eight_bytes; npages = 4; page_size = 2 }

four_frames-IsMm : IsMm four_frames eight_bytes
four_frames-IsMm = record { held = refl; full = refl }

abbrev pub four_pages : Disk
four_pages = record {
  bytes = some eight_bytes;
  npages = 4;
  page_size = 2;
  process_block_size = 2;
  alloc_bitmap = record { data_blocks = replicate ((4 - 1) / 8 + 1) 0; size = 4 };
}

pub four_pages-IsDisk : IsDisk four_pages eight_bytes
four_pages-IsDisk = record {
  held = refl;
  full = refl;
  addressed = omega arith;
  counted = omega arith;
  form = cleared-IsBitmap 4 (omega arith);
  bits = refl;
}

pub four_pages_clear : (j : ℕ) → 0 ≤ j → j < 0 + 3 → allocated four_pages j ≡ false
four_pages_clear j l h = cleared_bit 4 j

pub three_taken :
    (disk' : Disk) × (alloc_pages 3 four_pages 0 ≡ ok disk')
    × IsDisk disk' eight_bytes
    × SameData four_pages disk'
    × ((j : ℕ) → allocated disk' j ≡ (in_block 0 3 j || allocated four_pages j))
three_taken = alloc_pages_lem 3 four_pages-IsDisk 0 (omega arith) four_pages_clear

disk_set_page_lem_example :
    ((allocated three_taken.0 1 ≡ false)
      × (disk_set_page three_taken.0 1 (9 ∷ 9 ∷ []) ≡ ok (fail, three_taken.0)))
    ⊎ ((disk' : Disk) × (bytes' : List ℕ) × (disk_set_page three_taken.0 1 (9 ∷ 9 ∷ [])
          ≡ ok (success, disk'))
        × IsDisk disk' bytes'
        × (disk' ≡ record (three_taken.0) { bytes = some bytes' })
        × (disk_get_page disk' 1
            ≡ ok (success, some (slice (9 ∷ 9 ∷ []) 0 three_taken.0.page_size)))
        × ((other : ℕ)
            → other < three_taken.0.npages
            → 1 ≢ other
            → disk_get_page disk' other ≡ disk_get_page three_taken.0 other))
disk_set_page_lem_example =
    disk_set_page_lem three_taken.2 1 (9 ∷ 9 ∷ []) (omega (arith, three_taken.3.npages))
      (omega (arith, three_taken.3.page_size))

first_taken :
    (j : ℕ) → 0 ≤ j → j < 0 + three_taken.0.process_block_size → allocated three_taken.0 j ≡ true
first_taken j l h = three_taken.4 j ∙ ground (arith, three_taken.3.block)
