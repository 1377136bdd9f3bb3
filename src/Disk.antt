-- ===== src/Disk.antt =====
-- vmsim/disk.h, vmsim/disk.c: the swap region, pages of bytes with a bitmap of the allocated ones.
pub mod Pages
pub mod Blocks
pub mod Process
use vmsim.Prelude.{
  ℕ, zero, suc, ◌+◌, ◌*◌, Bool, true, false, not, Option, none, some, List, [], if◌then◌else◌, ltb,
  replicate,
}
use vmsim.Run.{Run, ok, fault, assertion, ◌>>=◌, ◌>>◌, assert}
use vmsim.Int.{int_mul}
use vmsim.Types.{Errcode, success, fail, not_found}
use vmsim.Bytes.{read_bytes, write_bytes}
use vmsim.Bitmap.{
  Bitmap, bitmap_init, bitmap_get, bitmap_set, bitmap_clear, bitmap_destroy, bitmap_first_clear,
}

-- `disk_t`; `bytes` is `none` when `data` is `NULL`, and `orig_addr` is as in vmsim/mm.c
pub record Disk : Type 0 where
  pub bytes : Option (List ℕ)
  pub npages : ℕ
  pub page_size : ℕ
  pub process_block_size : ℕ
  pub alloc_bitmap : Bitmap

-- a page is a natural number, so `page>=0` holds
unfoldable pub is_page_allocated : Disk → ℕ → Run Bool
is_page_allocated disk page = bitmap_get disk.alloc_bitmap page

unfoldable pub alloc_page : Disk → ℕ → Run Disk
alloc_page disk page = do
  allocated ← is_page_allocated disk page
  assert (not allocated)
  (_, bitmap) ← bitmap_set disk.alloc_bitmap page
  ok (record disk { alloc_bitmap = bitmap })

unfoldable pub free_page : Disk → ℕ → Run Disk
free_page disk page = do
  allocated ← is_page_allocated disk page
  assert allocated
  (_, bitmap) ← bitmap_clear disk.alloc_bitmap page
  ok (record disk { alloc_bitmap = bitmap })

-- the `for` of `hasEnoughConsecutivePages`, from the page `page` on
unfoldable pub all_clear : ℕ → Bitmap → ℕ → Run Bool
all_clear zero bitmap page = ok true
all_clear (suc rounds) bitmap page = do
  taken ← bitmap_get bitmap page
  let rest = all_clear rounds bitmap (page + 1)
  if taken then ok false else rest

unfoldable pub has_enough_consecutive_pages : Disk → ℕ → ℕ → Run Bool
has_enough_consecutive_pages disk page_idx_start npages =
    if ltb disk.npages (page_idx_start + npages)
    then ok false
    else all_clear npages disk.alloc_bitmap page_idx_start

-- `stale` is what `alloc_bitmap` holds before: `bitmap_init` leaves the size alone when it gets no
-- memory, and `disk_init` does not look at its result
unfoldable pub disk_init : Bool → (ℕ → Bool) → Bitmap → ℕ → ℕ → ℕ → Errcode × Option Disk
disk_init data_ok calloc_ok stale npages pagesize blocksize =
    if data_ok
    then (
      success,
      some (record {
        bytes = some (replicate (npages * pagesize) 0);
        npages = npages;
        page_size = pagesize;
        process_block_size = blocksize;
        alloc_bitmap = elim (bitmap_init calloc_ok npages).1 [
          | none ↦ record stale { data_blocks = [] }
          | some bitmap ↦ bitmap
        ];
      }),
    )
    else (fail, none)

-- the index in `data` of the first byte of the page, an `int`
unfoldable pub get_page_start : Disk → ℕ → Run ℕ
get_page_start disk page = int_mul page disk.page_size

-- the assertions on `data`
unfoldable pub disk_data : Disk → Run (List ℕ)
disk_data disk = elim disk.bytes [ none ↦ fault assertion | some bytes ↦ ok bytes ]

-- with what is copied to `page_data`
unfoldable pub disk_get_page : Disk → ℕ → Run (Errcode × Option (List ℕ))
disk_get_page disk page = do
  bytes ← disk_data disk
  assert (ltb page disk.npages)
  allocated ← is_page_allocated disk page
  let copy = (do
    start ← get_page_start disk page
    p ← read_bytes bytes start disk.page_size
    ok (success, some p))
  if allocated then copy else ok (fail, none)

unfoldable pub disk_set_page : Disk → ℕ → List ℕ → Run (Errcode × Disk)
disk_set_page disk page page_data = do
  bytes ← disk_data disk
  assert (ltb page disk.npages)
  allocated ← is_page_allocated disk page
  let copy = (do
    new ← read_bytes page_data 0 disk.page_size
    start ← get_page_start disk page
    bytes' ← write_bytes bytes start new
    ok (success, record disk { bytes = some bytes' }))
  if allocated then copy else ok (fail, disk)

-- the `for` of `disk_alloc_process_block`, from `page` on
unfoldable pub alloc_pages : ℕ → Disk → ℕ → Run Disk
alloc_pages zero disk page = ok disk
alloc_pages (suc rounds) disk page = do
  disk' ← alloc_page disk page
  alloc_pages rounds disk' (page + 1)

-- the result goes through `page`
unfoldable pub disk_alloc_process_block : Disk → (ℕ → ℕ) → Run (Errcode × Option ℕ × Disk)
disk_alloc_process_block disk beyond = do
  _ ← disk_data disk
  (code, found) ← bitmap_first_clear disk.alloc_bitmap beyond
  elim found [
    | none ↦ ok (fail, none, disk)
    | some page ↦ do
      enough ← has_enough_consecutive_pages disk page disk.process_block_size
      let allocate = (do
        disk' ← alloc_pages disk.process_block_size disk page
        ok (success, some page, disk'))
      if enough then allocate else ok (fail, some page, disk)
  ]

-- the `for` of `disk_free_process_block`, from `page` on
unfoldable pub free_pages : ℕ → Disk → ℕ → Run Disk
free_pages zero disk page = ok disk
free_pages (suc rounds) disk page = do
  disk' ← free_page disk page
  free_pages rounds disk' (page + 1)

unfoldable pub disk_free_process_block : Disk → ℕ → Run (Errcode × Disk)
disk_free_process_block disk page = do
  _ ← disk_data disk
  disk' ← free_pages disk.process_block_size disk page
  ok (success, disk')

-- a second call fails the assertion on `orig_addr`
unfoldable pub disk_destroy : Disk → Run Disk
disk_destroy disk = do
  _ ← disk_data disk
  ok (record disk { bytes = none; alloc_bitmap = bitmap_destroy disk.alloc_bitmap })
