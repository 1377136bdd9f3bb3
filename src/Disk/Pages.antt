-- ===== src/Disk/Pages.antt =====
-- `disk_get_page` and `disk_set_page` of vmsim/disk.c.
use vmsim.Prelude.{
  ℕ, ◌+◌, ◌*◌, ◌^◌, ◌≤◌, ◌<◌, ◌≡◌, refl, ◌≢◌, Bool, false, some, none, List, arith, lt→ltb, length,
  ap, ◌∙◌, sym, if◌then◌else◌, Bool-cases, inl, inr, ◌⊎◌,
}
use vmsim.Run.{ok}
use vmsim.Types.{success, fail}
use vmsim.Bytes.{slice, paste, length-slice, length-paste}
use vmsim.Bytes.Frames.{frame, frame_in, frame-paste_same, frame-paste-frame}
use vmsim.Mm.Frames.{read_bytes-slice, write_bytes-paste}
use vmsim.Bitmap.Access.{IsBitmap, bit, bitmap_get-bit}
use vmsim.Int.{int_mul-small}
use vmsim.Disk.{Disk, get_page_start, disk_data, is_page_allocated, disk_get_page, disk_set_page}

-- the disk has all its bytes, fewer than 2 ^ 31, and one bit for each page
pub record IsDisk (disk : Disk) (bytes : List ℕ) : Type 0 where
  pub held : disk.bytes ≡ some bytes
  pub full : length bytes ≡ disk.npages * disk.page_size
  pub addressed : disk.npages * disk.page_size < 2 ^ 31
  pub counted : disk.npages < 2 ^ 31
  pub form : IsBitmap disk.alloc_bitmap
  pub bits : disk.alloc_bitmap.size ≡ disk.npages

abbrev pub allocated : Disk → ℕ → Bool
allocated disk page = bit disk.alloc_bitmap page

module _ {disk : Disk} {bytes : List ℕ} (is : IsDisk disk bytes) where
  pub disk_data-held : disk_data disk ≡ ok bytes
  unfolding disk_data
  disk_data-held = rw is.held refl

  pub is_page_allocated-bit :
      (page : ℕ) → page < disk.npages → is_page_allocated disk page ≡ ok (allocated disk page)
  unfolding is_page_allocated
  is_page_allocated-bit page lt = bitmap_get-bit is.form page (omega (arith, is.bits))

  page_inside :
      (page : ℕ) → page < disk.npages → page * disk.page_size + disk.page_size ≤ length bytes
  page_inside page lt = omega (arith, is.full, frame_in page disk.npages disk.page_size lt)

  pub get_page_start-product :
      (page : ℕ) → page < disk.npages → get_page_start disk page ≡ ok (page * disk.page_size)
  unfolding get_page_start
  get_page_start-product page lt =
      int_mul-small page disk.page_size (omega (arith, is.counted))
        (omega (arith, is.addressed, frame_in page disk.npages disk.page_size lt))
        (omega (arith, is.addressed, frame_in page disk.npages disk.page_size lt))

  pub disk_get_page-frame :
      (page : ℕ)
      → page < disk.npages
      → disk_get_page disk page
        ≡ ok (
            if allocated disk page
            then (success, some (frame bytes disk.page_size page))
            else (fail, none))
  unfolding disk_get_page
  disk_get_page-frame page lt = elim (Bool-cases (allocated disk page)) [
    | inl yes_bit ↦
        rw
          (
            disk_data-held,
            lt→ltb page disk.npages lt,
            is_page_allocated-bit page lt,
            yes_bit,
            get_page_start-product page lt,
            read_bytes-slice bytes (page * disk.page_size) disk.page_size (page_inside page lt),
          )
          refl
    | inr no_bit ↦
        rw (disk_data-held, lt→ltb page disk.npages lt, is_page_allocated-bit page lt, no_bit) refl
  ]

-- On a well-formed disk of less than 2 ^ 31 bytes, for a page in range and a buffer of at least a
-- page, disk_set_page fails and changes nothing if the page is not allocated; otherwise it succeeds,
-- the page reads back as the first bytes of the buffer and every other page as before, only the data
-- change, and the disk stays well-formed.
pub disk_set_page_lem :
    {disk : Disk} {bytes : List ℕ} (is : IsDisk disk bytes) (page : ℕ) (buf : List ℕ)
    → page < disk.npages
    → disk.page_size ≤ length buf
    → ((allocated disk page ≡ false) × (disk_set_page disk page buf ≡ ok (fail, disk)))
      ⊎ ((disk' : Disk) × (bytes' : List ℕ) × (disk_set_page disk page buf ≡ ok (success, disk'))
          × IsDisk disk' bytes'
          × (disk' ≡ record disk { bytes = some bytes' })
          × (disk_get_page disk' page ≡ ok (success, some (slice buf 0 disk.page_size)))
          × ((other : ℕ)
              → other < disk.npages
              → page ≢ other
              → disk_get_page disk' other ≡ disk_get_page disk other))
unfolding disk_set_page
disk_set_page_lem {disk} {bytes} is page buf lt enough = elim (Bool-cases (allocated disk page)) [
  | inr no_bit ↦ inl (
    no_bit,
    rw (disk_data-held is, lt→ltb page disk.npages lt, is_page_allocated-bit is page lt, no_bit)
        refl,
  )
  | inl yes_bit ↦
      let size = disk.page_size in
      let new = slice buf 0 size in
      let len : length new ≡ size = length-slice buf 0 size (omega arith) in
      let fits = page_inside is page lt in
      let bytes' = paste bytes (page * size) new in
      let disk' : Disk = record disk { bytes = some bytes' } in
      let is' : IsDisk disk' bytes' = record {
        held = refl;
        full = length-paste bytes (page * size) new (omega (arith, len)) ∙ is.full;
        addressed = is.addressed;
        counted = is.counted;
        form = is.form;
        bits = is.bits;
      } in
      inr (
        disk',
        bytes',
        rw
            (
              disk_data-held is,
              lt→ltb page disk.npages lt,
              is_page_allocated-bit is page lt,
              yes_bit,
              read_bytes-slice buf 0 size (omega arith),
              get_page_start-product is page lt,
              write_bytes-paste bytes (page * size) new (omega (arith, len)),
            )
            refl,
        is',
        refl,
        disk_get_page-frame is' page lt
            ∙ rw yes_bit
                (ap (λ l. ok (success, some l)) (frame-paste_same bytes size page new fits len)),
        λ other lt_o ne.
            disk_get_page-frame is' other lt_o
            ∙ ap (λ l. ok (if allocated disk other then (success, some l) else (fail, none)))
                (same_frame new len fits other lt_o ne)
            ∙ sym (disk_get_page-frame is other lt_o),
      )
]
  where
    same_frame :
        (new : List ℕ)
        → length new ≡ disk.page_size
        → page * disk.page_size + disk.page_size ≤ length bytes
        → (other : ℕ) → other < disk.npages
        → page ≢ other
        → frame (paste bytes (page * disk.page_size) new) disk.page_size other
          ≡ frame bytes disk.page_size other
    same_frame new len fits other lt_o ne =
        frame-paste-frame bytes disk.page_size page new other len fits (page_inside is other lt_o)
          ne
