-- ===== src/Mm/Frames.antt =====
-- vmsim/mm.c as frames that are read and written as a whole.
use vmsim.Prelude.{
  ℕ, ◌+◌, ◌*◌, ◌^◌, ◌≤◌, ◌<◌, ◌≡◌, refl, ◌≢◌, some, List, arith, lt→ltb, length, ap, ◌∙◌, sym,
}
use vmsim.Run.{ok}
use vmsim.Int.{int_mul-small}
use vmsim.Types.{success}
use vmsim.Bytes.{slice, paste, read_bytes, write_bytes, length-slice, length-paste}
use vmsim.Bytes.Frames.{frame, frame_in, frame-paste_same, frame-paste-frame}
use vmsim.Mm.{Mm, get_page_start, mm_data, mm_read, mm_write}

-- the memory has all its bytes
pub record IsMm (mm : Mm) (bytes : List ℕ) : Type 0 where
  pub held : mm.bytes ≡ some bytes
  pub full : length bytes ≡ mm.npages * mm.page_size

pub read_bytes-slice :
    (bytes : List ℕ) (off n : ℕ)
    → off + n ≤ length bytes
    → read_bytes bytes off n ≡ ok (slice bytes off n)
unfolding read_bytes
read_bytes-slice bytes off n h = ground arith

pub write_bytes-paste :
    (bytes : List ℕ) (off : ℕ) (new : List ℕ)
    → off + length new ≤ length bytes
    → write_bytes bytes off new ≡ ok (paste bytes off new)
unfolding write_bytes
write_bytes-paste bytes off new h = ground arith

module _ {mm : Mm} {bytes : List ℕ} (is : IsMm mm bytes) (fits : mm.npages * mm.page_size < 2 ^ 31)
    (counted : mm.npages < 2 ^ 31) (page : ℕ) where
  mm_data-held : mm_data mm ≡ ok bytes
  unfolding mm_data
  mm_data-held = rw is.held refl

  inside : page < mm.npages → page * mm.page_size + mm.page_size ≤ length bytes
  inside lt = omega (arith, is.full, frame_in page mm.npages mm.page_size lt)

  get_page_start-product : page < mm.npages → get_page_start mm page ≡ ok (page * mm.page_size)
  unfolding get_page_start
  get_page_start-product lt =
      int_mul-small page mm.page_size (omega arith)
        (omega (arith, frame_in page mm.npages mm.page_size lt))
        (omega (arith, frame_in page mm.npages mm.page_size lt))

  pub mm_read-frame :
      page < mm.npages → mm_read mm page ≡ ok (success, frame bytes mm.page_size page)
  unfolding mm_read
  mm_read-frame lt =
      rw
        (
          mm_data-held,
          lt→ltb page mm.npages lt,
          get_page_start-product lt,
          read_bytes-slice bytes (page * mm.page_size) mm.page_size (inside lt),
        )
        refl

-- On a well-formed memory of less than 2 ^ 31 frames and bytes, for a frame in range and a buffer of at least a frame, mm_write succeeds,
-- the frame reads back as the first bytes of the buffer and every other frame as before, and the
-- memory stays well-formed.
pub mm_write_lem :
    {mm : Mm} {bytes : List ℕ} (is : IsMm mm bytes) (page : ℕ) (buf : List ℕ)
    → mm.npages * mm.page_size < 2 ^ 31
    → mm.npages < 2 ^ 31
    → page < mm.npages
    → mm.page_size ≤ length buf
    → (mm' : Mm) × (bytes' : List ℕ) × (mm_write mm page buf ≡ ok (success, mm'))
      × IsMm mm' bytes'
      × (mm'.npages ≡ mm.npages)
      × (mm_read mm' page ≡ ok (success, slice buf 0 mm.page_size))
      × ((other : ℕ) → other < mm.npages → page ≢ other → mm_read mm' other ≡ mm_read mm other)
unfolding mm_write
mm_write_lem {mm} {bytes} is page buf room counted lt enough =
    let new = slice buf 0 mm.page_size in
    let len : length new ≡ mm.page_size = length-slice buf 0 mm.page_size (omega arith) in
    let fits = inside is room counted page lt in
    let bytes' = paste bytes (page * mm.page_size) new in
    let mm' : Mm = record mm { bytes = some bytes' } in
    let is' : IsMm mm' bytes' = record {
      held = refl;
      full = length-paste bytes (page * mm.page_size) new (omega (arith, len)) ∙ is.full;
    } in
    (
      mm',
      bytes',
      rw
          (
            mm_data-held is room counted page,
            lt→ltb page mm.npages lt,
            read_bytes-slice buf 0 mm.page_size (omega arith),
            get_page_start-product is room counted page lt,
            write_bytes-paste bytes (page * mm.page_size) new (omega (arith, len)),
          )
          refl,
      is',
      refl,
      mm_read-frame is' room counted page lt
          ∙ ap (λ l. ok (success, l)) (frame-paste_same bytes mm.page_size page new fits len),
      λ other lt_o ne.
          mm_read-frame is' room counted other lt_o
          ∙ ap (λ l. ok (success, l)) (same_frame new len fits other lt_o ne)
          ∙ sym (mm_read-frame is room counted other lt_o),
    )
  where
    same_frame :
        (new : List ℕ)
        → length new ≡ mm.page_size
        → page * mm.page_size + mm.page_size ≤ length bytes
        → (other : ℕ) → other < mm.npages
        → page ≢ other
        → frame (paste bytes (page * mm.page_size) new) mm.page_size other
          ≡ frame bytes mm.page_size other
    same_frame new len fits other lt_o ne =
        frame-paste-frame bytes mm.page_size page new other len fits
          (inside is room counted other lt_o) ne
