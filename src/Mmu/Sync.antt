-- ===== src/Mmu/Sync.antt =====
-- `mmu_sync_to_backing_page` and `mmu_sync_from_backing_page` of vmsim/mmu.c.
use vmsim.Prelude.{
  ℕ, ◌*◌, ◌<◌, ◌≡◌, refl, ◌≢◌, Bool, true, false, some, List, arith, drop, length, ◌∙◌, ap, subst,
  Bool-cases, inl, inr, ◌⊎◌,
}
use vmsim.Run.{ok}
use vmsim.Types.{success, VirtAddr, page_eq}
use vmsim.Bytes.{paste, length-slice, length-paste}
use vmsim.Bytes.Frames.{frame, frame_in, frame-paste_same, frame-paste-frame}
use vmsim.Ipt.Chain.{entry}
use vmsim.Ipt.Valid.{find_page}
use vmsim.Map.Assoc.{find}
use vmsim.Mm.Frames.{write_bytes-paste}
use vmsim.Disk.{Disk, disk_get_page}
use vmsim.Disk.Pages.{IsDisk, disk_set_page_lem, disk_get_page-frame}
use vmsim.Mmu.{Mmu, mmu_sync_to_backing_page, mmu_sync_from_backing_page}
use vmsim.Mmu.Valid.{
  IsMmu, mem_data-held, backing_page-found, translate-found, dirty-found, frame_inside, frame_start,
  slice-drop, drop_long,
}

-- a changed disk of the same shape keeps the invariant
disk-IsMmu :
    {mmu : Mmu} {bytes stored : List ℕ} {pages : List (VirtAddr × ℕ)}
    → IsMmu mmu bytes stored pages
    → (stored' : List ℕ) → IsDisk (record (mmu.disk) { bytes = some stored' }) stored'
    → IsMmu (record mmu { disk = record (mmu.disk) { bytes = some stored' } }) bytes stored' pages
disk-IsMmu is stored' form = record {
  table = is.table;
  memory = is.memory;
  frames = is.frames;
  positive = is.positive;
  addressed = is.addressed;
  disk = form;
  same_size = is.same_size;
  map = is.map;
  on_disk = is.on_disk;
  apart = is.apart;
  backed = is.backed;
}

-- changed bytes of the memory keep the invariant
pub memory-IsMmu :
    {mmu : Mmu} {bytes stored : List ℕ} {pages : List (VirtAddr × ℕ)}
    → IsMmu mmu bytes stored pages
    → (bytes' : List ℕ) → length bytes' ≡ length bytes
    → IsMmu (record mmu { mem = record (mmu.mem) { bytes = some bytes' } }) bytes' stored pages
memory-IsMmu is bytes' len = record {
  table = is.table;
  memory = record { held = refl; full = len ∙ is.memory.full };
  frames = is.frames;
  positive = is.positive;
  addressed = is.addressed;
  disk = is.disk;
  same_size = is.same_size;
  map = is.map;
  on_disk = is.on_disk;
  apart = is.apart;
  backed = is.backed;
}

module _ {mmu : Mmu} {bytes stored : List ℕ} {pages : List (VirtAddr × ℕ)}
    (is : IsMmu mmu bytes stored pages) (page : VirtAddr) (i d : ℕ)
    (found : find_page mmu.mem_ipt.entries page ≡ some i)
    (backed : find page_eq pages page ≡ some d) where
  abbrev size : ℕ
  size = mmu.mem.page_size

  abbrev dirty : Bool
  dirty = (entry mmu.mem_ipt.entries i).page_data.dirty

  -- Under the invariant of the MMU, in which the memory and the disk have less than 2 ^ 31 bytes,
  -- mmu_sync_to_backing_page of a page that is in the memory and on the disk changes nothing if the
  -- page is clean; otherwise it succeeds, its page of the disk reads as the frame and every other
  -- page of the disk as before, only the disk changes, and the invariant holds.
  pub mmu_sync_to_backing_page_lem :
      ((dirty ≡ false) × (mmu_sync_to_backing_page mmu page ≡ ok (success, mmu)))
      ⊎ ((dirty ≡ true)
          × (disk' : Disk) × (stored' : List ℕ) × (mmu_sync_to_backing_page mmu page
              ≡ ok (success, record mmu { disk = disk' }))
          × IsMmu (record mmu { disk = disk' }) bytes stored' pages
          × (disk_get_page disk' d ≡ ok (success, some (frame bytes size i)))
          × ((other : ℕ)
              → other < mmu.disk.npages
              → d ≢ other
              → disk_get_page disk' other ≡ disk_get_page mmu.disk other))
  unfolding mmu_sync_to_backing_page
  mmu_sync_to_backing_page_lem = elim (Bool-cases dirty) [
    | inr clean ↦ inl (clean, rw (dirty-found is page i found, clean) refl)
    | inl changed ↦
        let (lt_d, alloc_d) = is.on_disk page d backed in
        elim (disk_set_page_lem is.disk d (drop (i * size) bytes) lt_d
          (omega (arith, is.same_size, drop_long is page i found))) [
            | inl (clear, run) ↦ absurd (ground arith)
            | inr (disk', stored', run, form, shape, reads, others) ↦ inr (
              changed,
              disk',
              stored',
              rw
                  (
                    dirty-found is page i found,
                    changed,
                    translate-found is page i found,
                    backing_page-found is page d backed,
                    mem_data-held is,
                    frame_start is page i found,
                    run,
                  )
                  refl,
              rw shape (disk-IsMmu is stored' (subst (λ x. IsDisk x stored') shape form)),
              reads ∙ ap (λ l. ok (success, some l)) (rw is.same_size (slice-drop is page i found)),
              others,
            )
          ]
  ]

  -- Under the invariant of the MMU, in which the memory and the disk have less than 2 ^ 31 bytes,
  -- mmu_sync_from_backing_page of a page that is in the memory and on the disk succeeds: its frame
  -- becomes equal to its page of the disk, every other frame stays, only the bytes of the memory
  -- change, and the invariant holds.
  pub mmu_sync_from_backing_page_lem :
      (bytes' : List ℕ) × (mmu_sync_from_backing_page mmu page
        ≡ ok (success, record mmu { mem = record (mmu.mem) { bytes = some bytes' } }))
      × IsMmu (record mmu { mem = record (mmu.mem) { bytes = some bytes' } }) bytes' stored pages
      × (frame bytes' size i ≡ frame stored size d)
      × ((j : ℕ) → j < mmu.mem.npages → i ≢ j → frame bytes' size j ≡ frame bytes size j)
  unfolding mmu_sync_from_backing_page
  mmu_sync_from_backing_page_lem =
      let (lt_d, alloc_d) = is.on_disk page d backed in
      let new = frame stored size d in
      let full : length stored ≡ mmu.disk.npages * size =
        is.disk.full ∙ ap (λ n. mmu.disk.npages * n) is.same_size in
      let len : length new ≡ size =
        length-slice stored (d * size) size
          (omega (arith, full, frame_in d mmu.disk.npages size lt_d)) in
      let fits = frame_inside is page i found in
      let bytes' = paste bytes (i * size) new in
      let got : disk_get_page mmu.disk d ≡ ok (success, some new) =
        disk_get_page-frame is.disk d lt_d ∙ rw (alloc_d, is.same_size) refl in
      (
        bytes',
        rw
            (
              translate-found is page i found,
              backing_page-found is page d backed,
              mem_data-held is,
              got,
              frame_start is page i found,
              write_bytes-paste bytes (i * size) new (omega (arith, len)),
            )
            refl,
        memory-IsMmu is bytes' (length-paste bytes (i * size) new (omega (arith, len))),
        frame-paste_same bytes size i new fits len,
        λ j lt ne.
            frame-paste-frame bytes size i new j len fits
              (omega (arith, is.memory.full, frame_in j mmu.mem.npages size lt)) ne,
      )
