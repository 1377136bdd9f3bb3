-- ===== src/Prm/Swap.antt =====
-- Mapping a page, and swapping a page out: `mmu_map_page` of vmsim/mmu.c and `prm_swap_out` of vmsim/prm.c.
use vmsim.Prelude.{
  ℕ, ◌<◌, ◌≡◌, refl, ◌≢◌, true, false, some, none, List, [], arith, ◌∙◌, sym, subst, Bool-cases,
  inl, inr, ◌⊎◌,
}
use vmsim.Run.{ok}
use vmsim.Types.{success, fail, VirtAddr, page_eq}
use vmsim.Bytes.Frames.{frame}
use vmsim.Ipt.{Ipt}
use vmsim.Ipt.Chain.{entry}
use vmsim.Ipt.Valid.{IsValid, find_page}
use vmsim.Ipt.Lookup.{has_translation-find_page}
use vmsim.Ipt.Added.{HasAdded, ipt_add_lem}
use vmsim.Ipt.Removed.{HasRemoved, ipt_remove_lem}
use vmsim.Map.Assoc.{find, find_congr}
use vmsim.Disk.{Disk, disk_get_page}
use vmsim.Mmu.{Mmu, mmu_map_page, mmu_unmap_page}
use vmsim.Mmu.Valid.{IsMmu, page_eq-IsEquality}
use vmsim.Mmu.Sync.{mmu_sync_to_backing_page_lem}
use vmsim.Prm.{prm_swap_out}

-- another valid table that finds only pages with a page on the disk
pub ipt-IsMmu :
    {mmu : Mmu} {bytes stored : List ℕ} {pages : List (VirtAddr × ℕ)}
    → IsMmu mmu bytes stored pages
    → (ipt' : Ipt) → IsValid ipt'
    → ipt'.size ≡ mmu.mem_ipt.size
    → ((a : VirtAddr) (i : ℕ)
        → find_page ipt'.entries a ≡ some i
        → (d : ℕ) × (find page_eq pages a ≡ some d))
    → IsMmu (record mmu { mem_ipt = ipt' }) bytes stored pages
ipt-IsMmu is ipt' valid size backed = record {
  table = valid;
  memory = is.memory;
  frames = size ∙ is.frames;
  positive = is.positive;
  addressed = is.addressed;
  disk = is.disk;
  same_size = is.same_size;
  map = is.map;
  on_disk = is.on_disk;
  apart = is.apart;
  backed = backed;
}

module _ {mmu : Mmu} {bytes stored : List ℕ} {pages : List (VirtAddr × ℕ)}
    (is : IsMmu mmu bytes stored pages) where
  -- Mapping a page that has a page on the disk but no frame: it fails if no frame is free, and otherwise the
  -- page gets a frame and the invariant holds.
  pub map_page_lem :
      (addr : VirtAddr) (d : ℕ)
      → find_page mmu.mem_ipt.entries addr ≡ none
      → find page_eq pages addr ≡ some d
      → ((mmu.mem_ipt.free_pages ≡ []) × (mmu_map_page mmu addr ≡ ok (fail, mmu)))
        ⊎ ((i : ℕ) × (ipt' : Ipt) × (mmu_map_page mmu addr
              ≡ ok (success, record mmu { mem_ipt = ipt' }))
            × HasAdded mmu.mem_ipt ipt' addr i
            × IsMmu (record mmu { mem_ipt = ipt' }) bytes stored pages)
  unfolding mmu_map_page
  map_page_lem addr d absent onto =
      let not_mapped = has_translation-find_page is.table addr in
      elim (ipt_add_lem is.table addr absent) [
        | inl (full, run) ↦ inl (full, rw (not_mapped, absent, run) refl)
        | inr (i, ipt', run, has) ↦ inr (
          i,
          ipt',
          rw (not_mapped, absent, run) refl,
          has,
          ipt-IsMmu is ipt' has.valid has.size (λ a k e. elim (Bool-cases (page_eq addr a)) [
            | inl this ↦ (d, sym (find_congr page_eq-IsEquality pages addr a this) ∙ onto)
            | inr other ↦ is.backed a k (sym (rw other at (has.finds a)) ∙ e)
          ]),
        )
      ]

  -- Unmapping a page that has a frame.
  pub unmap_page_lem :
      (page : VirtAddr) (j : ℕ)
      → find_page mmu.mem_ipt.entries page ≡ some j
      → (ipt' : Ipt) × (mmu_unmap_page mmu page ≡ ok (success, record mmu { mem_ipt = ipt' }))
        × HasRemoved mmu.mem_ipt ipt' page j
        × IsMmu (record mmu { mem_ipt = ipt' }) bytes stored pages
  unfolding mmu_unmap_page
  unmap_page_lem page j found = elim (ipt_remove_lem is.table page) [
    | inl (absent, run) ↦ absurd (ground (arith, absent, found))
    | inr (i, ipt', found', run, has) ↦
        let same : i ≡ j = ground (arith, found, found') in
        (
          ipt',
          rw run refl,
          subst (λ n. HasRemoved mmu.mem_ipt ipt' page n) same has,
          ipt-IsMmu is ipt' has.valid has.size (λ a k e. elim (Bool-cases (page_eq page a)) [
            | inl this ↦ absurd (ground (arith, has.finds a, e, this))
            | inr other ↦ is.backed a k (sym (rw other at (has.finds a)) ∙ e)
          ]),
        )
  ]

-- Under the invariant of the MMU, in which the memory and the disk have less than 2 ^ 31 bytes,
-- prm_swap_out of a page that is in the memory and on the disk ends without a fault: the page is
-- unmapped and its frame goes to the end of the free ones; if it was dirty, its page of the disk
-- reads as the frame, and if not the disk stays; every other page of the disk reads as before, and
-- the invariant holds.
pub prm_swap_out_lem :
    {mmu : Mmu} {bytes stored : List ℕ} {pages : List (VirtAddr × ℕ)}
    (is : IsMmu mmu bytes stored pages) (page : VirtAddr) (j d : ℕ)
    → find_page mmu.mem_ipt.entries page ≡ some j
    → find page_eq pages page ≡ some d
    → (ipt' : Ipt) × (disk' : Disk) × (stored' : List ℕ) × (prm_swap_out mmu page
        ≡ ok (record mmu { mem_ipt = ipt'; disk = disk' }))
      × HasRemoved mmu.mem_ipt ipt' page j
      × IsMmu (record mmu { mem_ipt = ipt'; disk = disk' }) bytes stored' pages
      × ((entry mmu.mem_ipt.entries j).page_data.dirty ≡ true
          → disk_get_page disk' d ≡ ok (success, some (frame bytes mmu.mem.page_size j)))
      × ((entry mmu.mem_ipt.entries j).page_data.dirty ≡ false → disk' ≡ mmu.disk)
      × ((other : ℕ)
          → other < mmu.disk.npages
          → d ≢ other
          → disk_get_page disk' other ≡ disk_get_page mmu.disk other)
unfolding prm_swap_out
prm_swap_out_lem {mmu} {bytes} {stored} is page j d found onto =
    elim (mmu_sync_to_backing_page_lem is page j d found onto) [
      | inl (clean, synced) ↦
          let (ipt', unmapped, has, is') = unmap_page_lem is page j found in
          (
            ipt',
            mmu.disk,
            stored,
            rw (synced, unmapped) refl,
            has,
            is',
            (λ dirty. absurd (ground arith)),
            (λ clean. refl),
            λ other lt ne. refl,
          )
      | inr (changed, disk', stored', synced, is₁, reads, others) ↦
          let (ipt', unmapped, has, is') = unmap_page_lem is₁ page j found in
          (
            ipt',
            disk',
            stored',
            rw (synced, unmapped) refl,
            has,
            is',
            (λ dirty. reads),
            (λ clean. absurd (ground arith)),
            others,
          )
    ]
