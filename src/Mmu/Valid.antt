-- ===== src/Mmu/Valid.antt =====
-- The invariant of vmsim/mmu.c: the page table, the main memory, the disk and the map fit together.
use vmsim.Prelude.{
  ℕ, ◌+◌, ◌*◌, ◌%◌, ◌^◌, ◌≤◌, ◌<◌, ◌≡◌, refl, true, some, List, arith, drop, length, ◌∙◌,
  length-drop,
}
use vmsim.Run.{ok}
use vmsim.Types.{
  success, VirtAddr, page_eq, page_eq_refl, page_eq_symm, page_eq_trans, unsigned_mod,
}
use vmsim.Bytes.{slice}
use vmsim.Bytes.Frames.{frame, frame_in}
use vmsim.Ipt.{ipt_has_translation, ipt_is_dirty, ipt_translate}
use vmsim.Ipt.Chain.{entry}
use vmsim.Ipt.Valid.{IsValid, find_page, find_page-some}
use vmsim.Ipt.Lookup.{ipt_lookup_lem, has_translation-find_page}
use vmsim.Map.Assoc.{IsEquality, find}
use vmsim.Map.Refine.{IsMap, map_get_lem}
use vmsim.Mm.Frames.{IsMm}
use vmsim.Disk.Pages.{IsDisk, allocated}
use vmsim.Mmu.{Mmu, mem_data, backing_page}

pub page_eq-IsEquality : IsEquality page_eq
page_eq-IsEquality = record {
  refl_law = page_eq_refl;
  symm_law = page_eq_symm;
  trans_law = page_eq_trans;
}

-- `bytes` and `stored` are the bytes of the memory and of the disk; `pages` lists the allocated pages, each
-- with its page of the disk, which is allocated and is no other page's.
pub record IsMmu (mmu : Mmu) (bytes stored : List ℕ) (pages : List (VirtAddr × ℕ)) : Type 0 where
  pub table : IsValid mmu.mem_ipt
  pub memory : IsMm mmu.mem bytes
  pub frames : mmu.mem_ipt.size ≡ mmu.mem.npages
  pub positive : 0 < mmu.mem.page_size
  pub addressed : mmu.mem.npages * mmu.mem.page_size < 2 ^ 31
  pub disk : IsDisk mmu.disk stored
  pub same_size : mmu.disk.page_size ≡ mmu.mem.page_size
  pub map : IsMap page_eq mmu.disk_map pages
  pub on_disk :
      (a : VirtAddr) (d : ℕ)
      → find page_eq pages a ≡ some d
      → (d < mmu.disk.npages) × (allocated mmu.disk d ≡ true)
  pub apart :
      (a b : VirtAddr) (d : ℕ)
      → find page_eq pages a ≡ some d
      → find page_eq pages b ≡ some d
      → page_eq a b ≡ true
  pub backed :
      (a : VirtAddr) (i : ℕ)
      → find_page mmu.mem_ipt.entries a ≡ some i
      → (d : ℕ) × (find page_eq pages a ≡ some d)

module _ {mmu : Mmu} {bytes stored : List ℕ} {pages : List (VirtAddr × ℕ)}
    (is : IsMmu mmu bytes stored pages) where
  pub mem_data-held : mem_data mmu ≡ ok bytes
  unfolding mem_data
  mem_data-held = rw is.memory.held refl

  pub backing_page-found :
      (page : VirtAddr) (d : ℕ) → find page_eq pages page ≡ some d → backing_page mmu page ≡ ok d
  unfolding backing_page
  backing_page-found page d e = rw (map_get_lem page_eq-IsEquality is.map page (some 0), e) refl

  module _ (page : VirtAddr) (i : ℕ) (found : find_page mmu.mem_ipt.entries page ≡ some i) where
    pub has_translation-found : ipt_has_translation mmu.mem_ipt page ≡ ok true
    has_translation-found = has_translation-find_page is.table page ∙ rw found refl

    pub translate-found : ipt_translate mmu.mem_ipt page ≡ ok (success, i)
    translate-found = (ipt_lookup_lem is.table page).1 ∙ rw found refl

    pub dirty-found :
        ipt_is_dirty mmu.mem_ipt page ≡ ok (entry mmu.mem_ipt.entries i).page_data.dirty
    dirty-found = (ipt_lookup_lem is.table page).2 ∙ rw found refl

    pub frame_below : i < mmu.mem.npages
    frame_below =
        let (chains, inv) = is.table in
        omega
          (arith, (find_page-some mmu.mem_ipt.entries page i found).0, inv.entries_size, is.frames)

    pub frame_inside : i * mmu.mem.page_size + mmu.mem.page_size ≤ length bytes
    frame_inside =
        omega (arith, is.memory.full, frame_in i mmu.mem.npages mmu.mem.page_size frame_below)

    pub frame_start : mmu.mem.page_size * i % unsigned_mod ≡ i * mmu.mem.page_size
    frame_start =
        omega (
          arith,
          is.positive,
          is.addressed,
          frame_in i mmu.mem.npages mmu.mem.page_size frame_below,
        )

    pub frame_offset :
        (off : ℕ)
        → off < mmu.mem.page_size
        → (i * mmu.mem.page_size + off) % unsigned_mod ≡ i * mmu.mem.page_size + off
    frame_offset off lt =
        omega (arith, is.addressed, frame_in i mmu.mem.npages mmu.mem.page_size frame_below)

    -- the frame as the code passes it on, a pointer to its first byte
    pub slice-drop :
        slice (drop (i * mmu.mem.page_size) bytes) 0 mmu.mem.page_size
        ≡ frame bytes mmu.mem.page_size i
    unfolding slice drop
    slice-drop = refl

    pub drop_long : mmu.mem.page_size ≤ length (drop (i * mmu.mem.page_size) bytes)
    drop_long = omega (arith, length-drop (i * mmu.mem.page_size) bytes, frame_inside)
