-- ===== src/Prm/Kept.antt =====
-- What swapping out, mapping and loading of vmsim/prm.c do to what the pages hold.
use vmsim.Prelude.{
  ℕ, ◌<◌, ◌≡◌, refl, ◌≢◌, true, false, some, List, ◌∙◌, sym, ap, Option-cases, Bool-cases, inl, inr,
}
use vmsim.Run.{ok}
use vmsim.Types.{success, VirtAddr, page_eq, page_eq_refl}
use vmsim.Bytes.Frames.{frame}
use vmsim.Ipt.{Ipt, PageData}
use vmsim.Ipt.Valid.{find_page, find_page-same, find_page-apart}
use vmsim.Ipt.Removed.{HasRemoved}
use vmsim.Ipt.Added.{HasAdded}
use vmsim.Map.Assoc.{find, find_congr}
use vmsim.Disk.{Disk, disk_get_page}
use vmsim.Mmu.{Mmu}
use vmsim.Mmu.Valid.{IsMmu, page_eq-IsEquality}
use vmsim.Mmu.Pinned.{dirty_at}
use vmsim.Mmu.Contents.{page_bytes, stored_at, stored_page, Keeps, Keeps-in_place, Keeps-out}

module _ {mmu : Mmu} {bytes stored : List ℕ} {pages : List (VirtAddr × ℕ)}
    (is : IsMmu mmu bytes stored pages) (page : VirtAddr) (d : ℕ)
    (onto : find page_eq pages page ≡ some d) where
  -- A disk that differs in the page of `page` only has the same for every other page.
  stored_page-other :
      (disk' : Disk) (b : VirtAddr)
      → page_eq page b ≡ false
      → ((other : ℕ)
          → other < mmu.disk.npages
          → d ≢ other
          → disk_get_page disk' other ≡ disk_get_page mmu.disk other)
      → stored_page disk' pages b ≡ stored_page mmu.disk pages b
  stored_page-other disk' b apart others = elim (Option-cases (find page_eq pages b)) [
    | inl none_b ↦ rw none_b refl
    | inr (db, onto_b) ↦ rw onto_b (
        ap page_bytes (
          others db (is.on_disk b db onto_b).0
            (λ e. cc (sym apart ∙ is.apart page b d onto (onto_b ∙ ap some (sym e))))))
  ]

  pub onto-same : (b : VirtAddr) → page_eq page b ≡ true → find page_eq pages b ≡ some d
  onto-same b same = sym (find_congr page_eq-IsEquality pages page b same) ∙ onto

  -- The page that is swapped out is on the disk, and the other pages stay.
  pub swap_out-Keeps :
      (j : ℕ) {ipt' : Ipt} {disk' : Disk}
      → find_page mmu.mem_ipt.entries page ≡ some j
      → HasRemoved mmu.mem_ipt ipt' page j
      → (dirty_at mmu j ≡ true
          → disk_get_page disk' d ≡ ok (success, some (frame bytes mmu.mem.page_size j)))
      → (dirty_at mmu j ≡ false → disk' ≡ mmu.disk)
      → ((other : ℕ)
          → other < mmu.disk.npages
          → d ≢ other
          → disk_get_page disk' other ≡ disk_get_page mmu.disk other)
      → (b : VirtAddr) → Keeps pages mmu bytes (record mmu { mem_ipt = ipt'; disk = disk' }) bytes b
  swap_out-Keeps j {disk'} found removed dirty clean others b = elim (Bool-cases (page_eq page b)) [
    | inl same ↦
        Keeps-out j (find_page-same page b is.table same found) (removed.finds b ∙ rw same refl)
          (λ c. ap (λ x. stored_page x pages b) (clean c))
          (λ c. ap (stored_at disk') (onto-same b same) ∙ ap page_bytes (dirty c))
    | inr other ↦
        Keeps-in_place (removed.finds b ∙ rw other refl)
          (λ i at_i. (
            ap (λ (p : PageData). p.dirty)
                (removed.others i (find_page-apart mmu.mem_ipt.entries page b other found at_i)),
            refl,
          ))
          (stored_page-other disk' b other others)
  ]

  -- Mapping a page leaves the others in their frames.
  pub map-Keeps :
      (i : ℕ) {ipt' : Ipt}
      → HasAdded mmu.mem_ipt ipt' page i
      → (b : VirtAddr) → page_eq page b ≡ false
      → Keeps pages mmu bytes (record mmu { mem_ipt = ipt' }) bytes b
  map-Keeps i {ipt'} added b other =
      let here = added.finds page ∙ rw (page_eq_refl page) refl in
      let there = added.finds b ∙ rw other refl in
      Keeps-in_place there
        (λ k at_k. (
          ap (λ (p : PageData). p.dirty)
              (added.others k (find_page-apart ipt'.entries page b other here (there ∙ at_k))),
          refl,
        ))
        refl
