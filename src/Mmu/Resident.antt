-- ===== src/Mmu/Resident.antt =====
-- `mmu_read` and `mmu_write` of vmsim/mmu.c on a page that is in the main memory.
use vmsim.Prelude.{
  ℕ, ◌+◌, ◌*◌, ◌≤◌, ◌<◌, ◌≡◌, refl, ◌≢◌, true, some, List, length, ap, if◌then◌else◌, ◌==◌,
}
use vmsim.Run.{Run, ok}
use vmsim.Types.{Errcode, success, VirtAddr}
use vmsim.Bytes.{slice, paste}
use vmsim.Bytes.Frames.{frame}
use vmsim.Ipt.{RefType, ref_read, ref_write}
use vmsim.Ipt.Valid.{find_page}
use vmsim.Ipt.Reference.{mark}
use vmsim.Ipt.Chain.{entry}
use vmsim.Aging.{Flags}
use vmsim.Mmu.{Mmu, MmuStats}
use vmsim.Mmu.Access.{HasRoom, count_hit-with_hit, with_hit, mmu_pin_page, mmu_read, mmu_write}
use vmsim.Mmu.Valid.{IsMmu, has_translation-found}
use vmsim.Mmu.Pinned.{dirty_at, HasAccessed, table-IsMmu}
use vmsim.Mmu.Transfer.{mmu_read-pinned, mmu_write-pinned}

-- what no access of the page in frame `i` changes, and the dirty bits
pub record HasHit (r : RefType) (i : ℕ) (mmu mmu' : Mmu) : Type 0 where
  pub disk : mmu'.disk ≡ mmu.disk
  pub map : mmu'.disk_map ≡ mmu.disk_map
  pub page_size : mmu'.mem.page_size ≡ mmu.mem.page_size
  pub npages : mmu'.mem.npages ≡ mmu.mem.npages
  pub finds : (b : VirtAddr) → find_page mmu'.mem_ipt.entries b ≡ find_page mmu.mem_ipt.entries b
  pub dirty :
      (k : ℕ)
      → dirty_at mmu' k ≡ (
          if i == k then (mark r (entry mmu.mem_ipt.entries k).page_data).dirty else dirty_at mmu k)

HasAccessed-HasHit :
    {r : RefType} {i : ℕ} {mmu mmu' : Mmu}
    → HasAccessed r i (with_hit mmu) mmu'
    → HasHit r i mmu mmu'
HasAccessed-HasHit has = record {
  disk = has.disk;
  map = has.map;
  page_size = has.page_size;
  npages = has.npages;
  finds = has.finds;
  dirty = has.dirty;
}

module _ {S : Type 0} (pagefault : S → Mmu → VirtAddr → Run (Errcode × S × Mmu)) (rounds : ℕ)
    (flags : Flags) (s : S) {mmu : Mmu} {bytes stored : List ℕ} {pages : List (VirtAddr × ℕ)}
    (is : IsMmu mmu bytes stored pages) (addr : VirtAddr) (i : ℕ)
    (found : find_page mmu.mem_ipt.entries addr ≡ some i) (room : HasRoom 1 mmu.stats) where
  abbrev size : ℕ
  size = mmu.mem.page_size

  -- the address in the memory
  abbrev pub place : ℕ
  place = i * size + addr.offset

  pin_hit : mmu_pin_page pagefault rounds s mmu addr ≡ ok (success, s, with_hit mmu)
  unfolding mmu_pin_page
  pin_hit = rw (has_translation-found is addr i found, count_hit-with_hit mmu room) refl

  hit_valid : IsMmu (with_hit mmu) bytes stored pages
  hit_valid = table-IsMmu is mmu.mem_ipt (with_hit mmu).stats is.table refl (λ b. refl)

  -- Under the invariant of the MMU and with the aging daemon running, mmu_read of bytes that fit
  -- within a page in the memory succeeds and gives the bytes at the place of the page; the memory,
  -- the disk and the map stay, every page is found where it was, no dirty bit changes, and the
  -- invariant holds.
  pub mmu_read_lem :
      (n : ℕ)
      → addr.offset + n ≤ mmu.mem.page_size
      → addr.offset < mmu.mem.page_size
      → (flags' : Flags) × (mmu' : Mmu) × (mmu_read pagefault rounds true flags s mmu addr n
          ≡ ok (success, slice bytes place n, flags', s, mmu'))
        × IsMmu mmu' bytes stored pages
        × HasHit ref_read i mmu mmu'
  mmu_read_lem n fits inside =
      let (flags', mmu', run, is', has) =
        mmu_read-pinned pagefault rounds flags s s mmu hit_valid addr i found pin_hit refl n fits
          inside in
      (flags', mmu', run, is', HasAccessed-HasHit has)

  -- Under the invariant of the MMU and with the aging daemon running, mmu_write of bytes that fit
  -- within a page in the memory, with counters of the statistics below 2 ^ 31 - 1, succeeds: the
  -- bytes at the place of the page become those of the buffer, every other frame, the disk and the
  -- map stay, every page is found where it was, the dirty bit of the page is set and no other
  -- changes, one reference and one hit are counted, and the invariant holds.
  pub mmu_write_lem :
      (buf : List ℕ)
      → addr.offset + length buf ≤ mmu.mem.page_size
      → addr.offset < mmu.mem.page_size
      → (flags' : Flags) × (mmu' : Mmu) × (mmu_write pagefault rounds true flags s mmu addr buf
          ≡ ok (success, flags', s, mmu'))
        × IsMmu mmu' (paste bytes place buf) stored pages
        × HasHit ref_write i mmu mmu'
        × (mmu'.stats.nrefs ≡ mmu.stats.nrefs + 1)
        × (mmu'.stats.hits ≡ mmu.stats.hits + 1)
        × ((j : ℕ)
            → j < mmu.mem.npages
            → i ≢ j
            → frame (paste bytes place buf) mmu.mem.page_size j ≡ frame bytes mmu.mem.page_size j)
  mmu_write_lem buf fits inside =
      let (flags', mmu', run, is', has, frames) =
        mmu_write-pinned pagefault rounds flags s s mmu hit_valid addr i found pin_hit refl buf fits
          inside in
      (
        flags',
        mmu',
        run,
        is',
        HasAccessed-HasHit has,
        ap (λ (x : MmuStats). x.nrefs) has.stats,
        ap (λ (x : MmuStats). x.hits) has.stats,
        frames,
      )
