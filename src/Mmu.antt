-- ===== src/Mmu.antt =====
-- vmsim/mmu.h, vmsim/mmu.c: the MMU, over the main memory, the disk, the page table and the map from pages
-- to the disk.
pub mod Access
pub mod Valid
pub mod Sync
pub mod Pinned
pub mod Transfer
pub mod Resident
pub mod Alloc
pub mod Free
pub mod Block
pub mod Contents
use vmsim.Prelude.{
  ℕ, zero, suc, ◌+◌, ◌*◌, ◌%◌, Bool, true, false, not, Option, none, some, List, if◌then◌else◌,
  drop, leb,
}
use vmsim.Run.{Run, ok, fault, bad_access, ◌>>=◌, ◌>>◌, assert}
use vmsim.Types.{
  Errcode, success, fail, not_found, is_success, is_fail, is_not_found, VirtAddr, page_eq,
  unsigned_mod,
}
use vmsim.Bytes.{read_bytes, write_bytes}
use vmsim.Ipt.{
  Ipt, PageData, RefType, ref_read, ref_write, ipt_init, ipt_has_translation, ipt_is_dirty, ipt_add,
  ipt_remove, ipt_translate, ipt_for_each_entry,
}
use vmsim.Map.{Map, map_init, map_set, map_get, map_remove}
use vmsim.Mm.{Mm}
use vmsim.Disk.{Disk, disk_set_page, disk_get_page}

-- `mmu_stats_t`
pub record MmuStats : Type 0 where
  pub nrefs : ℕ
  pub hits : ℕ

-- `mmu_t`; the memory and the disk stand in it in place of pointers to them
pub record Mmu : Type 0 where
  pub mem : Mm
  pub disk : Disk
  pub mem_ipt : Ipt
  pub disk_map : Map VirtAddr ℕ
  pub aging_freq : ℕ
  pub stats : MmuStats

unfoldable pub disk_map_comparator : VirtAddr → VirtAddr → Bool
disk_map_comparator k1 k2 = not (page_eq k1 k2)

-- the Booleans are those of `ipt_init`
unfoldable pub mmu_init : Bool → Bool → Bool → Mm → Disk → ℕ → Errcode × Option Mmu
mmu_init entries_ok hat_ok lock_ok mem disk aging_freq =
    let (code, ipt) = ipt_init entries_ok hat_ok lock_ok mem.npages in
    elim ipt [
      | none ↦ (code, none)
      | some mem_ipt ↦ (
        success,
        some (record {
          mem = mem;
          disk = disk;
          mem_ipt = mem_ipt;
          disk_map = (map_init disk_map_comparator).1;
          aging_freq = aging_freq;
          stats = record { nrefs = 0; hits = 0 };
        }),
      )
    ]

unfoldable pub mmu_map_page : Mmu → VirtAddr → Run (Errcode × Mmu)
mmu_map_page mmu addr = do
  found ← ipt_has_translation mmu.mem_ipt addr
  assert (not found)
  (code, ipt) ← ipt_add mmu.mem_ipt addr
  ok (code, record mmu { mem_ipt = ipt })

unfoldable pub mmu_unmap_page : Mmu → VirtAddr → Run (Errcode × Mmu)
mmu_unmap_page mmu page = do
  (code, ipt) ← ipt_remove mmu.mem_ipt page
  assert (not (is_fail code))
  ok (code, record mmu { mem_ipt = ipt })

-- the code of `mmu_map_page` is not looked at
unfoldable pub mmu_alloc_page : Mmu → VirtAddr → ℕ → Run (Errcode × Mmu)
mmu_alloc_page mmu addr backing_page = do
  (_, mmu₁) ← mmu_map_page mmu addr
  (known, _) ← map_get mmu₁.disk_map addr none
  assert (is_not_found known)
  (code, disk_map) ← map_set mmu₁.disk_map addr backing_page
  assert (is_success code)
  ok (code, record mmu₁ { disk_map = disk_map })

unfoldable pub mmu_free_page : Mmu → VirtAddr → Run (Errcode × Mmu)
mmu_free_page mmu page = do
  (known, _) ← map_get mmu.disk_map page none
  assert (not (is_not_found known))
  (_, mmu₁) ← mmu_unmap_page mmu page
  (_, disk_map) ← map_remove mmu₁.disk_map page
  ok (success, record mmu₁ { disk_map = disk_map })

abbrev pub next_page : VirtAddr → VirtAddr
next_page addr = record addr { page = (addr.page + 1) % unsigned_mod }

-- the `for` of `mmu_alloc_multiple`, from `disk_page` on; the offset of `cur_vaddr` is not initialised, so
-- it is what `addr` has
unfoldable pub mmu_alloc_multiple : ℕ → Mmu → VirtAddr → ℕ → Run (Errcode × Mmu)
mmu_alloc_multiple zero mmu addr disk_page = ok (success, mmu)
mmu_alloc_multiple (suc npages) mmu addr disk_page = do
  (code, mmu₁) ← mmu_alloc_page mmu addr disk_page
  let rest = mmu_alloc_multiple npages mmu₁ (next_page addr) (disk_page + 1)
  if is_success code then rest else ok (code, mmu₁)

-- the `for` of `mmu_free_multiple`
unfoldable pub mmu_free_multiple : ℕ → Mmu → VirtAddr → Run (Errcode × Mmu)
mmu_free_multiple zero mmu addr = ok (success, mmu)
mmu_free_multiple (suc npages) mmu addr = do
  (code, mmu₁) ← mmu_free_page mmu addr
  let rest = mmu_free_multiple npages mmu₁ (next_page addr)
  if is_success code then rest else ok (code, mmu₁)

-- `MM_DATA(mmu->mem)`, which nothing tests here
unfoldable pub mem_data : Mmu → Run (List ℕ)
mem_data mmu = elim mmu.mem.bytes [ none ↦ fault bad_access | some bytes ↦ ok bytes ]

-- the frame of the page and its page on the disk
unfoldable pub backing_page : Mmu → VirtAddr → Run ℕ
backing_page mmu page = do
  (code, found) ← map_get mmu.disk_map page (some 0)
  assert (not (is_not_found code))
  elim found [ none ↦ fault bad_access | some disk_page ↦ ok disk_page ]

-- the code of `disk_set_page` is returned
unfoldable pub mmu_sync_to_backing_page : Mmu → VirtAddr → Run (Errcode × Mmu)
mmu_sync_to_backing_page mmu page = do
  dirty ← ipt_is_dirty mmu.mem_ipt page
  let copy = (do
    (_, mem_page) ← ipt_translate mmu.mem_ipt page
    disk_page ← backing_page mmu page
    bytes ← mem_data mmu
    (code, disk) ←
        disk_set_page mmu.disk disk_page (drop (mmu.mem.page_size * mem_page % unsigned_mod) bytes)
    ok (code, record mmu { disk = disk }))
  if not dirty then ok (success, mmu) else copy

unfoldable pub mmu_sync_from_backing_page : Mmu → VirtAddr → Run (Errcode × Mmu)
mmu_sync_from_backing_page mmu page = do
  (_, mem_page) ← ipt_translate mmu.mem_ipt page
  disk_page ← backing_page mmu page
  bytes ← mem_data mmu
  (code, data_read) ← disk_get_page mmu.disk disk_page
  elim data_read [
    | none ↦ ok (code, mmu)
    | some new ↦ do
      bytes' ← write_bytes bytes (mmu.mem.page_size * mem_page % unsigned_mod) new
      ok (code, record mmu { mem = record (mmu.mem) { bytes = some bytes' } })
  ]

module _ {S : Type 0} (func : ℕ → PageData → S → PageData × S) where
  unfoldable pub mmu_for_each_mem_page : Mmu → S → Errcode × Mmu × S
  mmu_for_each_mem_page mmu s =
      let (code, ipt, s') = ipt_for_each_entry func mmu.mem_ipt s in
      (code, record mmu { mem_ipt = ipt }, s')

unfoldable pub mmu_get_stats : Mmu → MmuStats
mmu_get_stats mmu = mmu.stats
