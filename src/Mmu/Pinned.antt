-- ===== src/Mmu/Pinned.antt =====
-- What an access of a pinned page does to the page table of vmsim/mmu.c: the reference and the aging.
use vmsim.Prelude.{
  ℕ, ◌≡◌, refl, true, false, List, arith, ◌∙◌, sym, ap, leb, Bool-cases, inl, inr, Bool,
  if◌then◌else◌, ◌==◌, subst,
}
use vmsim.Run.{ok}
use vmsim.Types.{success, VirtAddr}
use vmsim.Ipt.{Ipt, PageData, RefType, ipt_ref_count, ipt_zero_ref_count}
use vmsim.Ipt.Valid.{IsValid, find_page}
use vmsim.Ipt.Same.{SameTable, SameTable-IsValid, SameTable-find_page, SameTable-trans}
use vmsim.Ipt.Reference.{HasReferenced, mark}
use vmsim.Ipt.Chain.{entry}
use vmsim.Ipt.Visit.{visited}
use vmsim.Aging.{age_page}
use vmsim.Aging.{Flags}
use vmsim.Aging.Order.{aging_daemon_update_pages_lem}
use vmsim.Mmu.{Mmu, MmuStats}
use vmsim.Mmu.Access.{mmu_age_pages_if_needed}
use vmsim.Mmu.Valid.{IsMmu}

abbrev pub dirty_at : Mmu → ℕ → Bool
dirty_at mmu k = (entry mmu.mem_ipt.entries k).page_data.dirty

-- what no access of the page in frame `i` changes once it is pinned, and the dirty bits
pub record HasAccessed (r : RefType) (i : ℕ) (mmu mmu' : Mmu) : Type 0 where
  pub disk : mmu'.disk ≡ mmu.disk
  pub map : mmu'.disk_map ≡ mmu.disk_map
  pub page_size : mmu'.mem.page_size ≡ mmu.mem.page_size
  pub npages : mmu'.mem.npages ≡ mmu.mem.npages
  pub stats : mmu'.stats ≡ mmu.stats
  pub finds : (b : VirtAddr) → find_page mmu'.mem_ipt.entries b ≡ find_page mmu.mem_ipt.entries b
  pub dirty :
      (k : ℕ)
      → dirty_at mmu' k ≡ (
          if i == k then (mark r (entry mmu.mem_ipt.entries k).page_data).dirty else dirty_at mmu k)

-- a valid table that finds the same pages, and other statistics, keep the invariant
pub table-IsMmu :
    {mmu : Mmu} {bytes stored : List ℕ} {pages : List (VirtAddr × ℕ)}
    → IsMmu mmu bytes stored pages
    → (ipt' : Ipt) (stats' : MmuStats) → IsValid ipt'
    → ipt'.size ≡ mmu.mem_ipt.size
    → ((b : VirtAddr) → find_page ipt'.entries b ≡ find_page mmu.mem_ipt.entries b)
    → IsMmu (record mmu { mem_ipt = ipt'; stats = stats' }) bytes stored pages
table-IsMmu is ipt' stats' valid size finds = record {
  table = valid;
  memory = is.memory;
  frames = size ∙ is.frames;
  positive = is.positive;
  addressed = is.addressed;
  disk = is.disk;
  same_size = is.same_size;
  map = is.map;
  on_disk = is.on_disk;
  apart = is.apart;
  backed = λ a i e. is.backed a i (sym (finds a) ∙ e);
}

zeroed-SameTable : (ipt : Ipt) → SameTable ipt (record ipt { ref_count = 0 })
zeroed-SameTable ipt = record {
  len = refl;
  hat = refl;
  size = refl;
  free = refl;
  next = λ j. refl;
  prev = λ j. refl;
  valid = λ j. refl;
  addr = λ j. refl;
}

visited-dirty : (page : PageData) → (visited age_page page).dirty ≡ page.dirty
unfolding age_page
visited-dirty page = ground arith

-- Aging, if it is due, ends and changes nothing but the table, which finds the same pages.
pub age_if_needed :
    (flags : Flags) (mmu : Mmu)
    → IsValid mmu.mem_ipt
    → (flags' : Flags) × (ipt' : Ipt) × (mmu_age_pages_if_needed true flags mmu
        ≡ ok (success, flags', record mmu { mem_ipt = ipt' }))
      × IsValid ipt'
      × (ipt'.size ≡ mmu.mem_ipt.size)
      × ((b : VirtAddr) → find_page ipt'.entries b ≡ find_page mmu.mem_ipt.entries b)
      × ((k : ℕ) → (entry ipt'.entries k).page_data.dirty ≡ dirty_at mmu k)
unfolding mmu_age_pages_if_needed ipt_ref_count ipt_zero_ref_count
age_if_needed flags mmu valid = elim (Bool-cases (leb mmu.aging_freq mmu.mem_ipt.ref_count)) [
  | inr early ↦ (flags, mmu.mem_ipt, rw early refl, valid, refl, (λ b. refl), λ k. refl)
  | inl due ↦
      let zeroed = zeroed-SameTable mmu.mem_ipt in
      let (ipt', run, valid', same, aged) =
        aging_daemon_update_pages_lem (SameTable-IsValid zeroed valid) flags in
      let both = SameTable-trans zeroed same in
      (
        record { should_update = false; done_updating = true },
        ipt',
        rw (due, run) refl,
        valid',
        both.size,
        SameTable-find_page both valid,
        λ k. rw (aged k) (visited-dirty (entry mmu.mem_ipt.entries k).page_data),
      )
]

pub HasReferenced-dirty :
    {ipt ipt' : Ipt} {r : RefType} {i : ℕ}
    → HasReferenced ipt ipt' r i
    → (k : ℕ)
    → (entry ipt'.entries k).page_data.dirty ≡ (
        if i == k
        then (mark r (entry ipt.entries k).page_data).dirty
        else (entry ipt.entries k).page_data.dirty)
HasReferenced-dirty {ipt} {ipt'} {r} {i} has k = elim (Bool-cases (i == k)) [
  | inl same ↦
      let e : i ≡ k = ground arith in
      rw same (
        subst
          (λ n.
            (entry ipt'.entries n).page_data.dirty ≡ (mark r (entry ipt.entries n).page_data).dirty)
          e (ap (λ (d : PageData). d.dirty) has.page))
  | inr other ↦ rw other (ap (λ (d : PageData). d.dirty) (has.others k other))
]
