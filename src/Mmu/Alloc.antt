-- ===== src/Mmu/Alloc.antt =====
-- `mmu_alloc_page` of vmsim/mmu.c.
use vmsim.Prelude.{
  ℕ, ◌<◌, ◌≡◌, refl, ◌≢◌, true, false, some, none, List, arith, if◌then◌else◌, ◌∙◌, sym, ap,
  Bool-cases, Option-cases, inl, inr, ◌⊎◌,
}
use vmsim.Run.{ok}
use vmsim.Types.{Errcode, success, fail, VirtAddr, page_eq, page_eq_symm, page_eq_trans}
use vmsim.Ipt.{Ipt}
use vmsim.Ipt.Valid.{IsValid, find_page}
use vmsim.Ipt.Lookup.{has_translation-find_page}
use vmsim.Ipt.Added.{ipt_add_lem}
use vmsim.Map.Assoc.{find, insert}
use vmsim.Map.Refine.{map_get_lem, map_set_lem}
use vmsim.Disk.Pages.{allocated}
use vmsim.Mmu.{Mmu, mmu_map_page, mmu_alloc_page}
use vmsim.Mmu.Valid.{IsMmu, page_eq-IsEquality}

module _ {mmu : Mmu} {bytes stored : List ℕ} {pages : List (VirtAddr × ℕ)}
    (is : IsMmu mmu bytes stored pages) (addr : VirtAddr) (d : ℕ)
    (new : find page_eq pages addr ≡ none) (inside : d < mmu.disk.npages)
    (taken : allocated mmu.disk d ≡ true)
    (unused : (b : VirtAddr) → find page_eq pages b ≢ some d) where
  absent : find_page mmu.mem_ipt.entries addr ≡ none
  absent = elim (Option-cases (find_page mmu.mem_ipt.entries addr)) [
    | inl e ↦ e
    | inr (i, found) ↦ let (d', onto) = is.backed addr i found in absurd (ground (arith, new, onto))
  ]

  -- the page gets a frame if there is a free one; either way the table only finds it and the old pages
  map_new :
      (code : Errcode) × (ipt' : Ipt) × (mmu_map_page mmu addr
        ≡ ok (code, record mmu { mem_ipt = ipt' }))
      × IsValid ipt'
      × (ipt'.size ≡ mmu.mem_ipt.size)
      × ((a : VirtAddr)
          → page_eq addr a ≡ false
          → find_page ipt'.entries a ≡ find_page mmu.mem_ipt.entries a)
  unfolding mmu_map_page
  map_new =
      let not_mapped = has_translation-find_page is.table addr in
      elim (ipt_add_lem is.table addr absent) [
        | inl (full, run) ↦
            (fail, mmu.mem_ipt, rw (not_mapped, absent, run) refl, is.table, refl, λ a other. refl)
        | inr (i, ipt', run, has) ↦ (
          success,
          ipt',
          rw (not_mapped, absent, run) refl,
          has.valid,
          has.size,
          λ a other. rw other at (has.finds a),
        )
      ]

  abbrev pages' : List (VirtAddr × ℕ)
  pages' = insert page_eq pages addr d

  module _
      (finds : (k : VirtAddr)
        → find page_eq pages' k ≡ (if page_eq addr k then some d else find page_eq pages k)) where
    -- a page of the new list is the new one or an old one
    which :
        (a : VirtAddr) (e : ℕ)
        → find page_eq pages' a ≡ some e
        → ((page_eq addr a ≡ true) × (e ≡ d))
          ⊎ ((page_eq addr a ≡ false) × (find page_eq pages a ≡ some e))
    which a e p = elim (Bool-cases (page_eq addr a)) [
      | inl hit ↦ inl (hit, ground (arith, finds a, p, hit))
      | inr miss ↦ inr (miss, sym (rw miss at (finds a)) ∙ p)
    ]

    on_disk_new :
        (a : VirtAddr) (e : ℕ)
        → find page_eq pages' a ≡ some e
        → (e < mmu.disk.npages) × (allocated mmu.disk e ≡ true)
    on_disk_new a e p = elim (which a e p) [
      | inl (_, this) ↦ (rw this inside, rw this taken)
      | inr (_, old) ↦ is.on_disk a e old
    ]

    apart_new :
        (a b : VirtAddr) (e : ℕ)
        → find page_eq pages' a ≡ some e
        → find page_eq pages' b ≡ some e
        → page_eq a b ≡ true
    apart_new a b e p q = elim (which a e p) [
      | inl (hit, this) ↦ elim (which b e q) [
        | inl (hit', _) ↦ page_eq_trans a addr b (page_eq_symm a addr ∙ hit) hit'
        | inr (_, old) ↦ absurd (unused b (old ∙ ap some this))
      ]
      | inr (_, old) ↦ elim (which b e q) [
        | inl (_, this) ↦ absurd (unused a (old ∙ ap some this))
        | inr (_, old') ↦ is.apart a b e old old'
      ]
    ]

    backed_new :
        (ipt' : Ipt)
        → ((a : VirtAddr)
            → page_eq addr a ≡ false
            → find_page ipt'.entries a ≡ find_page mmu.mem_ipt.entries a)
        → (a : VirtAddr) (i : ℕ) → find_page ipt'.entries a ≡ some i
        → (e : ℕ) × (find page_eq pages' a ≡ some e)
    backed_new ipt' others a i found = elim (Bool-cases (page_eq addr a)) [
      | inl hit ↦ (d, finds a ∙ rw hit refl)
      | inr miss ↦
          let (e, onto) = is.backed a i (sym (others a miss) ∙ found) in (e, finds a ∙ rw miss onto)
    ]

  -- Under the invariant of the MMU, mmu_alloc_page of a page that is not allocated, with a page of
  -- the disk that is allocated there and no other page has, succeeds whether or not a frame is free:
  -- the map has the page at that page of the disk and every other page where it was, the bytes of
  -- the memory and the disk stay, and the invariant holds.
  pub mmu_alloc_page_lem :
      (mmu' : Mmu) × (mmu_alloc_page mmu addr d ≡ ok (success, mmu'))
      × (mmu'.mem ≡ mmu.mem)
      × (mmu'.disk ≡ mmu.disk)
      × IsMmu mmu' bytes stored (insert page_eq pages addr d)
      × ((k : VirtAddr)
          → find page_eq (insert page_eq pages addr d) k
            ≡ (if page_eq addr k then some d else find page_eq pages k))
  unfolding mmu_alloc_page
  mmu_alloc_page_lem =
      let (code, ipt', mapped, valid, size, others) = map_new in
      let (m', set, held, finds) = map_set_lem page_eq-IsEquality is.map addr d in
      let known = map_get_lem page_eq-IsEquality is.map addr none in
      (
        record mmu { mem_ipt = ipt'; disk_map = m' },
        rw (mapped, known, new, set) refl,
        refl,
        refl,
        record {
          table = valid;
          memory = is.memory;
          frames = size ∙ is.frames;
          positive = is.positive;
          addressed = is.addressed;
          disk = is.disk;
          same_size = is.same_size;
          map = held;
          on_disk = on_disk_new finds;
          apart = apart_new finds;
          backed = backed_new finds ipt' others;
        },
        finds,
      )
