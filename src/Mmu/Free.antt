-- ===== src/Mmu/Free.antt =====
-- `mmu_free_page` of vmsim/mmu.c.
use vmsim.Prelude.{
  ℕ, ◌≡◌, refl, true, Option, some, none, List, arith, if◌then◌else◌, ◌∙◌, sym, Bool-cases,
  Option-cases, inl, inr,
}
use vmsim.Run.{ok}
use vmsim.Types.{
  Errcode, success, not_found, VirtAddr, page_eq, page_eq_refl, page_eq_symm, page_eq_trans,
}
use vmsim.Ipt.{Ipt}
use vmsim.Ipt.Valid.{IsValid, find_page, find_page-some, find_page-eq, addr_at}
use vmsim.Ipt.Removed.{ipt_remove_lem}
use vmsim.Map.Assoc.{find, delete}
use vmsim.Map.Refine.{map_get_lem, map_remove_lem}
use vmsim.Mmu.{Mmu, mmu_unmap_page, mmu_free_page}
use vmsim.Mmu.Valid.{IsMmu, page_eq-IsEquality}

-- A table that finds no frame for a page finds none for the same page under another offset.
find_page-same :
    {ipt : Ipt} (valid : IsValid ipt) (a b : VirtAddr) (i : ℕ)
    → page_eq a b ≡ true
    → find_page ipt.entries b ≡ some i
    → find_page ipt.entries a ≡ some i
find_page-same {ipt} (chains, inv) a b i same found =
    let (lt, hit) = find_page-some ipt.entries b i found in
    find_page-eq inv a i (omega (arith, inv.entries_size)) (
      ground (
        arith,
        hit,
        page_eq_trans (addr_at ipt.entries i) b a (ground arith) (page_eq_symm b a ∙ same),
      ))

module _ {mmu : Mmu} {bytes stored : List ℕ} {pages : List (VirtAddr × ℕ)}
    (is : IsMmu mmu bytes stored pages) (page : VirtAddr) (d : ℕ)
    (onto : find page_eq pages page ≡ some d) where
  -- the page has no frame afterwards, and the other pages keep theirs
  unmap_old :
      (code : Errcode) × (ipt' : Ipt) × (mmu_unmap_page mmu page
        ≡ ok (code, record mmu { mem_ipt = ipt' }))
      × IsValid ipt'
      × (ipt'.size ≡ mmu.mem_ipt.size)
      × ((a : VirtAddr)
          → find_page ipt'.entries a
            ≡ (if page_eq page a then none else find_page mmu.mem_ipt.entries a))
  unfolding mmu_unmap_page
  unmap_old = elim (ipt_remove_lem is.table page) [
    | inl (gone, run) ↦ (
      not_found,
      mmu.mem_ipt,
      rw run refl,
      is.table,
      refl,
      λ a. elim (Bool-cases (page_eq page a)) [
        | inr other ↦ rw other refl
        | inl same ↦ elim (Option-cases (find_page mmu.mem_ipt.entries a)) [
          | inl e ↦ rw (same, e) refl
          | inr (i, found) ↦
              absurd (ground (arith, gone, find_page-same is.table page a i same found))
        ]
      ],
    )
    | inr (i, ipt', found, run, has) ↦ (success, ipt', rw run refl, has.valid, has.size, has.finds)
  ]

  -- Under the invariant of the MMU, mmu_free_page of an allocated page succeeds whether or not the
  -- page has a frame: the map and the page table have the page no more and every other allocated
  -- page where the map had it, the bytes of the memory and the disk stay, and the invariant holds.
  pub mmu_free_page_lem :
      (mmu' : Mmu) × (mmu_free_page mmu page ≡ ok (success, mmu'))
      × (mmu'.mem ≡ mmu.mem)
      × (mmu'.disk ≡ mmu.disk)
      × IsMmu mmu' bytes stored (delete page_eq pages page)
      × (find_page mmu'.mem_ipt.entries page ≡ none)
      × ((k : VirtAddr)
          → find page_eq (delete page_eq pages page) k
            ≡ (if page_eq page k then none else find page_eq pages k))
  unfolding mmu_free_page
  mmu_free_page_lem =
      let (code, ipt', unmapped, valid, size, finds_frame) = unmap_old in
      let known = map_get_lem page_eq-IsEquality is.map page none in
      elim (map_remove_lem page_eq-IsEquality is.map page) [
        | inl (gone, _) ↦ absurd (ground (arith, gone, onto))
        | inr (u, m', there, removed, held, finds) ↦
            let old : (a : VirtAddr) (e : ℕ)
                → find page_eq (delete page_eq pages page) a ≡ some e
                → find page_eq pages a ≡ some e =
              λ a e p. ground (arith, finds a, p) in
            (
              record mmu { mem_ipt = ipt'; disk_map = m' },
              rw (known, onto, unmapped, removed) refl,
              refl,
              refl,
              record {
                table = valid;
                memory = is.memory;
                frames = size ∙ is.frames;
                positive = is.positive;
                addressed = is.addressed;
                disk = is.disk;
                same_size = is.same_size;
                map = held;
                on_disk = λ a e p. is.on_disk a e (old a e p);
                apart = λ a b e p q. is.apart a b e (old a e p) (old b e q);
                backed = λ a i p. kept finds finds_frame a i p;
              },
              finds_frame page ∙ rw (page_eq_refl page) refl,
              finds,
            )
      ]
    where
      kept :
          {f g : VirtAddr → Option ℕ}
          → ((k : VirtAddr) → f k ≡ (if page_eq page k then none else find page_eq pages k))
          → ((a : VirtAddr)
              → g a ≡ (if page_eq page a then none else find_page mmu.mem_ipt.entries a))
          → (a : VirtAddr) (i : ℕ) → g a ≡ some i
          → (e : ℕ) × (f a ≡ some e)
      kept fd gd a i p = elim (Bool-cases (page_eq page a)) [
        | inl hit ↦ absurd (ground (arith, gd a, p, hit))
        | inr miss ↦
            let (e, onto') = is.backed a i (sym (rw miss at (gd a)) ∙ p) in
            (e, fd a ∙ rw miss onto')
      ]
