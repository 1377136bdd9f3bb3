-- ===== src/Mmu/Block.antt =====
-- `mmu_alloc_multiple` and `mmu_free_multiple` of vmsim/mmu.c: a block of pages with one number after another.
use vmsim.Prelude.{
  ℕ, zero, suc, ◌+◌, ◌-◌, ◌≤◌, ◌<◌, ◌≡◌, refl, ◌≢◌, Bool, true, ◌&&◌, Option, some, none, List,
  arith, ◌==◌, if◌then◌else◌, ltb, leb, ◌∙◌, ap,
}
use mathlib.Core.Path.{fun_ext}
use vmsim.Run.{ok}
use vmsim.Types.{success, VirtAddr, page_eq, unsigned_mod}
use vmsim.Map.Assoc.{find}
use vmsim.Disk.Pages.{allocated}
use vmsim.Mmu.{Mmu, next_page, mmu_alloc_multiple, mmu_free_multiple}
use vmsim.Mmu.Valid.{IsMmu}
use vmsim.Mmu.Alloc.{mmu_alloc_page_lem}
use vmsim.Mmu.Free.{mmu_free_page_lem}

-- `k` is one of the `n` pages from `addr` on
abbrev pub in_block : ℕ → VirtAddr → VirtAddr → Bool
in_block n addr k = (addr.pid == k.pid) && (leb addr.page k.page && ltb k.page (addr.page + n))

-- the page of the disk for a page of a block that starts at `d`
abbrev pub onto_block : ℕ → VirtAddr → ℕ → (VirtAddr → Option ℕ) → VirtAddr → Option ℕ
onto_block n addr d old k = if in_block n addr k then some (d + (k.page - addr.page)) else old k

abbrev pub without_block : ℕ → VirtAddr → (VirtAddr → Option ℕ) → VirtAddr → Option ℕ
without_block n addr old k = if in_block n addr k then none else old k

onto_block-suc :
    (n : ℕ) (addr : VirtAddr) (d : ℕ) (old : VirtAddr → Option ℕ) (k : VirtAddr)
    → addr.page + suc n ≤ unsigned_mod
    → onto_block n (next_page addr) (d + 1) (λ a. if page_eq addr a then some d else old a) k
      ≡ onto_block (suc n) addr d old k
unfolding page_eq
onto_block-suc n addr d old k fits = ground arith

-- the pages are not allocated, and their pages of the disk are, for no other page
pub record HasRoom (mmu : Mmu) (pages : List (VirtAddr × ℕ)) (n : ℕ) (addr : VirtAddr) (d : ℕ)
    : Type 0 where
  pub fits : addr.page + n ≤ unsigned_mod
  pub new : (k : VirtAddr) → in_block n addr k ≡ true → find page_eq pages k ≡ none
  pub inside : (e : ℕ) → d ≤ e → e < d + n → e < mmu.disk.npages
  pub taken : (e : ℕ) → d ≤ e → e < d + n → allocated mmu.disk e ≡ true
  pub unused : (e : ℕ) → d ≤ e → e < d + n → (b : VirtAddr) → find page_eq pages b ≢ some e

-- the room that is left after the first page
HasRoom-next :
    {mmu mmu' : Mmu} {pages pages' : List (VirtAddr × ℕ)} {n : ℕ} {addr : VirtAddr} {d : ℕ}
    → HasRoom mmu pages (suc n) addr d
    → mmu'.disk ≡ mmu.disk
    → ((k : VirtAddr)
        → find page_eq pages' k ≡ (if page_eq addr k then some d else find page_eq pages k))
    → HasRoom mmu' pages' n (next_page addr) (d + 1)
unfolding page_eq
HasRoom-next {mmu} {mmu'} {pages} {pages'} {n} {addr} {d} room same finds = record {
  fits = omega (arith, room.fits);
  new = λ k h. ground (arith, finds k, room.new k);
  inside = λ e lo hi. rw same (room.inside e (omega arith) (omega arith));
  taken = λ e lo hi. rw same (room.taken e (omega arith) (omega arith));
  unused = λ e lo hi b p. ground (arith, finds b, room.unused e (omega arith) (omega arith) b);
}

-- Under the invariant of the MMU, with room for the block, mmu_alloc_multiple succeeds: each of its
-- pages stands for the page of the disk at the same place, the other pages are as before, the memory
-- and the disk stay, and the invariant holds.
pub mmu_alloc_multiple_lem :
    (n : ℕ) {mmu : Mmu} {bytes stored : List ℕ} {pages : List (VirtAddr × ℕ)}
    (is : IsMmu mmu bytes stored pages) (addr : VirtAddr) (d : ℕ)
    → HasRoom mmu pages n addr d
    → (mmu' : Mmu) × (pages' : List (VirtAddr × ℕ)) × (mmu_alloc_multiple n mmu addr d
        ≡ ok (success, mmu'))
      × (mmu'.mem ≡ mmu.mem)
      × (mmu'.disk ≡ mmu.disk)
      × IsMmu mmu' bytes stored pages'
      × ((k : VirtAddr) → find page_eq pages' k ≡ onto_block n addr d (find page_eq pages) k)
unfolding mmu_alloc_multiple
mmu_alloc_multiple_lem zero {mmu} {pages} is addr d room =
    (mmu, pages, refl, refl, refl, is, λ k. ground arith)
mmu_alloc_multiple_lem (suc n) {mmu} {pages} is addr d room =
    let (mmu₁, run, mem, disk, is₁, finds) =
      mmu_alloc_page_lem is addr d (room.new addr (ground arith))
        (room.inside d (omega arith) (omega arith)) (room.taken d (omega arith) (omega arith))
        (room.unused d (omega arith) (omega arith)) in
    let (mmu', pages', rest, mem', disk', is', finds') =
      mmu_alloc_multiple_lem n is₁ (next_page addr) (d + 1) (HasRoom-next room disk finds) in
    (
      mmu',
      pages',
      rw run rest,
      mem' ∙ mem,
      disk' ∙ disk,
      is',
      λ k.
          finds' k
          ∙ ap (λ (f : VirtAddr → Option ℕ). onto_block n (next_page addr) (d + 1) f k)
              (fun_ext finds)
          ∙ onto_block-suc n addr d (find page_eq pages) k room.fits,
    )

without_block-suc :
    (n : ℕ) (addr : VirtAddr) (old : VirtAddr → Option ℕ) (k : VirtAddr)
    → addr.page + suc n ≤ unsigned_mod
    → without_block n (next_page addr) (λ a. if page_eq addr a then none else old a) k
      ≡ without_block (suc n) addr old k
unfolding page_eq
without_block-suc n addr old k fits = ground arith

still_onto :
    (n : ℕ) (addr : VirtAddr) (d : ℕ) (old new : VirtAddr → Option ℕ)
    → addr.page + suc n ≤ unsigned_mod
    → ((k : VirtAddr) → in_block (suc n) addr k ≡ true → old k ≡ some (d + (k.page - addr.page)))
    → ((k : VirtAddr) → new k ≡ (if page_eq addr k then none else old k))
    → (k : VirtAddr) → in_block n (next_page addr) k ≡ true
    → new k ≡ some (d + 1 + (k.page - (next_page addr).page))
unfolding page_eq
still_onto n addr d old new fits onto finds k h = ground (arith, onto k, finds k)

-- Under the invariant of the MMU, mmu_free_multiple of allocated pages that stand for consecutive
-- pages of the disk succeeds: these pages are no more allocated, the other pages are as before, the
-- memory and the disk stay, and the invariant holds.
pub mmu_free_multiple_lem :
    (n : ℕ) {mmu : Mmu} {bytes stored : List ℕ} {pages : List (VirtAddr × ℕ)}
    (is : IsMmu mmu bytes stored pages) (addr : VirtAddr) (d : ℕ)
    → addr.page + n ≤ unsigned_mod
    → ((k : VirtAddr)
        → in_block n addr k ≡ true
        → find page_eq pages k ≡ some (d + (k.page - addr.page)))
    → (mmu' : Mmu) × (pages' : List (VirtAddr × ℕ)) × (mmu_free_multiple n mmu addr
        ≡ ok (success, mmu'))
      × (mmu'.mem ≡ mmu.mem)
      × (mmu'.disk ≡ mmu.disk)
      × IsMmu mmu' bytes stored pages'
      × ((k : VirtAddr) → find page_eq pages' k ≡ without_block n addr (find page_eq pages) k)
unfolding mmu_free_multiple
mmu_free_multiple_lem zero {mmu} {pages} is addr d fits onto =
    (mmu, pages, refl, refl, refl, is, λ k. ground arith)
mmu_free_multiple_lem (suc n) {mmu} {pages} is addr d fits onto =
    let (mmu₁, run, mem, disk, is₁, _, finds) =
      mmu_free_page_lem is addr (d + (addr.page - addr.page)) (onto addr (ground arith)) in
    let (mmu', pages', rest, mem', disk', is', finds') =
      mmu_free_multiple_lem n is₁ (next_page addr) (d + 1) (omega (arith, fits))
        (still_onto n addr d (find page_eq pages) _ fits onto finds) in
    (
      mmu',
      pages',
      rw run rest,
      mem' ∙ mem,
      disk' ∙ disk,
      is',
      λ k.
          finds' k
          ∙ ap (λ (f : VirtAddr → Option ℕ). without_block n (next_page addr) f k) (fun_ext finds)
          ∙ without_block-suc n addr (find page_eq pages) k fits,
    )
