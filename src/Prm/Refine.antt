-- ===== src/Prm/Refine.antt =====
-- Any sequence of reads and writes through the MMU, with the page faults, the swapping and the aging that they
-- cause, gives what the memory that it stands for gives.
use vmsim.Prelude.{ℕ, suc, ◌+◌, length, arith, ◌≡◌, refl, List, [], ◌∷◌}
use vmsim.Run.{Run, ok, ◌>>=◌}
use vmsim.Types.{VirtAddr}
use vmsim.Aging.{Flags}
use vmsim.Mmu.{Mmu}
use vmsim.Prm.{Prm}
use vmsim.Prm.Paged.{
  Store, Access, load, save, after, answer, access, IsAllowed, IsPaged, IsPaged-fewer,
}
use vmsim.Prm.Transfer.{access_load, access_save}

-- one after the other, with what they give
abbrev pub accesses : List Access → Flags → Prm → Mmu → Run (List (List ℕ) × Flags × Prm × Mmu)
accesses [] flags prm mmu = ok ([], flags, prm, mmu)
accesses (a ∷ rest) flags prm mmu = do
  (bytes, flags₁, prm₁, mmu₁) ← access a flags prm mmu
  (more, flags₂, prm₂, mmu₂) ← accesses rest flags₁ prm₁ mmu₁
  ok (bytes ∷ more, flags₂, prm₂, mmu₂)

abbrev pub answers : Store → List Access → List (List ℕ)
answers store [] = []
answers store (a ∷ rest) = answer store a ∷ answers (after store a) rest

abbrev pub after_all : Store → List Access → Store
after_all store [] = store
after_all store (a ∷ rest) = after_all (after store a) rest

abbrev pub AreAllowed : List (VirtAddr × ℕ) → ℕ → List Access → Type 0
AreAllowed pages size [] = Unit {0}
AreAllowed pages size (a ∷ rest) = IsAllowed pages size a × AreAllowed pages size rest

access_refines :
    {pages : List (VirtAddr × ℕ)} {size left : ℕ} {store : Store} {prm : Prm} {mmu : Mmu}
    (is : IsPaged pages size (suc left) store prm mmu) (flags : Flags) (a : Access)
    → IsAllowed pages size a
    → (flags' : Flags) × (prm' : Prm) × (mmu' : Mmu) × (access a flags prm mmu
        ≡ ok (answer store a, flags', prm', mmu'))
      × IsPaged pages size left (after store a) prm' mmu'
access_refines is flags (load addr n) allowed =
    let (flags', prm', mmu', run, is') = access_load is flags addr n allowed in
    (flags', prm', mmu', rw run refl, is')
access_refines is flags (save addr buf) allowed =
    let (flags', prm', mmu', run, is') = access_save is flags addr buf allowed in
    (flags', prm', mmu', rw run refl, is')

-- From a state in which the MMU with its disk, each of less than 2 ^ 31 bytes, holds a memory, with
-- the aging daemon and the page replacement running and no command in the queue, any sequence of
-- mmu_read and mmu_write, each within an allocated page, and no more of them than the int counters
-- of the statistics leave room for, ends without a fault, one page fault at most for each access;
-- every read gives the bytes that the memory has after the writes before it, whatever has been
-- swapped out and in or aged between, and at the end the MMU with its disk holds the memory after
-- all the writes.
pub accesses_refine :
    {pages : List (VirtAddr × ℕ)} {size : ℕ} (left : ℕ) (list : List Access) {store : Store}
    {prm : Prm} {mmu : Mmu} (is : IsPaged pages size (left + length list) store prm mmu)
    (flags : Flags)
    → AreAllowed pages size list
    → (flags' : Flags) × (prm' : Prm) × (mmu' : Mmu) × (accesses list flags prm mmu
        ≡ ok (answers store list, flags', prm', mmu'))
      × IsPaged pages size left (after_all store list) prm' mmu'
accesses_refine left [] is flags allowed = (flags, _, _, refl, IsPaged-fewer is left (omega arith))
accesses_refine left (a ∷ rest) is flags (first, others) =
    let (flags₁, prm₁, mmu₁, run, is₁) =
      access_refines (IsPaged-fewer is (suc (left + length rest)) (omega arith)) flags a first in
    let (flags', prm', mmu', more, is') = accesses_refine left rest is₁ flags₁ others in
    (flags', prm', mmu', rw (run, more) refl, is')
