-- ===== src/Pcb/Paged.antt =====
-- The memory commands of util/pcb_util.c over the MMU of vmsim/mmu.c and the page replacement of vmsim/prm.c.
use vmsim.Prelude.{
  ℕ, zero, suc, ◌+◌, ◌≤◌, ◌<◌, ◌≡◌, refl, Bool, true, some, List, [], ◌∷◌, arith, ◌∙◌, ap, sym,
  length, get_or, min, lt→ltb, ltb-false, map, replicate, drop, ◌-◌,
}
use vmsim.Run.{ok, ◌>>=◌, at, at-get_or}
use vmsim.Types.{success, VirtAddr, page_eq, unsigned_mod}
use vmsim.Bytes.{slice, length-slice, get_or-slice}
use vmsim.Mmu.Contents.{length-contents}
use native.Mathlib.Nat.{add-zero, suc-add}
use vmsim.Map.Assoc.{find}
use vmsim.Aging.{Flags}
use vmsim.Mmu.{Mmu}
use vmsim.Mmu.Access.{mmu_read, mmu_write}
use vmsim.Prm.{Prm, prm_pagefault}
use vmsim.Prm.Paged.{Store, Access, save, after, IsPaged, IsPaged-fewer}
use vmsim.Prm.Transfer.{access_load, access_save}
use vmsim.Prm.Refine.{after_all}
use vmsim.Pcb.Sim.{Memory, read_loop, write_loop, fill_loop}
use vmsim.Pcb.Forward.{forward, visits, forward_inside, advanced}

-- the MMU as the memory of the commands, one byte at a time
abbrev pub Machine : Type 0
Machine = Flags × Prm × Mmu

abbrev pub mmu_memory : (ℕ → Bool) → ℕ → Memory Machine
mmu_memory malloc_ok size = record {
  page_size = size;
  malloc_ok = malloc_ok;
  read = λ (flags, prm, mmu) a. (do
    (err, buf, flags', prm', mmu') ← mmu_read (prm_pagefault true) 1 true flags prm mmu a 1
    b ← at buf 0
    ok (err, b, (flags', prm', mmu')));
  write = λ (flags, prm, mmu) a b. (do
    (err, flags', prm', mmu') ← mmu_write (prm_pagefault true) 1 true flags prm mmu a (b ∷ [])
    ok (err, (flags', prm', mmu')));
}

-- the byte of the memory at an address
abbrev pub byte_at : Store → VirtAddr → ℕ
byte_at store a = get_or (store a) a.offset 0

-- every address has an allocated page
abbrev pub AreAllocated : List (VirtAddr × ℕ) → List VirtAddr → Type 0
AreAllocated pages [] = Unit {0}
AreAllocated pages (a ∷ rest) =
    ((d : ℕ) × (find page_eq pages a ≡ some d)) × AreAllocated pages rest

-- one byte written to each address
abbrev pub saves : List VirtAddr → List ℕ → List Access
saves [] bytes = []
saves (a ∷ rest) [] = []
saves (a ∷ rest) (b ∷ bytes) = save a (b ∷ []) ∷ saves rest bytes

drop-step : (s : List ℕ) (m : ℕ) → m < length s → drop m s ≡ get_or s m 0 ∷ drop (m + 1) s
unfolding drop get_or
drop-step [] m lt = absurd (omega arith)
drop-step (b ∷ s) zero lt = refl
drop-step (b ∷ s) (suc m) lt = rw suc-add (drop-step s m (omega arith))

module _ {pages : List (VirtAddr × ℕ)} (malloc_ok : ℕ → Bool) (size : ℕ) where
  read_byte :
      {left : ℕ} {store : Store} {prm : Prm} {mmu : Mmu}
      (is : IsPaged pages size (suc left) store prm mmu) (flags : Flags) (a : VirtAddr)
      → (d : ℕ) × (find page_eq pages a ≡ some d)
      → a.offset < size
      → (flags' : Flags) × (prm' : Prm) × (mmu' : Mmu) × ((mmu_memory malloc_ok size).read
            (flags, prm, mmu)
            a
          ≡ ok (success, byte_at store a, (flags', prm', mmu')))
        × IsPaged pages size left store prm' mmu'
  read_byte {store} is flags a (d, onto) inside =
      let (flags', prm', mmu', run, is') =
        access_load is flags a 1 (d, onto, omega arith, inside) in
      let long : length (store a) ≡ size =
        ap length (sym (is.holds a)) ∙ length-contents is.memory a d onto ∙ is.page_size in
      let one : at (slice (store a) a.offset 1) 0 ≡ ok (byte_at store a) =
        at-get_or (slice (store a) a.offset 1) 0 0
          (omega (arith, length-slice (store a) a.offset 1 (omega (arith, long))))
        ∙ ap ok (get_or-slice (store a) a.offset 1 0 (omega arith) ∙ rw add-zero refl) in
      (flags', prm', mmu', rw (run, one) refl, is')

  write_byte :
      {left : ℕ} {store : Store} {prm : Prm} {mmu : Mmu}
      (is : IsPaged pages size (suc left) store prm mmu) (flags : Flags) (a : VirtAddr) (b : ℕ)
      → (d : ℕ) × (find page_eq pages a ≡ some d)
      → a.offset < size
      → (flags' : Flags) × (prm' : Prm) × (mmu' : Mmu) × ((mmu_memory malloc_ok size).write
            (flags, prm, mmu)
            a
            b
          ≡ ok (success, (flags', prm', mmu')))
        × IsPaged pages size left (after store (save a (b ∷ []))) prm' mmu'
  write_byte is flags a b (d, onto) inside =
      let (flags', prm', mmu', run, is') =
        access_save is flags a (b ∷ []) (d, onto, omega arith, inside) in
      (flags', prm', mmu', rw run refl, is')

  pub read_loop-visits :
      (spare left : ℕ) {store : Store} {prm : Prm} {mmu : Mmu}
      (is : IsPaged pages size (spare + left) store prm mmu) (flags : Flags) (a : VirtAddr)
      (step : ℕ)
      → AreAllocated pages (visits size step left a)
      → a.offset < size
      → a.page < unsigned_mod
      → size + step ≤ unsigned_mod
      → (a' : VirtAddr) × (flags' : Flags) × (prm' : Prm) × (mmu' : Mmu) × (read_loop
            (mmu_memory malloc_ok size)
            left
            (flags, prm, mmu)
            a
            step
          ≡ ok (success, map (byte_at store) (visits size step left a), a', (flags', prm', mmu')))
        × IsPaged pages size spare store prm' mmu'
  unfolding read_loop
  read_loop-visits spare zero is flags a step allocated inside small fits =
      (a, flags, _, _, refl, IsPaged-fewer is spare (omega arith))
  read_loop-visits spare (suc left) is flags a step (here, others) inside small fits =
      let (flags₁, prm₁, mmu₁, read, is₁) =
        read_byte (IsPaged-fewer is (suc (spare + left)) (omega arith)) flags a here inside in
      let (a', flags', prm', mmu', run, is') =
        read_loop-visits spare left is₁ flags₁ (forward size step a) step others
          (forward_inside size step a (omega arith)) (omega arith) fits in
      (a', flags', prm', mmu', rw (read, advanced size a step inside small fits, run) refl, is')

  pub fill_loop-saves :
      (spare left : ℕ) {store : Store} {prm : Prm} {mmu : Mmu}
      (is : IsPaged pages size (spare + left) store prm mmu) (flags : Flags) (a : VirtAddr)
      (c step : ℕ)
      → AreAllocated pages (visits size step left a)
      → a.offset < size
      → a.page < unsigned_mod
      → size + step ≤ unsigned_mod
      → (a' : VirtAddr) × (flags' : Flags) × (prm' : Prm) × (mmu' : Mmu) × (fill_loop
            (mmu_memory malloc_ok size)
            left
            (flags, prm, mmu)
            a
            c
            step
          ≡ ok (success, a', (flags', prm', mmu')))
        × IsPaged pages size spare
            (after_all store (saves (visits size step left a) (replicate left c)))
            prm'
            mmu'
  unfolding fill_loop replicate
  fill_loop-saves spare zero is flags a c step allocated inside small fits =
      (a, flags, _, _, refl, IsPaged-fewer is spare (omega arith))
  fill_loop-saves spare (suc left) is flags a c step (here, others) inside small fits =
      let (flags₁, prm₁, mmu₁, wrote, is₁) =
        write_byte (IsPaged-fewer is (suc (spare + left)) (omega arith)) flags a c here inside in
      let (a', flags', prm', mmu', run, is') =
        fill_loop-saves spare left is₁ flags₁ (forward size step a) c step others
          (forward_inside size step a (omega arith)) (omega arith) fits in
      (a', flags', prm', mmu', rw (wrote, advanced size a step inside small fits, run) refl, is')

  -- from the byte `m` of `s` on, no more than a page of bytes in all
  pub write_loop-saves :
      (spare left count : ℕ) {store : Store} {prm : Prm} {mmu : Mmu}
      (is : IsPaged pages size (spare + count) store prm mmu) (flags : Flags) (a : VirtAddr)
      (s : List ℕ) (m : ℕ)
      → left + m ≡ length s
      → count ≡ min left (size - m)
      → AreAllocated pages (visits size 1 count a)
      → a.offset < size
      → a.page < unsigned_mod
      → size + 1 ≤ unsigned_mod
      → (a' : VirtAddr) × (flags' : Flags) × (prm' : Prm) × (mmu' : Mmu) × (write_loop
            (mmu_memory malloc_ok size)
            left
            (flags, prm, mmu)
            a
            s
            m
          ≡ ok (success, a', (flags', prm', mmu')))
        × IsPaged pages size spare
            (after_all store (saves (visits size 1 count a) (drop m s)))
            prm'
            mmu'
  unfolding write_loop
  write_loop-saves spare zero zero is flags a s m total count allocated inside small fits =
      (a, flags, _, _, refl, IsPaged-fewer is spare (omega arith))
  write_loop-saves spare zero (suc n) is flags a s m total count allocated inside small fits =
      absurd (omega arith)
  write_loop-saves spare (suc left) zero is flags a s m total count allocated inside small fits = (
    a,
    flags,
    _,
    _,
    rw (ltb-false m size (omega arith)) refl,
    IsPaged-fewer is spare (omega arith),
  )
  write_loop-saves spare (suc left) (suc n) is flags a s m total count (here, others) inside small
        fits =
      let b = get_or s m 0 in
      let (flags₁, prm₁, mmu₁, wrote, is₁) =
        write_byte (IsPaged-fewer is (suc (spare + n)) (omega arith)) flags a b here inside in
      let (a', flags', prm', mmu', run, is') =
        write_loop-saves spare left n is₁ flags₁ (forward size 1 a) s (m + 1) (omega arith)
          (omega arith) others (forward_inside size 1 a (omega arith)) (omega arith) fits in
      (
        a',
        flags',
        prm',
        mmu',
        rw
            (
              lt→ltb m size (omega arith),
              at-get_or s m 0 (omega arith),
              wrote,
              advanced size a 1 inside small fits,
              run,
            )
            refl,
        rw (drop-step s m (omega arith)) is',
      )
