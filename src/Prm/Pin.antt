-- ===== src/Prm/Pin.antt =====
-- `mmu_pin_page` of vmsim/mmu.c with `prm_pagefault` of vmsim/prm.c as its handler.
use vmsim.Prelude.{
  ℕ, ◌+◌, ◌≤◌, arith, ap, ◌≡◌, refl, true, some, none, List, [], Option-cases, inl, inr,
}
use vmsim.Run.{ok}
use vmsim.Types.{success, VirtAddr, page_eq}
use vmsim.Queue.Fifo
use vmsim.Ipt.Valid.{find_page}
use vmsim.Map.Assoc.{find}
use vmsim.Mmu.{Mmu, MmuStats}
use vmsim.Mmu.Access.{
  HasRoom, with_hit, with_miss, count_hit-with_hit, count_miss-with_miss, mmu_pin_page, fault_loop,
}
use vmsim.Mmu.Valid.{IsMmu, has_translation-found}
use vmsim.Mmu.Pinned.{table-IsMmu}
use vmsim.Ipt.Lookup.{has_translation-find_page}
use vmsim.Prm.{Prm, prm_pagefault, wait_for_completion, prm_thread_func}
use vmsim.Prm.Fault.{serve-HasServed, HasServed}
use vmsim.Mmu.Contents.{Keeps, Keeps-in_place, Keeps-trans}

-- the page has a frame, and every page holds what it held
pub record HasPinned (pages : List (VirtAddr × ℕ)) (mmu : Mmu) (bytes : List ℕ) (mmu' : Mmu)
    (bytes' : List ℕ) (addr : VirtAddr) (i : ℕ) : Type 0 where
  pub found : find_page mmu'.mem_ipt.entries addr ≡ some i
  pub page_size : mmu'.mem.page_size ≡ mmu.mem.page_size
  pub nrefs : mmu'.stats.nrefs ≡ mmu.stats.nrefs + 1
  pub hits : mmu'.stats.hits ≤ mmu.stats.hits + 1
  pub keeps : (b : VirtAddr) → Keeps pages mmu bytes mmu' bytes' b

module _ {mmu : Mmu} {bytes stored : List ℕ} {pages : List (VirtAddr × ℕ)}
    (is : IsMmu mmu bytes stored pages) (prm : Prm) (addr : VirtAddr) (d : ℕ)
    (idle : prm.queue ≡ []) (onto : find page_eq pages addr ≡ some d) where
  -- A fault that finds no other command in the queue is served, and the queue is empty again.
  prm_pagefault-HasServed :
      find_page mmu.mem_ipt.entries addr ≡ none
      → (prm' : Prm) × (mmu' : Mmu) × (bytes' stored' : List ℕ) × (i : ℕ) × (prm_pagefault true prm
            mmu addr
          ≡ ok (success, prm', mmu'))
        × IsMmu mmu' bytes' stored' pages
        × HasServed pages mmu bytes mmu' bytes' addr i d
        × (prm'.queue ≡ [])
  unfolding prm_pagefault wait_for_completion prm_thread_func Fifo.push
  prm_pagefault-HasServed absent =
      let (c', mmu', bytes', stored', i, run, is', served) =
        serve-HasServed is prm.choice addr d absent onto in
      (
        record { choice = c'; queue = [] },
        mmu',
        bytes',
        stored',
        i,
        rw (idle, run) refl,
        is',
        served,
        refl,
      )

pub mmu_pin_page-HasPinned :
    {mmu : Mmu} {bytes stored : List ℕ} {pages : List (VirtAddr × ℕ)}
    (is : IsMmu mmu bytes stored pages) (prm : Prm) (addr : VirtAddr) (d : ℕ)
    → prm.queue ≡ []
    → find page_eq pages addr ≡ some d
    → HasRoom 1 mmu.stats
    → (prm' : Prm) × (mmu' : Mmu) × (bytes' stored' : List ℕ) × (i : ℕ) × (mmu_pin_page
          (prm_pagefault true)
          1
          prm
          mmu
          addr
        ≡ ok (success, prm', mmu'))
      × IsMmu mmu' bytes' stored' pages
      × HasPinned pages mmu bytes mmu' bytes' addr i
      × (prm'.queue ≡ [])
unfolding mmu_pin_page fault_loop
mmu_pin_page-HasPinned {mmu} {bytes} {stored} is prm addr d idle onto room =
    elim (Option-cases (find_page mmu.mem_ipt.entries addr)) [
      | inr (i, found) ↦ (
        prm,
        with_hit mmu,
        bytes,
        stored,
        i,
        rw (has_translation-found is addr i found, count_hit-with_hit mmu room) refl,
        table-IsMmu is mmu.mem_ipt _ is.table refl (λ b. refl),
        record {
          found = found;
          page_size = refl;
          nrefs = refl;
          hits = omega arith;
          keeps = λ b. Keeps-in_place refl (λ k at_k. (refl, refl)) refl;
        },
        idle,
      )
      | inl absent ↦
          let missed = table-IsMmu is mmu.mem_ipt (with_miss mmu).stats is.table refl (λ b. refl) in
          let (prm', mmu', bytes', stored', i, run, is', served, empty) =
            prm_pagefault-HasServed missed prm addr d idle onto absent in
          (
            prm',
            mmu',
            bytes',
            stored',
            i,
            rw
                (
                  has_translation-find_page is.table addr,
                  absent,
                  count_miss-with_miss mmu room,
                  run,
                  has_translation-found is' addr i served.found,
                )
                refl,
            is',
            record {
              found = served.found;
              page_size = served.page_size;
              nrefs = ap (λ (x : MmuStats). x.nrefs) served.stats;
              hits = omega (arith, ap (λ (x : MmuStats). x.hits) served.stats);
              keeps = λ b.
                  Keeps-trans (Keeps-in_place refl (λ k at_k. (refl, refl)) refl) (served.keeps b);
            },
            empty,
          )
    ]

-- Under the invariant of the MMU, in which the memory and the disk have less than 2 ^ 31 bytes, with
-- counters of the statistics below 2 ^ 31 - 1, with the thread of the page replacement running and
-- no other command in its queue, mmu_pin_page of an allocated page ends after one page fault at
-- most, with the page in the memory, the invariant, an empty queue and one more reference counted.
pub mmu_pin_page_lem :
    {mmu : Mmu} {bytes stored : List ℕ} {pages : List (VirtAddr × ℕ)}
    (is : IsMmu mmu bytes stored pages) (prm : Prm) (addr : VirtAddr) (d : ℕ)
    → prm.queue ≡ []
    → find page_eq pages addr ≡ some d
    → HasRoom 1 mmu.stats
    → (prm' : Prm) × (mmu' : Mmu) × (bytes' stored' : List ℕ) × (i : ℕ) × (mmu_pin_page
          (prm_pagefault true)
          1
          prm
          mmu
          addr
        ≡ ok (success, prm', mmu'))
      × IsMmu mmu' bytes' stored' pages
      × (find_page mmu'.mem_ipt.entries addr ≡ some i)
      × (prm'.queue ≡ [])
      × (mmu'.stats.nrefs ≡ mmu.stats.nrefs + 1)
mmu_pin_page_lem is prm addr d idle onto room =
    let (prm', mmu', bytes', stored', i, run, is', pinned, empty) =
      mmu_pin_page-HasPinned is prm addr d idle onto room in
    (prm', mmu', bytes', stored', i, run, is', pinned.found, empty, pinned.nrefs)
