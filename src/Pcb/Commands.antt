-- ===== src/Pcb/Commands.antt =====
-- What a process reads and writes: `sim_read`, `sim_write` and `sim_loop_write` of util/pcb_util.c over the MMU.
use vmsim.Prelude.{
  ℕ, ◌+◌, ◌≤◌, ◌<◌, ◌*◌, ◌^◌, ◌≡◌, refl, Bool, true, List, arith, length, map, replicate, min, drop,
}
use vmsim.Run.{ok}
use vmsim.Int.{is_positive-small, is_negative-small, int_mul-small, int_inc-small}
use vmsim.Types.{success, VirtAddr, unsigned_mod}
use vmsim.Aging.{Flags}
use vmsim.Mmu.{Mmu}
use vmsim.Prm.{Prm}
use vmsim.Prm.Paged.{Store, IsPaged}
use vmsim.Prm.Refine.{after_all}
use vmsim.Pcb.Sim.{sim_read, sim_write, sim_loop_write}
use vmsim.Pcb.Forward.{visits}
use vmsim.Pcb.Paged.{
  mmu_memory, byte_at, AreAllocated, saves, read_loop-visits, fill_loop-saves, write_loop-saves,
}

module _ {pages : List (VirtAddr × ℕ)} (malloc_ok : ℕ → Bool) (size spare : ℕ) {store : Store}
    {prm : Prm} {mmu : Mmu} (flags : Flags) (addr : VirtAddr) (inside : addr.offset < size)
    (small : addr.page < unsigned_mod) where
  -- From a state in which the MMU with its disk, each of less than 2 ^ 31 bytes, holds a memory,
  -- sim_read with a positive int as step and one as amount, for which the size of the buffer, their
  -- product and 1, is an int too, and which malloc gives, from an address with a 32-bit page number
  -- and an offset within a page of size bytes, where size and step make at most 2 ^ 32 and every
  -- address that it visits has an allocated page, and where the int counters of the statistics leave
  -- room for as many references, succeeds: it gives, in order, the bytes that the memory has at the
  -- addresses that go forward by the step, counted in pages of size bytes, and the MMU with its disk
  -- holds the same memory.
  pub sim_read-visits :
      (step amount : ℕ) (is : IsPaged pages size (spare + amount) store prm mmu)
      → 0 < step
      → 0 < amount
      → step < 2 ^ 31
      → amount < 2 ^ 31
      → amount * step + 1 < 2 ^ 31
      → malloc_ok (amount * step + 1) ≡ true
      → size + step ≤ unsigned_mod
      → AreAllocated pages (visits size step amount addr)
      → (addr' : VirtAddr) × (flags' : Flags) × (prm' : Prm) × (mmu' : Mmu) × (sim_read
            (mmu_memory malloc_ok size)
            (flags, prm, mmu)
            addr
            step
            amount
          ≡ ok (
            success,
            map (byte_at store) (visits size step amount addr),
            addr',
            (flags', prm', mmu'),
          ))
        × IsPaged pages size spare store prm' mmu'
  unfolding sim_read
  sim_read-visits step amount is forwards some_bytes step_fits amount_fits buffer given fits
        allocated =
      let (addr', flags', prm', mmu', run, is') =
        read_loop-visits malloc_ok size spare amount is flags addr step allocated inside small
          fits in
      (
        addr',
        flags',
        prm',
        mmu',
        rw
            (
              int_mul-small amount step amount_fits step_fits (omega arith),
              int_inc-small (amount * step) buffer,
              is_positive-small step forwards step_fits,
              is_positive-small amount some_bytes amount_fits,
              given,
              run,
            )
            refl,
        is',
      )

  -- From a state in which the MMU with its disk, each of less than 2 ^ 31 bytes, holds a memory,
  -- sim_write of a string that is not empty and whose length is an int, from an address with a
  -- 32-bit page number and an offset within a page of size bytes, where size is below 2 ^ 32 and
  -- every address that it visits has an allocated page, and where the int counters of the statistics
  -- leave room for as many references, succeeds: the memory gets the bytes of the string at
  -- consecutive addresses, but no more of them than a page has bytes, and nothing else changes in
  -- it.
  pub sim_write-saves :
      (s : List ℕ) (is : IsPaged pages size (spare + min (length s) size) store prm mmu)
      → 0 < length s
      → length s < 2 ^ 31
      → size + 1 ≤ unsigned_mod
      → AreAllocated pages (visits size 1 (min (length s) size) addr)
      → (addr' : VirtAddr) × (flags' : Flags) × (prm' : Prm) × (mmu' : Mmu) × (sim_write
            (mmu_memory malloc_ok size)
            (flags, prm, mmu)
            addr
            s
            (length s)
          ≡ ok (success, addr', (flags', prm', mmu')))
        × IsPaged pages size spare
            (after_all store (saves (visits size 1 (min (length s) size) addr) s))
            prm'
            mmu'
  unfolding sim_write drop
  sim_write-saves s is some_bytes length_fits fits allocated =
      let (addr', flags', prm', mmu', run, is') =
        write_loop-saves malloc_ok size spare (length s) (min (length s) size) is flags addr s 0
          (omega arith) (omega arith) allocated inside small fits in
      (
        addr',
        flags',
        prm',
        mmu',
        rw (is_positive-small (length s) some_bytes length_fits, run) refl,
        is',
      )

  -- From a state in which the MMU with its disk, each of less than 2 ^ 31 bytes, holds a memory,
  -- sim_loop_write with an int as step that is not negative and a positive int as amount, from an
  -- address with a 32-bit page number and an offset within a page of size bytes, where size and step
  -- make at most 2 ^ 32 and every address that it visits has an allocated page, and where the int
  -- counters of the statistics leave room for as many references, succeeds: the memory gets the byte
  -- at as many addresses as asked, which go forward by the step, and nothing else changes in it.
  pub sim_loop_write-saves :
      (c step amount : ℕ) (is : IsPaged pages size (spare + amount) store prm mmu)
      → 0 < amount
      → step < 2 ^ 31
      → amount < 2 ^ 31
      → size + step ≤ unsigned_mod
      → AreAllocated pages (visits size step amount addr)
      → (addr' : VirtAddr) × (flags' : Flags) × (prm' : Prm) × (mmu' : Mmu) × (sim_loop_write
            (mmu_memory malloc_ok size)
            (flags, prm, mmu)
            addr
            c
            step
            amount
          ≡ ok (success, addr', (flags', prm', mmu')))
        × IsPaged pages size spare
            (after_all store (saves (visits size step amount addr) (replicate amount c)))
            prm'
            mmu'
  unfolding sim_loop_write
  sim_loop_write-saves c step amount is some_bytes step_fits amount_fits fits allocated =
      let (addr', flags', prm', mmu', run, is') =
        fill_loop-saves malloc_ok size spare amount is flags addr c step allocated inside small
          fits in
      (
        addr',
        flags',
        prm',
        mmu',
        rw (is_negative-small step step_fits, is_positive-small amount some_bytes amount_fits, run)
            refl,
        is',
      )
