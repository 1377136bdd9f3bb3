-- ===== src/Pcb/Advance.antt =====
-- `advance_virt_addr` of util/pcb_util.c carries whole pages from the offset to the page.
use vmsim.Prelude.{
  ℕ, zero, suc, ◌+◌, ◌-◌, ◌*◌, ◌%◌, ◌^◌, ◌≤◌, ◌<◌, ◌≡◌, refl, arith, leb, Bool-cases, inl, inr, ◌∙◌,
  ap,
}
use vmsim.Run.{ok}
use vmsim.Types.{VirtAddr, unsigned_mod}
use vmsim.Pcb.Sim.{carry, advance_virt_addr}

-- `q` whole pages have gone from `offset` to the page of `addr`
pub record Carried (addr addr' : VirtAddr) (page_size offset q : ℕ) : Type 0 where
  pub pid : addr'.pid ≡ addr.pid
  pub page : addr'.page ≡ (addr.page + q) % unsigned_mod
  pub below : addr'.offset < page_size
  pub whole : q * page_size + addr'.offset ≡ offset

carry-Carried :
    (rounds : ℕ) (addr : VirtAddr) (page_size : ℕ)
    → 0 < page_size
    → addr.offset < rounds
    → addr.page < unsigned_mod
    → (q : ℕ) × (addr' : VirtAddr) × (carry rounds addr page_size ≡ ok addr')
      × Carried addr addr' page_size addr.offset q
unfolding carry
carry-Carried zero addr page_size pos enough small = absurd (omega arith)
carry-Carried (suc rounds) addr page_size pos enough small =
    elim (Bool-cases (leb page_size addr.offset)) [
      | inr inside ↦ (
        0,
        addr,
        rw inside refl,
        record { pid = refl; page = omega arith; below = ground arith; whole = omega arith },
      )
      | inl past ↦
          let le : page_size ≤ addr.offset = ground arith in
          let next : VirtAddr = record addr {
            page = (addr.page + 1) % unsigned_mod;
            offset = addr.offset - page_size;
          } in
          let (q, addr', run, c) =
            carry-Carried rounds next page_size pos (omega arith) (omega arith) in
          (
            suc q,
            addr',
            rw past run,
            record {
              pid = c.pid;
              page = omega (arith, c.page);
              below = c.below;
              whole = omega (arith, c.whole, le);
            },
          )
    ]

-- For a positive page size and an offset that stays below 2 ^ 32, advance_virt_addr ends with an
-- offset within a page, and the whole pages that it went forward with the new offset make up the old
-- offset and the step.
pub advance_virt_addr_lem :
    (addr : VirtAddr) (offset page_size : ℕ)
    → 0 < page_size
    → addr.page < 2 ^ 32
    → addr.offset + offset < 2 ^ 32
    → (q : ℕ) × (addr' : VirtAddr) × (advance_virt_addr addr offset page_size ≡ ok addr')
      × Carried addr addr' page_size (addr.offset + offset) q
unfolding advance_virt_addr
advance_virt_addr_lem addr offset page_size pos small fits =
    let sum : (addr.offset + offset) % unsigned_mod ≡ addr.offset + offset = omega arith in
    let (q, addr', run, c) =
      carry-Carried (addr.offset + offset + 1) (record addr { offset = addr.offset + offset })
        page_size pos (omega arith) (omega arith) in
    (
      q,
      addr',
      ap (λ n. carry (n + 1) (record addr { offset = n }) page_size) sum ∙ run,
      record { pid = c.pid; page = c.page; below = c.below; whole = c.whole },
    )
