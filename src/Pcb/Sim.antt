-- ===== src/Pcb/Sim.antt =====
-- util/pcb_util.c: the commands of a process that read and write the memory, over any memory. Their steps and
-- amounts are `int`s, given by their 32-bit patterns.
use vmsim.Prelude.{ℕ, Bool, zero, suc, ◌+◌, ◌-◌, ◌%◌, List, [], ◌∷◌, not, if◌then◌else◌, ltb, leb}
use vmsim.Run.{Run, ok, fault, bad_access, out_of_fuel, ◌>>=◌, ◌>>◌, assert, at}
use vmsim.Int.{is_positive, is_negative, int_mul, int_inc}
use vmsim.Types.{Errcode, success, is_success, VirtAddr, unsigned_mod}

-- What the commands use of the MMU: its page size, `mmu_read` of one byte and `mmu_write` of one byte; and of
-- the C library, whether `malloc` gives a number of bytes.
pub record Memory (W : Type 0) : Type 0 where
  pub page_size : ℕ
  pub malloc_ok : ℕ → Bool
  pub read : W → VirtAddr → Run (Errcode × ℕ × W)
  pub write : W → VirtAddr → ℕ → Run (Errcode × W)

-- the `while` of `advance_virt_addr`; with a page size of 0 it does not end
unfoldable pub carry : ℕ → VirtAddr → ℕ → Run VirtAddr
carry zero addr page_size = fault out_of_fuel
carry (suc rounds) addr page_size =
    let rest =
      carry rounds
        (record addr { page = (addr.page + 1) % unsigned_mod; offset = addr.offset - page_size })
        page_size in
    if leb page_size addr.offset then rest else ok addr

unfoldable pub advance_virt_addr : VirtAddr → ℕ → ℕ → Run VirtAddr
advance_virt_addr addr offset page_size =
    let moved = (addr.offset + offset) % unsigned_mod in
    carry (moved + 1) (record addr { offset = moved }) page_size

module _ {W : Type 0} (memory : Memory W) where
  -- the `while` of `sim_read`, with `amount - multiplier` rounds left, and the bytes that it reads
  unfoldable pub read_loop : ℕ → W → VirtAddr → ℕ → Run (Errcode × List ℕ × VirtAddr × W)
  read_loop zero w addr off = ok (success, [], addr, w)
  read_loop (suc left) w addr off = do
    (err, b, w₁) ← memory.read w addr
    addr' ← advance_virt_addr addr off memory.page_size
    let rest = (do
      (err', bs, addr'', w₂) ← read_loop left w₁ addr' off
      ok (err', b ∷ bs, addr'', w₂))
    if is_success err then rest else ok (err, b ∷ [], addr', w₁)

  -- With the bytes that it prints, to the file or to the standard output. `off` and `amount` are `int`s, and
  -- `size`, the bytes of the buffer, is computed as one. Without a buffer, what the first read gives is stored
  -- through `NULL`.
  unfoldable pub sim_read : W → VirtAddr → ℕ → ℕ → Run (Errcode × List ℕ × VirtAddr × W)
  sim_read w addr off amount = do
    product ← int_mul amount off
    size ← int_inc product
    assert (is_positive off)
    assert (is_positive amount)
    let buffer = (do
      (err, bytes, addr', w') ← read_loop amount w addr off
      ok (err, (if is_success err then bytes else []), addr', w'))
    let no_buffer = (do _ ← memory.read w addr; fault bad_access)
    if memory.malloc_ok size then buffer else no_buffer

  -- the `while` of `sim_write`, with `amount - multiplier` rounds left
  unfoldable pub write_loop : ℕ → W → VirtAddr → List ℕ → ℕ → Run (Errcode × VirtAddr × W)
  write_loop zero w addr s multiplier = ok (success, addr, w)
  write_loop (suc left) w addr s multiplier =
      let go = (do
        b ← at s multiplier
        (err, w₁) ← memory.write w addr b
        addr' ← advance_virt_addr addr 1 memory.page_size
        let rest = write_loop left w₁ addr' s (multiplier + 1)
        if is_success err then rest else ok (err, addr', w₁)) in
      if ltb multiplier memory.page_size then go else ok (success, addr, w)

  unfoldable pub sim_write : W → VirtAddr → List ℕ → ℕ → Run (Errcode × VirtAddr × W)
  sim_write w addr s amount = do assert (is_positive amount); write_loop amount w addr s 0

  -- the `while` of `sim_loop_write`
  unfoldable pub fill_loop : ℕ → W → VirtAddr → ℕ → ℕ → Run (Errcode × VirtAddr × W)
  fill_loop zero w addr c offset = ok (success, addr, w)
  fill_loop (suc left) w addr c offset = do
    (err, w₁) ← memory.write w addr c
    addr' ← advance_virt_addr addr offset memory.page_size
    let rest = fill_loop left w₁ addr' c offset
    if is_success err then rest else ok (err, addr', w₁)

  unfoldable pub sim_loop_write : W → VirtAddr → ℕ → ℕ → ℕ → Run (Errcode × VirtAddr × W)
  sim_loop_write w addr c offset amount = do
    assert (not (is_negative offset))
    assert (is_positive amount)
    fill_loop amount w addr c offset
