-- ===== src/Pcb/Reads.antt =====
-- `sim_read` of util/pcb_util.c over a memory whose reads succeed.
use vmsim.Prelude.{
  ℕ, zero, suc, ◌+◌, ◌^◌, ◌≤◌, ◌<◌, ◌≡◌, refl, true, List, [], ◌∷◌, arith, length, ap, ◌*◌,
}
use vmsim.Run.{ok}
use vmsim.Int.{is_positive-small, int_mul-small, int_inc-small}
use vmsim.Types.{success, VirtAddr}
use vmsim.Pcb.Sim.{Memory, read_loop, sim_read}
use vmsim.Pcb.Advance.{Carried, advance_virt_addr_lem}

module _ {W : Type 0} (memory : Memory W) (Good : W → Type 0) (peek : VirtAddr → ℕ) where
  -- In a good state a read within a page succeeds, gives what `peek` says, and leaves a good state.
  pub record IsReadable : Type 0 where
    pub positive : 0 < memory.page_size
    pub reads :
        (w : W) (a : VirtAddr)
        → Good w
        → a.offset < memory.page_size
        → (w' : W) × (memory.read w a ≡ ok (success, peek a, w')) × Good w'

  -- the bytes are those at addresses that go forward by `off` from `a` on, up to `a'`
  abbrev pub Trail : ℕ → VirtAddr → List ℕ → VirtAddr → Type 0
  Trail off a [] a' = a ≡ a'
  Trail off a (b ∷ bs) a' =
      (b ≡ peek a)
      × (next : VirtAddr) × (q : ℕ) × Carried a next memory.page_size (a.offset + off) q
      × Trail off next bs a'

  read_loop-Trail :
      IsReadable
      → (left : ℕ) (w : W) (addr : VirtAddr) (off : ℕ) → Good w
      → addr.offset < memory.page_size
      → addr.page < 2 ^ 32
      → memory.page_size + off ≤ 2 ^ 32
      → (bytes : List ℕ) × (addr' : VirtAddr) × (w' : W) × (read_loop memory left w addr off
          ≡ ok (success, bytes, addr', w'))
        × (length bytes ≡ left)
        × Trail off addr bytes addr'
        × Good w'
  unfolding read_loop
  read_loop-Trail readable zero w addr off good inside small fits =
      ([], addr, w, refl, refl, refl, good)
  read_loop-Trail readable (suc left) w addr off good inside small fits =
      let (w₁, read, good₁) = readable.reads w addr good inside in
      let (q, next, moved, carried) =
        advance_virt_addr_lem addr off memory.page_size readable.positive small (omega arith) in
      let (bytes, addr', w', run, len, trail, good') =
        read_loop-Trail readable left w₁ next off good₁ carried.below (omega (arith, carried.page))
          fits in
      (
        peek addr ∷ bytes,
        addr',
        w',
        rw (read, moved, run) refl,
        ap suc len,
        (refl, next, q, carried, trail),
        good',
      )

  -- Over a memory whose reads within a page succeed in a good state, give a byte that depends on the
  -- address, and keep the state good, sim_read with a positive step and a positive amount, from an
  -- address within a page, with a buffer, the product of the two and 1, below 2 ^ 31, and with page size and step together at most 2 ^ 32, succeeds: it gives as
  -- many bytes as asked, those at the addresses that go forward by the step, and leaves a good
  -- state.
  pub sim_read_lem :
      IsReadable
      → (w : W) (addr : VirtAddr) (off amount : ℕ) → Good w
      → 0 < off
      → 0 < amount
      → off < 2 ^ 31
      → amount < 2 ^ 31
      → amount * off + 1 < 2 ^ 31
      → memory.malloc_ok (amount * off + 1) ≡ true
      → addr.offset < memory.page_size
      → addr.page < 2 ^ 32
      → memory.page_size + off ≤ 2 ^ 32
      → (bytes : List ℕ) × (addr' : VirtAddr) × (w' : W) × (sim_read memory w addr off amount
          ≡ ok (success, bytes, addr', w'))
        × (length bytes ≡ amount)
        × Trail off addr bytes addr'
        × Good w'
  unfolding sim_read
  sim_read_lem readable w addr off amount good step some_bytes off_fits amount_fits buffer given
        inside small fits =
      let (bytes, addr', w', run, len, trail, good') =
        read_loop-Trail readable amount w addr off good inside small fits in
      (
        bytes,
        addr',
        w',
        rw
            (
              int_mul-small amount off amount_fits off_fits (omega arith),
              int_inc-small (amount * off) buffer,
              is_positive-small off step off_fits,
              is_positive-small amount some_bytes amount_fits,
              given,
              run,
            )
            refl,
        len,
        trail,
        good',
      )
