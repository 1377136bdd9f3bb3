-- ===== src/Prm.antt =====
-- vmsim/prm.c: the page replacement, which swaps pages in and out for the MMU.
pub mod Oldest
pub mod Swap
pub mod Kept
pub mod Fault
pub mod Pin
pub mod Paged
pub mod Transfer
pub mod Refine
use vmsim.Prelude.{
  ℕ, zero, suc, Bool, true, false, ◌&&◌, ◌||◌, not, List, [], ◌∷◌, ◌++◌, ◌==◌, if◌then◌else◌, ltb,
  ℤ, pos, negsuc, length,
}
use vmsim.Run.{Run, ok, fault, out_of_fuel, ◌>>=◌, ◌>>◌, assert}
use vmsim.Types.{Errcode, success, is_success, VirtAddr, page_eq}
use vmsim.Queue.Fifo
use vmsim.Ipt.{PageData, ipt_translate}
use vmsim.Mmu.{
  Mmu, mmu_map_page, mmu_unmap_page, mmu_sync_to_backing_page, mmu_sync_from_backing_page,
  mmu_for_each_mem_page,
}

-- the static variables of the choice of a page; `cur_idx` is that of `get_oldest_page`
pub record Choice : Type 0 where
  pub oldest_page_idx : ℤ
  pub oldest_page_vaddr : VirtAddr
  pub oldest_page_age : ℕ
  pub swap_target : VirtAddr
  pub cur_idx : ℕ

-- `idx == -1`
abbrev pub is_unset : ℤ → Bool
is_unset (pos n) = false
is_unset (negsuc n) = n == 0

-- `cur_idx` is set to 0 once and never counts up
unfoldable pub get_oldest_page : ℕ → PageData → Choice → PageData × Choice
get_oldest_page mem_page page c =
    let unset = is_unset c.oldest_page_idx in
    let cur_idx = if unset then 0 else c.cur_idx in
    if (ltb page.page_age c.oldest_page_age || unset) && not (page_eq c.swap_target page.addr)
    then (
      page,
      record c {
        oldest_page_idx = pos cur_idx;
        oldest_page_age = page.page_age;
        oldest_page_vaddr = page.addr;
        cur_idx = cur_idx;
      },
    )
    else (page, record c { cur_idx = cur_idx })

unfoldable pub get_page_to_swap : Choice → Mmu → VirtAddr → Run (VirtAddr × Choice × Mmu)
get_page_to_swap c mmu page_to_load = do
  let started = record c { oldest_page_idx = negsuc 0; swap_target = page_to_load }
  let (_, mmu', c') = mmu_for_each_mem_page get_oldest_page mmu started
  assert (not (page_eq page_to_load c'.oldest_page_vaddr))
  ok (c'.oldest_page_vaddr, c', mmu')

unfoldable pub prm_swap_out : Mmu → VirtAddr → Run Mmu
prm_swap_out mmu page = do
  (synced, mmu₁) ← mmu_sync_to_backing_page mmu page
  assert (is_success synced)
  (unmapped, mmu₂) ← mmu_unmap_page mmu₁ page
  assert (is_success unmapped)
  ok mmu₂

-- the `while` of `prm_thread_func`, from the code of `mmu_map_page` on; the call of `ipt_translate` at its
-- end is for debugging, but fails its assertion if the page has not been mapped
unfoldable pub swap_loop : ℕ → Choice → Errcode → Mmu → VirtAddr → Run (Choice × Mmu)
swap_loop zero c code mmu addr = if is_success code then ok (c, mmu) else fault out_of_fuel
swap_loop (suc rounds) c code mmu addr =
    let swap = (do
      (victim, c₁, mmu₁) ← get_page_to_swap c mmu addr
      mmu₂ ← prm_swap_out mmu₁ victim
      (code', mmu₃) ← mmu_map_page mmu₂ addr
      _ ← ipt_translate mmu₃.mem_ipt addr
      swap_loop rounds c₁ code' mmu₃ addr) in
    if is_success code then ok (c, mmu) else swap

-- what `prm_thread_func` does for one command, under the write lock of the MMU; the code of the last call is
-- not looked at
unfoldable pub serve : Choice → Mmu → VirtAddr → Run (Choice × Mmu)
serve c mmu addr = do
  (code, mmu₁) ← mmu_map_page mmu addr
  (c', mmu₂) ← swap_loop 1 c code mmu₁ addr
  (_, mmu₃) ← mmu_sync_from_backing_page mmu₂ addr
  ok (c', mmu₃)

-- the statics of prm.c: the choice and the queue of the addresses of the commands
pub record Prm : Type 0 where
  pub choice : Choice
  pub queue : List VirtAddr

-- one round of the thread; with no command the thread waits
unfoldable pub prm_thread_func : Prm → Mmu → Run (Prm × Mmu)
prm_thread_func prm mmu = elim prm.queue [
  | [] ↦ ok (prm, mmu)
  | addr ∷ rest ↦ do
    (c, mmu') ← serve prm.choice mmu addr
    ok (record { choice = c; queue = rest }, mmu')
]

-- the rounds of the thread while a client waits for its command, the last of the queue
unfoldable pub wait_for_completion : ℕ → Prm → Mmu → Run (Prm × Mmu)
wait_for_completion zero prm mmu = ok (prm, mmu)
wait_for_completion (suc rounds) prm mmu = do
  (prm', mmu') ← prm_thread_func prm mmu
  wait_for_completion rounds prm' mmu'

-- `running` is what `worker_thread_is_running` says of the thread
unfoldable pub prm_pagefault : Bool → Prm → Mmu → VirtAddr → Run (Errcode × Prm × Mmu)
prm_pagefault running prm mmu addr = do
  assert running
  let queue = Fifo.push prm.queue addr
  (prm', mmu') ← wait_for_completion (length queue) (record prm { queue = queue }) mmu
  ok (success, prm', mmu')
