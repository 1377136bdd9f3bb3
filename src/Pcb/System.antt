-- ===== src/Pcb/System.antt =====
-- The invariant of the table of processes with the MMU: which pages the processes have.
use vmsim.Prelude.{
  ℕ, ◌+◌, ◌≤◌, ◌<◌, ◌≡◌, true, false, ◌&&◌, not, Option, some, none, List, arith, if◌then◌else◌,
  ltb, length, set, get_or-set, ◌==◌, ◌∙◌,
}
use vmsim.Types.{VirtAddr, page_eq, unsigned_mod}
use vmsim.Map.Assoc.{find}
use vmsim.Disk.{Disk}
use vmsim.Disk.Pages.{IsDisk, allocated}
use vmsim.Disk.Blocks.{SameData}
use vmsim.Mmu.{Mmu}
use vmsim.Mmu.Valid.{IsMmu}
use vmsim.Pcb.{ProcCont, Process, zero_process}
use vmsim.Pcb.Mail.{process_at}

-- The page of the disk that an address has: a process has one for each page of its block.
abbrev pub owned : ProcCont → VirtAddr → Option ℕ
owned cont k =
    let prc = process_at cont k.pid in
    if ltb k.pid cont.max_num_of_proc && (not prc.junk && ltb k.page cont.prc_blk_size)
    then some (prc.disk_block_start + k.page)
    else none

-- `pages` are the allocated pages of the MMU
pub record IsSystem (cont : ProcCont) (mmu : Mmu) (bytes stored : List ℕ)
    (pages : List (VirtAddr × ℕ)) : Type 0 where
  pub full : length cont.processes ≡ cont.max_num_of_proc
  pub block : cont.prc_blk_size ≡ mmu.disk.process_block_size
  pub positive : 0 < cont.prc_blk_size
  pub fits : cont.prc_blk_size ≤ unsigned_mod
  pub memory : IsMmu mmu bytes stored pages
  pub placed : (k : VirtAddr) → find page_eq pages k ≡ owned cont k

-- the table with a process replaced
abbrev pub with_process : ProcCont → ℕ → Process → ProcCont
with_process cont i prc = record cont { processes = set cont.processes i prc }

pub process_at-with_process :
    (cont : ProcCont) (i j : ℕ) (prc : Process)
    → i < length cont.processes
    → process_at (with_process cont i prc) j ≡ (if i == j then prc else process_at cont j)
process_at-with_process cont i j prc lt = get_or-set cont.processes i j prc zero_process lt

-- a process that takes the slot `i` has the pages of its block, and the others keep theirs
pub owned-taken :
    (cont : ProcCont) (i : ℕ) (prc : Process) (k : VirtAddr)
    → i < cont.max_num_of_proc
    → length cont.processes ≡ cont.max_num_of_proc
    → prc.junk ≡ false
    → owned (with_process cont i prc) k ≡ (
        if (i == k.pid) && ltb k.page cont.prc_blk_size
        then some (prc.disk_block_start + k.page)
        else if i == k.pid
        then none
        else owned cont k)
owned-taken cont i prc k lt full live =
    rw (process_at-with_process cont i k.pid prc (omega arith)) (ground arith)

-- a process that gives up the slot `i` has no page, and the others keep theirs
pub owned-dropped :
    (cont : ProcCont) (i : ℕ) (prc : Process) (k : VirtAddr)
    → i < cont.max_num_of_proc
    → length cont.processes ≡ cont.max_num_of_proc
    → prc.junk ≡ true
    → owned (with_process cont i prc) k ≡ (if i == k.pid then none else owned cont k)
owned-dropped cont i prc k lt full junk =
    rw (process_at-with_process cont i k.pid prc (omega arith)) (ground arith)

-- Another disk with the same data, on which every page of an address is still allocated.
pub IsMmu-disk :
    {mmu : Mmu} {bytes stored : List ℕ} {pages : List (VirtAddr × ℕ)} {disk' : Disk}
    → IsMmu mmu bytes stored pages
    → IsDisk disk' stored
    → SameData mmu.disk disk'
    → ((a : VirtAddr) (d : ℕ) → find page_eq pages a ≡ some d → allocated disk' d ≡ true)
    → IsMmu (record mmu { disk = disk' }) bytes stored pages
IsMmu-disk is is' same still = record {
  table = is.table;
  memory = is.memory;
  frames = is.frames;
  positive = is.positive;
  addressed = is.addressed;
  disk = is';
  same_size = same.page_size ∙ is.same_size;
  map = is.map;
  on_disk = λ a d e. (omega (arith, same.npages, (is.on_disk a d e).0), still a d e);
  apart = is.apart;
  backed = is.backed;
}
