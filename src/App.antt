-- ===== src/App.antt =====
-- util/app_util.h, util/app_util.c: the split of an address, the start of the system, and the messages that
-- the commands send.
pub mod Bits
pub mod Address
pub mod Load
pub mod Free
pub mod Request
pub mod Print
use Prim.Native.Nat.{bit_and}
use vmsim.Prelude.{
  ℕ, zero, suc, ◌+◌, ◌-◌, ◌*◌, ◌/◌, ◌%◌, ◌^◌, Bool, true, false, Option, none, some, List, [], ◌∷◌,
  if◌then◌else◌, ltb, length, ℤ,
}
use vmsim.Run.{Run, ok, fault, bad_access, out_of_fuel, ◌>>=◌, ◌>>◌, assert}
use vmsim.Types.{Errcode, VirtAddr, unsigned_mod}
use vmsim.Bitmap.{Bitmap}
use vmsim.Mm.{Mm, mm_init}
use vmsim.Disk.{Disk, disk_init}
use vmsim.Mmu.{Mmu, mmu_init}
use vmsim.Pcb.{
  ProcCont, Post, Arg, address, number, text, byte, fc_read, fc_loop_read, fc_read_to_file,
  fc_loop_read_to_file, fc_write, fc_loop_write, init_proc_cont, init_process, compose_mail,
  process_destroy,
}

-- the `while` of `page_shift`
unfoldable pub shift_loop : ℕ → ℕ → ℕ → Run ℕ
shift_loop zero page_size shift = fault out_of_fuel
shift_loop (suc rounds) page_size shift =
    let rest = shift_loop rounds (page_size / 2) (shift + 1) in
    if ltb 1 page_size then rest else ok shift

-- an `int` is halved 31 times at most
unfoldable pub page_shift : ℕ → Run ℕ
page_shift page_size = shift_loop 32 page_size 0

-- the `for` of `page_mask`, which calls `page_shift` for its test each time
unfoldable pub mask_loop : ℕ → ℕ → ℕ
mask_loop zero mask = mask
mask_loop (suc left) mask = mask_loop left (mask * 2 % unsigned_mod)

unfoldable pub page_mask : ℕ → Run ℕ
page_mask page_size = do shift ← page_shift page_size; ok (mask_loop shift (unsigned_mod - 1))

-- `~` on an `unsigned`
unfoldable pub offset_mask : ℕ → Run ℕ
offset_mask page_size = do mask ← page_mask page_size; ok (unsigned_mod - 1 - mask)

-- an address is the bit pattern of an `int`
unfoldable pub page_from_address : ℕ → ℕ → Run ℕ
page_from_address page_size addr = do
  mask ← page_mask page_size
  shift ← page_shift page_size
  ok (bit_and addr mask / 2 ^ shift)

unfoldable pub offset_from_address : ℕ → ℕ → Run ℕ
offset_from_address page_size addr = do mask ← offset_mask page_size; ok (bit_and addr mask)

unfoldable pub make_virt_addr : ℕ → ℕ → ℕ → Run VirtAddr
make_virt_addr user_addr page_size pid = do
  offset ← offset_from_address page_size user_addr
  page ← page_from_address page_size user_addr
  ok (record { pid = pid; page = page; offset = offset })

-- `app_data_t`; the MMU stands beside the table of processes, which is `none` when it is `NULL`
pub record AppData : Type 0 where
  pub initialized : Bool
  pub page_size : ℕ
  pub num_of_proc_page : ℕ
  pub shift_clock : ℕ
  pub proc_cont : Option (ProcCont × Mmu)

-- the numbers that `fscanf` reads from the file
pub record Config : Type 0 where
  pub nproc : ℕ
  pub page_size : ℕ
  pub n_page_mm : ℕ
  pub n_page_disk : ℕ
  pub n_proc_pages : ℕ
  pub shift_clock : ℕ

-- which allocations, locks and starts of threads succeed, and what the bitmap of the disk holds before
pub record Allocations : Type 0 where
  pub disk_ok : Bool
  pub calloc_ok : ℕ → Bool
  pub stale : Bitmap
  pub mm_ok : Bool
  pub entries_ok : Bool
  pub hat_ok : Bool
  pub lock_ok : Bool
  pub structs_ok : Bool
  pub cont_ok : Bool
  pub processes_ok : Bool
  pub prm_ok : Bool
  pub aging_ok : Bool

-- The code of an initialisation is not looked at: if it fails, what follows reads memory that has not been
-- initialised.
abbrev initialised : {A : Type 0} → Errcode × Option A → Run A
initialised (code, none) = fault bad_access
initialised (code, some a) = ok a

-- The numbers of the file are `unsigned`s that become `int`s, with the same 32-bit pattern. `prm_init` and
-- `aging_daemon_start` start threads that wait
unfoldable pub start_app : Allocations → AppData → Config → Run (Bool × AppData)
start_app alloc app config = do
  disk ← initialised (
      disk_init alloc.disk_ok alloc.calloc_ok alloc.stale config.n_page_disk config.page_size
        config.n_proc_pages)
  mem ← initialised (mm_init alloc.mm_ok config.n_page_mm config.page_size)
  mmu ←
      initialised (mmu_init alloc.entries_ok alloc.hat_ok alloc.lock_ok mem disk config.shift_clock)
  cont ← init_proc_cont alloc.cont_ok alloc.processes_ok config.nproc config.n_proc_pages
  assert alloc.prm_ok
  assert alloc.aging_ok
  ok (
    true,
    record app {
      page_size = config.page_size;
      num_of_proc_page = config.n_proc_pages;
      shift_clock = config.shift_clock;
      proc_cont = some (cont, mmu);
      initialized = true;
    },
  )

-- The file is `none` if it cannot be opened. The structures of the memory, the disk and the MMU come first.
unfoldable pub load_app_data : Allocations → Option Config → AppData → Run (Bool × AppData)
load_app_data alloc file app = do
  assert alloc.structs_ok
  if app.initialized
      then ok (false, app)
      else (elim file [ none ↦ ok (false, app) | some config ↦ start_app alloc app config ])

-- the arguments of `init_process` come first
unfoldable pub create_process : ℕ → (ℕ → ℕ) → AppData → Run (ℤ × AppData)
create_process junk_offset beyond app = elim app.proc_cont [
  | none ↦ fault bad_access
  | some (cont, mmu) ↦ do
    (pid, cont', mmu') ← init_process junk_offset beyond cont mmu
    ok (pid, record app { proc_cont = some (cont', mmu') })
]

-- the code decides what is printed; `none` stands for the wait of `process_destroy`
unfoldable pub del_process : AppData → ℕ → Run (Option Errcode × AppData)
del_process app pid = elim app.proc_cont [
  | none ↦ fault bad_access
  | some (cont, mmu) ↦ do
    (code, cont') ← process_destroy cont pid
    ok (code, record app { proc_cont = some (cont', mmu) })
]

-- a number of a message is the pattern that an `unsigned` and an `int` share
module _ (page_size : ℕ) (cont : ProcCont) where
  unfoldable pub read_process : ℕ → ℕ → ℕ → Run (Errcode × ProcCont)
  read_process vaddr id amount = do
    v_addr ← make_virt_addr vaddr page_size id
    compose_mail cont id (record { func = fc_read; args = address v_addr ∷ number amount ∷ [] })

  unfoldable pub loop_read_process : ℕ → ℕ → ℕ → ℕ → Run (Errcode × ProcCont)
  loop_read_process vaddr id off amount = do
    v_addr ← make_virt_addr vaddr page_size id
    compose_mail cont id
        (record { func = fc_loop_read; args = address v_addr ∷ number off ∷ number amount ∷ [] })

  unfoldable pub read_to_file_process : ℕ → ℕ → ℕ → List ℕ → Run (Errcode × ProcCont)
  read_to_file_process vaddr id amount file_name = do
    v_addr ← make_virt_addr vaddr page_size id
    compose_mail cont id (record {
      func = fc_read_to_file;
      args = address v_addr ∷ number amount ∷ text file_name ∷ [];
    })

  unfoldable pub loop_read_to_file_process : ℕ → ℕ → ℕ → ℕ → List ℕ → Run (Errcode × ProcCont)
  loop_read_to_file_process vaddr id off amount file_name = do
    v_addr ← make_virt_addr vaddr page_size id
    compose_mail cont id (record {
      func = fc_loop_read_to_file;
      args = address v_addr ∷ number off ∷ number amount ∷ text file_name ∷ [];
    })

  -- A string has no byte 0, so its length is that of the list; it becomes an `int`.
  unfoldable pub write_process : ℕ → ℕ → List ℕ → Run (Errcode × ProcCont)
  write_process vaddr id s = do
    v_addr ← make_virt_addr vaddr page_size id
    compose_mail cont id (record {
      func = fc_write;
      args = address v_addr ∷ text s ∷ number (length s % unsigned_mod) ∷ [];
    })

  unfoldable pub loop_write_process : ℕ → ℕ → ℕ → ℕ → ℕ → Run (Errcode × ProcCont)
  loop_write_process vaddr id c off amount = do
    v_addr ← make_virt_addr vaddr page_size id
    compose_mail cont id (record {
      func = fc_loop_write;
      args = address v_addr ∷ byte c ∷ number off ∷ number amount ∷ [];
    })
