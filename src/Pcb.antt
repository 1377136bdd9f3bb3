-- ===== src/Pcb.antt =====
-- vmsim/pcb.h, vmsim/pcb.c and util/pcb_util.h, util/pcb_util.c: the table of processes and their mail.
pub mod Sim
pub mod Decode
pub mod Advance
pub mod Forward
pub mod Mail
pub mod Reads
pub mod Paged
pub mod Commands
pub mod System
pub mod Create
pub mod Delete
pub mod Destroy
pub mod Thread
use vmsim.Prelude.{
  ℕ, zero, suc, ◌+◌, Bool, true, false, not, ◌&&◌, Option, none, some, List, [], ◌∷◌, ◌==◌,
  if◌then◌else◌, ltb, leb, replicate, ℤ, pos, negsuc,
}
use vmsim.Run.{Run, ok, fault, bad_access, ◌>>=◌, ◌>>◌, assert, at, put}
use vmsim.Int.{is_negative}
use vmsim.Types.{Errcode, success, fail, not_found, is_success, VirtAddr}
use vmsim.Queue.Fifo
use vmsim.Disk.{disk_alloc_process_block, disk_free_process_block}
use vmsim.Mmu.{Mmu, mmu_alloc_multiple, mmu_free_multiple}

-- `func_t`
pub data Func : Type 0 where
  fc_read fc_loop_read fc_read_to_file fc_loop_read_to_file fc_write fc_loop_write fc_del : Func

-- what a `void*` of `args` points to
pub data Arg : Type 0 where
  address : VirtAddr → Arg
  number : ℕ → Arg
  text : List ℕ → Arg
  byte : ℕ → Arg

-- `post_t`; `n_args` is the length of `args`
pub record Post : Type 0 where
  pub func : Func
  pub args : List Arg

-- `process_t`, without its thread; the mail box is `none` when it is `NULL`
pub record Process : Type 0 where
  pub pid : ℕ
  pub disk_block_start : ℕ
  pub junk : Bool
  pub del : Bool
  pub mail_box : Option (List Post)

-- `proc_cont_t`, without its MMU, which the operations take beside it
pub record ProcCont : Type 0 where
  pub processes : List Process
  pub max_num_of_proc : ℕ
  pub prc_blk_size : ℕ

-- a `process_t` whose bytes are all 0
abbrev pub zero_process : Process
zero_process = record { pid = 0; disk_block_start = 0; junk = false; del = false; mail_box = none }

-- Both allocations are asserted. `nprocs` is an `int`: `calloc` takes a negative one as a `size_t` of more than
-- 2 ^ 63 processes, and refuses.
unfoldable pub init_proc_cont : Bool → Bool → ℕ → ℕ → Run ProcCont
init_proc_cont cont_ok processes_ok nprocs block_size = do
  assert cont_ok
  assert (processes_ok && not (is_negative nprocs))
  ok (record {
    processes = replicate nprocs (record zero_process { junk = true });
    max_num_of_proc = nprocs;
    prc_blk_size = block_size;
  })

unfoldable pub put_process : ProcCont → ℕ → Process → Run ProcCont
put_process cont pid prc = do
  processes ← put cont.processes pid prc
  ok (record cont { processes = processes })

-- `queue_push` on the mail box
unfoldable pub push_mail : Process → Post → Run Process
push_mail prc post = elim prc.mail_box [
  | none ↦ fault bad_access
  | some mail ↦ ok (record prc { mail_box = some (Fifo.push mail post) })
]

unfoldable pub compose_mail : ProcCont → ℕ → Post → Run (Errcode × ProcCont)
compose_mail cont pid post =
    let deliver = (do
      prc ← at cont.processes pid
      let send = (do
        prc' ← push_mail prc post
        cont' ← put_process cont pid prc'
        ok (success, cont'))
      if prc.junk then ok (not_found, cont) else if prc.del then ok (not_found, cont) else send) in
    if ltb cont.max_num_of_proc pid then ok (not_found, cont) else deliver

-- the `while` of `init_process`, from `i` on
unfoldable pub first_junk : ℕ → List Process → ℕ → Run (Option ℕ)
first_junk zero processes i = ok none
first_junk (suc rounds) processes i = do
  prc ← at processes i
  let rest = first_junk rounds processes (i + 1)
  if prc.junk then ok (some i) else rest

-- `free(prc)` on a pointer into the array of processes: the whole array goes if it is the first one, and
-- for any other one the call is undefined
unfoldable pub free_process : ProcCont → ℕ → Run ProcCont
free_process cont i = if i == 0 then ok (record cont { processes = [] }) else fault bad_access

-- The creation of the thread always succeeds. The offset of `first_process_address` is not initialised; it
-- is `junk_offset`.
unfoldable pub init_process : ℕ → (ℕ → ℕ) → ProcCont → Mmu → Run (ℤ × ProcCont × Mmu)
init_process junk_offset beyond cont mmu = do
  slot ← first_junk cont.max_num_of_proc cont.processes 0
  elim slot [
    | none ↦ ok (negsuc 0, cont, mmu)
    | some i ↦ do
      cont₁ ← put_process cont i zero_process
      (code, page, disk) ← disk_alloc_process_block mmu.disk beyond
      let mmu₁ = record mmu { disk = disk }
      let start = (λ (page : ℕ). do
        let first : VirtAddr = record { pid = i; page = 0; offset = junk_offset }
        (mapped, mmu₂) ← mmu_alloc_multiple cont.prc_blk_size mmu₁ first page
        let created : Process = record zero_process {
          pid = i;
          disk_block_start = page;
          mail_box = some [];
        }
        let finish = (do cont₂ ← put_process cont₁ i created; ok (pos i, cont₂, mmu₂))
        let failed = (do cont₂ ← free_process cont₁ i; ok (negsuc 1, cont₂, mmu₂))
        if is_success mapped then finish else failed)
      let failed = (do cont₂ ← free_process cont₁ i; ok (negsuc 1, cont₂, mmu₁))
      if is_success code then (elim page [ none ↦ fault bad_access | some p ↦ start p ]) else failed
  ]

abbrev pub del_post : Post
del_post = record { func = fc_del; args = [] }

-- `none` stands for the wait on the condition variable, which `process_dealloc` signals
unfoldable pub process_destroy : ProcCont → ℕ → Run (Option Errcode × ProcCont)
process_destroy cont id =
    let mark = (do
      prc ← at cont.processes id
      let send = (do
        (_, cont₁) ← compose_mail cont id del_post
        prc₁ ← at cont₁.processes id
        cont₂ ← put_process cont₁ id (record prc₁ { del = true })
        ok (none, cont₂))
      if prc.junk then ok (some not_found, cont) else send) in
    if leb cont.max_num_of_proc id then ok (some fail, cont) else mark

-- `queue_size` and `queue_pop` on the mail box
unfoldable pub mail_of : Process → Run (List Post)
mail_of prc = elim prc.mail_box [ none ↦ fault bad_access | some mail ↦ ok mail ]

-- the mail is dropped, the pages and the block of the disk are freed, and the slot can be taken again
unfoldable pub process_dealloc : ℕ → ProcCont → Mmu → ℕ → Run (Errcode × ProcCont × Mmu)
process_dealloc junk_offset cont mmu pid = do
  prc ← at cont.processes pid
  assert (not prc.junk)
  assert prc.del
  _ ← mail_of prc
  (_, mmu₁) ←
      mmu_free_multiple cont.prc_blk_size mmu (record { pid = pid; page = 0; offset = junk_offset })
  (_, disk) ← disk_free_process_block mmu₁.disk prc.disk_block_start
  cont' ← put_process cont pid (record prc { mail_box = none; junk = true })
  ok (success, cont', record mmu₁ { disk = disk })

-- the `for` of `proc_cont_destroy`, from `i` on
unfoldable pub all_junk : ℕ → List Process → ℕ → Run Bool
all_junk zero processes i = ok true
all_junk (suc rounds) processes i = do
  prc ← at processes i
  let rest = all_junk rounds processes (i + 1)
  if prc.junk then rest else ok false

unfoldable pub proc_cont_destroy : ProcCont → Run (Errcode × ProcCont)
proc_cont_destroy cont = do
  junk ← all_junk cont.max_num_of_proc cont.processes 0
  ok (if junk then (success, record cont { processes = [] }) else (fail, cont))
