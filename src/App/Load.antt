-- ===== src/App/Load.antt =====
-- `load_app_data` of util/app_util.c: the system that it starts satisfies the invariant of the MMU.
use vmsim.Prelude.{
  ℕ, zero, suc, ◌+◌, ◌-◌, ◌*◌, ◌/◌, ◌^◌, ◌<◌, ◌≡◌, refl, true, false, none, some, List, [], arith,
  ◌∙◌, ap, length, ltb, has, get_or, length-replicate, replicate, inl, inr, sym,
}
use vmsim.Run.{ok}
use vmsim.Types.{success, VirtAddr}
use vmsim.Bitmap.{Bitmap, bitmap_init}
use vmsim.Bitmap.Access.{IsBitmap, bit, bitmap_init_lem}
use vmsim.Mm.{Mm, mm_init}
use vmsim.Disk.{Disk, disk_init}
use vmsim.Disk.Pages.{IsDisk, allocated}
use vmsim.Ipt.Valid.{find_page}
use vmsim.Ipt.Init.{ipt_init_lem}
use vmsim.Map.{map_init}
use vmsim.Map.Assoc.{find}
use vmsim.Mmu.{Mmu, mmu_init, disk_map_comparator}
use vmsim.Mmu.Valid.{IsMmu}
use vmsim.Pcb.{ProcCont, Process, zero_process, init_proc_cont}
use vmsim.Int.{is_negative-small}
use vmsim.Pcb.Mail.{process_at}
use vmsim.Pcb.System.{IsSystem, owned}
use vmsim.App.{AppData, Config, Allocations, start_app, load_app_data}

get_or-replicate_in : {A : Type 0} (n i : ℕ) (a d : A) → i < n → get_or (replicate n a) i d ≡ a
unfolding get_or replicate
get_or-replicate_in zero i a d lt = absurd (omega arith)
get_or-replicate_in (suc n) zero a d lt = refl
get_or-replicate_in (suc n) (suc i) a d lt = get_or-replicate_in n i a d (omega arith)

-- numbers that are positive as an `int`, but for the number of processes, which may be 0, and sizes of less
-- than 2 ^ 31 bytes
pub record IsSane (config : Config) : Type 0 where
  pub frames : 0 < config.n_page_mm
  pub page : 0 < config.page_size
  pub memory : config.n_page_mm * config.page_size < 2 ^ 31
  pub pages : 0 < config.n_page_disk
  pub disk : config.n_page_disk < 2 ^ 31
  pub disk_bytes : config.n_page_disk * config.page_size < 2 ^ 31
  pub block : 0 < config.n_proc_pages
  pub block_fits : config.n_proc_pages < 2 ^ 31
  pub processes : config.nproc < 2 ^ 31

-- every allocation and start of a thread succeeds
pub record IsGiven (alloc : Allocations) (config : Config) : Type 0 where
  pub disk : alloc.disk_ok ≡ true
  pub bitmap : alloc.calloc_ok ((config.n_page_disk - 1) / 8 + 1) ≡ true
  pub memory : alloc.mm_ok ≡ true
  pub entries : alloc.entries_ok ≡ true
  pub hat : alloc.hat_ok ≡ true
  pub lock : alloc.lock_ok ≡ true
  pub structs : alloc.structs_ok ≡ true
  pub cont : alloc.cont_ok ≡ true
  pub processes : alloc.processes_ok ≡ true
  pub prm : alloc.prm_ok ≡ true
  pub aging : alloc.aging_ok ≡ true

-- no process, no page in a frame and no page of the disk that is taken
pub record IsFresh (cont : ProcCont) (mmu : Mmu) : Type 0 where
  pub full : length cont.processes ≡ cont.max_num_of_proc
  pub junk : (i : ℕ) → i < cont.max_num_of_proc → (process_at cont i).junk ≡ true
  pub unmapped : (a : VirtAddr) → find_page mmu.mem_ipt.entries a ≡ none
  pub free : (i : ℕ) → has i mmu.mem_ipt.free_pages ≡ ltb i mmu.mem.npages
  pub clear : (d : ℕ) → allocated mmu.disk d ≡ false

module _ (alloc : Allocations) (config : Config) (sane : IsSane config)
    (given : IsGiven alloc config) where
  made_bitmap :
      (bm : Bitmap) × (bitmap_init alloc.calloc_ok config.n_page_disk ≡ (success, some bm))
      × IsBitmap bm
      × (bm.size ≡ config.n_page_disk)
      × ((j : ℕ) → bit bm j ≡ false)
  made_bitmap = elim (bitmap_init_lem alloc.calloc_ok config.n_page_disk sane.pages sane.disk) [
    | inl (refused, _) ↦ absurd (ground (arith, given.bitmap))
    | inr made ↦ made
  ]

  made_disk :
      (disk : Disk) × (disk_init alloc.disk_ok alloc.calloc_ok alloc.stale config.n_page_disk
          config.page_size config.n_proc_pages
        ≡ (success, some disk))
      × IsDisk disk (replicate (config.n_page_disk * config.page_size) 0)
      × (disk.page_size ≡ config.page_size)
      × (disk.process_block_size ≡ config.n_proc_pages)
      × ((d : ℕ) → allocated disk d ≡ false)
  unfolding disk_init
  made_disk =
      let (bm, e, form, size, clear) = made_bitmap in
      (
        record {
          bytes = some (replicate (config.n_page_disk * config.page_size) 0);
          npages = config.n_page_disk;
          page_size = config.page_size;
          process_block_size = config.n_proc_pages;
          alloc_bitmap = bm;
        },
        rw given.disk (rw e refl),
        record {
          held = refl;
          full = length-replicate (config.n_page_disk * config.page_size) 0;
          addressed = sane.disk_bytes;
          counted = sane.disk;
          form = form;
          bits = size;
        },
        refl,
        refl,
        clear,
      )

  made_mmu :
      (disk : Disk) (bytes : List ℕ)
      → IsDisk disk bytes
      → disk.page_size ≡ config.page_size
      → ((d : ℕ) → allocated disk d ≡ false)
      → (mem : Mm) × (mmu : Mmu) × (mm_init alloc.mm_ok config.n_page_mm config.page_size
          ≡ (success, some mem))
        × (mmu_init alloc.entries_ok alloc.hat_ok alloc.lock_ok mem disk config.shift_clock
            ≡ (success, some mmu))
        × (mmu.disk ≡ disk)
        × IsMmu mmu (replicate (config.n_page_mm * config.page_size) 0) bytes []
        × ((cont : ProcCont)
            → length cont.processes ≡ cont.max_num_of_proc
            → ((i : ℕ) → i < cont.max_num_of_proc → (process_at cont i).junk ≡ true)
            → IsFresh cont mmu)
  unfolding mm_init mmu_init map_init disk_map_comparator find
  made_mmu disk bytes is same clear =
      elim (ipt_init_lem alloc.entries_ok alloc.hat_ok alloc.lock_ok config.n_page_mm sane.frames) [
        | inl (refused, _) ↦ absurd (ground (arith, given.entries, given.hat, given.lock))
        | inr (ipt, e, valid, size, free, unmapped) ↦
            let mem : Mm = record {
              bytes = some (replicate (config.n_page_mm * config.page_size) 0);
              npages = config.n_page_mm;
              page_size = config.page_size;
            } in
            (
              mem,
              record {
                mem = mem;
                disk = disk;
                mem_ipt = ipt;
                disk_map = (map_init disk_map_comparator).1;
                aging_freq = config.shift_clock;
                stats = record { nrefs = 0; hits = 0 };
              },
              rw given.memory refl,
              rw (e, mmu_init) refl,
              refl,
              record {
                table = valid;
                memory = record {
                  held = refl;
                  full = length-replicate (config.n_page_mm * config.page_size) 0;
                };
                frames = size;
                positive = sane.page;
                addressed = sane.memory;
                disk = is;
                same_size = same;
                map = record {
                  keys = refl;
                  values = refl;
                  size = refl;
                  agree = λ a b. refl;
                  differ = tt;
                };
                on_disk = λ a d h. cc;
                apart = λ a b d h k. cc;
                backed = λ a i h. absurd (cc (sym h ∙ unmapped a));
              },
              λ cont full junk. record {
                full = full;
                junk = junk;
                unmapped = unmapped;
                free = free;
                clear = clear;
              },
            )
      ]

-- the table of a configuration
abbrev made_cont : Config → ProcCont
made_cont config = record {
  processes = replicate config.nproc (record zero_process { junk = true });
  max_num_of_proc = config.nproc;
  prc_blk_size = config.n_proc_pages;
}

init_proc_cont-made :
    (alloc : Allocations) (config : Config)
    → IsSane config
    → IsGiven alloc config
    → init_proc_cont alloc.cont_ok alloc.processes_ok config.nproc config.n_proc_pages
      ≡ ok (made_cont config)
unfolding init_proc_cont
init_proc_cont-made alloc config sane given =
    rw (given.cont, given.processes, is_negative-small config.nproc sane.processes) refl

all_junk :
    (config : Config) (i : ℕ) → i < config.nproc → (process_at (made_cont config) i).junk ≡ true
all_junk config i lt =
    ap (λ (p : Process). p.junk) (get_or-replicate_in config.nproc i _ zero_process lt)

owned-none : (config : Config) (k : VirtAddr) → owned (made_cont config) k ≡ none
owned-none config k = ground (arith, all_junk config k.pid)

-- For a configuration of any shift clock and of other numbers below 2 ^ 31, all positive but for the
-- number of processes, with a memory and a disk of less than 2 ^ 31 bytes, and with every allocation
-- and start of a thread given, load_app_data of data not yet initialised succeeds: the data become
-- initialised with as many processes as configured, and the system satisfies the invariant, with a
-- memory and a disk of zeros, every process junk, no page in a frame, every frame free and every
-- page of the disk free.
pub load_app_data_lem :
    (alloc : Allocations) (config : Config) (app : AppData)
    → IsSane config
    → IsGiven alloc config
    → app.initialized ≡ false
    → (cont : ProcCont) × (mmu : Mmu) × (app' : AppData) × (load_app_data alloc (some config) app
        ≡ ok (true, app'))
      × (app'.initialized ≡ true)
      × (app'.proc_cont ≡ some (cont, mmu))
      × (cont.max_num_of_proc ≡ config.nproc)
      × IsSystem cont mmu
          (replicate (config.n_page_mm * config.page_size) 0)
          (replicate (config.n_page_disk * config.page_size) 0)
          []
      × IsFresh cont mmu
unfolding load_app_data start_app find
load_app_data_lem alloc config app sane given fresh =
    let (disk, disk_run, is, same, block, clear) = made_disk alloc config sane given in
    let (mem, mmu, mm_run, mmu_run, held, valid, rest) =
      made_mmu alloc config sane given disk _ is same clear in
    let cont = made_cont config in
    (
      cont,
      mmu,
      record app {
        page_size = config.page_size;
        num_of_proc_page = config.n_proc_pages;
        shift_clock = config.shift_clock;
        proc_cont = some (cont, mmu);
        initialized = true;
      },
      rw
          (
            given.structs,
            fresh,
            disk_run,
            mm_run,
            mmu_run,
            init_proc_cont-made alloc config sane given,
            given.prm,
            given.aging,
          )
          refl,
      refl,
      refl,
      refl,
      record {
        full = length-replicate config.nproc _;
        block = sym (ap (λ (x : Disk). x.process_block_size) held ∙ block);
        positive = sane.block;
        fits = omega (arith, sane.block_fits);
        memory = valid;
        placed = λ k. sym (owned-none config k);
      },
      rest cont (length-replicate config.nproc _) (all_junk config),
    )
