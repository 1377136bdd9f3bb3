-- ===== src/Tests/AppTest.antt =====
-- util/app_util.c on an address, on a small system, and on a message.
use vmsim.Prelude.{
  ℕ, suc, ◌+◌, ◌*◌, ◌^◌, ◌≤◌, ◌<◌, ◌≡◌, refl, true, false, none, some, [], replicate, arith,
}
use vmsim.Run.{ok}
use vmsim.Types.{VirtAddr}
use vmsim.Mmu.{Mmu}
use vmsim.Pcb.{ProcCont}
use vmsim.Pcb.System.{IsSystem}
use vmsim.App.{AppData, Config, Allocations, make_virt_addr, load_app_data}
use vmsim.App.Address.{make_virt_addr_lem}
use vmsim.App.Load.{IsSane, IsGiven, IsFresh, load_app_data_lem}

-- a page size that is no power of two
make_virt_addr_lem_example :
    (v : VirtAddr) × (k : ℕ) × (make_virt_addr 77 12 3 ≡ ok v)
    × (v.pid ≡ 3)
    × (2 ^ k ≤ 12)
    × (12 < 2 ^ suc k)
    × (v.page * 2 ^ k + v.offset ≡ 77)
    × (v.offset < 2 ^ k)
make_virt_addr_lem_example = make_virt_addr_lem 77 12 3 (omega arith) (omega arith) (omega arith)

abbrev small_config : Config
small_config = record {
  nproc = 2;
  page_size = 4;
  n_page_mm = 3;
  n_page_disk = 8;
  n_proc_pages = 4;
  shift_clock = 10;
}

abbrev plenty : Allocations
plenty = record {
  disk_ok = true;
  calloc_ok = λ n. true;
  stale = record { data_blocks = []; size = 0 };
  mm_ok = true;
  entries_ok = true;
  hat_ok = true;
  lock_ok = true;
  structs_ok = true;
  cont_ok = true;
  processes_ok = true;
  prm_ok = true;
  aging_ok = true;
}

abbrev empty_app : AppData
empty_app = record {
  initialized = false;
  page_size = 0;
  num_of_proc_page = 0;
  shift_clock = 0;
  proc_cont = none;
}

small_config-IsSane : IsSane small_config
small_config-IsSane = record {
  frames = omega arith;
  page = omega arith;
  memory = omega arith;
  pages = omega arith;
  disk = omega arith;
  disk_bytes = omega arith;
  block = omega arith;
  block_fits = omega arith;
  processes = omega arith;
}

plenty-IsGiven : IsGiven plenty small_config
plenty-IsGiven = record {
  disk = refl;
  bitmap = refl;
  memory = refl;
  entries = refl;
  hat = refl;
  lock = refl;
  structs = refl;
  cont = refl;
  processes = refl;
  prm = refl;
  aging = refl;
}

load_app_data_lem_example :
    (cont : ProcCont) × (mmu : Mmu) × (app' : AppData) × (load_app_data plenty
        (some small_config)
        empty_app
      ≡ ok (true, app'))
    × (app'.initialized ≡ true)
    × (app'.proc_cont ≡ some (cont, mmu))
    × (cont.max_num_of_proc ≡ 2)
    × IsSystem cont mmu (replicate 12 0) (replicate 32 0) []
    × IsFresh cont mmu
load_app_data_lem_example =
    load_app_data_lem plenty small_config empty_app small_config-IsSane plenty-IsGiven refl
