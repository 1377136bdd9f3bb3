-- ===== src/Tests/SystemTest.antt =====
-- vmsim/pcb.c on a table of two processes, the first with its two pages on the disk.
use vmsim.Prelude.{
  ℕ, zero, suc, ◌+◌, ◌≤◌, ◌<◌, ◌≡◌, refl, true, false, ◌&&◌, ◌||◌, not, none, some, List, [], ◌∷◌,
  arith, if◌then◌else◌, ◌⊎◌, ◌∙◌, sym, get_or, set, leb, ltb, negsuc, ◌==◌,
}
use vmsim.Run.{ok}
use vmsim.Types.{success, fail, not_found, VirtAddr, page_eq}
use vmsim.Ipt.Init.{empty_table}
use vmsim.Map.Assoc.{find, holds_key}
use vmsim.Disk.{Disk, alloc_pages}
use vmsim.Disk.Pages.{IsDisk, allocated}
use vmsim.Disk.Blocks.{in_block, SameData, alloc_pages_lem}
use vmsim.App.{AppData}
use vmsim.App.Free.{IsIdle, AreJunk, threads, destroy_all, free_app_data, free_app_data_lem}
use vmsim.Mmu.{Mmu, disk_map_comparator}
use vmsim.Mmu.Valid.{IsMmu}
use vmsim.Pcb.{ProcCont, Post, zero_process, init_process, process_destroy, process_dealloc}
use vmsim.Pcb.Sim.{Memory}
use vmsim.Pcb.Mail.{process_at}
use vmsim.Pcb.System.{IsSystem, owned, with_process}
use vmsim.Pcb.Create.{IsCreated, init_process_lem}
use vmsim.Pcb.Destroy.{doomed, told, process_destroy_lem}
use vmsim.Pcb.Delete.{process_dealloc_lem, gone}
use vmsim.Tests.TableTest.{empty-IsValid, empty-find}
use vmsim.Tests.StoreTest.{eight_bytes, four_pages, four_pages-IsDisk, four_pages_clear}
use vmsim.Tests.MmuTest.{six_bytes}

-- the disk with the block of the first process
two_taken :
    (disk' : Disk) × (alloc_pages 2 four_pages 0 ≡ ok disk')
    × IsDisk disk' eight_bytes
    × SameData four_pages disk'
    × ((j : ℕ) → allocated disk' j ≡ (in_block 0 2 j || allocated four_pages j))
two_taken =
    alloc_pages_lem 2 four_pages-IsDisk 0 (omega arith)
      (λ j lo hi. four_pages_clear j lo (omega arith))

abbrev page_zero : VirtAddr
page_zero = record { pid = 0; page = 0; offset = 0 }

abbrev page_one : VirtAddr
page_one = record { pid = 0; page = 1; offset = 0 }

abbrev own_pages : List (VirtAddr × ℕ)
own_pages = (page_zero, 0) ∷ (page_one, 1) ∷ []

abbrev swapped : Mmu
swapped = record {
  mem = record { bytes = some six_bytes; npages = 3; page_size = 2 };
  disk = two_taken.0;
  mem_ipt = empty_table 3;
  disk_map = record {
    keys = page_zero ∷ page_one ∷ [];
    values = 0 ∷ 1 ∷ [];
    comp = disk_map_comparator;
    size = 2;
  };
  aging_freq = 100;
  stats = record { nrefs = 0; hits = 0 };
}

abbrev one_process : ProcCont
one_process = record {
  processes =
      record zero_process { mail_box = some []; del = true }
      ∷ record zero_process { junk = true }
      ∷ [];
  max_num_of_proc = 2;
  prc_blk_size = 2;
}

-- the page of the disk of an address is its page number
own_pages-find :
    (a : VirtAddr)
    → find page_eq own_pages a ≡ (if (0 == a.pid) && ltb a.page 2 then some a.page else none)
unfolding find page_eq
own_pages-find a = ground arith

swapped-IsMmu : IsMmu swapped six_bytes eight_bytes own_pages
unfolding disk_map_comparator holds_key page_eq
swapped-IsMmu = record {
  table = empty-IsValid;
  memory = record { held = refl; full = refl };
  frames = refl;
  positive = omega arith;
  addressed = omega arith;
  disk = two_taken.2;
  same_size = two_taken.3.page_size;
  map = record {
    keys = refl;
    values = refl;
    size = refl;
    agree = λ a b. refl;
    differ = (refl, (refl, tt));
  };
  on_disk = λ a d e. (
    ground (arith, own_pages-find a, two_taken.3.npages),
    two_taken.4 d ∙ ground (arith, own_pages-find a),
  );
  apart = λ a b d e f. ground (arith, own_pages-find a, own_pages-find b);
  backed = λ a i found. absurd (ground (arith, empty-find a, found));
}

own_pages-owned :
    (pid page offset : ℕ)
    → find page_eq own_pages (record { pid = pid; page = page; offset = offset })
      ≡ owned one_process (record { pid = pid; page = page; offset = offset })
unfolding get_or
own_pages-owned zero page offset = own_pages-find _ ∙ ground arith
own_pages-owned (suc zero) page offset = own_pages-find _ ∙ ground arith
own_pages-owned (suc (suc pid)) page offset = own_pages-find _ ∙ ground arith

one_system : IsSystem one_process swapped six_bytes eight_bytes own_pages
one_system = record {
  full = refl;
  block = sym two_taken.3.block;
  positive = omega arith;
  fits = omega arith;
  memory = swapped-IsMmu;
  placed = λ k. own_pages-owned k.pid k.page k.offset;
}

init_process_lem_example :
    (((j : ℕ) → j < 2 → (process_at one_process j).junk ≡ false)
      × (init_process 0 (λ _. 0) one_process swapped ≡ ok (negsuc 0, one_process, swapped)))
    ⊎ ((i : ℕ) × (lt : i < 2) × (junk : (process_at one_process i).junk ≡ true) × ((j : ℕ)
          → j < i
          → (process_at one_process j).junk ≡ false)
        × IsCreated one_system 0 (λ _. 0) i lt junk (init_process 0 (λ _. 0) one_process swapped))
init_process_lem_example = init_process_lem one_system 0 (λ _. 0)

process_destroy_lem_example :
    (2 ≤ 0 → process_destroy one_process 0 ≡ ok (some fail, one_process))
    × (0 < 2
        → (process_at one_process 0).junk ≡ true
        → process_destroy one_process 0 ≡ ok (some not_found, one_process))
    × ((mail : List Post)
        → 0 < 2
        → (process_at one_process 0).junk ≡ false
        → (process_at one_process 0).mail_box ≡ some mail
        → (process_destroy one_process 0
            ≡ ok (
              none,
              with_process one_process 0
                  (doomed (process_at one_process 0) (told (process_at one_process 0) mail)),
            ))
          × IsSystem
              (with_process one_process 0
                (doomed (process_at one_process 0) (told (process_at one_process 0) mail)))
              swapped
              six_bytes
              eight_bytes
              own_pages)
process_destroy_lem_example = process_destroy_lem one_system 0

process_dealloc_lem_example :
    (mmu' : Mmu) × (pages' : List (VirtAddr × ℕ)) × (process_dealloc 0 one_process swapped 0
      ≡ ok (success, with_process one_process 0 (gone (process_at one_process 0)), mmu'))
    × (mmu'.mem ≡ swapped.mem)
    × SameData two_taken.0 mmu'.disk
    × ((j : ℕ)
        → allocated mmu'.disk j ≡ (not (leb 0 j && ltb j (0 + 2)) && allocated two_taken.0 j))
    × IsSystem
        (with_process one_process 0 (gone (process_at one_process 0)))
        mmu'
        six_bytes
        eight_bytes
        pages'
unfolding get_or
process_dealloc_lem_example = process_dealloc_lem one_system 0 0 (omega arith) refl [] refl refl

-- the same table before the process is told to end
abbrev idle_process : ProcCont
idle_process = record one_process {
  processes = set one_process.processes 0 (record (process_at one_process 0) { del = false });
}

abbrev loaded_system : AppData
loaded_system = record {
  initialized = true;
  page_size = 2;
  num_of_proc_page = 2;
  shift_clock = 100;
  proc_cont = some (idle_process, swapped);
}

idle_process-owned :
    (pid page offset : ℕ)
    → owned one_process (record { pid = pid; page = page; offset = offset })
      ≡ owned idle_process (record { pid = pid; page = page; offset = offset })
unfolding get_or set
idle_process-owned zero page offset = refl
idle_process-owned (suc pid) page offset = refl

idle_system : IsSystem idle_process swapped six_bytes eight_bytes own_pages
unfolding set get_or
idle_system = record {
  full = refl;
  block = one_system.block;
  positive = one_system.positive;
  fits = one_system.fits;
  memory = swapped-IsMmu;
  placed = λ k. one_system.placed k ∙ idle_process-owned k.pid k.page k.offset;
}

idle_process-IsIdle : IsIdle idle_process
unfolding get_or set
idle_process-IsIdle zero below live = (refl, refl)
idle_process-IsIdle (suc zero) below live = absurd (ground (arith, live))
idle_process-IsIdle (suc (suc j)) below live = absurd (omega arith)

-- a memory of zeros
abbrev zeros : Memory (Unit {0} × ProcCont × Mmu)
zeros = record {
  page_size = 2;
  malloc_ok = λ n. true;
  read = λ w a. ok (success, 0, w);
  write = λ w a b. ok (success, w);
}

free_app_data_lem_example :
    (cont' : ProcCont) × (mmu' : Mmu) × (pages' : List (VirtAddr × ℕ)) × (destroy_all
        (threads zeros 0 0)
        2
        0
        tt
        idle_process
        swapped
      ≡ ok (tt, cont', mmu'))
    × IsSystem cont' mmu' six_bytes eight_bytes pages'
    × AreJunk cont' 2
    × (free_app_data (threads zeros 0 0) tt loaded_system
        ≡ ok (success, record cont' { processes = [] }))
free_app_data_lem_example =
    free_app_data_lem zeros 0 0 tt loaded_system idle_system refl idle_process-IsIdle
