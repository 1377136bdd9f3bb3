-- ===== src/Tests/PagedTest.antt =====
-- The MMU as a memory, at a small state with no page in a frame.
use vmsim.Prelude.{Bool, true, ◌<◌, ◌^◌, ◌≡◌, refl, List, [], ◌∷◌, arith, sym, map, replicate, ℕ}
use vmsim.Run.{ok}
use vmsim.Types.{VirtAddr, page_eq, success}
use vmsim.Map.Assoc.{find}
use vmsim.Aging.{Flags}
use vmsim.Mmu.{Mmu}
use vmsim.Mmu.Valid.{IsMmu}
use vmsim.Mmu.Contents.{contents}
use vmsim.Pcb.Sim.{sim_read, sim_write, sim_loop_write}
use vmsim.Pcb.Forward.{visits}
use vmsim.Pcb.Paged.{mmu_memory, byte_at, saves}
use vmsim.Pcb.Commands.{sim_read-visits, sim_write-saves, sim_loop_write-saves}
use vmsim.Prm.{Prm}
use vmsim.Prm.Swap.{ipt-IsMmu}
use vmsim.Prm.Paged.{Store, Access, load, save, IsPaged}
use vmsim.Prm.Refine.{accesses, answers, after_all, AreAllowed, accesses_refine}
use vmsim.Tests.StoreTest.{eight_bytes}
use vmsim.Ipt.Init.{empty_table}
use vmsim.Tests.TableTest.{empty-IsValid, empty-find, first_page, second_page, loaded}
use vmsim.Tests.MmuTest.{six_bytes, two_pairs, small, small-IsMmu, idle, no_commands, second_byte}

abbrev unloaded : Mmu
unloaded = record small { mem_ipt = empty_table 3 }

unloaded-IsMmu : IsMmu unloaded six_bytes eight_bytes two_pairs
unloaded-IsMmu =
    ipt-IsMmu small-IsMmu (empty_table 3) empty-IsValid (sym loaded.2.size)
      (λ a i found. absurd (ground (arith, found, empty-find a)))

abbrev pub first_store : Store
first_store = contents two_pairs unloaded six_bytes

pub unloaded-IsPaged :
    (left : ℕ) → left < 2 ^ 31 → IsPaged two_pairs 2 left first_store no_commands unloaded
unloaded-IsPaged left few = record {
  bytes = six_bytes;
  stored = eight_bytes;
  memory = unloaded-IsMmu;
  page_size = refl;
  idle = refl;
  room = record { nrefs = omega arith; hits = omega arith };
  settled = λ b i found _. absurd (ground (arith, found, empty-find b));
  holds = λ b. refl;
}

abbrev second_start : VirtAddr
second_start = record second_page { offset = 0 }

abbrev three_accesses : List Access
three_accesses = save second_byte (77 ∷ []) ∷ load second_start 2 ∷ load first_page 2 ∷ []

three_allowed : AreAllowed two_pairs 2 three_accesses
unfolding find page_eq
three_allowed = (
  (1, refl, omega arith, omega arith),
  ((0, refl, omega arith, omega arith), ((1, refl, omega arith, omega arith), tt)),
)

accesses_refine_example :
    (flags' : Flags) × (prm' : Prm) × (mmu' : Mmu) × (accesses three_accesses idle no_commands
        unloaded
      ≡ ok (answers first_store three_accesses, flags', prm', mmu'))
    × IsPaged two_pairs 2 5 (after_all first_store three_accesses) prm' mmu'
accesses_refine_example =
    accesses_refine 5 three_accesses (unloaded-IsPaged 8 (omega arith)) idle three_allowed

-- three bytes written from the second byte of the first page on: the page has two bytes, so the command writes two
abbrev three_bytes : List ℕ
three_bytes = 71 ∷ 72 ∷ 73 ∷ []

-- every allocation succeeds
abbrev plenty : ℕ → Bool
plenty n = true

sim_read-visits_example :
    (addr' : VirtAddr) × (flags' : Flags) × (prm' : Prm) × (mmu' : Mmu) × (sim_read
        (mmu_memory plenty 2)
        (idle, no_commands, unloaded)
        first_page
        1
        2
      ≡ ok (
        success,
        map (byte_at first_store) (visits 2 1 2 first_page),
        addr',
        (flags', prm', mmu'),
      ))
    × IsPaged two_pairs 2 5 first_store prm' mmu'
unfolding find page_eq
sim_read-visits_example =
    sim_read-visits plenty 2 5 idle first_page (omega arith) (omega arith) 1 2
      (unloaded-IsPaged 7 (omega arith)) (omega arith) (omega arith) (omega arith) (omega arith)
      (omega arith) refl (omega arith) ((1, refl), ((1, refl), tt))

sim_write-saves_example :
    (addr' : VirtAddr) × (flags' : Flags) × (prm' : Prm) × (mmu' : Mmu) × (sim_write
        (mmu_memory plenty 2)
        (idle, no_commands, unloaded)
        first_page
        three_bytes
        3
      ≡ ok (success, addr', (flags', prm', mmu')))
    × IsPaged two_pairs 2 5
        (after_all first_store (saves (visits 2 1 2 first_page) three_bytes))
        prm'
        mmu'
unfolding find page_eq
sim_write-saves_example =
    sim_write-saves plenty 2 5 idle first_page (omega arith) (omega arith) three_bytes
      (unloaded-IsPaged 7 (omega arith)) (omega arith) (omega arith) (omega arith)
      ((1, refl), ((1, refl), tt))

sim_loop_write-saves_example :
    (addr' : VirtAddr) × (flags' : Flags) × (prm' : Prm) × (mmu' : Mmu) × (sim_loop_write
        (mmu_memory plenty 2)
        (idle, no_commands, unloaded)
        second_start
        99
        1
        2
      ≡ ok (success, addr', (flags', prm', mmu')))
    × IsPaged two_pairs 2 5
        (after_all first_store (saves (visits 2 1 2 second_start) (99 ∷ 99 ∷ [])))
        prm'
        mmu'
unfolding find page_eq replicate
sim_loop_write-saves_example =
    sim_loop_write-saves plenty 2 5 idle second_start (omega arith) (omega arith) 99 1 2
      (unloaded-IsPaged 7 (omega arith)) (omega arith) (omega arith) (omega arith) (omega arith)
      ((0, refl), ((0, refl), tt))
