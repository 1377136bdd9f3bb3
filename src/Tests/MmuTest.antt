-- ===== src/Tests/MmuTest.antt =====
-- vmsim/mmu.c and vmsim/prm.c with three frames, one page in the memory and a disk of four pages.
use vmsim.Prelude.{
  ℕ, ◌≡◌, refl, ◌≢◌, ◌≤◌, ◌<◌, true, false, some, List, [], ◌∷◌, arith, ◌⊎◌, inl, inr, ap, ◌∙◌,
  Bool-cases, negsuc,
}
use vmsim.Run.{Run, ok, fault, out_of_fuel}
use vmsim.Types.{Errcode, success, VirtAddr, page_eq, page_eq_symm, page_eq_trans}
use vmsim.Bytes.{paste}
use vmsim.Bytes.Frames.{frame}
use vmsim.Ipt.Chain.{entry}
use vmsim.Ipt.Valid.{find_page}
use vmsim.Map.Assoc.{find, holds_key}
use vmsim.Disk.{Disk, disk_get_page}
use vmsim.Disk.Pages.{allocated}
use vmsim.Aging.{Flags}
use vmsim.Mmu.{Mmu, disk_map_comparator, mmu_sync_to_backing_page, mmu_sync_from_backing_page}
use vmsim.Mmu.Access.{HasRoom, mmu_write, mmu_pin_page}
use vmsim.Mmu.Valid.{IsMmu}
use vmsim.Mmu.Sync.{mmu_sync_to_backing_page_lem, mmu_sync_from_backing_page_lem}
use vmsim.Mmu.Resident.{HasHit, mmu_write_lem}
use vmsim.Ipt.{ref_write, Ipt}
use vmsim.Ipt.Removed.{HasRemoved}
use vmsim.Prm.Swap.{prm_swap_out_lem}
use vmsim.Prm.Fault.{serve_lem}
use vmsim.Prm.Pin.{mmu_pin_page_lem}
use vmsim.Prm.{Choice, get_page_to_swap, Prm, prm_swap_out, serve, prm_pagefault}
use vmsim.Prm.Oldest.{candidate_at, age_at, get_page_to_swap_lem}
use vmsim.Tests.TableTest.{first_page, second_page, loaded, loaded_find, loaded_second, empty-find}
use vmsim.Tests.StoreTest.{eight_bytes, three_taken}

abbrev pub six_bytes : List ℕ
six_bytes = 11 ∷ 12 ∷ 13 ∷ 14 ∷ 15 ∷ 16 ∷ []

abbrev pub two_pairs : List (VirtAddr × ℕ)
two_pairs = (first_page, 1) ∷ (second_page, 0) ∷ []

abbrev pub small : Mmu
small = record {
  mem = record { bytes = some six_bytes; npages = 3; page_size = 2 };
  disk = three_taken.0;
  mem_ipt = loaded.0;
  disk_map = record {
    keys = first_page ∷ second_page ∷ [];
    values = 1 ∷ 0 ∷ [];
    comp = disk_map_comparator;
    size = 2;
  };
  aging_freq = 100;
  stats = record { nrefs = 0; hits = 0 };
}

two_pairs-find :
    (a : VirtAddr) (d : ℕ)
    → find page_eq two_pairs a ≡ some d
    → ((page_eq first_page a ≡ true) × (d ≡ 1)) ⊎ ((page_eq second_page a ≡ true) × (d ≡ 0))
unfolding find
two_pairs-find a d e = elim (Bool-cases (page_eq first_page a)) [
  | inl hit ↦ inl (hit, ground arith)
  | inr miss ↦ elim (Bool-cases (page_eq second_page a)) [
    | inl hit ↦ inr (hit, ground arith)
    | inr gone ↦ absurd (ground arith)
  ]
]

same_as : (p a b : VirtAddr) → page_eq p a ≡ true → page_eq p b ≡ true → page_eq a b ≡ true
same_as p a b e f = page_eq_trans a p b (page_eq_symm a p ∙ e) f

two_pairs_on_disk :
    (a : VirtAddr) (d : ℕ)
    → find page_eq two_pairs a ≡ some d
    → (d < three_taken.0.npages) × (allocated three_taken.0 d ≡ true)
two_pairs_on_disk a d e = elim (two_pairs-find a d e) [
  | inl (_, one) ↦
      (omega (arith, one, three_taken.3.npages), ap (allocated three_taken.0) one ∙ three_taken.4 1)
  | inr (_, none_left) ↦ (
    omega (arith, none_left, three_taken.3.npages),
    ap (allocated three_taken.0) none_left ∙ three_taken.4 0,
  )
]

two_pairs_apart :
    (a b : VirtAddr) (d : ℕ)
    → find page_eq two_pairs a ≡ some d
    → find page_eq two_pairs b ≡ some d
    → page_eq a b ≡ true
two_pairs_apart a b d e f = elim (two_pairs-find a d e) [
  | inl (hit, one) ↦ elim (two_pairs-find b d f) [
    | inl (hit', _) ↦ same_as first_page a b hit hit'
    | inr (_, other) ↦ absurd (omega arith)
  ]
  | inr (hit, zero_page) ↦ elim (two_pairs-find b d f) [
    | inl (_, other) ↦ absurd (omega arith)
    | inr (hit', _) ↦ same_as second_page a b hit hit'
  ]
]

backed_by :
    (a : VirtAddr) (i : ℕ)
    → find_page loaded.0.entries a ≡ some i
    → (d : ℕ) × (find page_eq two_pairs a ≡ some d)
unfolding find
backed_by a i e = elim (Bool-cases (page_eq first_page a)) [
  | inl hit ↦ (1, rw hit refl)
  | inr miss ↦ absurd (ground (arith, loaded.2.finds a, empty-find a))
]

pub small-IsMmu : IsMmu small six_bytes eight_bytes two_pairs
unfolding holds_key disk_map_comparator page_eq
small-IsMmu = record {
  table = loaded.2.valid;
  memory = record { held = refl; full = refl };
  frames = loaded.2.size;
  positive = omega arith;
  addressed = omega arith;
  disk = three_taken.2;
  same_size = three_taken.3.page_size;
  map = record {
    keys = refl;
    values = refl;
    size = refl;
    agree = λ a b. refl;
    differ = (refl, (refl, tt));
  };
  on_disk = two_pairs_on_disk;
  apart = two_pairs_apart;
  backed = backed_by;
}

abbrev pub second_byte : VirtAddr
second_byte = record first_page { offset = 1 }

second_byte_find : find_page small.mem_ipt.entries second_byte ≡ some 0
unfolding page_eq
second_byte_find = loaded.2.finds second_byte

abbrev no_fault : Unit {0} → Mmu → VirtAddr → Run (Errcode × Unit {0} × Mmu)
no_fault s mmu addr = fault out_of_fuel

abbrev pub idle : Flags
idle = record { should_update = false; done_updating = true }

first_backed : find page_eq two_pairs first_page ≡ some 1
unfolding find page_eq
first_backed = refl

small_room : HasRoom 1 small.stats
small_room = record { nrefs = omega arith; hits = omega arith }

mmu_write_lem_example :
    (flags' : Flags) × (mmu' : Mmu) × (mmu_write no_fault 1 true idle tt small second_byte (99 ∷ [])
      ≡ ok (success, flags', tt, mmu'))
    × IsMmu mmu' (paste six_bytes 1 (99 ∷ [])) eight_bytes two_pairs
    × HasHit ref_write 0 small mmu'
    × (mmu'.stats.nrefs ≡ 1)
    × (mmu'.stats.hits ≡ 1)
    × ((j : ℕ) → j < 3 → 0 ≢ j → frame (paste six_bytes 1 (99 ∷ [])) 2 j ≡ frame six_bytes 2 j)
mmu_write_lem_example =
    mmu_write_lem no_fault 1 idle tt small-IsMmu second_byte 0 second_byte_find small_room (99 ∷ [])
      (omega arith) (omega arith)

mmu_sync_to_backing_page_lem_example :
    (((entry small.mem_ipt.entries 0).page_data.dirty ≡ false)
      × (mmu_sync_to_backing_page small first_page ≡ ok (success, small)))
    ⊎ (((entry small.mem_ipt.entries 0).page_data.dirty ≡ true)
        × (disk' : Disk) × (stored' : List ℕ) × (mmu_sync_to_backing_page small first_page
            ≡ ok (success, record small { disk = disk' }))
        × IsMmu (record small { disk = disk' }) six_bytes stored' two_pairs
        × (disk_get_page disk' 1 ≡ ok (success, some (frame six_bytes 2 0)))
        × ((other : ℕ)
            → other < small.disk.npages
            → 1 ≢ other
            → disk_get_page disk' other ≡ disk_get_page small.disk other))
mmu_sync_to_backing_page_lem_example =
    mmu_sync_to_backing_page_lem small-IsMmu first_page 0 1 loaded_find first_backed

mmu_sync_from_backing_page_lem_example :
    (bytes' : List ℕ) × (mmu_sync_from_backing_page small first_page
      ≡ ok (success, record small { mem = record (small.mem) { bytes = some bytes' } }))
    × IsMmu
        (record small { mem = record (small.mem) { bytes = some bytes' } })
        bytes'
        eight_bytes
        two_pairs
    × (frame bytes' 2 0 ≡ frame eight_bytes 2 1)
    × ((j : ℕ) → j < 3 → 0 ≢ j → frame bytes' 2 j ≡ frame six_bytes 2 j)
mmu_sync_from_backing_page_lem_example =
    mmu_sync_from_backing_page_lem small-IsMmu first_page 0 1 loaded_find first_backed

abbrev no_choice : Choice
no_choice = record {
  oldest_page_idx = negsuc 0;
  oldest_page_vaddr = second_page;
  oldest_page_age = 0;
  swap_target = second_page;
  cur_idx = 0;
}

first_is_candidate : candidate_at second_page small.mem_ipt.entries 0 ≡ true
unfolding page_eq
first_is_candidate = rw loaded.2.page refl

get_page_to_swap_lem_example :
    (j : ℕ) × (c' : Choice) × (get_page_to_swap no_choice small second_page
      ≡ ok ((entry small.mem_ipt.entries j).page_data.addr, c', small))
    × (candidate_at second_page small.mem_ipt.entries j ≡ true)
    × ((n : ℕ)
        → candidate_at second_page small.mem_ipt.entries n ≡ true
        → age_at small.mem_ipt.entries j ≤ age_at small.mem_ipt.entries n)
    × ((n : ℕ)
        → n < j
        → candidate_at second_page small.mem_ipt.entries n ≡ true
        → age_at small.mem_ipt.entries j < age_at small.mem_ipt.entries n)
get_page_to_swap_lem_example = get_page_to_swap_lem no_choice small second_page 0 first_is_candidate

second_backed : find page_eq two_pairs second_page ≡ some 0
unfolding find page_eq
second_backed = refl

prm_swap_out_lem_example :
    (ipt' : Ipt) × (disk' : Disk) × (stored' : List ℕ) × (prm_swap_out small first_page
      ≡ ok (record small { mem_ipt = ipt'; disk = disk' }))
    × HasRemoved small.mem_ipt ipt' first_page 0
    × IsMmu (record small { mem_ipt = ipt'; disk = disk' }) six_bytes stored' two_pairs
    × ((entry small.mem_ipt.entries 0).page_data.dirty ≡ true
        → disk_get_page disk' 1 ≡ ok (success, some (frame six_bytes 2 0)))
    × ((entry small.mem_ipt.entries 0).page_data.dirty ≡ false → disk' ≡ small.disk)
    × ((other : ℕ)
        → other < small.disk.npages
        → 1 ≢ other
        → disk_get_page disk' other ≡ disk_get_page small.disk other)
prm_swap_out_lem_example = prm_swap_out_lem small-IsMmu first_page 0 1 loaded_find first_backed

serve_lem_example :
    (c' : Choice) × (mmu' : Mmu) × (bytes' stored' : List ℕ) × (i : ℕ) × (serve no_choice small
        second_page
      ≡ ok (c', mmu'))
    × IsMmu mmu' bytes' stored' two_pairs
    × (find_page mmu'.mem_ipt.entries second_page ≡ some i)
    × (disk_get_page small.disk 0 ≡ ok (success, some (frame bytes' 2 i)))
    × (disk_get_page mmu'.disk 0 ≡ disk_get_page small.disk 0)
serve_lem_example = serve_lem small-IsMmu no_choice second_page 0 loaded_second second_backed

abbrev pub no_commands : Prm
no_commands = record { choice = no_choice; queue = [] }

mmu_pin_page_lem_example :
    (prm' : Prm) × (mmu' : Mmu) × (bytes' stored' : List ℕ) × (i : ℕ) × (mmu_pin_page
        (prm_pagefault true)
        1
        no_commands
        small
        second_page
      ≡ ok (success, prm', mmu'))
    × IsMmu mmu' bytes' stored' two_pairs
    × (find_page mmu'.mem_ipt.entries second_page ≡ some i)
    × (prm'.queue ≡ [])
    × (mmu'.stats.nrefs ≡ 1)
mmu_pin_page_lem_example =
    mmu_pin_page_lem small-IsMmu no_commands second_page 0 refl second_backed small_room
