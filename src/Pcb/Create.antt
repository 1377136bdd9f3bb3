-- ===== src/Pcb/Create.antt =====
-- `init_process` of vmsim/pcb.c on every outcome.
use vmsim.Prelude.{
  ℕ, zero, suc, ◌+◌, ◌≤◌, ◌<◌, ◌≡◌, refl, true, false, ◌||◌, Option, some, none, List, [], arith,
  ◌==◌, if◌then◌else◌, length, ◌∙◌, sym, ap, Bool-cases, inl, inr, ◌⊎◌, ℤ, pos, negsuc, length-set,
}
use vmsim.Run.{Run, ok, fault, bad_access, at-get_or}
use vmsim.Types.{VirtAddr, page_eq}
use vmsim.Map.Assoc.{find}
use vmsim.Disk.{Disk}
use vmsim.Disk.Pages.{allocated}
use vmsim.Disk.Blocks.{SameData, Taken, Clear, in_block}
use vmsim.Disk.Process.{disk_alloc_process_block_lem}
use vmsim.Mmu.{Mmu}
use vmsim.Mmu.Block.{HasRoom, mmu_alloc_multiple_lem, onto_block}
use vmsim.Pcb.{ProcCont, Process, zero_process, first_junk, put_process, free_process, init_process}
use vmsim.Pcb.Mail.{process_at, put_process-set}
use vmsim.Pcb.System.{IsSystem, owned, owned-taken, with_process, IsMmu-disk}

-- the first slot from `i` on that is junk, among `n`
abbrev IsFirstJunk : ProcCont → ℕ → ℕ → Option ℕ → Type 0
IsFirstJunk cont i n none = (j : ℕ) → i ≤ j → j < i + n → (process_at cont j).junk ≡ false
IsFirstJunk cont i n (some j) =
    (i ≤ j)
    × (j < i + n)
    × ((process_at cont j).junk ≡ true)
    × ((l : ℕ) → i ≤ l → l < j → (process_at cont l).junk ≡ false)

IsFirstJunk-later :
    (cont : ProcCont) (i n : ℕ) (o : Option ℕ)
    → (process_at cont i).junk ≡ false
    → IsFirstJunk cont (i + 1) n o
    → IsFirstJunk cont i (suc n) o
IsFirstJunk-later cont i n none here rest = λ j lo hi. elim (Bool-cases (i == j)) [
  | inl this ↦ let e : j ≡ i = ground arith in rw e here
  | inr other ↦ rest j (ground arith) (omega arith)
]
IsFirstJunk-later cont i n (some j) here (lo, hi, junk, before) = (
  omega arith,
  omega arith,
  junk,
  λ l lo' hi'. elim (Bool-cases (i == l)) [
    | inl this ↦ let e : l ≡ i = ground arith in rw e here
    | inr other ↦ before l (ground arith) hi'
  ],
)

first_junk-IsFirstJunk :
    (cont : ProcCont) (n i : ℕ)
    → i + n ≤ length cont.processes
    → (o : Option ℕ) × (first_junk n cont.processes i ≡ ok o) × IsFirstJunk cont i n o
unfolding first_junk
first_junk-IsFirstJunk cont zero i le = (none, refl, λ j lo hi. absurd (omega arith))
first_junk-IsFirstJunk cont (suc n) i le =
    let here = at-get_or cont.processes i zero_process (omega arith) in
    elim (Bool-cases (process_at cont i).junk) [
      | inl junk ↦ (
        some i,
        rw (here, junk) refl,
        (omega arith, omega arith, junk, λ l lo hi. absurd (omega arith)),
      )
      | inr live ↦
          let (o, run, first) = first_junk-IsFirstJunk cont n (i + 1) (omega arith) in
          (o, rw (here, live) run, IsFirstJunk-later cont i n o live first)
    ]

-- the process that `init_process` makes
abbrev pub created : ℕ → ℕ → Process
created i d = record zero_process { pid = i; disk_block_start = d; mail_box = some [] }

-- the table with it, after the slot has been cleared
abbrev pub with_created : ProcCont → ℕ → ℕ → ProcCont
with_created cont i d = with_process (with_process cont i zero_process) i (created i d)

owned-junk :
    (cont : ProcCont) (i : ℕ) (k : VirtAddr)
    → (process_at cont i).junk ≡ true
    → (i == k.pid) ≡ true
    → owned cont k ≡ none
owned-junk cont i k junk e =
    let same : k.pid ≡ i = ground arith in
    let gone : (process_at cont k.pid).junk ≡ true = rw same junk in rw gone (ground arith)

-- the disk has no room for a block at its first clear page
abbrev pub IsShort : Mmu → Type 0
IsShort mmu =
    ((j : ℕ) → j < mmu.disk.npages → allocated mmu.disk j ≡ true)
    ⊎ ((d : ℕ) × (allocated mmu.disk d ≡ false)
        × ((j : ℕ) → j < d → allocated mmu.disk j ≡ true)
        × ((mmu.disk.npages < d + mmu.disk.process_block_size)
            ⊎ Taken mmu.disk d mmu.disk.process_block_size))

module _ {cont : ProcCont} {mmu : Mmu} {bytes stored : List ℕ} {pages : List (VirtAddr × ℕ)}
    (sys : IsSystem cont mmu bytes stored pages) (junk_offset : ℕ) (beyond : ℕ → ℕ) where
  module _ (i : ℕ) (below : i < cont.max_num_of_proc) (junk : (process_at cont i).junk ≡ true) where
    abbrev first_address : VirtAddr
    first_address = record { pid = i; page = 0; offset = junk_offset }

    -- the pages of the new process are where its block is
    placed-created :
        (d : ℕ) (k : VirtAddr)
        → onto_block cont.prc_blk_size first_address d (find page_eq pages) k
          ≡ owned (with_created cont i d) k
    placed-created d k = ground (
      arith,
      sys.placed k,
      owned-junk cont i k junk,
      owned-taken cont i zero_process k below sys.full refl,
      owned-taken (with_process cont i zero_process) i (created i d) k below
          (length-set cont.processes i zero_process ∙ sys.full) refl,
    )

    HasRoom-created :
        (d : ℕ) (disk' : Disk)
        → SameData mmu.disk disk'
        → d + mmu.disk.process_block_size ≤ mmu.disk.npages
        → Clear mmu.disk d mmu.disk.process_block_size
        → ((j : ℕ)
            → allocated disk' j
              ≡ (in_block d mmu.disk.process_block_size j || allocated mmu.disk j))
        → HasRoom (record mmu { disk = disk' }) pages cont.prc_blk_size first_address d
    HasRoom-created d disk' same inside clear bits = record {
      fits = omega (arith, sys.fits);
      new = λ k h. sys.placed k ∙ owned-junk cont i k junk (ground arith);
      inside = λ e lo hi. omega (arith, same.npages, inside, sys.block);
      taken = λ e lo hi. bits e ∙ ground (arith, sys.block);
      unused = λ e lo hi b p.
          cc (sym (sys.memory.on_disk b e p).1 ∙ clear e lo (omega (arith, sys.block)));
    }

    abbrev pub IsCreated : Run (ℤ × ProcCont × Mmu) → Type 0
    IsCreated r =
        (IsShort mmu
          × (r ≡ (
              if i == 0
              then ok (negsuc 1, record cont { processes = [] }, mmu)
              else fault bad_access)))
        ⊎ ((d : ℕ) × (mmu' : Mmu) × (pages' : List (VirtAddr × ℕ)) × (r
              ≡ ok (pos i, with_created cont i d, mmu'))
            × (mmu'.mem ≡ mmu.mem)
            × SameData mmu.disk mmu'.disk
            × Clear mmu.disk d cont.prc_blk_size
            × ((j : ℕ)
                → allocated mmu'.disk j ≡ (in_block d cont.prc_blk_size j || allocated mmu.disk j))
            × IsSystem (with_created cont i d) mmu' bytes stored pages')

    cleared : put_process cont i zero_process ≡ ok (with_process cont i zero_process)
    cleared = put_process-set cont i zero_process (omega (arith, sys.full))

    init_process-block :
        (first : first_junk cont.max_num_of_proc cont.processes 0 ≡ ok (some i))
        → IsCreated (init_process junk_offset beyond cont mmu)
    unfolding init_process free_process
    init_process-block first = elim (disk_alloc_process_block_lem sys.memory.disk beyond) [
      | inl (run, all) ↦ inl (inl all, rw (first, cleared, run) (ground arith))
      | inr (d, _, clear_d, before, inl (run, why)) ↦
          inl (inr (d, clear_d, before, why), rw (first, cleared, run) (ground arith))
      | inr (d, _, _, _, inr (disk', run, inside, clear, is', same, bits)) ↦
          let is₁ =
            IsMmu-disk sys.memory is' same
              (λ a e p. bits e ∙ ground (arith, sys.memory.on_disk a e p)) in
          let room = HasRoom-created d disk' same inside clear bits in
          let (mmu', pages', mapped, mem, disk, is, finds) =
            mmu_alloc_multiple_lem cont.prc_blk_size is₁ first_address d room in
          let second =
            put_process-set (with_process cont i zero_process) i (created i d)
              (omega (arith, length-set cont.processes i zero_process, sys.full)) in
          inr (
            d,
            mmu',
            pages',
            rw (first, cleared, run, mapped, second) refl,
            mem,
            rw disk same,
            rw sys.block clear,
            λ j. rw (disk, sys.block) (bits j),
            record {
              full =
                  length-set (with_process cont i zero_process).processes i (created i d)
                  ∙ length-set cont.processes i zero_process
                  ∙ sys.full;
              block = sys.block ∙ sym (ap (λ (x : Disk). x.process_block_size) disk ∙ same.block);
              positive = sys.positive;
              fits = sys.fits;
              memory = is;
              placed = λ k. finds k ∙ placed-created d k;
            },
          )
    ]

  -- Under the invariant of the system, init_process answers -1 and changes nothing if no process is
  -- junk; otherwise it takes the first that is: if the disk has no room for its block, the answer is
  -- -2 with the table freed for the process 0, and a fault for any other; if it has, the process
  -- gets a block of pages that were free, exactly these become taken, the memory and the data of the
  -- disk stay, and the invariant holds.
  pub init_process_lem :
      (((j : ℕ) → j < cont.max_num_of_proc → (process_at cont j).junk ≡ false)
        × (init_process junk_offset beyond cont mmu ≡ ok (negsuc 0, cont, mmu)))
      ⊎ ((i : ℕ) × (lt : i < cont.max_num_of_proc) × (junk : (process_at cont i).junk ≡ true)
          × ((j : ℕ) → j < i → (process_at cont j).junk ≡ false)
          × IsCreated i lt junk (init_process junk_offset beyond cont mmu))
  unfolding init_process
  init_process_lem =
      go (first_junk-IsFirstJunk cont cont.max_num_of_proc 0 (omega (arith, sys.full)))
    where
      go :
          ((o : Option ℕ) × (first_junk cont.max_num_of_proc cont.processes 0 ≡ ok o)
            × IsFirstJunk cont 0 cont.max_num_of_proc o)
          → (((j : ℕ) → j < cont.max_num_of_proc → (process_at cont j).junk ≡ false)
              × (init_process junk_offset beyond cont mmu ≡ ok (negsuc 0, cont, mmu)))
            ⊎ ((i : ℕ) × (lt : i < cont.max_num_of_proc) × (junk : (process_at cont i).junk ≡ true)
                × ((j : ℕ) → j < i → (process_at cont j).junk ≡ false)
                × IsCreated i lt junk (init_process junk_offset beyond cont mmu))
      go (none, run, live) = inl (λ j lt. live j (omega arith) (omega arith), rw run refl)
      go (some i, run, (_, hi, junk, before)) = inr (
        i,
        omega arith,
        junk,
        λ j lt. before j (omega arith) lt,
        init_process-block i (omega arith) junk run,
      )
