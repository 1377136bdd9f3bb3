-- ===== src/Pcb/Delete.antt =====
-- `process_destroy` of vmsim/pcb.c and `process_dealloc` of util/pcb_util.c: the end of a process.
use vmsim.Prelude.{
  ℕ, ◌+◌, ◌-◌, ◌≤◌, ◌<◌, ◌≡◌, refl, true, false, ◌&&◌, not, some, none, List, arith, ltb, leb, ◌∙◌,
  sym, ap, Bool-cases, inl, inr, length-set, subst,
}
use vmsim.Run.{ok, at-get_or}
use vmsim.Types.{success, VirtAddr, page_eq}
use vmsim.Map.Assoc.{find}
use vmsim.Disk.{Disk, disk_free_process_block}
use vmsim.Disk.Pages.{allocated}
use vmsim.Disk.Blocks.{SameData}
use vmsim.Disk.Process.{disk_free_process_block_lem}
use vmsim.Mmu.{Mmu, mmu_free_multiple}
use vmsim.Mmu.Block.{in_block, mmu_free_multiple_lem, without_block}
use vmsim.Pcb.{ProcCont, Process, Post, zero_process, mail_of, process_dealloc}
use vmsim.Pcb.Mail.{process_at, put_process-set}
use vmsim.Pcb.System.{IsSystem, owned, owned-dropped, with_process, IsMmu-disk}

-- the slot of a process that is gone
abbrev pub gone : Process → Process
gone prc = record prc { mail_box = none; junk = true }

pub mail_of-some :
    (prc : Process) (mail : List Post) → prc.mail_box ≡ some mail → mail_of prc ≡ ok mail
unfolding mail_of
mail_of-some prc mail box = rw box refl

owned-live :
    (cont : ProcCont) (i : ℕ) (k : VirtAddr)
    → i < cont.max_num_of_proc
    → (process_at cont i).junk ≡ false
    → k.pid ≡ i
    → k.page < cont.prc_blk_size
    → owned cont k ≡ some ((process_at cont i).disk_block_start + k.page)
owned-live cont i k below live e lt = rw (e, live) (ground arith)

module _ {cont : ProcCont} {mmu : Mmu} {bytes stored : List ℕ} {pages : List (VirtAddr × ℕ)}
    (sys : IsSystem cont mmu bytes stored pages) (junk_offset i : ℕ)
    (below : i < cont.max_num_of_proc) (live : (process_at cont i).junk ≡ false) where
  abbrev start : ℕ
  start = (process_at cont i).disk_block_start

  abbrev page_of : ℕ → VirtAddr
  page_of j = record { pid = i; page = j; offset = junk_offset }

  -- the pages of the process on the disk
  block-found : (j : ℕ) → j < cont.prc_blk_size → find page_eq pages (page_of j) ≡ some (start + j)
  block-found j lt = sys.placed (page_of j) ∙ owned-live cont i (page_of j) below live refl lt

  block_inside : start + cont.prc_blk_size ≤ mmu.disk.npages
  block_inside =
      let last =
        sys.memory.on_disk (page_of (cont.prc_blk_size - 1)) (start + (cont.prc_blk_size - 1))
          (block-found (cont.prc_blk_size - 1) (omega (arith, sys.positive))) in
      omega (arith, last.0, sys.positive)

  block_taken : (j : ℕ) → start ≤ j → j < start + cont.prc_blk_size → allocated mmu.disk j ≡ true
  block_taken j lo hi =
      let page =
        sys.memory.on_disk (page_of (j - start)) (start + (j - start))
          (block-found (j - start) (omega arith)) in
      ap (allocated mmu.disk) (omega arith) ∙ page.1

  placed-gone :
      (k : VirtAddr)
      → without_block cont.prc_blk_size (page_of 0) (find page_eq pages) k
        ≡ owned (with_process cont i (gone (process_at cont i))) k
  placed-gone k =
      ground
        (arith, sys.placed k, owned-dropped cont i (gone (process_at cont i)) k below sys.full refl)

  -- an address of another process has no page in the block
  elsewhere :
      (a : VirtAddr) (d : ℕ)
      → without_block cont.prc_blk_size (page_of 0) (find page_eq pages) a ≡ some d
      → (find page_eq pages a ≡ some d)
        × ((leb start d && ltb d (start + cont.prc_blk_size)) ≡ false)
  unfolding page_eq
  elsewhere a d h = elim (Bool-cases (in_block cont.prc_blk_size (page_of 0) a)) [
    | inl hit ↦ absurd (ground arith)
    | inr miss ↦
        let old : find page_eq pages a ≡ some d = ground arith in
        (
          old,
          elim (Bool-cases (leb start d && ltb d (start + cont.prc_blk_size))) [
            | inr out ↦ out
            | inl inner ↦
                let at_page : find page_eq pages (page_of (d - start)) ≡ some d =
                  block-found (d - start) (ground arith) ∙ ap some (ground arith) in
                absurd (
                  ground
                    (arith, miss, sys.memory.apart a (page_of (d - start)) d old at_page, inner))
          ],
        )
  ]

  block-onto :
      (k : VirtAddr)
      → in_block cont.prc_blk_size (page_of 0) k ≡ true
      → find page_eq pages k ≡ some (start + (k.page - 0))
  block-onto k h =
      sys.placed k
      ∙ owned-live cont i k below live (ground arith) (ground arith)
      ∙ ap some (omega arith)

  still :
      (disk₁ disk' : Disk)
      → disk₁.process_block_size ≡ cont.prc_blk_size
      → disk₁ ≡ mmu.disk
      → (d : ℕ)
      → allocated disk' d
        ≡ (not (leb start d && ltb d (start + disk₁.process_block_size)) && allocated disk₁ d)
      → (a : VirtAddr)
      → (find page_eq pages a ≡ some d)
        × ((leb start d && ltb d (start + cont.prc_blk_size)) ≡ false)
      → allocated disk' d ≡ true
  still disk₁ disk' blk same d bits a (old, out) =
      bits
      ∙ rw (blk, out, ap (λ (x : Disk). allocated x d) same, (sys.memory.on_disk a d old).1) refl

  dealloc_run :
      (mail : List Post) (mmu₁ : Mmu) (disk' : Disk)
      → (process_at cont i).del ≡ true
      → (process_at cont i).mail_box ≡ some mail
      → mmu_free_multiple cont.prc_blk_size mmu (page_of 0) ≡ ok (success, mmu₁)
      → disk_free_process_block mmu₁.disk start ≡ ok (success, disk')
      → process_dealloc junk_offset cont mmu i
        ≡ ok (success, with_process cont i (gone (process_at cont i)), record mmu₁ { disk = disk' })
  unfolding process_dealloc
  dealloc_run mail mmu₁ disk' del box unmapped freed =
      simp
        (
          at-get_or cont.processes i zero_process (omega (arith, sys.full)),
          live,
          del,
          mail_of-some (process_at cont i) mail box,
          unmapped,
          freed,
        )
        (rw
          (put_process-set cont i (record (gone (process_at cont i)) { del = true })
            (omega (arith, sys.full)))
          refl)

  -- Under the invariant of the system, process_dealloc of a process that is not junk, is being
  -- deleted and has a mail box succeeds: the process becomes junk without a mail box, exactly the
  -- pages of its block become free on the disk, the memory and the data of the disk stay, and the
  -- invariant holds, in which no page of the process is allocated any more.
  pub process_dealloc_lem :
      (mail : List Post)
      → (process_at cont i).del ≡ true
      → (process_at cont i).mail_box ≡ some mail
      → (mmu' : Mmu) × (pages' : List (VirtAddr × ℕ)) × (process_dealloc junk_offset cont mmu i
          ≡ ok (success, with_process cont i (gone (process_at cont i)), mmu'))
        × (mmu'.mem ≡ mmu.mem)
        × SameData mmu.disk mmu'.disk
        × ((j : ℕ)
            → allocated mmu'.disk j
              ≡ (not (leb start j && ltb j (start + cont.prc_blk_size)) && allocated mmu.disk j))
        × IsSystem (with_process cont i (gone (process_at cont i))) mmu' bytes stored pages'
  process_dealloc_lem mail del box =
      let (mmu₁, pages', unmapped, mem, disk, is₁, finds) =
        mmu_free_multiple_lem cont.prc_blk_size sys.memory (page_of 0) start
          (omega (arith, sys.fits)) block-onto in
      let blk : mmu₁.disk.process_block_size ≡ cont.prc_blk_size =
        ap (λ (x : Disk). x.process_block_size) disk ∙ sym sys.block in
      let (disk', freed, is', same, bits) =
        disk_free_process_block_lem is₁.disk start
          (omega (arith, blk, ap (λ (x : Disk). x.npages) disk, block_inside))
          (λ j lo hi.
            ap (λ (x : Disk). allocated x j) disk ∙ block_taken j lo (omega (arith, blk, hi))) in
      (
        record mmu₁ { disk = disk' },
        pages',
        dealloc_run mail mmu₁ disk' del box unmapped freed,
        mem,
        subst (λ x. SameData x disk') disk same,
        λ j. bits j ∙ rw (blk, disk) refl,
        record {
          full = length-set cont.processes i (gone (process_at cont i)) ∙ sys.full;
          block = sym (same.block ∙ blk);
          positive = sys.positive;
          fits = sys.fits;
          memory = IsMmu-disk is₁ is' same (λ a d e.
              still (mmu₁.disk) disk' blk disk d (bits d) a (elsewhere a d (sym (finds a) ∙ e)));
          placed = λ k. finds k ∙ placed-gone k;
        },
      )
