-- ===== src/Disk/Process.antt =====
-- vmsim/disk.c: `disk_alloc_process_block` and `disk_free_process_block`.
use vmsim.Prelude.{
  ℕ, zero, suc, ◌+◌, ◌≤◌, ◌<◌, ◌≡◌, refl, true, false, ◌&&◌, ◌||◌, not, Option, some, none, List,
  arith, ltb, ◌==◌, Bool-cases, inl, inr, ◌⊎◌,
}
use vmsim.Run.{Run, ok}
use vmsim.Types.{Errcode, success, fail}
use vmsim.Bitmap.{bitmap_first_clear, found_code}
use vmsim.Bitmap.Access.{bit, bitmap_get-bit}
use vmsim.Bitmap.Find.{IsFirst}
use vmsim.Bitmap.First.{bitmap_first_clear_lem}
use vmsim.Disk.{
  Disk, all_clear, has_enough_consecutive_pages, disk_alloc_process_block, disk_free_process_block,
}
use vmsim.Disk.Pages.{IsDisk, allocated, disk_data-held}
use vmsim.Disk.Blocks.{in_block, SameData, alloc_pages_lem, free_pages_lem, Taken, Clear}

module _ {disk : Disk} {bytes : List ℕ} (is : IsDisk disk bytes) where
  all_clear-cases :
      (n page : ℕ)
      → page + n ≤ disk.npages
      → ((all_clear n disk.alloc_bitmap page ≡ ok true) × Clear disk page n)
        ⊎ ((all_clear n disk.alloc_bitmap page ≡ ok false) × Taken disk page n)
  unfolding all_clear
  all_clear-cases zero page fits = inl (refl, λ j l h. absurd (omega arith))
  all_clear-cases (suc n) page fits =
      let get = bitmap_get-bit is.form page (omega (arith, is.bits)) in
      elim (Bool-cases (allocated disk page)) [
        | inl taken ↦ inr (rw (get, taken) refl, (page, omega arith, omega arith, taken))
        | inr clear ↦ elim (all_clear-cases n (page + 1) (omega arith)) [
          | inr (run, (j, l, h, taken)) ↦
              inr (rw (get, clear) run, (j, omega arith, omega arith, taken))
          | inl (run, rest) ↦ inl (
            rw (get, clear) run,
            λ j l h. elim (Bool-cases (j == page)) [
              | inl here ↦ let e : j ≡ page = ground arith in rw e clear
              | inr later ↦ rest j (ground arith) (omega arith)
            ],
          )
        ]
      ]

  enough-cases :
      (page n : ℕ)
      → ((has_enough_consecutive_pages disk page n ≡ ok true)
          × (page + n ≤ disk.npages)
          × Clear disk page n)
        ⊎ ((has_enough_consecutive_pages disk page n ≡ ok false)
            × ((disk.npages < page + n) ⊎ Taken disk page n))
  unfolding has_enough_consecutive_pages
  enough-cases page n = elim (Bool-cases (ltb disk.npages (page + n))) [
    | inl past ↦ inr (rw past refl, inl (ground arith))
    | inr fits ↦ elim (all_clear-cases n page (ground arith)) [
      | inl (run, clear) ↦ inl (rw fits run, ground arith, clear)
      | inr (run, taken) ↦ inr (rw fits run, inr taken)
    ]
  ]

  -- what allocating a block has done, or why it has not
  abbrev pub Outcome : Run (Errcode × Option ℕ × Disk) → Type 0
  Outcome r =
      ((r ≡ ok (fail, none, disk)) × ((j : ℕ) → j < disk.npages → allocated disk j ≡ true))
      ⊎ ((page : ℕ) × (page < disk.npages)
          × (allocated disk page ≡ false)
          × ((j : ℕ) → j < page → allocated disk j ≡ true)
          × (((r ≡ ok (fail, some page, disk))
                × ((disk.npages < page + disk.process_block_size)
                    ⊎ Taken disk page disk.process_block_size))
              ⊎ ((disk' : Disk) × (r ≡ ok (success, some page, disk'))
                  × (page + disk.process_block_size ≤ disk.npages)
                  × Clear disk page disk.process_block_size
                  × IsDisk disk' bytes
                  × SameData disk disk'
                  × ((j : ℕ)
                      → allocated disk' j
                        ≡ (in_block page disk.process_block_size j || allocated disk j)))))

  alloc_at :
      (beyond : ℕ → ℕ) (page : ℕ)
      → bitmap_first_clear disk.alloc_bitmap beyond ≡ ok (found_code (some page))
      → ((disk_alloc_process_block disk beyond ≡ ok (fail, some page, disk))
          × ((disk.npages < page + disk.process_block_size)
              ⊎ Taken disk page disk.process_block_size))
        ⊎ ((disk' : Disk) × (disk_alloc_process_block disk beyond ≡ ok (success, some page, disk'))
            × (page + disk.process_block_size ≤ disk.npages)
            × Clear disk page disk.process_block_size
            × IsDisk disk' bytes
            × SameData disk disk'
            × ((j : ℕ)
                → allocated disk' j
                  ≡ (in_block page disk.process_block_size j || allocated disk j)))
  unfolding disk_alloc_process_block found_code
  alloc_at beyond page first = elim (enough-cases page disk.process_block_size) [
    | inr (run, why) ↦ inl (rw (disk_data-held is, first, run) refl, why)
    | inl (run, fits, clear) ↦
        let (disk', run', is', same, bits) =
          alloc_pages_lem disk.process_block_size is page fits clear in
        inr (disk', rw (disk_data-held is, first, run, run') refl, fits, clear, is', same, bits)
  ]

  pub disk_alloc_process_block_lem :
      (beyond : ℕ → ℕ) → Outcome (disk_alloc_process_block disk beyond)
  unfolding disk_alloc_process_block found_code
  disk_alloc_process_block_lem beyond = go (bitmap_first_clear_lem is.form beyond)
    where
      go :
          ((r : Option ℕ) × (bitmap_first_clear disk.alloc_bitmap beyond ≡ ok (found_code r))
            × IsFirst (λ i. not (bit disk.alloc_bitmap i)) 0 disk.alloc_bitmap.size r)
          → Outcome (disk_alloc_process_block disk beyond)
      go (none, run, first) = inl (
        rw (disk_data-held is, run) refl,
        λ j lt. ground (arith, first j (omega arith) (omega (arith, is.bits))),
      )
      go (some page, run, first) = inr (
        page,
        omega (arith, first.1, is.bits),
        ground (arith, first.2),
        (λ j lt. ground (arith, first.3 j (omega arith) lt)),
        alloc_at beyond page run,
      )

  -- On a well-formed disk, disk_free_process_block of a block that lies on the disk and whose pages
  -- are all allocated succeeds: exactly these pages become clear, the data stay, and the disk stays
  -- well-formed.
  pub disk_free_process_block_lem :
      (page : ℕ)
      → page + disk.process_block_size ≤ disk.npages
      → ((j : ℕ) → page ≤ j → j < page + disk.process_block_size → allocated disk j ≡ true)
      → (disk' : Disk) × (disk_free_process_block disk page ≡ ok (success, disk'))
        × IsDisk disk' bytes
        × SameData disk disk'
        × ((j : ℕ)
            → allocated disk' j
              ≡ (not (in_block page disk.process_block_size j) && allocated disk j))
  unfolding disk_free_process_block
  disk_free_process_block_lem page fits taken =
      let (disk', run, is', same, bits) =
        free_pages_lem disk.process_block_size is page fits taken in
      (disk', rw (disk_data-held is, run) refl, is', same, bits)
