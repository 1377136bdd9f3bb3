-- ===== src/Disk/Blocks.antt =====
-- Allocating and freeing the pages of a block one after the other: vmsim/disk.c.
use vmsim.Prelude.{
  ℕ, zero, suc, ◌+◌, ◌≤◌, ◌<◌, ◌≡◌, refl, Bool, true, false, ◌&&◌, ◌||◌, not, List, arith, ltb, leb,
  ◌==◌, ◌∙◌,
}
use vmsim.Run.{ok}
use vmsim.Bitmap.Access.{bitmap_set_lem, bitmap_clear_lem}
use vmsim.Disk.{Disk, alloc_page, free_page, alloc_pages, free_pages}
use vmsim.Disk.Pages.{IsDisk, allocated, is_page_allocated-bit}

-- the page is one of the `n` pages from `from` on
abbrev pub in_block : ℕ → ℕ → ℕ → Bool
in_block from n page = leb from page && ltb page (from + n)

-- what a change of the bitmap leaves as it was
pub record SameData (disk disk' : Disk) : Type 0 where
  pub bytes : disk'.bytes ≡ disk.bytes
  pub npages : disk'.npages ≡ disk.npages
  pub page_size : disk'.page_size ≡ disk.page_size
  pub block : disk'.process_block_size ≡ disk.process_block_size

SameData-trans : {a b c : Disk} → SameData a b → SameData b c → SameData a c
SameData-trans p q = record {
  bytes = q.bytes ∙ p.bytes;
  npages = q.npages ∙ p.npages;
  page_size = q.page_size ∙ p.page_size;
  block = q.block ∙ p.block;
}

module _ {disk : Disk} {bytes : List ℕ} (is : IsDisk disk bytes) (page : ℕ)
    (lt : page < disk.npages) where
  alloc_page_lem :
      allocated disk page ≡ false
      → (disk' : Disk) × (alloc_page disk page ≡ ok disk')
        × IsDisk disk' bytes
        × SameData disk disk'
        × ((j : ℕ) → allocated disk' j ≡ ((page == j) || allocated disk j))
  unfolding alloc_page
  alloc_page_lem clear =
      let (bm, run, form, size, bits) = bitmap_set_lem is.form page (omega (arith, is.bits)) in
      (
        record disk { alloc_bitmap = bm },
        rw (is_page_allocated-bit is page lt, clear, run) refl,
        record {
          held = is.held;
          full = is.full;
          addressed = is.addressed;
          counted = is.counted;
          form = form;
          bits = size ∙ is.bits;
        },
        record { bytes = refl; npages = refl; page_size = refl; block = refl },
        bits,
      )

  free_page_lem :
      allocated disk page ≡ true
      → (disk' : Disk) × (free_page disk page ≡ ok disk')
        × IsDisk disk' bytes
        × SameData disk disk'
        × ((j : ℕ) → allocated disk' j ≡ (not (page == j) && allocated disk j))
  unfolding free_page
  free_page_lem taken =
      let (bm, run, form, size, bits) = bitmap_clear_lem is.form page (omega (arith, is.bits)) in
      (
        record disk { alloc_bitmap = bm },
        rw (is_page_allocated-bit is page lt, taken, run) refl,
        record {
          held = is.held;
          full = is.full;
          addressed = is.addressed;
          counted = is.counted;
          form = form;
          bits = size ∙ is.bits;
        },
        record { bytes = refl; npages = refl; page_size = refl; block = refl },
        bits,
      )

pub alloc_pages_lem :
    (n : ℕ) {disk : Disk} {bytes : List ℕ} (is : IsDisk disk bytes) (page : ℕ)
    → page + n ≤ disk.npages
    → ((j : ℕ) → page ≤ j → j < page + n → allocated disk j ≡ false)
    → (disk' : Disk) × (alloc_pages n disk page ≡ ok disk')
      × IsDisk disk' bytes
      × SameData disk disk'
      × ((j : ℕ) → allocated disk' j ≡ (in_block page n j || allocated disk j))
unfolding alloc_pages
alloc_pages_lem zero {disk} is page fits clear = (
  disk,
  refl,
  is,
  record { bytes = refl; npages = refl; page_size = refl; block = refl },
  λ j. ground arith,
)
alloc_pages_lem (suc n) {disk} is page fits clear =
    let (disk₁, run₁, is₁, same₁, bits₁) =
      alloc_page_lem is page (omega arith) (clear page (omega arith) (omega arith)) in
    let (disk₂, run₂, is₂, same₂, bits₂) =
      alloc_pages_lem n is₁ (page + 1) (omega (arith, same₁.npages))
        (λ j l h. bits₁ j ∙ ground (arith, clear j)) in
    (
      disk₂,
      rw run₁ run₂,
      is₂,
      SameData-trans same₁ same₂,
      λ j. bits₂ j ∙ rw (bits₁ j) (ground arith),
    )

pub free_pages_lem :
    (n : ℕ) {disk : Disk} {bytes : List ℕ} (is : IsDisk disk bytes) (page : ℕ)
    → page + n ≤ disk.npages
    → ((j : ℕ) → page ≤ j → j < page + n → allocated disk j ≡ true)
    → (disk' : Disk) × (free_pages n disk page ≡ ok disk')
      × IsDisk disk' bytes
      × SameData disk disk'
      × ((j : ℕ) → allocated disk' j ≡ (not (in_block page n j) && allocated disk j))
unfolding free_pages
free_pages_lem zero {disk} is page fits taken = (
  disk,
  refl,
  is,
  record { bytes = refl; npages = refl; page_size = refl; block = refl },
  λ j. ground arith,
)
free_pages_lem (suc n) {disk} is page fits taken =
    let (disk₁, run₁, is₁, same₁, bits₁) =
      free_page_lem is page (omega arith) (taken page (omega arith) (omega arith)) in
    let (disk₂, run₂, is₂, same₂, bits₂) =
      free_pages_lem n is₁ (page + 1) (omega (arith, same₁.npages))
        (λ j l h. bits₁ j ∙ ground (arith, taken j)) in
    (
      disk₂,
      rw run₁ run₂,
      is₂,
      SameData-trans same₁ same₂,
      λ j. bits₂ j ∙ rw (bits₁ j) (ground arith),
    )

-- a page of the block is allocated
abbrev pub Taken : Disk → ℕ → ℕ → Type 0
Taken disk page n = (j : ℕ) × (page ≤ j) × (j < page + n) × (allocated disk j ≡ true)

abbrev pub Clear : Disk → ℕ → ℕ → Type 0
Clear disk page n = (j : ℕ) → page ≤ j → j < page + n → allocated disk j ≡ false
