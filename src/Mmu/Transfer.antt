-- ===== src/Mmu/Transfer.antt =====
-- `mmu_read` and `mmu_write` of vmsim/mmu.c once their page is pinned.
use vmsim.Prelude.{
  ℕ, ◌+◌, ◌*◌, ◌%◌, ◌^◌, ◌≤◌, ◌<◌, ◌≡◌, refl, ◌≢◌, true, some, List, arith, length, ◌∙◌, le→leb,
}
use vmsim.Run.{Run, ok}
use vmsim.Int.{int_add-small, int_leb-small}
use vmsim.Types.{Errcode, success, VirtAddr, unsigned_mod}
use vmsim.Bytes.{slice, paste, length-paste}
use vmsim.Bytes.Frames.{frame, frame_in, frame-paste_other}
use vmsim.Ipt.{ref_read, ref_write, ipt_translate}
use vmsim.Ipt.Valid.{find_page}
use vmsim.Ipt.Reference.{ipt_reference_lem}
use vmsim.Ipt.Lookup.{ipt_lookup_lem}
use vmsim.Mm.Frames.{read_bytes-slice, write_bytes-paste}
use vmsim.Aging.{Flags}
use vmsim.Mmu.{Mmu, mem_data}
use vmsim.Mmu.Access.{mmu_pin_page, mmu_read, mmu_write}
use vmsim.Mmu.Valid.{IsMmu, mem_data-held, frame_inside, frame_offset}
use vmsim.Mmu.Sync.{memory-IsMmu}
use vmsim.Mmu.Pinned.{HasAccessed, table-IsMmu, age_if_needed, HasReferenced-dirty}

module _ {S : Type 0} (pagefault : S → Mmu → VirtAddr → Run (Errcode × S × Mmu)) (rounds : ℕ)
    (flags : Flags) (s s₁ : S) (mmu : Mmu) {mmu₁ : Mmu} {bytes stored : List ℕ}
    {pages : List (VirtAddr × ℕ)} (is : IsMmu mmu₁ bytes stored pages) (addr : VirtAddr) (i : ℕ)
    (found : find_page mmu₁.mem_ipt.entries addr ≡ some i)
    (pinned : mmu_pin_page pagefault rounds s mmu addr ≡ ok (success, s₁, mmu₁))
    (same : mmu₁.mem.page_size ≡ mmu.mem.page_size) where
  abbrev size : ℕ
  size = mmu₁.mem.page_size

  -- the address in the memory
  abbrev place : ℕ
  place = i * size + addr.offset

  -- Once the page is pinned, mmu_read gives the bytes at its place.
  pub mmu_read-pinned :
      (n : ℕ)
      → addr.offset + n ≤ size
      → addr.offset < size
      → (flags' : Flags) × (mmu' : Mmu) × (mmu_read pagefault rounds true flags s mmu addr n
          ≡ ok (success, slice bytes place n, flags', s₁, mmu'))
        × IsMmu mmu' bytes stored pages
        × HasAccessed ref_read i mmu₁ mmu'
  unfolding mmu_read mem_data slice
  mmu_read-pinned n fits inside =
      let (ipt₁, ref, has) = ipt_reference_lem is.table addr i found ref_read in
      let translated : ipt_translate ipt₁ addr ≡ ok (success, i) =
        (ipt_lookup_lem has.valid addr).1 ∙ rw (has.finds addr, found) refl in
      let (flags', ipt₂, age, valid₂, size₂, finds₂, dirty₂) =
        age_if_needed flags (record mmu₁ { mem_ipt = ipt₁ }) has.valid in
      let fits' = frame_inside is addr i found in
      let small : size < 2 ^ 31 = omega (arith, fits', is.memory.full, is.addressed) in
      (
        flags',
        record mmu₁ { mem_ipt = ipt₂ },
        rw
            (
              int_add-small addr.offset n (omega (arith, small)),
              int_leb-small (addr.offset + n) mmu.mem.page_size (omega (arith, same))
                  (omega (arith, same, small)),
              pinned,
              ref,
              translated,
              mem_data-held is,
              frame_offset is addr i found addr.offset inside,
              read_bytes-slice bytes place n (omega arith),
              age,
            )
            refl,
        table-IsMmu is ipt₂ _ valid₂ (size₂ ∙ has.size) (λ b. finds₂ b ∙ has.finds b),
        record {
          disk = refl;
          map = refl;
          page_size = refl;
          npages = refl;
          stats = refl;
          finds = λ b. finds₂ b ∙ has.finds b;
          dirty = λ k. dirty₂ k ∙ HasReferenced-dirty has k;
        },
      )

  -- Once the page is pinned, mmu_write replaces the bytes at its place and leaves every other frame.
  pub mmu_write-pinned :
      (buf : List ℕ)
      → addr.offset + length buf ≤ size
      → addr.offset < size
      → (flags' : Flags) × (mmu' : Mmu) × (mmu_write pagefault rounds true flags s mmu addr buf
          ≡ ok (success, flags', s₁, mmu'))
        × IsMmu mmu' (paste bytes place buf) stored pages
        × HasAccessed ref_write i mmu₁ mmu'
        × ((j : ℕ)
            → j < mmu₁.mem.npages
            → i ≢ j
            → frame (paste bytes place buf) size j ≡ frame bytes size j)
  unfolding mmu_write mem_data paste
  mmu_write-pinned buf fits inside =
      let (ipt₁, ref, has) = ipt_reference_lem is.table addr i found ref_write in
      let translated : ipt_translate ipt₁ addr ≡ ok (success, i) =
        (ipt_lookup_lem has.valid addr).1 ∙ rw (has.finds addr, found) refl in
      let fits' = frame_inside is addr i found in
      let bytes' = paste bytes place buf in
      let (flags', ipt₂, age, valid₂, size₂, finds₂, dirty₂) =
        age_if_needed flags
          (record mmu₁ { mem_ipt = ipt₁; mem = record (mmu₁.mem) { bytes = some bytes' } })
          has.valid in
      (
        flags',
        record mmu₁ { mem_ipt = ipt₂; mem = record (mmu₁.mem) { bytes = some bytes' } },
        rw
            (
              le→leb ((addr.offset + length buf) % unsigned_mod) mmu.mem.page_size
                  (omega (arith, same)),
              pinned,
              ref,
              translated,
              mem_data-held is,
              frame_offset is addr i found addr.offset inside,
              write_bytes-paste bytes place buf (omega arith),
              age,
            )
            refl,
        table-IsMmu (memory-IsMmu is bytes' (length-paste bytes place buf (omega arith))) ipt₂ _
            valid₂ (size₂ ∙ has.size) (λ b. finds₂ b ∙ has.finds b),
        record {
          disk = refl;
          map = refl;
          page_size = refl;
          npages = refl;
          stats = refl;
          finds = λ b. finds₂ b ∙ has.finds b;
          dirty = λ k. dirty₂ k ∙ HasReferenced-dirty has k;
        },
        λ j lt ne.
            frame-paste_other bytes size i addr.offset buf j fits fits'
              (omega (arith, is.memory.full, frame_in j mmu₁.mem.npages size lt)) ne,
      )
