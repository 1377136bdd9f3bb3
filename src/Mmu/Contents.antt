-- ===== src/Mmu/Contents.antt =====
-- What the pages of vmsim/mmu.c hold, be they in the main memory or on the disk, and which changes of the MMU
-- keep it.
use vmsim.Prelude.{
  ℕ, ◌≡◌, true, false, Option, some, none, List, [], arith, ◌∙◌, sym, Option-cases, Bool-cases, inl,
  inr, ◌*◌, length,
}
use vmsim.Run.{Run, ok, fault}
use vmsim.Types.{Errcode, VirtAddr, page_eq}
use vmsim.Bytes.Frames.{frame, frame_in}
use vmsim.Ipt.Valid.{find_page}
use vmsim.Map.Assoc.{find}
use vmsim.Disk.{Disk, disk_get_page}
use vmsim.Mmu.Valid.{IsMmu, frame_inside}
use vmsim.Bytes.{length-slice}
use vmsim.Disk.Pages.{disk_get_page-frame}
use vmsim.Mmu.{Mmu}
use vmsim.Mmu.Pinned.{dirty_at}

-- the bytes that `disk_get_page` gives
abbrev pub page_bytes : Run (Errcode × Option (List ℕ)) → List ℕ
page_bytes (ok (code, some bytes)) = bytes
page_bytes (ok (code, none)) = []
page_bytes (fault e) = []

abbrev pub stored_at : Disk → Option ℕ → List ℕ
stored_at disk none = []
stored_at disk (some d) = page_bytes (disk_get_page disk d)

abbrev pub held_at : List ℕ → ℕ → List ℕ → Option ℕ → List ℕ
held_at bytes size stored none = stored
held_at bytes size stored (some i) = frame bytes size i

-- the bytes of the page of the disk that an address has
abbrev pub stored_page : Disk → List (VirtAddr × ℕ) → VirtAddr → List ℕ
stored_page disk pages a = stored_at disk (find page_eq pages a)

-- the bytes of the page of an address: those of its frame, or of its page of the disk if it has no frame
abbrev pub contents : List (VirtAddr × ℕ) → Mmu → List ℕ → VirtAddr → List ℕ
contents pages mmu bytes a =
    held_at bytes mmu.mem.page_size (stored_page mmu.disk pages a) (find_page mmu.mem_ipt.entries a)

-- If the page of the address is clean in its frame, the disk has the same bytes.
abbrev pub IsSettled : List (VirtAddr × ℕ) → Mmu → List ℕ → VirtAddr → Type 0
IsSettled pages mmu bytes a =
    (i : ℕ)
    → find_page mmu.mem_ipt.entries a ≡ some i
    → dirty_at mmu i ≡ false
    → frame bytes mmu.mem.page_size i ≡ stored_page mmu.disk pages a

-- the change keeps the address settled, and then what its page holds
pub record Keeps (pages : List (VirtAddr × ℕ)) (mmu : Mmu) (bytes : List ℕ) (mmu' : Mmu)
    (bytes' : List ℕ) (a : VirtAddr) : Type 0 where
  pub settled : IsSettled pages mmu bytes a → IsSettled pages mmu' bytes' a
  pub same : IsSettled pages mmu bytes a → contents pages mmu' bytes' a ≡ contents pages mmu bytes a

module _ {pages : List (VirtAddr × ℕ)} where
  pub Keeps-trans :
      {mmu₁ mmu₂ mmu₃ : Mmu} {bytes₁ bytes₂ bytes₃ : List ℕ} {a : VirtAddr}
      → Keeps pages mmu₁ bytes₁ mmu₂ bytes₂ a
      → Keeps pages mmu₂ bytes₂ mmu₃ bytes₃ a
      → Keeps pages mmu₁ bytes₁ mmu₃ bytes₃ a
  Keeps-trans p q = record {
    settled = λ s. q.settled (p.settled s);
    same = λ s. q.same (p.settled s) ∙ p.same s;
  }

  -- The page stays where it is, with the same bytes there and the same dirty bit.
  pub Keeps-in_place :
      {mmu mmu' : Mmu} {bytes bytes' : List ℕ} {a : VirtAddr}
      → find_page mmu'.mem_ipt.entries a ≡ find_page mmu.mem_ipt.entries a
      → ((i : ℕ)
          → find_page mmu.mem_ipt.entries a ≡ some i
          → (dirty_at mmu' i ≡ dirty_at mmu i)
            × (frame bytes' mmu'.mem.page_size i ≡ frame bytes mmu.mem.page_size i))
      → stored_page mmu'.disk pages a ≡ stored_page mmu.disk pages a
      → Keeps pages mmu bytes mmu' bytes' a
  Keeps-in_place {mmu} {mmu'} {bytes} {bytes'} {a} finds frames stored = record {
    settled = λ settled i found clean.
        let before = sym finds ∙ found in
        (frames i before).1 ∙ settled i before (sym (frames i before).0 ∙ clean) ∙ sym stored;
    same = λ settled. elim (Option-cases (find_page mmu.mem_ipt.entries a)) [
      | inl absent ↦ rw (finds, absent) stored
      | inr (i, found) ↦ rw (finds, found) ((frames i found).1)
    ];
  }

  -- The page leaves its frame, and the disk has its bytes.
  pub Keeps-out :
      {mmu mmu' : Mmu} {bytes bytes' : List ℕ} {a : VirtAddr} (i : ℕ)
      → find_page mmu.mem_ipt.entries a ≡ some i
      → find_page mmu'.mem_ipt.entries a ≡ none
      → (dirty_at mmu i ≡ false → stored_page mmu'.disk pages a ≡ stored_page mmu.disk pages a)
      → (dirty_at mmu i ≡ true → stored_page mmu'.disk pages a ≡ frame bytes mmu.mem.page_size i)
      → Keeps pages mmu bytes mmu' bytes' a
  Keeps-out {mmu} {mmu'} {bytes} i found gone clean dirty = record {
    settled = λ settled k found' _. absurd (ground (arith, gone, found'));
    same = λ settled.
        rw (gone, found)
          (elim (Bool-cases (dirty_at mmu i)) [
            | inl changed ↦ dirty changed
            | inr same ↦ clean same ∙ sym (settled i found same)
          ]);
  }

  -- The page comes into a frame, with the bytes that the disk has.
  pub Keeps-in :
      {mmu mmu' : Mmu} {bytes bytes' : List ℕ} {a : VirtAddr} (i : ℕ)
      → find_page mmu.mem_ipt.entries a ≡ none
      → find_page mmu'.mem_ipt.entries a ≡ some i
      → frame bytes' mmu'.mem.page_size i ≡ stored_page mmu.disk pages a
      → stored_page mmu'.disk pages a ≡ stored_page mmu.disk pages a
      → Keeps pages mmu bytes mmu' bytes' a
  Keeps-in {mmu} {mmu'} {bytes} {bytes'} i absent found loaded stored = record {
    settled = λ settled k found' _.
        let same : k ≡ i = ground (arith, found, found') in rw same (loaded ∙ sym stored);
    same = λ settled. rw (absent, found) loaded;
  }

-- an allocated page is a page long
pub length-contents :
    {mmu : Mmu} {bytes stored : List ℕ} {pages : List (VirtAddr × ℕ)}
    (is : IsMmu mmu bytes stored pages) (a : VirtAddr) (d : ℕ)
    → find page_eq pages a ≡ some d
    → length (contents pages mmu bytes a) ≡ mmu.mem.page_size
length-contents {mmu} {bytes} {stored} {pages} is a d onto =
    elim (Option-cases (find_page mmu.mem_ipt.entries a)) [
      | inr (i, found) ↦
          rw found (
            length-slice bytes (i * mmu.mem.page_size) mmu.mem.page_size
              (frame_inside is a i found))
      | inl absent ↦
          let (lt, alloc) = is.on_disk a d onto in
          rw (absent, onto, disk_get_page-frame is.disk d lt, alloc)
            (length-slice stored (d * mmu.disk.page_size) mmu.disk.page_size
                (omega (arith, is.disk.full, frame_in d mmu.disk.npages mmu.disk.page_size lt))
              ∙ is.same_size)
    ]
