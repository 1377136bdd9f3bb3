-- ===== src/Prm/Paged.antt =====
-- The MMU with the page replacement as its handler of page faults, and the memory that it stands for: every
-- page simply holds its bytes.
use vmsim.Prelude.{
  ℕ, ◌+◌, ◌≤◌, ◌<◌, ◌≡◌, refl, Bool, true, false, some, List, [], arith, ◌∙◌, sym, ap,
  if◌then◌else◌, ◌==◌, ==_refl, length, ◌≢◌,
}
use vmsim.Run.{Run, ok, ◌>>=◌}
use vmsim.Types.{VirtAddr, page_eq}
use vmsim.Bytes.{slice, paste}
use vmsim.Bytes.Frames.{frame}
use vmsim.Ipt.{ref_read, ref_write}
use vmsim.Ipt.Valid.{find_page, find_page-apart}
use vmsim.Map.Assoc.{find}
use vmsim.Aging.{Flags}
use vmsim.Mmu.{Mmu}
use vmsim.Mmu.Access.{HasRoom, mmu_read, mmu_write}
use vmsim.Mmu.Valid.{IsMmu, frame_below}
use vmsim.Mmu.Pinned.{dirty_at, HasAccessed}
use vmsim.Mmu.Contents.{stored_page, contents, IsSettled, Keeps, Keeps-in_place}
use vmsim.Prm.{Prm, prm_pagefault}

-- what each page holds
abbrev pub Store : Type 0
Store = VirtAddr → List ℕ

-- a read of some bytes, or a write
pub data Access : Type 0 where
  load : VirtAddr → ℕ → Access
  save : VirtAddr → List ℕ → Access

-- the memory: a write replaces bytes of its page, a read gives bytes of its page
abbrev pub after : Store → Access → Store
after store (load addr n) = store
after store (save addr buf) =
    λ b. if page_eq addr b then paste (store b) addr.offset buf else store b

abbrev pub answer : Store → Access → List ℕ
answer store (load addr n) = slice (store addr) addr.offset n
answer store (save addr buf) = []

-- the same by the MMU
abbrev pub access : Access → Flags → Prm → Mmu → Run (List ℕ × Flags × Prm × Mmu)
access (load addr n) flags prm mmu = do
  (_, buf, flags', prm', mmu') ← mmu_read (prm_pagefault true) 1 true flags prm mmu addr n
  ok (buf, flags', prm', mmu')
access (save addr buf) flags prm mmu = do
  (_, flags', prm', mmu') ← mmu_write (prm_pagefault true) 1 true flags prm mmu addr buf
  ok ([], flags', prm', mmu')

-- the access is within an allocated page
abbrev pub IsWithin : List (VirtAddr × ℕ) → ℕ → VirtAddr → ℕ → Type 0
IsWithin pages size addr n =
    (d : ℕ) × (find page_eq pages addr ≡ some d) × (addr.offset + n ≤ size) × (addr.offset < size)

abbrev pub IsAllowed : List (VirtAddr × ℕ) → ℕ → Access → Type 0
IsAllowed pages size (load addr n) = IsWithin pages size addr n
IsAllowed pages size (save addr buf) = IsWithin pages size addr (length buf)

-- The MMU with its disk holds the memory, and `left` more accesses can be counted. A page that is clean in its frame has the same bytes on the disk.
pub record IsPaged (pages : List (VirtAddr × ℕ)) (size left : ℕ) (store : Store) (prm : Prm)
    (mmu : Mmu) : Type 0 where
  pub bytes : List ℕ
  pub stored : List ℕ
  pub memory : IsMmu mmu bytes stored pages
  pub page_size : mmu.mem.page_size ≡ size
  pub idle : prm.queue ≡ []
  pub room : HasRoom left mmu.stats
  pub settled : (b : VirtAddr) → IsSettled pages mmu bytes b
  pub holds : (b : VirtAddr) → contents pages mmu bytes b ≡ store b

-- fewer accesses can be counted too
pub IsPaged-fewer :
    {pages : List (VirtAddr × ℕ)} {size left : ℕ} {store : Store} {prm : Prm} {mmu : Mmu}
    → IsPaged pages size left store prm mmu
    → (fewer : ℕ) → fewer ≤ left
    → IsPaged pages size fewer store prm mmu
IsPaged-fewer is fewer few = record {
  bytes = is.bytes;
  stored = is.stored;
  memory = is.memory;
  page_size = is.page_size;
  idle = is.idle;
  room = record {
    nrefs = omega (arith, is.room.nrefs, few);
    hits = omega (arith, is.room.hits, few);
  };
  settled = is.settled;
  holds = is.holds;
}

if_same : {A : Type 0} (b : Bool) (x : A) → (if b then x else x) ≡ x
if_same true x = refl
if_same false x = refl

module _ {mmu mmu' : Mmu} {bytes : List ℕ} {pages : List (VirtAddr × ℕ)} (i : ℕ) where
  pub read-Keeps :
      HasAccessed ref_read i mmu mmu' → (b : VirtAddr) → Keeps pages mmu bytes mmu' bytes b
  read-Keeps has b =
      Keeps-in_place (has.finds b)
        (λ k at_k. (
          has.dirty k ∙ if_same (i == k) (dirty_at mmu k),
          ap (λ n. frame bytes n k) has.page_size,
        ))
        (ap (λ x. stored_page x pages b) has.disk)

  -- a write leaves the other pages
  pub write-Keeps :
      {bytes' stored : List ℕ} (addr : VirtAddr)
      → IsMmu mmu bytes stored pages
      → find_page mmu.mem_ipt.entries addr ≡ some i
      → HasAccessed ref_write i mmu mmu'
      → ((j : ℕ)
          → j < mmu.mem.npages
          → i ≢ j
          → frame bytes' mmu.mem.page_size j ≡ frame bytes mmu.mem.page_size j)
      → (b : VirtAddr) → page_eq addr b ≡ false
      → Keeps pages mmu bytes mmu' bytes' b
  write-Keeps {bytes'} addr is found has frames b other =
      Keeps-in_place (has.finds b)
        (λ k at_k.
          let apart = find_page-apart mmu.mem_ipt.entries addr b other found at_k in
          (
            has.dirty k ∙ rw apart refl,
            ap (λ n. frame bytes' n k) has.page_size
                ∙ frames k (frame_below is b k at_k) (ground arith),
          ))
        (ap (λ x. stored_page x pages b) has.disk)

-- and its own page is dirty
pub write-IsSettled :
    (pages : List (VirtAddr × ℕ)) (bytes : List ℕ) {mmu mmu' : Mmu} (b : VirtAddr) (i : ℕ)
    → find_page mmu.mem_ipt.entries b ≡ some i
    → HasAccessed ref_write i mmu mmu'
    → IsSettled pages mmu' bytes b
write-IsSettled pages bytes {mmu} {mmu'} b i found has k at_k clean =
    let same : i ≡ k = ground (arith, has.finds b, found) in
    let set : dirty_at mmu' i ≡ true = has.dirty i ∙ rw (==_refl i) refl in
    cc (sym clean ∙ ap (dirty_at mmu') (sym same) ∙ set)
