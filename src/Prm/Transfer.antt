-- ===== src/Prm/Transfer.antt =====
-- One access through the MMU agrees with the memory that the MMU stands for.
use vmsim.Prelude.{
  ℕ, suc, ◌+◌, ◌*◌, ◌≡◌, refl, true, false, List, arith, ◌∙◌, sym, ap, Bool-cases, inl, inr, length,
}
use vmsim.Run.{ok}
use vmsim.Types.{success, VirtAddr, page_eq, page_eq_refl}
use vmsim.Bytes.{slice, paste}
use vmsim.Bytes.Frames.{frame}
use vmsim.Bytes.Within.{slice-frame, frame-paste_within}
use vmsim.Ipt.Valid.{find_page-same}
use vmsim.Aging.{Flags}
use vmsim.Mmu.{Mmu, MmuStats}
use vmsim.Mmu.Access.{HasRoom, mmu_read, mmu_write}
use vmsim.Mmu.Valid.{IsMmu, frame_inside}
use vmsim.Mmu.Pinned.{HasAccessed}
use vmsim.Ipt.{RefType}
use vmsim.Mmu.Transfer.{mmu_read-pinned, mmu_write-pinned}
use vmsim.Mmu.Contents.{contents, Keeps-trans}
use vmsim.Prm.{Prm, prm_pagefault}
use vmsim.Prm.Pin.{HasPinned, mmu_pin_page-HasPinned}
use vmsim.Prm.Paged.{
  Store, save, after, IsWithin, IsPaged, read-Keeps, write-Keeps, write-IsSettled,
}

module _ {pages : List (VirtAddr × ℕ)} {size left : ℕ} {store : Store} {prm : Prm} {mmu mmu₁ : Mmu}
    {bytes₁ : List ℕ} (is : IsPaged pages size left store prm mmu) (addr : VirtAddr) (i : ℕ)
    (pinned : HasPinned pages mmu is.bytes mmu₁ bytes₁ addr i) where
  -- the frame of the pinned page holds what the memory has for it, and so for the same page at another offset
  frame-store :
      {stored₁ : List ℕ} (b : VirtAddr)
      → IsMmu mmu₁ bytes₁ stored₁ pages
      → page_eq addr b ≡ true
      → frame bytes₁ mmu₁.mem.page_size i ≡ store b
  frame-store b is₁ same =
      let found = find_page-same addr b is₁.table same pinned.found in
      let held : contents pages mmu₁ bytes₁ b ≡ frame bytes₁ mmu₁.mem.page_size i = rw found refl in
      sym held ∙ (pinned.keeps b).same (is.settled b) ∙ is.holds b

HasRoom-accessed :
    {r : RefType} {pages : List (VirtAddr × ℕ)} {left i : ℕ} {mmu mmu₁ mmu' : Mmu}
    {bytes bytes₁ : List ℕ} {addr : VirtAddr}
    → HasRoom (suc left) mmu.stats
    → HasPinned pages mmu bytes mmu₁ bytes₁ addr i
    → HasAccessed r i mmu₁ mmu'
    → HasRoom left mmu'.stats
HasRoom-accessed room pinned has = record {
  nrefs = omega (arith, room.nrefs, pinned.nrefs, ap (λ (x : MmuStats). x.nrefs) has.stats);
  hits = omega (arith, room.hits, pinned.hits, ap (λ (x : MmuStats). x.hits) has.stats);
}

pub access_load :
    {pages : List (VirtAddr × ℕ)} {size left : ℕ} {store : Store} {prm : Prm} {mmu : Mmu}
    (is : IsPaged pages size (suc left) store prm mmu) (flags : Flags) (addr : VirtAddr) (n : ℕ)
    → IsWithin pages size addr n
    → (flags' : Flags) × (prm' : Prm) × (mmu' : Mmu) × (mmu_read
          (prm_pagefault true)
          1
          true
          flags
          prm
          mmu
          addr
          n
        ≡ ok (success, slice (store addr) addr.offset n, flags', prm', mmu'))
      × IsPaged pages size left store prm' mmu'
access_load {pages} {size} {left} {store} {prm} {mmu} is flags addr n (d, onto, fits, inside) =
    let one : HasRoom 1 mmu.stats = record {
      nrefs = omega (arith, is.room.nrefs);
      hits = omega (arith, is.room.hits);
    } in
    let (prm', mmu₁, bytes₁, stored₁, i, pin, is₁, pinned, idle) =
      mmu_pin_page-HasPinned is.memory prm addr d is.idle onto one in
    let same = pinned.page_size ∙ is.page_size in
    let (flags', mmu', run, is', has) =
      mmu_read-pinned (prm_pagefault true) 1 flags prm prm' mmu is₁ addr i pinned.found pin
        pinned.page_size n (omega (arith, same)) (omega (arith, same)) in
    let got : slice bytes₁ (i * mmu₁.mem.page_size + addr.offset) n
        ≡ slice (store addr) addr.offset n =
      slice-frame bytes₁ mmu₁.mem.page_size i addr.offset (frame_inside is₁ addr i pinned.found) n
        (omega (arith, same))
      ∙ ap (λ l. slice l addr.offset n)
          (frame-store is addr i pinned addr is₁ (page_eq_refl addr)) in
    let kept = λ (b : VirtAddr). Keeps-trans (pinned.keeps b) (read-Keeps i has b) in
    (
      flags',
      prm',
      mmu',
      run ∙ ap (λ l. ok (success, l, flags', prm', mmu')) got,
      record {
        bytes = bytes₁;
        stored = stored₁;
        memory = is';
        page_size = has.page_size ∙ same;
        idle = idle;
        room = HasRoom-accessed is.room pinned has;
        settled = λ b. (kept b).settled (is.settled b);
        holds = λ b. (kept b).same (is.settled b) ∙ is.holds b;
      },
    )

pub access_save :
    {pages : List (VirtAddr × ℕ)} {size left : ℕ} {store : Store} {prm : Prm} {mmu : Mmu}
    (is : IsPaged pages size (suc left) store prm mmu) (flags : Flags) (addr : VirtAddr)
    (buf : List ℕ)
    → IsWithin pages size addr (length buf)
    → (flags' : Flags) × (prm' : Prm) × (mmu' : Mmu) × (mmu_write
          (prm_pagefault true)
          1
          true
          flags
          prm
          mmu
          addr
          buf
        ≡ ok (success, flags', prm', mmu'))
      × IsPaged pages size left (after store (save addr buf)) prm' mmu'
access_save {pages} {size} {left} {store} {prm} {mmu} is flags addr buf (d, onto, fits, inside) =
    let one : HasRoom 1 mmu.stats = record {
      nrefs = omega (arith, is.room.nrefs);
      hits = omega (arith, is.room.hits);
    } in
    let (prm', mmu₁, bytes₁, stored₁, i, pin, is₁, pinned, idle) =
      mmu_pin_page-HasPinned is.memory prm addr d is.idle onto one in
    let same = pinned.page_size ∙ is.page_size in
    let (flags', mmu', run, is', has, frames) =
      mmu_write-pinned (prm_pagefault true) 1 flags prm prm' mmu is₁ addr i pinned.found pin
        pinned.page_size buf (omega (arith, same)) (omega (arith, same)) in
    let sz = mmu₁.mem.page_size in
    let bytes' = paste bytes₁ (i * sz + addr.offset) buf in
    let kept = λ (b : VirtAddr) (other : page_eq addr b ≡ false).
      Keeps-trans (pinned.keeps b) (write-Keeps i addr is₁ pinned.found has frames b other) in
    let found = λ (b : VirtAddr) (this : page_eq addr b ≡ true).
      find_page-same addr b is₁.table this pinned.found in
    (
      flags',
      prm',
      mmu',
      run,
      record {
        bytes = bytes';
        stored = stored₁;
        memory = is';
        page_size = has.page_size ∙ same;
        idle = idle;
        room = HasRoom-accessed is.room pinned has;
        settled = λ b. elim (Bool-cases (page_eq addr b)) [
          | inl this ↦ write-IsSettled pages bytes' b i (found b this) has
          | inr other ↦ (kept b other).settled (is.settled b)
        ];
        holds = λ b. elim (Bool-cases (page_eq addr b)) [
          | inl this ↦
              let there = has.finds b ∙ found b this in
              rw (this, there)
                (ap (λ m. frame bytes' m i) has.page_size
                  ∙ frame-paste_within bytes₁ sz i addr.offset
                      (frame_inside is₁ addr i pinned.found) buf (omega (arith, same))
                  ∙ ap (λ l. paste l addr.offset buf) (frame-store is addr i pinned b is₁ this))
          | inr other ↦ rw other ((kept b other).same (is.settled b) ∙ is.holds b)
        ];
      },
    )
