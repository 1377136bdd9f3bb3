-- ===== src/Ipt/RemoveInv.antt =====
-- The table of vmsim/ipt.c after `ipt_remove` has unlinked a slot: the invariant and what the search finds.
use vmsim.Prelude.{
  ℕ, ◌<◌, ◌≡◌, refl, true, false, ◌&&◌, not, Option, none, some, List, [], ◌∷◌, arith, ◌==◌,
  if◌then◌else◌, ltb, length, get_or, has, distinct, erase, Bool-cases, inl, inr, sym, ap, ◌∙◌,
  length-set, get_or-set, lt→ltb, has-append, distinct-append_one, ==_refl, has-erase,
  distinct-erase,
}
use vmsim.Types.{VirtAddr, page_eq, page_eq_symm, page_eq_trans}
use vmsim.Ipt.{Ipt, IptEntry, PageData}
use vmsim.Ipt.Chain.{entry, IsChain, is_at, IsChain-frame, next-mem, prev-mem}
use vmsim.Ipt.Unlink.{is_none, IsChain-erase, head-prev}
use vmsim.Ipt.Valid.{
  IptInv, home, home-lt, home_congr, holds, valid_at, addr_at, find_page, find_page-congr,
  find_page-eq_none, find_page-some,
}
use vmsim.Ipt.Remove.{Remove, InRange, unhooked_hat}

-- where the chain of the bucket starts after the slot has been unlinked
unhooked_start :
    (hat : List (Option ℕ)) (h : ℕ) (p n : Option ℕ)
    → h < length hat
    → get_or (unhooked_hat hat h p n) h none ≡ (if is_none p then n else get_or hat h none)
unhooked_start hat h none n lt = rw (get_or-set hat h h n none lt, ==_refl h)
unhooked_start hat h (some p) n lt = refl

unhooked_other :
    (hat : List (Option ℕ)) (h j : ℕ) (p n : Option ℕ)
    → h < length hat
    → (h == j) ≡ false
    → get_or (unhooked_hat hat h p n) j none ≡ get_or hat j none
unhooked_other hat h j none n lt ne = rw (get_or-set hat h j n none lt, ne)
unhooked_other hat h j (some p) n lt ne = refl

length-unhooked_hat :
    (hat : List (Option ℕ)) (h : ℕ) (p n : Option ℕ) → length (unhooked_hat hat h p n) ≡ length hat
length-unhooked_hat hat h none n = length-set hat h _
length-unhooked_hat hat h (some p) n = refl

InRange-intro :
    (es : List IptEntry) (o : Option ℕ)
    → ((j : ℕ) → is_at o j ≡ true → j < length es)
    → InRange es o
InRange-intro es none h = tt
InRange-intro es (some t) h = h t (==_refl t)

module _ {ipt : Ipt} {chains : ℕ → List ℕ} {i : ℕ} (inv : IptInv ipt chains) (addr : VirtAddr)
    (found : find_page ipt.entries addr ≡ some i) where
  abbrev bucket : ℕ
  bucket = home ipt.size addr

  bucket-lt : bucket < ipt.size
  bucket-lt = home-lt ipt.size addr inv.positive

  slot_in : i < ipt.size
  slot_in = omega (arith, (find_page-some ipt.entries addr i found).0, inv.entries_size)

  slot_holds : (valid_at ipt.entries i ≡ true) × (page_eq (addr_at ipt.entries i) addr ≡ true)
  slot_holds = let hit = (find_page-some ipt.entries addr i found).1 in (ground arith, ground arith)

  slot_home : home ipt.size (addr_at ipt.entries i) ≡ bucket
  slot_home = home_congr ipt.size (addr_at ipt.entries i) addr slot_holds.1

  in_chain : has i (chains bucket) ≡ true
  in_chain =
      ground
        (arith, inv.members bucket i bucket-lt, slot_in, slot_holds, slot_home, lt→ltb i ipt.size)

  prev_in : (j : ℕ) → is_at (entry ipt.entries i).prev j ≡ true → has j (chains bucket) ≡ true
  prev_in j e =
      prev-mem ipt.entries none _ (chains bucket) i j (inv.linked bucket bucket-lt) in_chain e

  next_in : (j : ℕ) → is_at (entry ipt.entries i).next j ≡ true → has j (chains bucket) ≡ true
  next_in j e =
      next-mem ipt.entries none _ (chains bucket) i j (inv.linked bucket bucket-lt) in_chain e

  in_range : (j : ℕ) → has j (chains bucket) ≡ true → j < length ipt.entries
  in_range j m = ground (arith, inv.members bucket j bucket-lt, inv.entries_size)

  pub links-InRange :
      InRange ipt.entries (entry ipt.entries i).prev
      × InRange ipt.entries (entry ipt.entries i).next
  links-InRange = (
    InRange-intro ipt.entries (entry ipt.entries i).prev (λ j e. in_range j (prev_in j e)),
    InRange-intro ipt.entries (entry ipt.entries i).next (λ j e. in_range j (next_in j e)),
  )

  module _ {ipt' : Ipt} (done : Remove ipt ipt' addr i) where
    abbrev pub chains_after : ℕ → List ℕ
    chains_after h = if h == home ipt.size addr then erase i (chains h) else chains h

    gone_valid : valid_at ipt'.entries i ≡ false
    gone_valid = ap (λ (d : PageData). d.valid) done.slots.gone_page

    old_valid : (j : ℕ) → (i == j) ≡ false → valid_at ipt'.entries j ≡ valid_at ipt.entries j
    old_valid j ne = ap (λ (d : PageData). d.valid) (done.slots.old_page j ne)

    old_addr : (j : ℕ) → (i == j) ≡ false → addr_at ipt'.entries j ≡ addr_at ipt.entries j
    old_addr j ne = ap (λ (d : PageData). d.addr) (done.slots.old_page j ne)

    after-members :
        (h j : ℕ)
        → h < ipt.size
        → has j (chains_after h) ≡ (
            ltb j ipt.size
            && (valid_at ipt'.entries j && home ipt.size (addr_at ipt'.entries j) == h))
    after-members h j lt = elim (Bool-cases (i == j)) [
      | inl same ↦
          let e : i ≡ j = ground arith in
          rw (← e, gone_valid)
            (ground (arith, has-erase i i (chains h), inv.once h lt, inv.members h i lt, slot_home))
      | inr apart ↦
          rw (old_valid j apart, old_addr j apart, ← inv.members h j lt)
            (ground (arith, has-erase i j (chains h), inv.once h lt))
    ]

    after-once : (h : ℕ) → h < ipt.size → distinct (chains_after h) ≡ true
    after-once h lt = ground (arith, inv.once h lt, distinct-erase i (chains h))

    after-free : (j : ℕ) → has j ipt'.free_pages ≡ (ltb j ipt.size && not (valid_at ipt'.entries j))
    unfolding has
    after-free j = elim (Bool-cases (i == j)) [
      | inl same ↦
          let e : i ≡ j = ground arith in
          rw (done.free, ← e, gone_valid)
            (ground (arith, has-append i ipt.free_pages (i ∷ []), slot_in, lt→ltb i ipt.size))
      | inr apart ↦
          rw (done.free, old_valid j apart, ← inv.free j)
            (ground (arith, has-append j ipt.free_pages (i ∷ [])))
    ]

    after-free_once : distinct ipt'.free_pages ≡ true
    after-free_once = rw done.free (
        distinct-append_one ipt.free_pages i inv.free_once (ground (arith, inv.free i, slot_holds)))

    not_gone : (j : ℕ) → valid_at ipt'.entries j ≡ true → (i == j) ≡ false
    not_gone j v = elim (Bool-cases (i == j)) [
      | inl same ↦
          let e : i ≡ j = ground arith in cc (sym gone_valid ∙ ap (valid_at ipt'.entries) e ∙ v)
      | inr apart ↦ apart
    ]

    after_unique :
        (j k : ℕ)
        → j < ipt.size
        → k < ipt.size
        → valid_at ipt'.entries j ≡ true
        → valid_at ipt'.entries k ≡ true
        → page_eq (addr_at ipt'.entries j) (addr_at ipt'.entries k) ≡ true
        → j ≡ k
    after_unique j k lj lk vj vk same =
        let nj = not_gone j vj in
        let nk = not_gone k vk in
        inv.unique j k lj lk (sym (old_valid j nj) ∙ vj) (sym (old_valid k nk) ∙ vk)
          (rw (← old_addr j nj, ← old_addr k nk) same)

    -- a slot of another bucket keeps its links
    untouched :
        (h j : ℕ)
        → h < ipt.size
        → (h == home ipt.size addr) ≡ false
        → has j (chains h) ≡ true
        → ((entry ipt'.entries j).next ≡ (entry ipt.entries j).next)
          × ((entry ipt'.entries j).prev ≡ (entry ipt.entries j).prev)
    untouched h j lt apart m =
        let mem = inv.members h j lt in
        let mem' = inv.members bucket j bucket-lt in
        let out : has j (chains bucket) ≡ false = ground arith in
        let ne : (i == j) ≡ false = ground (arith, slot_home) in
        let (nx, pv) = done.slots.links j ne in
        (ground (arith, nx, prev_in j), ground (arith, pv, next_in j))

    after-linked :
        (h : ℕ) → h < ipt.size → IsChain ipt'.entries none (get_or ipt'.hat h none) (chains_after h)
    after-linked h lt = elim (Bool-cases (h == home ipt.size addr)) [
      | inl here ↦
          let e : h ≡ home ipt.size addr = ground arith in
          let linked = inv.linked bucket bucket-lt in
          let start =
            unhooked_start ipt.hat bucket (entry ipt.entries i).prev (entry ipt.entries i).next
              (omega (arith, inv.hat_size, bucket-lt)) in
          let head =
            head-prev ipt.entries (get_or ipt.hat bucket none) (chains bucket) i linked in_chain in
          rw (here, e, done.hat, start, ← head)
            (IsChain-erase ipt.entries ipt'.entries i none (get_or ipt.hat bucket none)
              (chains bucket) done.slots.len (λ j m ne. done.slots.links j (ground arith))
              (λ j q. cc) (inv.once bucket bucket-lt) in_chain linked)
      | inr apart ↦
          rw
            (
              apart,
              done.hat,
              unhooked_other ipt.hat bucket h (entry ipt.entries i).prev (entry ipt.entries i).next
                  (omega (arith, inv.hat_size, bucket-lt)) (ground arith),
            )
            (IsChain-frame ipt.entries ipt'.entries none (get_or ipt.hat h none) (chains h)
              done.slots.len (λ j m. untouched h j lt apart m) (inv.linked h lt))
    ]

    pub after-IptInv : IptInv ipt' chains_after
    after-IptInv = record {
      positive = rw done.size inv.positive;
      entries_size = done.slots.len ∙ inv.entries_size ∙ sym done.size;
      hat_size =
          rw (done.hat, done.size)
            (length-unhooked_hat ipt.hat bucket (entry ipt.entries i).prev
                (entry ipt.entries i).next
              ∙ inv.hat_size);
      linked = λ h lt. after-linked h (rw done.size at lt);
      members = λ h j lt. rw done.size (after-members h j (rw done.size at lt));
      once = λ h lt. after-once h (rw done.size at lt);
      free = λ j. rw done.size (after-free j);
      free_once = after-free_once;
      unique = λ j k lj lk. after_unique j k (rw done.size at lj) (rw done.size at lk);
    }

    gone_holds :
        (j : ℕ) (b : VirtAddr)
        → j < ipt.size
        → page_eq addr b ≡ true
        → holds ipt'.entries j b ≡ false
    gone_holds j b lt same = elim (Bool-cases (holds ipt'.entries j b)) [
      | inr miss ↦ miss
      | inl hit ↦
          let v : valid_at ipt'.entries j ≡ true = ground arith in
          let ne = not_gone j v in
          let e : i ≡ j = inv.unique i j slot_in lt slot_holds.0 (sym (old_valid j ne) ∙ v) (
            page_eq_trans (addr_at ipt.entries i) addr (addr_at ipt.entries j) slot_holds.1 (
              page_eq_trans addr b (addr_at ipt.entries j) same
                (page_eq_symm b (addr_at ipt.entries j) ∙ rw (← old_addr j ne) (ground arith)))) in
          ground arith
    ]

    other_holds :
        (j : ℕ) (b : VirtAddr)
        → page_eq addr b ≡ false
        → holds ipt'.entries j b ≡ holds ipt.entries j b
    other_holds j b other = elim (Bool-cases (i == j)) [
      | inl same ↦
          let e : i ≡ j = ground arith in
          let differs : page_eq (addr_at ipt.entries i) b ≡ false = ground (
            arith,
            slot_holds,
            page_eq_symm (addr_at ipt.entries i) addr,
            page_eq_trans addr (addr_at ipt.entries i) b,
          ) in
          rw (← e, gone_valid, differs) (ground arith)
      | inr apart ↦ rw (old_valid j apart, old_addr j apart)
    ]

    -- The page is found no more, every other page where it was found before.
    pub after-find_page :
        (b : VirtAddr)
        → find_page ipt'.entries b ≡ (if page_eq addr b then none else find_page ipt.entries b)
    after-find_page b = elim (Bool-cases (page_eq addr b)) [
      | inl same ↦
          rw same
            (find_page-eq_none after-IptInv b (λ j lt. gone_holds j b (rw done.size at lt) same))
      | inr other ↦ rw other (
          find_page-congr after-IptInv ipt.entries b (inv.entries_size ∙ sym done.size)
            λ j lt. other_holds j b other)
    ]
