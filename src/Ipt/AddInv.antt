-- ===== src/Ipt/AddInv.antt =====
-- The table of vmsim/ipt.c after `ipt_add` has linked a slot: the invariant and what the search finds.
use vmsim.Prelude.{
  ℕ, ◌<◌, ◌≡◌, refl, true, false, ◌&&◌, not, Option, none, some, List, [], ◌∷◌, ◌++◌, arith, ◌==◌,
  if◌then◌else◌, ltb, length, get_or, has, distinct, Bool-cases, inl, inr, sym, ap, ◌∙◌, subst,
  length-set, get_or-set, lt→ltb, has-append, distinct-append_one, ==_refl,
}
use vmsim.Types.{VirtAddr, page_eq, page_eq_symm}
use vmsim.Ipt.{Ipt, IptEntry, PageData}
use vmsim.Ipt.Chain.{
  entry, IsChain, is_at, last_of, first_of, IsChain-append, IsChain-frame, last_of-mem,
}
use vmsim.Ipt.Valid.{
  IptInv, home, home-lt, holds, valid_at, addr_at, find_page, find_page-congr, find_page-eq,
  find_page-none,
}
use vmsim.Ipt.Add.{Add, TailIn, link_hat}

last_of-some : (is : List ℕ) (k : ℕ) → (t : ℕ) × (last_of is (some k) ≡ some t)
unfolding last_of
last_of-some [] k = (k, refl)
last_of-some (i ∷ is) k = last_of-some is i

-- where the chain of the bucket starts after the new slot has been linked
hat_start :
    (hat : List (Option ℕ)) (h i : ℕ) (is : List ℕ)
    → h < length hat
    → get_or (link_hat hat h (last_of is none) i) h none ≡ first_of is i (get_or hat h none)
unfolding last_of
hat_start hat h i [] lt = rw (get_or-set hat h h (some i) none lt, ==_refl h)
hat_start hat h i (k ∷ is) lt = let (t, e) = last_of-some is k in rw e

hat_other :
    (hat : List (Option ℕ)) (h j i : ℕ) (tail : Option ℕ)
    → h < length hat
    → (h == j) ≡ false
    → get_or (link_hat hat h tail i) j none ≡ get_or hat j none
hat_other hat h j i none lt ne = rw (get_or-set hat h j (some i) none lt, ne)
hat_other hat h j i (some t) lt ne = refl

length-link_hat :
    (hat : List (Option ℕ)) (h : ℕ) (tail : Option ℕ) (i : ℕ)
    → length (link_hat hat h tail i) ≡ length hat
length-link_hat hat h none i = length-set hat h _
length-link_hat hat h (some t) i = refl

pub TailIn-intro :
    (es : List IptEntry) (i : ℕ) (tail : Option ℕ)
    → ((j : ℕ) → is_at tail j ≡ true → (j < length es) × ((i == j) ≡ false))
    → TailIn es tail i
TailIn-intro es i none h = tt
TailIn-intro es i (some t) h = h t (==_refl t)

module _ {ipt : Ipt} {chains : ℕ → List ℕ} {i : ℕ} {rest : List ℕ} (inv : IptInv ipt chains)
    (free : ipt.free_pages ≡ i ∷ rest) where
  pub first_free : (i < ipt.size) × (valid_at ipt.entries i ≡ false)
  unfolding has
  first_free =
      let m : has i ipt.free_pages ≡ true = rw free (ground arith) in
      (ground (arith, inv.free i, m), ground (arith, inv.free i, m))

  pub tail_in :
      (addr : VirtAddr) (j : ℕ)
      → is_at (last_of (chains (home ipt.size addr)) none) j ≡ true
      → (j < length ipt.entries) × ((i == j) ≡ false)
  tail_in addr j e =
      let lt = home-lt ipt.size addr inv.positive in
      let m = last_of-mem (chains (home ipt.size addr)) none j e in
      let mem = inv.members (home ipt.size addr) j lt in
      (ground (arith, m, mem, inv.entries_size), ground (arith, m, mem, first_free))

module _ {ipt ipt' : Ipt} {chains : ℕ → List ℕ} {i : ℕ} {rest : List ℕ} (inv : IptInv ipt chains)
    (addr : VirtAddr) (free : ipt.free_pages ≡ i ∷ rest)
    (absent : find_page ipt.entries addr ≡ none)
    (done : Add ipt ipt' addr (last_of (chains (home ipt.size addr)) none) i rest) where
  abbrev pub chains_after : ℕ → List ℕ
  chains_after h = if h == home ipt.size addr then chains h ++ i ∷ [] else chains h

  slot_free : (i < ipt.size) × (valid_at ipt.entries i ≡ false)
  slot_free = first_free inv free

  new_valid : valid_at ipt'.entries i ≡ true
  new_valid = ap (λ (d : PageData). d.valid) done.slots.new_page

  new_addr : addr_at ipt'.entries i ≡ addr
  new_addr = ap (λ (d : PageData). d.addr) done.slots.new_page

  old_valid : (j : ℕ) → (i == j) ≡ false → valid_at ipt'.entries j ≡ valid_at ipt.entries j
  old_valid j ne = ap (λ (d : PageData). d.valid) (done.slots.old_page j ne)

  old_addr : (j : ℕ) → (i == j) ≡ false → addr_at ipt'.entries j ≡ addr_at ipt.entries j
  old_addr j ne = ap (λ (d : PageData). d.addr) (done.slots.old_page j ne)

  not-in-chain : (h : ℕ) → h < ipt.size → has i (chains h) ≡ false
  not-in-chain h lt = ground (arith, inv.members h i lt, slot_free)

  after-members :
      (h j : ℕ)
      → h < ipt.size
      → has j (chains_after h) ≡ (
          ltb j ipt.size
          && (valid_at ipt'.entries j && home ipt.size (addr_at ipt'.entries j) == h))
  unfolding has
  after-members h j lt = elim (Bool-cases (i == j)) [
    | inl same ↦
        let e : i ≡ j = ground arith in
        rw (← e, new_valid, new_addr)
          (ground (
            arith,
            not-in-chain h lt,
            slot_free,
            lt→ltb i ipt.size,
            has-append i (chains h) (i ∷ []),
          ))
    | inr apart ↦
        rw (old_valid j apart, old_addr j apart, ← inv.members h j lt)
          (ground (arith, has-append j (chains h) (i ∷ [])))
  ]

  after-once : (h : ℕ) → h < ipt.size → distinct (chains_after h) ≡ true
  after-once h lt =
      ground (arith, inv.once h lt, not-in-chain h lt, distinct-append_one (chains h) i)

  after-free : (j : ℕ) → has j ipt'.free_pages ≡ (ltb j ipt.size && not (valid_at ipt'.entries j))
  unfolding has distinct
  after-free j = elim (Bool-cases (i == j)) [
    | inl same ↦
        let e : i ≡ j = ground arith in
        let d : distinct (i ∷ rest) ≡ true = subst (λ l. distinct l ≡ true) free inv.free_once in
        rw (done.free, ← e, new_valid) (ground (arith, d))
    | inr apart ↦
        let m : has j (i ∷ rest) ≡ (ltb j ipt.size && not (valid_at ipt.entries j)) =
          subst (λ l. has j l ≡ (ltb j ipt.size && not (valid_at ipt.entries j))) free
            (inv.free j) in
        rw (done.free, old_valid j apart) (ground (arith, m))
  ]

  -- no other slot holds the page that has been added
  no_other :
      (k : ℕ)
      → (i == k) ≡ false
      → k < ipt.size
      → valid_at ipt'.entries k ≡ true
      → page_eq addr (addr_at ipt'.entries k) ≡ true
      → ⊥
  no_other k apart lk vk same =
      let miss = find_page-none ipt.entries addr k absent (omega (arith, inv.entries_size)) in
      let v : valid_at ipt.entries k ≡ true = sym (old_valid k apart) ∙ vk in
      let same' : page_eq addr (addr_at ipt.entries k) ≡ true = rw (← old_addr k apart) same in
      ground (arith, page_eq_symm addr (addr_at ipt.entries k))

  after_unique :
      (j k : ℕ)
      → j < ipt.size
      → k < ipt.size
      → valid_at ipt'.entries j ≡ true
      → valid_at ipt'.entries k ≡ true
      → page_eq (addr_at ipt'.entries j) (addr_at ipt'.entries k) ≡ true
      → j ≡ k
  after_unique j k lj lk vj vk same = elim (Bool-cases (i == j)) [
    | inl here ↦ elim (Bool-cases (i == k)) [
      | inl there ↦ ground arith
      | inr apart ↦
          let e : i ≡ j = ground arith in absurd (no_other k apart lk vk (rw (← new_addr, e) same))
    ]
    | inr apart ↦ elim (Bool-cases (i == k)) [
      | inl there ↦
          let e : i ≡ k = ground arith in
          absurd (
            no_other j apart lj vj (
              rw (← new_addr, e)
                (page_eq_symm (addr_at ipt'.entries k) (addr_at ipt'.entries j) ∙ same)))
      | inr apart' ↦
          inv.unique j k lj lk (sym (old_valid j apart) ∙ vj) (sym (old_valid k apart') ∙ vk)
            (rw (← old_addr j apart, ← old_addr k apart') same)
    ]
  ]

  member_apart : (h j : ℕ) → h < ipt.size → has j (chains h) ≡ true → (i == j) ≡ false
  member_apart h j lt m = ground (arith, inv.members h j lt, slot_free)

  not_tail :
      (h j : ℕ)
      → h < ipt.size
      → (h == home ipt.size addr) ≡ false
      → has j (chains h) ≡ true
      → (if is_at (last_of (chains (home ipt.size addr)) none) j
          then some i
          else (entry ipt.entries j).next)
        ≡ (entry ipt.entries j).next
  not_tail h j lt apart m =
      let b = home ipt.size addr in
      ground (
        arith,
        inv.members h j lt,
        inv.members (home ipt.size addr) j (home-lt ipt.size addr inv.positive),
        last_of-mem (chains (home ipt.size addr)) none j,
      )

  after-linked :
      (h : ℕ) → h < ipt.size → IsChain ipt'.entries none (get_or ipt'.hat h none) (chains_after h)
  after-linked h lt = elim (Bool-cases (h == home ipt.size addr)) [
    | inl here ↦
        let e : h ≡ home ipt.size addr = ground arith in
        let start =
          hat_start ipt.hat (home ipt.size addr) i (chains (home ipt.size addr))
            (omega (arith, inv.hat_size, home-lt ipt.size addr inv.positive)) in
        let lt' = home-lt ipt.size addr inv.positive in
        rw (here, e, done.hat, start)
          (IsChain-append ipt.entries ipt'.entries none (get_or ipt.hat (home ipt.size addr) none)
            (chains (home ipt.size addr)) i done.slots.len
            (omega (arith, inv.entries_size, slot_free))
            (λ j m.
              let ne = member_apart (home ipt.size addr) j lt' m in
              (done.slots.old_next j ne, done.slots.old_prev j ne))
            done.slots.new_next done.slots.new_prev (inv.once _ lt') (inv.linked _ lt'))
    | inr apart ↦
        rw
          (
            apart,
            done.hat,
            hat_other ipt.hat (home ipt.size addr) h i (last_of (chains (home ipt.size addr)) none)
                (omega (arith, inv.hat_size, home-lt ipt.size addr inv.positive)) (ground arith),
          )
          (IsChain-frame ipt.entries ipt'.entries none (get_or ipt.hat h none) (chains h)
            done.slots.len
            (λ j m.
              let ne = member_apart h j lt m in
              (done.slots.old_next j ne ∙ not_tail h j lt apart m, done.slots.old_prev j ne))
            (inv.linked h lt))
  ]

  after-free_once : distinct ipt'.free_pages ≡ true
  unfolding distinct
  after-free_once =
      let d = subst (λ l. distinct l ≡ true) free inv.free_once in rw done.free (ground (arith, d))

  pub after-IptInv : IptInv ipt' chains_after
  after-IptInv = record {
    positive = rw done.size inv.positive;
    entries_size = done.slots.len ∙ inv.entries_size ∙ sym done.size;
    hat_size =
        rw (done.hat, done.size)
          (length-link_hat ipt.hat (home ipt.size addr) (last_of (chains (home ipt.size addr)) none)
              i
            ∙ inv.hat_size);
    linked = λ h lt. after-linked h (rw done.size at lt);
    members = λ h j lt. rw done.size (after-members h j (rw done.size at lt));
    once = λ h lt. after-once h (rw done.size at lt);
    free = λ j. rw done.size (after-free j);
    free_once = after-free_once;
    unique = λ j k lj lk. after_unique j k (rw done.size at lj) (rw done.size at lk);
  }

  same_holds :
      (j : ℕ) (b : VirtAddr)
      → page_eq addr b ≡ false
      → holds ipt'.entries j b ≡ holds ipt.entries j b
  same_holds j b other = elim (Bool-cases (i == j)) [
    | inl same ↦ let e : i ≡ j = ground arith in rw (← e, new_valid, new_addr, slot_free.1) other
    | inr apart ↦ rw (old_valid j apart, old_addr j apart)
  ]

  -- The new page is found in the slot, every other page where it was found before.
  pub after-find_page :
      (b : VirtAddr)
      → find_page ipt'.entries b ≡ (if page_eq addr b then some i else find_page ipt.entries b)
  after-find_page b = elim (Bool-cases (page_eq addr b)) [
    | inl same ↦ rw same (
        find_page-eq after-IptInv b i (omega (arith, done.size, slot_free))
          (rw (new_valid, new_addr) same))
    | inr other ↦ rw other (
        find_page-congr after-IptInv ipt.entries b (inv.entries_size ∙ sym done.size)
          λ j lt. same_holds j b other)
  ]
