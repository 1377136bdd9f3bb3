-- ===== src/Ipt/Lookup.antt =====
-- The lookups of ipt.c agree with the search of the whole table, and its loops end.
use vmsim.Prelude.{
  ℕ, ◌≤◌, ◌<◌, ◌≡◌, refl, Bool, true, false, Option, none, some, List, [], ◌∷◌, arith, ◌==◌, length,
  get_or, has, Bool-cases, inl, inr, sym, ◌∙◌, Option-cases, lt→ltb, length-le_of_distinct,
}
use vmsim.Run.{ok, at-get_or, fault, assertion}
use vmsim.Types.{VirtAddr, page_eq, success}
use vmsim.Ipt.{
  Ipt, IptEntry, no_entry, ipt_hash, ipt_hat_idx_of, get_vaddr_idx, ipt_has_translation,
  ipt_translate, slot_of, ipt_is_dirty, ipt_hash_list_last_element,
}
use vmsim.Ipt.Chain.{entry, find_in, scan_chain-find_in, walk_chain-last_of, last_of}
use vmsim.Ipt.Valid.{
  IptInv, IsValid, home, home-lt, home_congr, holds, valid_at, addr_at, find_page, find_page-eq,
  find_page-eq_none, find_page-some,
}

find_in-some :
    (es : List IptEntry) (is : List ℕ) (addr : VirtAddr) (k : ℕ)
    → find_in es is addr ≡ some k
    → (has k is ≡ true) × (page_eq (addr_at es k) addr ≡ true)
unfolding find_in has
find_in-some es [] addr k e = cc
find_in-some es (i ∷ is) addr k e = elim (Bool-cases (page_eq (addr_at es i) addr)) [
  | inl hit ↦ let same : i ≡ k = ground arith in (ground arith, rw (← same) hit)
  | inr miss ↦ ground (arith, find_in-some es is addr k)
]

find_in-none :
    (es : List IptEntry) (is : List ℕ) (addr : VirtAddr) (k : ℕ)
    → find_in es is addr ≡ none
    → has k is ≡ true
    → page_eq (addr_at es k) addr ≡ false
unfolding find_in has
find_in-none es [] addr k e m = cc
find_in-none es (i ∷ is) addr k e m = elim (Bool-cases (k == i)) [
  | inl here ↦ let same : k ≡ i = ground arith in rw same (ground arith)
  | inr apart ↦ ground (arith, find_in-none es is addr k)
]

module _ {ipt : Ipt} {chains : ℕ → List ℕ} (inv : IptInv ipt chains) where
  -- every chain fits in the fuel
  pub length-chain-le : (h : ℕ) → h < ipt.size → length (chains h) ≤ ipt.size
  length-chain-le h lt =
      length-le_of_distinct ipt.size (chains h) (inv.once h lt)
        (λ i m. ground (arith, inv.members h i lt))

  chain-valid : (h i : ℕ) → h < ipt.size → has i (chains h) ≡ true → valid_at ipt.entries i ≡ true
  chain-valid h i lt m = ground (arith, inv.members h i lt)

  pub ipt_hash-home : (addr : VirtAddr) → ipt_hash ipt addr ≡ ok (home ipt.size addr)
  unfolding ipt_hash home
  ipt_hash-home addr = ground (arith, inv.positive)

  pub ipt_hat_idx_of-start :
      (addr : VirtAddr) → ipt_hat_idx_of ipt addr ≡ ok (get_or ipt.hat (home ipt.size addr) none)
  unfolding ipt_hat_idx_of
  ipt_hat_idx_of-start addr = rw (ipt_hash-home addr) (
      at-get_or ipt.hat (home ipt.size addr) none
        (omega (arith, home-lt ipt.size addr inv.positive, inv.hat_size)))

  not-in-chain :
      (addr : VirtAddr) (i : ℕ)
      → find_in ipt.entries (chains (home ipt.size addr)) addr ≡ none
      → i < ipt.size
      → holds ipt.entries i addr ≡ false
  not-in-chain addr i e lt_i =
      let lt = home-lt ipt.size addr inv.positive in
      elim (Bool-cases (holds ipt.entries i addr)) [
        | inr miss ↦ miss
        | inl hit ↦
            let same = home_congr ipt.size (addr_at ipt.entries i) addr (ground arith) in
            let m : has i (chains (home ipt.size addr)) ≡ true =
              ground (arith, inv.members (home ipt.size addr) i lt, lt→ltb i ipt.size lt_i, same) in
            let miss = find_in-none ipt.entries (chains (home ipt.size addr)) addr i e m in
            ground arith
      ]

  find_in-page :
      (addr : VirtAddr)
      → find_in ipt.entries (chains (home ipt.size addr)) addr ≡ find_page ipt.entries addr
  find_in-page addr =
      let es = ipt.entries in
      let lt = home-lt ipt.size addr inv.positive in
      elim (Option-cases (find_in es (chains (home ipt.size addr)) addr)) [
        | inl e ↦ e ∙ sym (find_page-eq_none inv addr λ i lt_i. not-in-chain addr i e lt_i)
        | inr (k, e) ↦
            let (m, hit) = find_in-some es (chains (home ipt.size addr)) addr k e in
            e
            ∙ sym (
                find_page-eq inv addr k (ground (arith, inv.members (home ipt.size addr) k lt))
                  (ground (arith, chain-valid (home ipt.size addr) k lt m)))
      ]

  pub get_vaddr_idx-find_page :
      (addr : VirtAddr) → get_vaddr_idx ipt addr ≡ ok (find_page ipt.entries addr)
  unfolding get_vaddr_idx
  get_vaddr_idx-find_page addr =
      let lt = home-lt ipt.size addr inv.positive in
      rw (
        ipt_hat_idx_of-start addr,
        scan_chain-find_in ipt.size ipt.entries none _ (chains (home ipt.size addr)) addr
            (inv.linked _ lt) (λ i m. chain-valid _ i lt m) (length-chain-le _ lt),
        find_in-page addr,
      )

  pub last_element-last_of :
      (addr : VirtAddr)
      → ipt_hash_list_last_element ipt addr ≡ ok (last_of (chains (home ipt.size addr)) none)
  unfolding ipt_hash_list_last_element
  last_element-last_of addr =
      let lt = home-lt ipt.size addr inv.positive in
      rw (ipt_hat_idx_of-start addr) (
        walk_chain-last_of ipt.size ipt.entries none _ none (chains (home ipt.size addr))
          (inv.linked _ lt) (length-chain-le _ lt))

abbrev pub is_some {ℓ} : {A : Type ℓ} → Option A → Bool
is_some none = false
is_some (some _) = true

pub has_translation-find_page :
    {ipt : Ipt} (valid : IsValid ipt) (addr : VirtAddr)
    → ipt_has_translation ipt addr ≡ ok (is_some (find_page ipt.entries addr))
unfolding ipt_has_translation
has_translation-find_page valid addr = rw (get_vaddr_idx-find_page valid.1 addr) (ground arith)

pub slot_of-find_page :
    {ipt : Ipt} (valid : IsValid ipt) (addr : VirtAddr) (i : ℕ)
    → find_page ipt.entries addr ≡ some i
    → slot_of ipt addr ≡ ok i
unfolding slot_of
slot_of-find_page valid addr i e = rw (get_vaddr_idx-find_page valid.1 addr, e)

-- On a table that satisfies the invariant, ipt_has_translation, ipt_translate and ipt_is_dirty agree
-- with the search of the whole table for the first valid slot of the page: the first says whether
-- there is one, the second gives the slot and the third its dirty bit, and the last two fail an
-- assertion if there is none.
pub ipt_lookup_lem :
    {ipt : Ipt} (valid : IsValid ipt) (addr : VirtAddr)
    → (ipt_has_translation ipt addr ≡ ok (is_some (find_page ipt.entries addr)))
      × (ipt_translate ipt addr
          ≡ elim (find_page ipt.entries addr) [ none ↦ fault assertion | some i ↦ ok (success, i) ])
      × (ipt_is_dirty ipt addr ≡ elim (find_page ipt.entries addr) [
        | none ↦ fault assertion
        | some i ↦ ok (entry ipt.entries i).page_data.dirty
      ])
unfolding ipt_translate ipt_is_dirty
ipt_lookup_lem {ipt} valid addr = elim (Option-cases (find_page ipt.entries addr)) [
  | inl e ↦
      rw (has_translation-find_page valid addr, get_vaddr_idx-find_page valid.1 addr, e)
        (refl, refl, refl)
  | inr (i, e) ↦
      let (lt, hit) = find_page-some ipt.entries addr i e in
      rw
        (
          has_translation-find_page valid addr,
          get_vaddr_idx-find_page valid.1 addr,
          e,
          slot_of-find_page valid addr i e,
          at-get_or ipt.entries i no_entry lt,
        )
        (refl, refl, refl)
]
