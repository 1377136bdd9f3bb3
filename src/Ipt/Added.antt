-- ===== src/Ipt/Added.antt =====
-- The invariant after `ipt_add`, and what the table then answers.
use vmsim.Prelude.{
  ℕ, ◌≡◌, refl, false, none, some, List, [], ◌∷◌, arith, ◌==◌, if◌then◌else◌, inl, inr, sym, ap,
  ◌∙◌, ◌⊎◌,
}
use vmsim.Run.{ok}
use vmsim.Types.{VirtAddr, page_eq, success, fail}
use vmsim.Ipt.{Ipt, ipt_add, ipt_get_next_free_entry}
use vmsim.Ipt.Chain.{entry, last_of}
use vmsim.Ipt.Valid.{IsValid, home, find_page}
use vmsim.Ipt.Lookup.{last_element-last_of}
use vmsim.Ipt.Add.{ipt_add-run, fresh_page}
use vmsim.Ipt.AddInv.{
  TailIn-intro, first_free, tail_in, chains_after, after-IptInv, after-find_page,
}

ipt_add-full :
    (ipt : Ipt) (addr : VirtAddr) → ipt.free_pages ≡ [] → ipt_add ipt addr ≡ ok (fail, ipt)
unfolding ipt_add ipt_get_next_free_entry
ipt_add-full ipt addr e = rw e

-- what holds after slot `i` has taken the page of `addr`
pub record HasAdded (ipt ipt' : Ipt) (addr : VirtAddr) (i : ℕ) : Type 0 where
  pub valid : IsValid ipt'
  pub size : ipt'.size ≡ ipt.size
  pub count : ipt'.ref_count ≡ ipt.ref_count
  pub took : ipt.free_pages ≡ i ∷ ipt'.free_pages
  pub finds :
      (b : VirtAddr)
      → find_page ipt'.entries b ≡ (if page_eq addr b then some i else find_page ipt.entries b)
  pub page :
      (entry ipt'.entries i).page_data ≡ fresh_page (entry ipt.entries i).page_data.users addr
  pub others :
      (j : ℕ)
      → (i == j) ≡ false
      → (entry ipt'.entries j).page_data ≡ (entry ipt.entries j).page_data

pub add_with_slot :
    {ipt : Ipt} (valid : IsValid ipt) (addr : VirtAddr) (i : ℕ) (rest : List ℕ)
    → find_page ipt.entries addr ≡ none
    → ipt.free_pages ≡ i ∷ rest
    → (ipt' : Ipt) × (ipt_add ipt addr ≡ ok (success, ipt')) × HasAdded ipt ipt' addr i
add_with_slot {ipt} (chains, inv) addr i rest absent free =
    let (ipt', run, done) =
      ipt_add-run inv addr i rest (last_of (chains (home ipt.size addr)) none) free
        (last_element-last_of inv addr) (omega (arith, inv.entries_size, first_free inv free))
        (TailIn-intro ipt.entries i (last_of (chains (home ipt.size addr)) none)
          (λ j e. tail_in inv free addr j e)) in
    (
      ipt',
      run,
      record {
        valid = (chains_after inv addr free absent done, after-IptInv inv addr free absent done);
        size = done.size;
        count = done.count;
        took = free ∙ ap (λ l. i ∷ l) (sym done.free);
        finds = after-find_page inv addr free absent done;
        page = done.slots.new_page;
        others = done.slots.old_page;
      },
    )

-- On a table that satisfies the invariant and does not hold the page, ipt_add fails and changes
-- nothing if no slot is free; otherwise it succeeds and the first free slot takes the page, clean
-- and unreferenced with an age of 2 ^ 31, the page is found there and every other page where it was,
-- the page data of the other slots and the counter stay, and the invariant holds.
pub ipt_add_lem :
    {ipt : Ipt} (valid : IsValid ipt) (addr : VirtAddr)
    → find_page ipt.entries addr ≡ none
    → ((ipt.free_pages ≡ []) × (ipt_add ipt addr ≡ ok (fail, ipt)))
      ⊎ ((i : ℕ) × (ipt' : Ipt) × (ipt_add ipt addr ≡ ok (success, ipt'))
          × HasAdded ipt ipt' addr i)
ipt_add_lem {ipt} valid addr absent = go ipt.free_pages refl
  where
    go :
        (l : List ℕ)
        → ipt.free_pages ≡ l
        → ((ipt.free_pages ≡ []) × (ipt_add ipt addr ≡ ok (fail, ipt)))
          ⊎ ((i : ℕ) × (ipt' : Ipt) × (ipt_add ipt addr ≡ ok (success, ipt'))
              × HasAdded ipt ipt' addr i)
    go [] e = inl (e, ipt_add-full ipt addr e)
    go (i ∷ rest) e =
        let (ipt', run, done) = add_with_slot valid addr i rest absent e in inr (i, ipt', run, done)
