-- ===== src/Ipt/Removed.antt =====
-- The invariant after `ipt_remove`, and what the table then answers.
use vmsim.Prelude.{
  ℕ, ◌≡◌, false, none, some, [], ◌∷◌, ◌++◌, ◌==◌, if◌then◌else◌, inl, inr, Option-cases, ◌⊎◌,
}
use vmsim.Run.{ok}
use vmsim.Types.{VirtAddr, page_eq, success, not_found}
use vmsim.Ipt.{Ipt, ipt_remove}
use vmsim.Ipt.Chain.{entry}
use vmsim.Ipt.Valid.{IsValid, find_page, find_page-some}
use vmsim.Ipt.Lookup.{get_vaddr_idx-find_page}
use vmsim.Ipt.Remove.{ipt_remove-run}
use vmsim.Ipt.RemoveInv.{links-InRange, chains_after, after-IptInv, after-find_page}

-- what holds after the page of `addr` has left slot `i`
pub record HasRemoved (ipt ipt' : Ipt) (addr : VirtAddr) (i : ℕ) : Type 0 where
  pub valid : IsValid ipt'
  pub size : ipt'.size ≡ ipt.size
  pub count : ipt'.ref_count ≡ ipt.ref_count
  pub freed : ipt'.free_pages ≡ ipt.free_pages ++ i ∷ []
  pub finds :
      (b : VirtAddr)
      → find_page ipt'.entries b ≡ (if page_eq addr b then none else find_page ipt.entries b)
  pub others :
      (j : ℕ)
      → (i == j) ≡ false
      → (entry ipt'.entries j).page_data ≡ (entry ipt.entries j).page_data

ipt_remove-absent :
    {ipt : Ipt} (valid : IsValid ipt) (addr : VirtAddr)
    → find_page ipt.entries addr ≡ none
    → ipt_remove ipt addr ≡ ok (not_found, ipt)
unfolding ipt_remove
ipt_remove-absent valid addr e = rw (get_vaddr_idx-find_page valid.1 addr, e)

-- On a table that satisfies the invariant, ipt_remove answers not_found and changes nothing for a
-- page in no slot; otherwise it succeeds, the slot goes to the end of the free list, the page is
-- found no more and every other page where it was, the page data of the other slots and the counter
-- stay, and the invariant holds.
pub ipt_remove_lem :
    {ipt : Ipt} (valid : IsValid ipt) (addr : VirtAddr)
    → ((find_page ipt.entries addr ≡ none) × (ipt_remove ipt addr ≡ ok (not_found, ipt)))
      ⊎ ((i : ℕ) × (ipt' : Ipt) × (find_page ipt.entries addr ≡ some i)
          × (ipt_remove ipt addr ≡ ok (success, ipt'))
          × HasRemoved ipt ipt' addr i)
ipt_remove_lem {ipt} (chains, inv) addr = elim (Option-cases (find_page ipt.entries addr)) [
  | inl e ↦ inl (e, ipt_remove-absent (chains, inv) addr e)
  | inr (i, found) ↦
      let (rp, rn) = links-InRange inv addr found in
      let (ipt', run, done) =
        ipt_remove-run inv addr i found (find_page-some ipt.entries addr i found).0 rp rn in
      inr (
        i,
        ipt',
        found,
        run,
        record {
          valid = (chains_after inv addr found done, after-IptInv inv addr found done);
          size = done.size;
          count = done.count;
          freed = done.free;
          finds = after-find_page inv addr found done;
          others = done.slots.old_page;
        },
      )
]
