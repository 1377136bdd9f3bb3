-- ===== src/Ipt/Init.antt =====
-- `ipt_init`: an empty table that satisfies the invariant.
use vmsim.Prelude.{
  ℕ, zero, suc, ◌+◌, ◌<◌, ◌≡◌, refl, Bool, true, false, ◌||◌, ◌&&◌, none, some, List, [], ◌∷◌, ◌++◌,
  arith, ltb, leb, replicate, has, distinct, ap, ◌∙◌, length-replicate, get_or-replicate,
  distinct-append_one, has-append, ◌⊎◌, inl, inr, sym,
}
use vmsim.Types.{VirtAddr, success, fail}
use vmsim.Queue.Fifo
use vmsim.Ipt.{Ipt, IptEntry, no_entry, push_slots, ipt_init}
use vmsim.Ipt.Chain.{entry}
use vmsim.Ipt.Valid.{IptInv, IsValid, find_page, find_page-eq_none, valid_at}

push_slots-has :
    (n i : ℕ) (q : List ℕ) (j : ℕ)
    → has j (push_slots n i q) ≡ (has j q || (leb i j && ltb j (i + n)))
unfolding push_slots Fifo.push has
push_slots-has zero i q j = ground arith
push_slots-has (suc n) i q j =
    push_slots-has n (i + 1) (q ++ i ∷ []) j ∙ rw (has-append j q (i ∷ [])) (ground arith)

push_slots-distinct :
    (n i : ℕ) (q : List ℕ)
    → distinct q ≡ true
    → ((j : ℕ) → has j q ≡ true → j < i)
    → distinct (push_slots n i q) ≡ true
unfolding push_slots Fifo.push has
push_slots-distinct zero i q d low = d
push_slots-distinct (suc n) i q d low =
    push_slots-distinct n (i + 1) (q ++ i ∷ []) (distinct-append_one q i d (ground (arith, low i)))
      (λ j m. ground (arith, low j, has-append j q (i ∷ [])))

abbrev pub empty_table : ℕ → Ipt
empty_table size = record {
  entries = replicate size no_entry;
  hat = replicate size none;
  size = size;
  free_pages = push_slots size 0 [];
  ref_count = 0;
}

entry-empty : (size i : ℕ) → entry (replicate size no_entry) i ≡ no_entry
entry-empty size i = get_or-replicate size i no_entry

valid-empty : (size i : ℕ) → valid_at (replicate size no_entry) i ≡ false
valid-empty size i = ap (λ (e : IptEntry). e.page_data.valid) (entry-empty size i)

pub empty-IptInv : (size : ℕ) → 0 < size → IptInv (empty_table size) (λ _. [])
unfolding has distinct
empty-IptInv size pos = record {
  positive = pos;
  entries_size = length-replicate size no_entry;
  hat_size = length-replicate size none;
  linked = λ h lt. get_or-replicate size h none;
  members = λ h i lt. ground (arith, valid-empty size i);
  once = λ h lt. refl;
  free = λ i. ground (arith, push_slots-has size 0 [] i, valid-empty size i);
  free_once = push_slots-distinct size 0 [] refl (λ j m. cc);
  unique = λ i j li lj vi vj same. cc (sym vi ∙ valid-empty size i);
}

pub empty-find_page :
    (size : ℕ) (b : VirtAddr) → 0 < size → find_page (empty_table size).entries b ≡ none
empty-find_page size b pos =
    find_page-eq_none (empty-IptInv size pos) b (λ i lt. ground (arith, valid-empty size i))

-- ipt_init of at least one slot gives, if its allocations and its lock succeed, a table of that size
-- that satisfies the invariant, with every slot free and no page found; if one of them fails, so
-- does ipt_init.
pub ipt_init_lem :
    (entries_ok hat_ok lock_ok : Bool) (size : ℕ)
    → 0 < size
    → (((entries_ok && (hat_ok && lock_ok)) ≡ false)
        × (ipt_init entries_ok hat_ok lock_ok size ≡ (fail, none)))
      ⊎ ((ipt : Ipt) × (ipt_init entries_ok hat_ok lock_ok size ≡ (success, some ipt))
          × IsValid ipt
          × (ipt.size ≡ size)
          × ((i : ℕ) → has i ipt.free_pages ≡ ltb i size)
          × ((b : VirtAddr) → find_page ipt.entries b ≡ none))
unfolding ipt_init has
ipt_init_lem true true true size pos = inr (
  empty_table size,
  refl,
  ((λ _. []), empty-IptInv size pos),
  refl,
  (λ i. rw (push_slots-has size 0 [] i) (ground arith)),
  (λ b. find_page-eq_none (empty-IptInv size pos) b (λ i lt. ground (arith, valid-empty size i))),
)
ipt_init_lem true true false size pos = inl (refl, refl)
ipt_init_lem true false lock_ok size pos = inl (refl, refl)
ipt_init_lem false hat_ok lock_ok size pos = inl (refl, refl)
