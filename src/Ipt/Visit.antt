-- ===== src/Ipt/Visit.antt =====
-- `ipt_for_each_entry` with a function that keeps no state of its own.
use vmsim.Prelude.{
  ℕ, zero, suc, ◌+◌, ◌≡◌, refl, List, [], ◌∷◌, arith, if◌then◌else◌, length, get_or, ap, ◌∙◌,
  Bool-cases, inl, inr,
}
use vmsim.Types.{success}
use vmsim.Ipt.{Ipt, IptEntry, PageData, visit, ipt_for_each_entry}
use vmsim.Ipt.Chain.{entry}
use vmsim.Ipt.Valid.{IsValid}
use vmsim.Ipt.Same.{SameTable, SameTable-IsValid}

-- a function of the page data as a function that a table can be visited with
abbrev pub alone : (PageData → PageData) → ℕ → PageData → Unit {0} → PageData × Unit {0}
alone f i d s = (f d, s)

-- the page data of a slot after a visit
abbrev pub visited : (PageData → PageData) → PageData → PageData
visited f d = if d.valid then f d else d

visit-entry :
    (f : PageData → PageData) (i : ℕ) (es : List IptEntry) (j : ℕ)
    → entry (visit (alone f) i es tt).0 j
      ≡ record (entry es j) { page_data = visited f (entry es j).page_data }
unfolding visit get_or
visit-entry f i [] j = refl
visit-entry f i (e ∷ es) zero = ground arith
visit-entry f i (e ∷ es) (suc j) = elim (Bool-cases e.page_data.valid) [
  | inl on ↦ rw on (visit-entry f (i + 1) es j)
  | inr off ↦ rw off (visit-entry f (i + 1) es j)
]

visit-length :
    (f : PageData → PageData) (i : ℕ) (es : List IptEntry)
    → length (visit (alone f) i es tt).0 ≡ length es
unfolding visit
visit-length f i [] = refl
visit-length f i (e ∷ es) = elim (Bool-cases e.page_data.valid) [
  | inl on ↦ rw on (ap suc (visit-length f (i + 1) es))
  | inr off ↦ rw off (ap suc (visit-length f (i + 1) es))
]

-- Visiting a table with a function that keeps the page and the valid bit changes the page data of the
-- valid slots by that function, and nothing else.
pub ipt_for_each_entry_lem :
    {ipt : Ipt} (valid : IsValid ipt) (f : PageData → PageData)
    → ((d : PageData) → ((f d).valid ≡ d.valid) × ((f d).addr ≡ d.addr))
    → (ipt' : Ipt) × (ipt_for_each_entry (alone f) ipt tt ≡ (success, ipt', tt))
      × IsValid ipt'
      × SameTable ipt ipt'
      × ((j : ℕ) → (entry ipt'.entries j).page_data ≡ visited f (entry ipt.entries j).page_data)
unfolding ipt_for_each_entry
ipt_for_each_entry_lem {ipt} valid f keeps =
    let es = (visit (alone f) 0 ipt.entries tt).0 in
    let ipt' : Ipt = record ipt { entries = es } in
    let at_slot = visit-entry f 0 ipt.entries in
    let same : SameTable ipt ipt' = record {
      len = visit-length f 0 ipt.entries;
      hat = refl;
      size = refl;
      free = refl;
      next = λ j. ap (λ (e : IptEntry). e.next) (at_slot j);
      prev = λ j. ap (λ (e : IptEntry). e.prev) (at_slot j);
      valid = λ j.
          ap (λ (e : IptEntry). e.page_data.valid) (at_slot j)
          ∙ kept_valid (entry ipt.entries j).page_data;
      addr = λ j.
          ap (λ (e : IptEntry). e.page_data.addr) (at_slot j)
          ∙ kept_addr (entry ipt.entries j).page_data;
    } in
    (
      ipt',
      refl,
      SameTable-IsValid same valid,
      same,
      λ j. ap (λ (e : IptEntry). e.page_data) (at_slot j),
    )
  where
    kept_valid : (d : PageData) → (visited f d).valid ≡ d.valid
    kept_valid d = ground (arith, keeps d)

    kept_addr : (d : PageData) → (visited f d).addr ≡ d.addr
    kept_addr d = ground (arith, keeps d)
