-- ===== src/Ipt/Reference.antt =====
-- `ipt_reference` marks the page data of one slot.
use vmsim.Prelude.{
  ℕ, ◌+◌, ◌%◌, ◌<◌, ◌≡◌, refl, true, false, some, arith, ◌==◌, if◌then◌else◌, length, set, ap, ◌∙◌,
  length-set, get_or-set, ==_refl, Bool-cases, inl, inr,
}
use vmsim.Run.{ok}
use vmsim.Types.{VirtAddr, success, unsigned_mod}
use vmsim.Ipt.{
  Ipt, IptEntry, PageData, no_entry, ipt_reference, RefType, ref_none, ref_read, ref_write,
  mark_referenced, mark_dirty,
}
use vmsim.Ipt.Chain.{entry}
use vmsim.Ipt.Valid.{IsValid, find_page, find_page-some}
use vmsim.Ipt.Lookup.{has_translation-find_page, slot_of-find_page}
use vmsim.Ipt.Writes.{modify-set}
use vmsim.Ipt.Same.{SameTable, SameTable-IsValid, SameTable-find_page, SameTable-trans}

-- a change of one slot's page data
abbrev touch : Ipt → ℕ → (PageData → PageData) → Ipt
touch ipt i f = record ipt {
  entries =
      set ipt.entries i
        (record (entry ipt.entries i) { page_data = f (entry ipt.entries i).page_data });
}

abbrev Keeps : (PageData → PageData) → Type 0
Keeps f = (d : PageData) → ((f d).valid ≡ d.valid) × ((f d).addr ≡ d.addr)

module _ (ipt : Ipt) (i : ℕ) (f : PageData → PageData) (lt : i < length ipt.entries) where
  touched : IptEntry
  touched = record (entry ipt.entries i) { page_data = f (entry ipt.entries i).page_data }

  entry-touch :
      (j : ℕ) → entry (touch ipt i f).entries j ≡ (if i == j then touched else entry ipt.entries j)
  unfolding touched
  entry-touch j = get_or-set ipt.entries i j touched no_entry lt

  touch-page : (entry (touch ipt i f).entries i).page_data ≡ f (entry ipt.entries i).page_data
  unfolding touched
  touch-page = rw (entry-touch i, ==_refl i)

  touch-other : (j : ℕ) → (i == j) ≡ false → entry (touch ipt i f).entries j ≡ entry ipt.entries j
  touch-other j ne = rw (entry-touch j, ne)

  touch-SameTable : Keeps f → SameTable ipt (touch ipt i f)
  unfolding touched
  touch-SameTable keeps = record {
    len = length-set ipt.entries i _;
    hat = refl;
    size = refl;
    free = refl;
    next = λ j. field j (λ e. e.next) refl;
    prev = λ j. field j (λ e. e.prev) refl;
    valid = λ j. field j (λ e. e.page_data.valid) (keeps (entry ipt.entries i).page_data).0;
    addr = λ j. field j (λ e. e.page_data.addr) (keeps (entry ipt.entries i).page_data).1;
  }
    where
      field :
          {B : Type 0} (j : ℕ) (g : IptEntry → B)
          → g touched ≡ g (entry ipt.entries i)
          → g (entry (touch ipt i f).entries j) ≡ g (entry ipt.entries j)
      field j g same = elim (Bool-cases (i == j)) [
        | inl here ↦
            let e : i ≡ j = ground arith in
            rw (entry-touch j, here) (same ∙ ap (λ k. g (entry ipt.entries k)) e)
        | inr apart ↦ rw (entry-touch j, apart)
      ]

abbrev pub mark : RefType → PageData → PageData
mark ref_write d = record d { referenced = true; dirty = true }
mark _ d = record d { referenced = true }

abbrev set_referenced : PageData → PageData
set_referenced d = record d { referenced = true }

abbrev set_dirty : PageData → PageData
set_dirty d = record d { dirty = true }

-- what holds after a reference to the page of slot `i`
pub record HasReferenced (ipt ipt' : Ipt) (r : RefType) (i : ℕ) : Type 0 where
  pub valid : IsValid ipt'
  pub size : ipt'.size ≡ ipt.size
  pub free : ipt'.free_pages ≡ ipt.free_pages
  pub count : ipt'.ref_count ≡ (ipt.ref_count + 1) % unsigned_mod
  pub finds : (b : VirtAddr) → find_page ipt'.entries b ≡ find_page ipt.entries b
  pub page : (entry ipt'.entries i).page_data ≡ mark r (entry ipt.entries i).page_data
  pub others :
      (j : ℕ)
      → (i == j) ≡ false
      → (entry ipt'.entries j).page_data ≡ (entry ipt.entries j).page_data

counted : Ipt → Ipt
counted ipt = record ipt { ref_count = (ipt.ref_count + 1) % unsigned_mod }

counted-SameTable : (ipt : Ipt) → SameTable ipt (counted ipt)
unfolding counted
counted-SameTable ipt = record {
  len = refl;
  hat = refl;
  size = refl;
  free = refl;
  next = λ j. refl;
  prev = λ j. refl;
  valid = λ j. refl;
  addr = λ j. refl;
}

module _ {ipt : Ipt} (valid : IsValid ipt) (addr : VirtAddr) (i : ℕ)
    (found : find_page ipt.entries addr ≡ some i) where
  in_table : i < length ipt.entries
  in_table = (find_page-some ipt.entries addr i found).0

  abbrev ipt₁ : Ipt
  ipt₁ = touch ipt i set_referenced

  same₁ : SameTable ipt ipt₁
  same₁ = touch-SameTable ipt i set_referenced in_table (λ d. (refl, refl))

  found₁ : find_page ipt₁.entries addr ≡ some i
  found₁ = SameTable-find_page same₁ valid addr ∙ found

  in_table₁ : i < length ipt₁.entries
  in_table₁ = omega (arith, same₁.len, in_table)

  abbrev ipt₂ : Ipt
  ipt₂ = touch ipt₁ i set_dirty

  same₂ : SameTable ipt ipt₂
  same₂ = SameTable-trans same₁ (touch-SameTable ipt₁ i set_dirty in_table₁ (λ d. (refl, refl)))

  -- the table after the writes to the slot
  abbrev touched_by : RefType → Ipt
  touched_by ref_write = ipt₂
  touched_by _ = ipt₁

  ipt_reference-run :
      (r : RefType) → ipt_reference ipt addr r ≡ ok (success, counted (touched_by r))
  unfolding ipt_reference counted
  ipt_reference-run ref_none = rw (
    has_translation-find_page valid addr,
    found,
    slot_of-find_page valid addr i found,
    modify-set ipt i mark_referenced in_table,
  )
  ipt_reference-run ref_read = rw (
    has_translation-find_page valid addr,
    found,
    slot_of-find_page valid addr i found,
    modify-set ipt i mark_referenced in_table,
  )
  ipt_reference-run ref_write = rw (
    has_translation-find_page valid addr,
    found,
    slot_of-find_page valid addr i found,
    modify-set ipt i mark_referenced in_table,
    slot_of-find_page (SameTable-IsValid same₁ valid) addr i found₁,
    modify-set ipt₁ i mark_dirty in_table₁,
  )

  same_by : (r : RefType) → SameTable ipt (touched_by r)
  same_by ref_none = same₁
  same_by ref_read = same₁
  same_by ref_write = same₂

  page_by :
      (r : RefType)
      → (entry (touched_by r).entries i).page_data ≡ mark r (entry ipt.entries i).page_data
  page_by ref_none = touch-page ipt i set_referenced in_table
  page_by ref_read = touch-page ipt i set_referenced in_table
  page_by ref_write =
      touch-page ipt₁ i set_dirty in_table₁
      ∙ ap set_dirty (touch-page ipt i set_referenced in_table)

  others_by :
      (r : RefType) (j : ℕ)
      → (i == j) ≡ false
      → (entry (touched_by r).entries j).page_data ≡ (entry ipt.entries j).page_data
  others_by ref_none j ne =
      ap (λ (e : IptEntry). e.page_data) (touch-other ipt i set_referenced in_table j ne)
  others_by ref_read j ne =
      ap (λ (e : IptEntry). e.page_data) (touch-other ipt i set_referenced in_table j ne)
  others_by ref_write j ne =
      ap (λ (e : IptEntry). e.page_data)
        (touch-other ipt₁ i set_dirty in_table₁ j ne
          ∙ touch-other ipt i set_referenced in_table j ne)

  count_by : (r : RefType) → (touched_by r).ref_count ≡ ipt.ref_count
  count_by ref_none = refl
  count_by ref_read = refl
  count_by ref_write = refl

  -- On a table that satisfies the invariant, ipt_reference of a page that it holds succeeds: it sets
  -- the referenced bit of the page, and on a write its dirty bit, counts one reference modulo 2 ^
  -- 32, changes nothing else of its page data and no page data of another slot, every page is found
  -- where it was, and the invariant holds.
  pub ipt_reference_lem :
      (r : RefType)
      → (ipt' : Ipt) × (ipt_reference ipt addr r ≡ ok (success, ipt')) × HasReferenced ipt ipt' r i
  unfolding counted
  ipt_reference_lem r =
      let same = SameTable-trans (same_by r) (counted-SameTable (touched_by r)) in
      (
        counted (touched_by r),
        ipt_reference-run r,
        record {
          valid = SameTable-IsValid same valid;
          size = same.size;
          free = same.free;
          count = rw (count_by r);
          finds = SameTable-find_page same valid;
          page = page_by r;
          others = others_by r;
        },
      )
