-- ===== src/Tests/TableTest.antt =====
-- vmsim/ipt.c on a table of three slots that holds one page.
use vmsim.Prelude.{◌≡◌, refl, ◌∙◌, none, some, [], ◌∷◌, arith, ◌⊎◌, ℕ}
use vmsim.Run.{ok, fault, assertion}
use vmsim.Types.{success, fail, not_found, VirtAddr, page_eq}
use vmsim.Queue.Fifo
use vmsim.Ipt.{
  Ipt, ref_write, ipt_has_translation, ipt_translate, ipt_is_dirty, ipt_add, ipt_remove,
  ipt_reference, push_slots,
}
use vmsim.Ipt.Chain.{entry}
use vmsim.Ipt.Valid.{IsValid, find_page}
use vmsim.Ipt.Init.{empty_table, empty-IptInv, empty-find_page}
use vmsim.Ipt.Added.{add_with_slot, ipt_add_lem, HasAdded}
use vmsim.Ipt.Removed.{ipt_remove_lem, HasRemoved}
use vmsim.Ipt.Lookup.{ipt_lookup_lem, is_some}
use vmsim.Ipt.Reference.{ipt_reference_lem, HasReferenced}

abbrev pub first_page : VirtAddr
first_page = record { pid = 1; page = 2; offset = 0 }

abbrev pub second_page : VirtAddr
second_page = record { pid = 2; page = 1; offset = 5 }

pub empty-IsValid : IsValid (empty_table 3)
empty-IsValid = ((λ _. []), empty-IptInv 3 (omega arith))

pub empty-find : (b : VirtAddr) → find_page (empty_table 3).entries b ≡ none
empty-find b = empty-find_page 3 b (omega arith)

free_slots : (empty_table 3).free_pages ≡ 0 ∷ 1 ∷ 2 ∷ []
unfolding push_slots Fifo.push
free_slots = refl

pub loaded :
    (ipt : Ipt) × (ipt_add (empty_table 3) first_page ≡ ok (success, ipt))
    × HasAdded (empty_table 3) ipt first_page 0
loaded = add_with_slot empty-IsValid first_page 0 (1 ∷ 2 ∷ []) (empty-find first_page) free_slots

pub loaded_find : find_page loaded.0.entries first_page ≡ some 0
unfolding page_eq
loaded_find = loaded.2.finds first_page

pub loaded_second : find_page loaded.0.entries second_page ≡ none
unfolding page_eq
loaded_second = loaded.2.finds second_page ∙ empty-find second_page

ipt_lookup_lem_example :
    (ipt_has_translation loaded.0 first_page ≡ ok (is_some (find_page loaded.0.entries first_page)))
    × (ipt_translate loaded.0 first_page ≡ elim (find_page loaded.0.entries first_page) [
      | none ↦ fault assertion
      | some i ↦ ok (success, i)
    ])
    × (ipt_is_dirty loaded.0 first_page ≡ elim (find_page loaded.0.entries first_page) [
      | none ↦ fault assertion
      | some i ↦ ok (entry loaded.0.entries i).page_data.dirty
    ])
ipt_lookup_lem_example = ipt_lookup_lem loaded.2.valid first_page

ipt_add_lem_example :
    ((loaded.0.free_pages ≡ []) × (ipt_add loaded.0 second_page ≡ ok (fail, loaded.0)))
    ⊎ ((i : ℕ) × (ipt' : Ipt) × (ipt_add loaded.0 second_page ≡ ok (success, ipt'))
        × HasAdded loaded.0 ipt' second_page i)
ipt_add_lem_example = ipt_add_lem loaded.2.valid second_page loaded_second

ipt_remove_lem_example :
    ((find_page loaded.0.entries first_page ≡ none)
      × (ipt_remove loaded.0 first_page ≡ ok (not_found, loaded.0)))
    ⊎ ((i : ℕ) × (ipt' : Ipt) × (find_page loaded.0.entries first_page ≡ some i)
        × (ipt_remove loaded.0 first_page ≡ ok (success, ipt'))
        × HasRemoved loaded.0 ipt' first_page i)
ipt_remove_lem_example = ipt_remove_lem loaded.2.valid first_page

ipt_reference_lem_example :
    (ipt' : Ipt) × (ipt_reference loaded.0 first_page ref_write ≡ ok (success, ipt'))
    × HasReferenced loaded.0 ipt' ref_write 0
ipt_reference_lem_example = ipt_reference_lem loaded.2.valid first_page 0 loaded_find ref_write
