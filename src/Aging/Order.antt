-- ===== src/Aging/Order.antt =====
-- What a pass of the aging daemon does to the ages.
use vmsim.Prelude.{
  ℕ, ◌+◌, ◌/◌, ◌^◌, ◌≤◌, ◌<◌, ◌≡◌, refl, true, false, arith, if◌then◌else◌, Bool-cases, inl, inr,
}
use vmsim.Run.{ok}
use vmsim.Types.{success, set_msb}
use vmsim.Ipt.{Ipt, PageData}
use vmsim.Ipt.Chain.{entry}
use vmsim.Ipt.Valid.{IsValid}
use vmsim.Ipt.Same.{SameTable}
use vmsim.Ipt.Visit.{visited, ipt_for_each_entry_lem}
use vmsim.Aging.{
  age_page, Flags, daemon_func, request_update, wait_until_done, aging_daemon_update_pages,
}

-- Aging halves a 32-bit age and adds 2 ^ 31 if the page was referenced.
pub age_page-age :
    (d : PageData)
    → d.page_age < 2 ^ 32
    → (age_page d).page_age ≡ d.page_age / 2 + (if d.referenced then 2 ^ 31 else 0)
unfolding age_page set_msb
age_page-age d small = elim (Bool-cases d.referenced) [
  | inl on ↦ rw on (ground arith)
  | inr off ↦ rw off (ground arith)
]

-- Aging a page with a 32-bit age keeps the age in range, makes a page that was referenced younger
-- than every page that was not, and among pages that both were or both were not referenced reverses
-- no order.
pub age_page_order :
    (d e : PageData)
    → d.page_age < 2 ^ 32
    → e.page_age < 2 ^ 32
    → ((age_page d).page_age < 2 ^ 32)
      × (d.referenced ≡ false → e.referenced ≡ true → (age_page d).page_age < (age_page e).page_age)
      × (d.referenced ≡ e.referenced
          → d.page_age ≤ e.page_age
          → (age_page d).page_age ≤ (age_page e).page_age)
age_page_order d e small_d small_e =
    let age_d = age_page-age d small_d in
    let age_e = age_page-age e small_e in
    (
      rw age_d (ground arith),
      (λ off on. rw (age_d, age_e, off, on) (omega arith)),
      λ same le. rw (age_d, age_e, same) (omega arith),
    )

age_page_keeps : (d : PageData) → ((age_page d).valid ≡ d.valid) × ((age_page d).addr ≡ d.addr)
unfolding age_page
age_page_keeps d = (refl, refl)

-- On a table that satisfies its invariant, a request to a running daemon ends after one round of it:
-- the page data of every valid slot has aged and nothing else of the table has changed, no request
-- is pending, and the invariant holds.
pub aging_daemon_update_pages_lem :
    {ipt : Ipt} (valid : IsValid ipt) (flags : Flags)
    → (ipt' : Ipt) × (aging_daemon_update_pages true flags ipt
        ≡ ok (success, record { should_update = false; done_updating = true }, ipt'))
      × IsValid ipt'
      × SameTable ipt ipt'
      × ((j : ℕ)
          → (entry ipt'.entries j).page_data ≡ visited age_page (entry ipt.entries j).page_data)
unfolding aging_daemon_update_pages wait_until_done daemon_func request_update
aging_daemon_update_pages_lem valid flags =
    let (ipt', run, valid', same, pages) = ipt_for_each_entry_lem valid age_page age_page_keeps in
    (ipt', rw run refl, valid', same, pages)
