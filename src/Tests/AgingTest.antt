-- ===== src/Tests/AgingTest.antt =====
-- vmsim/aging_daemon.c on two page ages and on a table with one page.
use vmsim.Prelude.{ℕ, ◌+◌, ◌≡◌, ◌≤◌, ◌<◌, ◌^◌, true, false, arith}
use vmsim.Run.{ok}
use vmsim.Types.{success}
use vmsim.Ipt.{Ipt, PageData}
use vmsim.Ipt.Chain.{entry}
use vmsim.Ipt.Valid.{IsValid}
use vmsim.Ipt.Same.{SameTable}
use vmsim.Ipt.Visit.{visited}
use vmsim.Aging.{Flags, age_page, aging_daemon_update_pages}
use vmsim.Aging.Order.{age_page_order, aging_daemon_update_pages_lem}
use vmsim.Tests.TableTest.{first_page, loaded}

abbrev unused : PageData
unused = record {
  addr = first_page;
  dirty = false;
  referenced = false;
  valid = true;
  users = 0;
  page_age = 2 ^ 31 + 5;
}

abbrev used : PageData
used = record unused { referenced = true; page_age = 3 }

age_page_order_example :
    ((age_page unused).page_age < 2 ^ 32)
    × (false ≡ false → true ≡ true → (age_page unused).page_age < (age_page used).page_age)
    × (false ≡ true
        → unused.page_age ≤ used.page_age
        → (age_page unused).page_age ≤ (age_page used).page_age)
age_page_order_example = age_page_order unused used (omega arith) (omega arith)

abbrev busy : Flags
busy = record { should_update = false; done_updating = false }

aging_daemon_update_pages_lem_example :
    (ipt' : Ipt) × (aging_daemon_update_pages true busy loaded.0
      ≡ ok (success, record { should_update = false; done_updating = true }, ipt'))
    × IsValid ipt'
    × SameTable loaded.0 ipt'
    × ((j : ℕ)
        → (entry ipt'.entries j).page_data ≡ visited age_page (entry loaded.0.entries j).page_data)
aging_daemon_update_pages_lem_example = aging_daemon_update_pages_lem loaded.2.valid busy
