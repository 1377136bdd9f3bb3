-- ===== src/Aging.antt =====
-- vmsim/aging_daemon.c: the thread that ages the pages on request.
pub mod Order
use vmsim.Prelude.{ℕ, zero, suc, ◌/◌, Bool, true, false, not, if◌then◌else◌}
use vmsim.Run.{Run, ok, fault, out_of_fuel, assertion, ◌>>=◌, ◌>>◌, assert}
use vmsim.Types.{Errcode, success, set_msb}
use vmsim.Ipt.{Ipt, PageData, ipt_for_each_entry}
use vmsim.Ipt.Visit.{alone}

unfoldable pub age_page : PageData → PageData
age_page page = record page {
  page_age = set_msb (page.page_age / 2) (if page.referenced then 1 else 0);
  referenced = false;
}

-- the two flags that the daemon and its clients share under `daemon_mutex`
pub record Flags : Type 0 where
  pub should_update : Bool
  pub done_updating : Bool

-- one round of the daemon; its result says that the thread goes on
unfoldable pub daemon_func : Flags → Ipt → Bool × Flags × Ipt
daemon_func flags ipt =
    if not flags.should_update
    then (false, flags, ipt)
    else let (_, ipt', _) = ipt_for_each_entry (alone age_page) ipt tt in
      (false, record { should_update = false; done_updating = true }, ipt')

-- what `aging_daemon_update_pages` does under the lock before it waits
unfoldable pub request_update : Flags → Flags
request_update flags = record { should_update = true; done_updating = false }

-- the `while` of `aging_daemon_update_pages`: the daemon runs a round while the client waits
unfoldable pub wait_until_done : ℕ → Flags → Ipt → Run (Flags × Ipt)
wait_until_done zero flags ipt = if flags.done_updating then ok (flags, ipt) else fault out_of_fuel
wait_until_done (suc rounds) flags ipt =
    let (_, flags', ipt') = daemon_func flags ipt in
    let rest = wait_until_done rounds flags' ipt' in
    if flags.done_updating then ok (flags, ipt) else rest

-- `running` is what `worker_thread_is_running` says of the daemon's thread
unfoldable pub aging_daemon_update_pages : Bool → Flags → Ipt → Run (Errcode × Flags × Ipt)
aging_daemon_update_pages running flags ipt = do
  assert running
  (flags', ipt') ← wait_until_done 1 (request_update flags) ipt
  ok (success, flags', ipt')
