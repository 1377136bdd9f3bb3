-- ===== src/Mmu/Access.antt =====
-- vmsim/mmu.c: pinning, reading and writing. The page replacement serves a fault through `pagefault`, with a
-- state of its own.
use vmsim.Prelude.{
  ℕ, zero, suc, ◌+◌, ◌*◌, ◌%◌, ◌^◌, ◌<◌, ◌≡◌, refl, Bool, not, some, List, if◌then◌else◌, leb,
  length,
}
use vmsim.Run.{Run, ok, fault, out_of_fuel, ◌>>=◌, ◌>>◌, assert}
use vmsim.Int.{int_inc, int_inc-small, int_add, int_leb}
use vmsim.Types.{Errcode, success, is_success, VirtAddr, unsigned_mod}
use vmsim.Bytes.{read_bytes, write_bytes}
use vmsim.Ipt.{
  ref_read, ref_write, ipt_has_translation, ipt_reference, ipt_translate, ipt_ref_count,
  ipt_zero_ref_count,
}
use vmsim.Aging.{Flags, aging_daemon_update_pages}
use vmsim.Mmu.{Mmu, MmuStats, mem_data}

-- `n` more references can be counted
pub record HasRoom (n : ℕ) (stats : MmuStats) : Type 0 where
  pub nrefs : stats.nrefs + n < 2 ^ 31
  pub hits : stats.hits + n < 2 ^ 31

unfoldable pub count_hit : Mmu → Run Mmu
count_hit mmu = do
  hits ← int_inc mmu.stats.hits
  nrefs ← int_inc mmu.stats.nrefs
  ok (record mmu { stats = record { nrefs = nrefs; hits = hits } })

unfoldable pub count_miss : Mmu → Run Mmu
count_miss mmu = do
  nrefs ← int_inc mmu.stats.nrefs
  ok (record mmu { stats = record (mmu.stats) { nrefs = nrefs } })

abbrev pub with_hit : Mmu → Mmu
with_hit mmu = record mmu {
  stats = record { nrefs = mmu.stats.nrefs + 1; hits = mmu.stats.hits + 1 };
}

abbrev pub with_miss : Mmu → Mmu
with_miss mmu = record mmu { stats = record (mmu.stats) { nrefs = mmu.stats.nrefs + 1 } }

pub count_hit-with_hit : (mmu : Mmu) → HasRoom 1 mmu.stats → count_hit mmu ≡ ok (with_hit mmu)
unfolding count_hit
count_hit-with_hit mmu room =
    rw (int_inc-small mmu.stats.hits room.hits, int_inc-small mmu.stats.nrefs room.nrefs) refl

pub count_miss-with_miss : (mmu : Mmu) → HasRoom 1 mmu.stats → count_miss mmu ≡ ok (with_miss mmu)
unfolding count_miss
count_miss-with_miss mmu room = rw (int_inc-small mmu.stats.nrefs room.nrefs) refl

unfoldable pub mmu_age_pages_if_needed : Bool → Flags → Mmu → Run (Errcode × Flags × Mmu)
mmu_age_pages_if_needed running flags mmu =
    let (_, refcount) = ipt_ref_count mmu.mem_ipt in
    let (_, zeroed) = ipt_zero_ref_count mmu.mem_ipt in
    let age = (do
      (_, flags', ipt) ← aging_daemon_update_pages running flags zeroed
      ok (success, flags', record mmu { mem_ipt = ipt })) in
    if leb mmu.aging_freq refcount then age else ok (success, flags, mmu)

module _ {S : Type 0} (pagefault : S → Mmu → VirtAddr → Run (Errcode × S × Mmu)) where
  -- the `do` loop of `mmu_pin_page`
  unfoldable pub fault_loop : ℕ → S → Mmu → VirtAddr → Run (Errcode × S × Mmu)
  fault_loop zero s mmu page = fault out_of_fuel
  fault_loop (suc rounds) s mmu page = do
    (code, s₁, mmu₁) ← pagefault s mmu page
    found ← ipt_has_translation mmu₁.mem_ipt page
    let rest = fault_loop rounds s₁ mmu₁ page
    if is_success code
        then (if not found then rest else ok (code, s₁, mmu₁))
        else ok (code, s₁, mmu₁)

  unfoldable pub mmu_pin_page : ℕ → S → Mmu → VirtAddr → Run (Errcode × S × Mmu)
  mmu_pin_page rounds s mmu page = do
    found ← ipt_has_translation mmu.mem_ipt page
    let swap_in = (do mmu₁ ← count_miss mmu; fault_loop rounds s mmu₁ page)
    let hit = (do mmu₁ ← count_hit mmu; ok (success, s, mmu₁))
    if found then hit else swap_in

  -- The assertion is one on `int`s. The result has what is copied to `buf`.
  unfoldable pub mmu_read :
      ℕ → Bool → Flags → S → Mmu → VirtAddr → ℕ → Run (Errcode × List ℕ × Flags × S × Mmu)
  mmu_read rounds running flags s mmu addr nbytes = do
    end ← int_add addr.offset nbytes
    assert (int_leb end mmu.mem.page_size)
    (pinned, s₁, mmu₁) ← mmu_pin_page rounds s mmu addr
    assert (is_success pinned)
    (referenced, ipt) ← ipt_reference mmu₁.mem_ipt addr ref_read
    assert (is_success referenced)
    (_, mem_page) ← ipt_translate ipt addr
    bytes ← mem_data mmu₁
    buf ← read_bytes bytes ((mem_page * mmu₁.mem.page_size + addr.offset) % unsigned_mod) nbytes
    (_, flags', mmu₂) ← mmu_age_pages_if_needed running flags (record mmu₁ { mem_ipt = ipt })
    ok (success, buf, flags', s₁, mmu₂)

  -- The sum of the assertion is one of `unsigned`s. `buf` has `nbytes` bytes.
  unfoldable pub mmu_write :
      ℕ → Bool → Flags → S → Mmu → VirtAddr → List ℕ → Run (Errcode × Flags × S × Mmu)
  mmu_write rounds running flags s mmu addr buf = do
    assert (leb ((addr.offset + length buf) % unsigned_mod) mmu.mem.page_size)
    (pinned, s₁, mmu₁) ← mmu_pin_page rounds s mmu addr
    assert (is_success pinned)
    (referenced, ipt) ← ipt_reference mmu₁.mem_ipt addr ref_write
    assert (is_success referenced)
    (_, mem_page) ← ipt_translate ipt addr
    bytes ← mem_data mmu₁
    bytes' ← write_bytes bytes ((mem_page * mmu₁.mem.page_size + addr.offset) % unsigned_mod) buf
    (_, flags', mmu₂) ←
        mmu_age_pages_if_needed running flags
          (record mmu₁ { mem_ipt = ipt; mem = record (mmu₁.mem) { bytes = some bytes' } })
    ok (success, flags', s₁, mmu₂)
