-- ===== src/Ipt.antt =====
-- vmsim/ipt.h, vmsim/ipt.c: the inverted page table. A slot of `entries` stands for a frame of the
-- main memory; `hat` maps a hash to the first slot of a doubly linked chain; `free_pages` is the
-- FIFO list that util/queue.c implements (Queue/Refine.antt).
pub mod Chain
pub mod Unlink
pub mod Valid
pub mod Lookup
pub mod Writes
pub mod Add
pub mod AddInv
pub mod Added
pub mod Remove
pub mod RemoveInv
pub mod Removed
pub mod Init
pub mod Same
pub mod Reference
pub mod Visit
use vmsim.Prelude.{
  ℕ, zero, suc, ◌+◌, ◌*◌, ◌%◌, Bool, true, false, not, Option, none, some, List, [], ◌∷◌, ◌==◌,
  if◌then◌else◌, length, replicate,
}
use vmsim.Run.{
  Run, ok, fault, out_of_fuel, division_by_zero, bad_access, assertion, ◌>>=◌, ◌>>◌, assert, at,
  put,
}
use vmsim.Types.{Errcode, success, fail, not_found, VirtAddr, page_eq, set_msb, unsigned_mod}
use vmsim.Queue.Fifo

-- `ipt_ref_t`
pub data RefType : Type 0 where
  ref_none ref_read ref_write : RefType

-- `page_data_t`
pub record PageData : Type 0 where
  pub addr : VirtAddr
  pub dirty : Bool
  pub referenced : Bool
  pub valid : Bool
  pub users : ℕ
  pub page_age : ℕ

-- `ipt_entry_t`; an index is `none` where the code has IPT_INVALID
pub record IptEntry : Type 0 where
  pub page_data : PageData
  pub next : Option ℕ
  pub prev : Option ℕ

-- `ipt_t`, with the `ipt_idx` of each `hat_entry_t` in `hat`
pub record Ipt : Type 0 where
  pub entries : List IptEntry
  pub hat : List (Option ℕ)
  pub size : ℕ
  pub free_pages : List ℕ
  pub ref_count : ℕ

-- the product is an `unsigned` one, and `%` by 0 stops the program
unfoldable pub ipt_hash : Ipt → VirtAddr → Run ℕ
ipt_hash ipt addr =
    if ipt.size == 0
    then fault division_by_zero
    else ok (addr.pid * addr.page % unsigned_mod % ipt.size)

unfoldable pub ipt_hat_idx_of : Ipt → VirtAddr → Run (Option ℕ)
ipt_hat_idx_of ipt addr = do h ← ipt_hash ipt addr; at ipt.hat h

unfoldable pub ipt_set_hat : Ipt → VirtAddr → Option ℕ → Run Ipt
ipt_set_hat ipt addr idx = do
  h ← ipt_hash ipt addr
  hat ← put ipt.hat h idx
  ok (record ipt { hat = hat })

-- a write to one slot of `entries`
unfoldable pub modify : Ipt → ℕ → (IptEntry → IptEntry) → Run Ipt
modify ipt i f = do
  e ← at ipt.entries i
  entries ← put ipt.entries i (f e)
  ok (record ipt { entries = entries })

-- `queue_size` and `queue_pop` of the free slots
unfoldable pub ipt_get_next_free_entry : Ipt → Option ℕ × Ipt
ipt_get_next_free_entry ipt =
    if length ipt.free_pages == 0
    then (none, ipt)
    else let (i, rest) = Fifo.pop 0 ipt.free_pages in (some i, record ipt { free_pages = rest })

-- the `while` of `get_vaddr_idx`, from `idx` on
unfoldable pub scan_chain : ℕ → List IptEntry → Option ℕ → VirtAddr → Run (Option ℕ)
scan_chain fuel entries none addr = ok none
scan_chain zero entries (some i) addr = fault out_of_fuel
scan_chain (suc fuel) entries (some i) addr = do
  e ← at entries i
  let go_on = (do assert e.page_data.valid; scan_chain fuel entries e.next addr)
  if page_eq e.page_data.addr addr then ok (some i) else go_on

-- A chain has at most `size` slots, so `size` rounds are enough (Ipt/Lookup.antt).
unfoldable pub get_vaddr_idx : Ipt → VirtAddr → Run (Option ℕ)
get_vaddr_idx ipt addr = do idx ← ipt_hat_idx_of ipt addr; scan_chain ipt.size ipt.entries idx addr

abbrev no_page : PageData
no_page = record {
  addr = record { pid = 0; page = 0; offset = 0 };
  dirty = false;
  referenced = false;
  valid = false;
  users = 0;
  page_age = 0;
}

abbrev pub no_entry : IptEntry
no_entry = record { page_data = no_page; next = none; prev = none }

-- the `for` of `ipt_init` pushes the slots from `i` on
unfoldable pub push_slots : ℕ → ℕ → List ℕ → List ℕ
push_slots zero i q = q
push_slots (suc rounds) i q = push_slots rounds (i + 1) (Fifo.push q i)

-- The Booleans say whether the two calls of `calloc` and that of `rwlock_init` succeed.
unfoldable pub ipt_init : Bool → Bool → Bool → ℕ → Errcode × Option Ipt
ipt_init entries_ok hat_ok lock_ok size =
    if not entries_ok
    then (fail, none)
    else if not hat_ok
    then (fail, none)
    else if not lock_ok
    then (fail, none)
    else (
      success,
      some (record {
        entries = replicate size no_entry;
        hat = replicate size none;
        size = size;
        free_pages = push_slots size 0 [];
        ref_count = 0;
      }),
    )

unfoldable pub init_ipt_slot : Ipt → ℕ → VirtAddr → Option ℕ → Option ℕ → Run Ipt
init_ipt_slot ipt idx addr next prev = modify ipt idx λ e. record {
  page_data = record {
    addr = addr;
    dirty = false;
    referenced = false;
    valid = true;
    users = e.page_data.users;
    page_age = set_msb 0 1;
  };
  next = next;
  prev = prev;
}

unfoldable pub ipt_has_translation : Ipt → VirtAddr → Run Bool
ipt_has_translation ipt addr = do
  idx ← get_vaddr_idx ipt addr
  ok (elim idx [ none ↦ false | some _ ↦ true ])

-- `entries[get_vaddr_idx(..)]`: IPT_INVALID would be an index outside the array
unfoldable pub slot_of : Ipt → VirtAddr → Run ℕ
slot_of ipt addr = do
  idx ← get_vaddr_idx ipt addr
  elim idx [ none ↦ fault bad_access | some i ↦ ok i ]

unfoldable pub ipt_is_dirty : Ipt → VirtAddr → Run Bool
ipt_is_dirty ipt addr = do
  found ← ipt_has_translation ipt addr
  assert found
  i ← slot_of ipt addr
  e ← at ipt.entries i
  ok e.page_data.dirty

abbrev pub mark_referenced : IptEntry → IptEntry
mark_referenced e = record e { page_data = record (e.page_data) { referenced = true } }

abbrev pub mark_dirty : IptEntry → IptEntry
mark_dirty e = record e { page_data = record (e.page_data) { dirty = true } }

unfoldable pub ipt_reference : Ipt → VirtAddr → RefType → Run (Errcode × Ipt)
ipt_reference ipt addr reftype = do
  found ← ipt_has_translation ipt addr
  assert found
  i ← slot_of ipt addr
  ipt₁ ← modify ipt i mark_referenced
  ipt₂ ← elim reftype [
    | ref_write ↦ (do j ← slot_of ipt₁ addr; modify ipt₁ j mark_dirty)
    | _ ↦ ok ipt₁
  ]
  ok (success, record ipt₂ { ref_count = (ipt₂.ref_count + 1) % unsigned_mod })

-- the result goes through `paddr`
unfoldable pub ipt_translate : Ipt → VirtAddr → Run (Errcode × ℕ)
ipt_translate ipt addr = do
  idx ← get_vaddr_idx ipt addr
  elim idx [ none ↦ fault assertion | some i ↦ ok (success, i) ]

-- the `while` of `ipt_hash_list_last_element`
unfoldable pub walk_chain : ℕ → List IptEntry → Option ℕ → Option ℕ → Run (Option ℕ)
walk_chain fuel entries none prev = ok prev
walk_chain zero entries (some i) prev = fault out_of_fuel
walk_chain (suc fuel) entries (some i) prev = do
  e ← at entries i
  walk_chain fuel entries e.next (some i)

unfoldable pub ipt_hash_list_last_element : Ipt → VirtAddr → Run (Option ℕ)
ipt_hash_list_last_element ipt addr = do
  idx ← ipt_hat_idx_of ipt addr
  walk_chain ipt.size ipt.entries idx none

-- the branch of `ipt_add` on the tail of the chain
unfoldable pub link_slot : Ipt → VirtAddr → Option ℕ → ℕ → Run Ipt
link_slot ipt addr none new_idx = ipt_set_hat ipt addr (some new_idx)
link_slot ipt addr (some tail_idx) new_idx =
    modify ipt tail_idx (λ e. record e { next = some new_idx })

unfoldable pub ipt_add : Ipt → VirtAddr → Run (Errcode × Ipt)
ipt_add ipt addr =
    let (new_idx, ipt₁) = ipt_get_next_free_entry ipt in
    elim new_idx [
      | none ↦ ok (fail, ipt₁)
      | some i ↦ do
        tail_idx ← ipt_hash_list_last_element ipt₁ addr
        ipt₂ ← link_slot ipt₁ addr tail_idx i
        ipt₃ ← init_ipt_slot ipt₂ i addr none tail_idx
        ok (success, ipt₃)
    ]

-- the three `if`s of `ipt_remove`
unfoldable pub unhook_hat : Ipt → VirtAddr → Option ℕ → Option ℕ → Run Ipt
unhook_hat ipt addr none next_idx = ipt_set_hat ipt addr next_idx
unhook_hat ipt addr (some p) next_idx = ok ipt

unfoldable pub unhook_next : Ipt → Option ℕ → Option ℕ → Run Ipt
unhook_next ipt none prev_idx = ok ipt
unhook_next ipt (some n) prev_idx = modify ipt n (λ e. record e { prev = prev_idx })

unfoldable pub unhook_prev : Ipt → Option ℕ → Option ℕ → Run Ipt
unhook_prev ipt none next_idx = ok ipt
unhook_prev ipt (some p) next_idx = modify ipt p (λ e. record e { next = next_idx })

abbrev pub invalidate : IptEntry → IptEntry
invalidate e = record e { page_data = record (e.page_data) { valid = false } }

unfoldable pub ipt_remove : Ipt → VirtAddr → Run (Errcode × Ipt)
ipt_remove ipt addr = do
  idx ← get_vaddr_idx ipt addr
  elim idx [
    | none ↦ ok (not_found, ipt)
    | some i ↦ do
      e ← at ipt.entries i
      ipt₁ ← unhook_hat ipt addr e.prev e.next
      ipt₂ ← unhook_next ipt₁ e.next e.prev
      ipt₃ ← unhook_prev ipt₂ e.prev e.next
      ipt₄ ← modify ipt₃ i invalidate
      ok (success, record ipt₄ { free_pages = Fifo.push ipt₄.free_pages i })
  ]

-- `func` reads and changes the page data and a state of its own (its `static` variables)
module _ {S : Type 0} (func : ℕ → PageData → S → PageData × S) where
  unfoldable pub visit : ℕ → List IptEntry → S → List IptEntry × S
  visit i [] s = ([], s)
  visit i (e ∷ es) s =
      let (d, s₁) = if e.page_data.valid then func i e.page_data s else (e.page_data, s) in
      let (es', s₂) = visit (i + 1) es s₁ in (record e { page_data = d } ∷ es', s₂)

  unfoldable pub ipt_for_each_entry : Ipt → S → Errcode × Ipt × S
  ipt_for_each_entry ipt s =
      let (es, s') = visit 0 ipt.entries s in (success, record ipt { entries = es }, s')

unfoldable pub ipt_ref_count : Ipt → Errcode × ℕ
ipt_ref_count ipt = (success, ipt.ref_count)

unfoldable pub ipt_zero_ref_count : Ipt → Errcode × Ipt
ipt_zero_ref_count ipt = (success, record ipt { ref_count = 0 })
