-- ===== src/Ipt/Add.antt =====
-- `ipt_add`: the new slot, the invariant, and the table as a function from pages to slots.
use vmsim.Prelude.{
  ℕ, ◌<◌, ◌≡◌, refl, true, false, Option, none, some, List, ◌∷◌, arith, ◌==◌, if◌then◌else◌, length,
  set, Bool-cases, inl, inr, ◌∙◌, length-set, get_or-set, ==_refl,
}
use vmsim.Run.{ok}
use vmsim.Types.{VirtAddr, success, set_msb}
use vmsim.Ipt.{
  Ipt, IptEntry, PageData, no_entry, ipt_hash, ipt_hat_idx_of, link_slot, init_ipt_slot, ipt_add,
  ipt_get_next_free_entry, ipt_hash_list_last_element,
}
use vmsim.Ipt.Chain.{entry, is_at}
use vmsim.Ipt.Valid.{IptInv, home}
use vmsim.Ipt.Writes.{modify-set, ipt_set_hat-set}
use vmsim.Queue.Fifo

-- the page data of a slot that has just been filled
abbrev pub fresh_page : ℕ → VirtAddr → PageData
fresh_page users addr = record {
  addr = addr;
  dirty = false;
  referenced = false;
  valid = true;
  users = users;
  page_age = set_msb 0 1;
}

abbrev link_entries : List IptEntry → Option ℕ → ℕ → List IptEntry
link_entries es none i = es
link_entries es (some t) i = set es t (record (entry es t) { next = some i })

abbrev pub link_hat : List (Option ℕ) → ℕ → Option ℕ → ℕ → List (Option ℕ)
link_hat hat h none i = set hat h (some i)
link_hat hat h (some t) i = hat

abbrev fresh_entry : ℕ → VirtAddr → Option ℕ → IptEntry
fresh_entry users addr tail = record { page_data = fresh_page users addr; next = none; prev = tail }

-- the two arrays after `ipt_add` has filled slot `i`
abbrev added_entries : List IptEntry → VirtAddr → Option ℕ → ℕ → List IptEntry
added_entries es addr tail i =
    set (link_entries es tail i) i (fresh_entry (entry es i).page_data.users addr tail)

-- how the slots after `ipt_add` compare with those before
pub record AddedEntries (es gs : List IptEntry) (addr : VirtAddr) (tail : Option ℕ) (i : ℕ)
    : Type 0 where
  pub len : length gs ≡ length es
  pub new_page : (entry gs i).page_data ≡ fresh_page (entry es i).page_data.users addr
  pub new_next : (entry gs i).next ≡ none
  pub new_prev : (entry gs i).prev ≡ tail
  pub old_page : (j : ℕ) → (i == j) ≡ false → (entry gs j).page_data ≡ (entry es j).page_data
  pub old_next :
      (j : ℕ)
      → (i == j) ≡ false
      → (entry gs j).next ≡ (if is_at tail j then some i else (entry es j).next)
  pub old_prev : (j : ℕ) → (i == j) ≡ false → (entry gs j).prev ≡ (entry es j).prev

-- the tail is in range, and is not the new slot
abbrev pub TailIn : List IptEntry → Option ℕ → ℕ → Type 0
TailIn es none i = Unit {0}
TailIn es (some t) i = (t < length es) × ((i == t) ≡ false)

link_entries-at :
    (es : List IptEntry) (tail : Option ℕ) (i j : ℕ)
    → TailIn es tail i
    → entry (link_entries es tail i) j
      ≡ (if is_at tail j then record (entry es j) { next = some i } else entry es j)
link_entries-at es none i j t = refl
link_entries-at es (some k) i j t =
    get_or-set es k j (record (entry es k) { next = some i }) no_entry t.0
    ∙ elim (Bool-cases (k == j)) [
      | inl same ↦ let e : k ≡ j = ground arith in rw e
      | inr apart ↦ rw apart
    ]

tail_apart :
    (es : List IptEntry) (tail : Option ℕ) (i : ℕ) → TailIn es tail i → is_at tail i ≡ false
tail_apart es none i t = refl
tail_apart es (some k) i t = ground arith

length-link_entries :
    (es : List IptEntry) (tail : Option ℕ) (i : ℕ) → length (link_entries es tail i) ≡ length es
length-link_entries es none i = refl
length-link_entries es (some k) i = length-set es k _

added_entries-lem :
    (es : List IptEntry) (addr : VirtAddr) (tail : Option ℕ) (i : ℕ)
    → i < length es
    → TailIn es tail i
    → AddedEntries es (added_entries es addr tail i) addr tail i
added_entries-lem es addr tail i lt t =
    let new = fresh_entry (entry es i).page_data.users addr tail in
    let len = length-link_entries es tail i in
    let lt' : i < length (link_entries es tail i) = omega arith in
    let at_new = get_or-set (link_entries es tail i) i i new no_entry lt' in
    let old = λ (j : ℕ). get_or-set (link_entries es tail i) i j new no_entry lt' in
    let before = λ (j : ℕ). link_entries-at es tail i j t in
    record {
      len = length-set (link_entries es tail i) i new ∙ len;
      new_page = rw (at_new, ==_refl i);
      new_next = rw (at_new, ==_refl i);
      new_prev = rw (at_new, ==_refl i);
      old_page = λ j ne. rw (old j, ne, before j) (ground arith);
      old_next = λ j ne. rw (old j, ne, before j) (ground arith);
      old_prev = λ j ne. rw (old j, ne, before j) (ground arith);
    }

-- what `ipt_add` leaves behind when slot `i` has been free
pub record Add (ipt ipt' : Ipt) (addr : VirtAddr) (tail : Option ℕ) (i : ℕ) (rest : List ℕ)
    : Type 0 where
  pub size : ipt'.size ≡ ipt.size
  pub hat : ipt'.hat ≡ link_hat ipt.hat (home ipt.size addr) tail i
  pub free : ipt'.free_pages ≡ rest
  pub count : ipt'.ref_count ≡ ipt.ref_count
  pub slots : AddedEntries ipt.entries ipt'.entries addr tail i

module _ {ipt : Ipt} {chains : ℕ → List ℕ} (inv : IptInv ipt chains) (addr : VirtAddr) where
  -- the table once slot `i` is linked behind `tail`
  abbrev linked : List ℕ → Option ℕ → ℕ → Ipt
  linked rest tail i = record ipt {
    free_pages = rest;
    hat = link_hat ipt.hat (home ipt.size addr) tail i;
    entries = link_entries ipt.entries tail i;
  }

  link_slot-ok :
      (rest : List ℕ) (tail : Option ℕ) (i : ℕ)
      → TailIn ipt.entries tail i
      → link_slot (record ipt { free_pages = rest }) addr tail i ≡ ok (linked rest tail i)
  unfolding link_slot
  link_slot-ok rest none i t =
      ipt_set_hat-set (record ipt { free_pages = rest }) addr (some i) inv.positive inv.hat_size
  link_slot-ok rest (some k) i t = modify-set (record ipt { free_pages = rest }) k _ t.0

  next_free-cons :
      (i : ℕ) (rest : List ℕ)
      → ipt.free_pages ≡ i ∷ rest
      → ipt_get_next_free_entry ipt ≡ (some i, record ipt { free_pages = rest })
  unfolding ipt_get_next_free_entry Fifo.pop
  next_free-cons i rest e = ground (arith, e)

  last_element-rest :
      (rest : List ℕ)
      → ipt_hash_list_last_element (record ipt { free_pages = rest }) addr
        ≡ ipt_hash_list_last_element ipt addr
  unfolding ipt_hash_list_last_element ipt_hat_idx_of ipt_hash
  last_element-rest rest = refl

  -- the run of `ipt_add` when slot `i` is the first free one
  pub ipt_add-run :
      (i : ℕ) (rest : List ℕ) (tail : Option ℕ)
      → ipt.free_pages ≡ i ∷ rest
      → ipt_hash_list_last_element ipt addr ≡ ok tail
      → i < length ipt.entries
      → TailIn ipt.entries tail i
      → (ipt' : Ipt) × (ipt_add ipt addr ≡ ok (success, ipt')) × Add ipt ipt' addr tail i rest
  unfolding ipt_add init_ipt_slot
  ipt_add-run i rest tail e last lt t = (
    record ipt {
      free_pages = rest;
      hat = link_hat ipt.hat (home ipt.size addr) tail i;
      entries = added_entries ipt.entries addr tail i;
    },
    rw (
      ipt_add,
      next_free-cons i rest e,
      next_free-cons i rest e,
      last_element-rest rest,
      last,
      link_slot-ok rest tail i t,
      modify-set (linked rest tail i) i (λ s. fresh_entry s.page_data.users addr tail)
          (omega (arith, length-link_entries ipt.entries tail i, lt)),
      link_entries-at ipt.entries tail i i t,
      tail_apart ipt.entries tail i t,
    ),
    record {
      size = refl;
      hat = refl;
      free = refl;
      count = refl;
      slots = added_entries-lem ipt.entries addr tail i lt t;
    },
  )
