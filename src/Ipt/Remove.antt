-- ===== src/Ipt/Remove.antt =====
-- `ipt_remove`: what it does to the slots and to the buckets.
use vmsim.Prelude.{
  ℕ, ◌<◌, ◌≡◌, refl, false, Option, none, some, List, [], ◌∷◌, ◌++◌, arith, ◌==◌, if◌then◌else◌,
  length, set, Bool-cases, inl, inr, ap, ◌∙◌, length-set, get_or-set, ==_refl,
}
use vmsim.Run.{ok, at-get_or}
use vmsim.Types.{VirtAddr, success}
use vmsim.Ipt.{
  Ipt, IptEntry, PageData, no_entry, unhook_hat, unhook_next, unhook_prev, invalidate, ipt_remove,
}
use vmsim.Ipt.Chain.{entry, is_at}
use vmsim.Ipt.Unlink.{Unlinked}
use vmsim.Ipt.Valid.{IptInv, home, find_page}
use vmsim.Ipt.Lookup.{get_vaddr_idx-find_page}
use vmsim.Ipt.Writes.{modify-set, ipt_set_hat-set}
use vmsim.Queue.Fifo

abbrev pub InRange : List IptEntry → Option ℕ → Type 0
InRange es none = Unit {0}
InRange es (some t) = t < length es

abbrev relink_prev : List IptEntry → Option ℕ → Option ℕ → List IptEntry
relink_prev es none v = es
relink_prev es (some n) v = set es n (record (entry es n) { prev = v })

abbrev relink_next : List IptEntry → Option ℕ → Option ℕ → List IptEntry
relink_next es none v = es
relink_next es (some n) v = set es n (record (entry es n) { next = v })

abbrev pub unhooked_hat : List (Option ℕ) → ℕ → Option ℕ → Option ℕ → List (Option ℕ)
unhooked_hat hat h none next = set hat h next
unhooked_hat hat h (some p) next = hat

relink_prev-at :
    (es : List IptEntry) (o v : Option ℕ) (j : ℕ)
    → InRange es o
    → entry (relink_prev es o v) j
      ≡ (if is_at o j then record (entry es j) { prev = v } else entry es j)
relink_prev-at es none v j t = refl
relink_prev-at es (some k) v j t =
    get_or-set es k j (record (entry es k) { prev = v }) no_entry t ∙ elim (Bool-cases (k == j)) [
      | inl same ↦ let e : k ≡ j = ground arith in rw e
      | inr apart ↦ rw apart
    ]

relink_next-at :
    (es : List IptEntry) (o v : Option ℕ) (j : ℕ)
    → InRange es o
    → entry (relink_next es o v) j
      ≡ (if is_at o j then record (entry es j) { next = v } else entry es j)
relink_next-at es none v j t = refl
relink_next-at es (some k) v j t =
    get_or-set es k j (record (entry es k) { next = v }) no_entry t ∙ elim (Bool-cases (k == j)) [
      | inl same ↦ let e : k ≡ j = ground arith in rw e
      | inr apart ↦ rw apart
    ]

length-relink_prev : (es : List IptEntry) (o v : Option ℕ) → length (relink_prev es o v) ≡ length es
length-relink_prev es none v = refl
length-relink_prev es (some k) v = length-set es k _

length-relink_next : (es : List IptEntry) (o v : Option ℕ) → length (relink_next es o v) ≡ length es
length-relink_next es none v = refl
length-relink_next es (some k) v = length-set es k _

-- how the slots after `ipt_remove` compare with those before
pub record RemovedEntries (es gs : List IptEntry) (i : ℕ) : Type 0 where
  pub len : length gs ≡ length es
  pub gone_page : (entry gs i).page_data ≡ record ((entry es i).page_data) { valid = false }
  pub old_page : (j : ℕ) → (i == j) ≡ false → (entry gs j).page_data ≡ (entry es j).page_data
  pub links : (j : ℕ) → (i == j) ≡ false → Unlinked es gs i j

InRange-congr :
    (es gs : List IptEntry) (o : Option ℕ) → length gs ≡ length es → InRange es o → InRange gs o
InRange-congr es gs none len r = tt
InRange-congr es gs (some t) len r = omega arith

-- the slots after the writes of `ipt_remove` to `entries`, with `p` and `n` the links of slot `i`
abbrev rehooked : List IptEntry → Option ℕ → Option ℕ → List IptEntry
rehooked es p n = relink_next (relink_prev es n p) p n

abbrev removed_entries : List IptEntry → ℕ → Option ℕ → Option ℕ → List IptEntry
removed_entries es i p n = set (rehooked es p n) i (invalidate (entry (rehooked es p n) i))

length-rehooked : (es : List IptEntry) (p n : Option ℕ) → length (rehooked es p n) ≡ length es
length-rehooked es p n = length-relink_next (relink_prev es n p) p n ∙ length-relink_prev es n p

rehooked-at :
    (es : List IptEntry) (p n : Option ℕ) (j : ℕ)
    → InRange es p
    → InRange es n
    → ((entry (rehooked es p n) j).page_data ≡ (entry es j).page_data)
      × ((entry (rehooked es p n) j).next ≡ (if is_at p j then n else (entry es j).next))
      × ((entry (rehooked es p n) j).prev ≡ (if is_at n j then p else (entry es j).prev))
rehooked-at es p n j rp rn =
    let es₂ = relink_prev es n p in
    let rp₂ = InRange-congr es es₂ p (length-relink_prev es n p) rp in
    let first = relink_prev-at es n p j rn in
    let second = relink_next-at es₂ p n j rp₂ in
    rw (second, first)
      (elim (Bool-cases (is_at p j)) [
        | inl a ↦ elim (Bool-cases (is_at n j)) [
          | inl b ↦ rw (a, b) (refl, refl, refl)
          | inr b ↦ rw (a, b) (refl, refl, refl)
        ]
        | inr a ↦ elim (Bool-cases (is_at n j)) [
          | inl b ↦ rw (a, b) (refl, refl, refl)
          | inr b ↦ rw (a, b) (refl, refl, refl)
        ]
      ])

removed_entries-lem :
    (es : List IptEntry) (i : ℕ)
    → i < length es
    → InRange es (entry es i).prev
    → InRange es (entry es i).next
    → RemovedEntries es (removed_entries es i (entry es i).prev (entry es i).next) i
removed_entries-lem es i lt rp rn =
    let p = (entry es i).prev in
    let n = (entry es i).next in
    let es₃ = rehooked es p n in
    let lt₃ : i < length es₃ = omega (arith, length-rehooked es p n) in
    let at_i = get_or-set es₃ i i (invalidate (entry es₃ i)) no_entry lt₃ in
    let at_j = λ (j : ℕ). get_or-set es₃ i j (invalidate (entry es₃ i)) no_entry lt₃ in
    let before = λ (j : ℕ). rehooked-at es p n j rp rn in
    record {
      len = length-set es₃ i _ ∙ length-rehooked es p n;
      gone_page =
          rw (at_i, ==_refl i) (ap (λ (d : PageData). record d { valid = false }) (before i).0);
      old_page = λ j ne. rw (at_j j, ne) (before j).0;
      links = λ j ne. rw (at_j j, ne) ((before j).1, (before j).2);
    }

-- what `ipt_remove` leaves behind when it has found the page in slot `i`
pub record Remove (ipt ipt' : Ipt) (addr : VirtAddr) (i : ℕ) : Type 0 where
  pub size : ipt'.size ≡ ipt.size
  pub hat :
      ipt'.hat
      ≡ unhooked_hat ipt.hat
          (home ipt.size addr)
          (entry ipt.entries i).prev
          (entry ipt.entries i).next
  pub free : ipt'.free_pages ≡ ipt.free_pages ++ i ∷ []
  pub count : ipt'.ref_count ≡ ipt.ref_count
  pub slots : RemovedEntries ipt.entries ipt'.entries i

module _ {ipt : Ipt} {chains : ℕ → List ℕ} (inv : IptInv ipt chains) (addr : VirtAddr) where
  unhook_hat-ok :
      (p n : Option ℕ)
      → unhook_hat ipt addr p n
        ≡ ok (record ipt { hat = unhooked_hat ipt.hat (home ipt.size addr) p n })
  unfolding unhook_hat
  unhook_hat-ok none n = ipt_set_hat-set ipt addr n inv.positive inv.hat_size
  unhook_hat-ok (some p) n = refl

unhook_next-ok :
    (ipt : Ipt) (p n : Option ℕ)
    → InRange ipt.entries n
    → unhook_next ipt n p ≡ ok (record ipt { entries = relink_prev ipt.entries n p })
unfolding unhook_next
unhook_next-ok ipt p none r = refl
unhook_next-ok ipt p (some n) r = modify-set ipt n (λ e. record e { prev = p }) r

unhook_prev-ok :
    (ipt : Ipt) (p n : Option ℕ)
    → InRange ipt.entries p
    → unhook_prev ipt p n ≡ ok (record ipt { entries = relink_next ipt.entries p n })
unfolding unhook_prev
unhook_prev-ok ipt none n r = refl
unhook_prev-ok ipt (some p) n r = modify-set ipt p (λ e. record e { next = n }) r

module _ {ipt : Ipt} {chains : ℕ → List ℕ} (inv : IptInv ipt chains) (addr : VirtAddr) where
  -- the run of `ipt_remove` when the page is in slot `i`
  pub ipt_remove-run :
      (i : ℕ)
      → find_page ipt.entries addr ≡ some i
      → i < length ipt.entries
      → InRange ipt.entries (entry ipt.entries i).prev
      → InRange ipt.entries (entry ipt.entries i).next
      → (ipt' : Ipt) × (ipt_remove ipt addr ≡ ok (success, ipt')) × Remove ipt ipt' addr i
  unfolding ipt_remove Fifo.push
  ipt_remove-run i found lt rp rn =
      let p = (entry ipt.entries i).prev in
      let n = (entry ipt.entries i).next in
      let ipt₁ = record ipt { hat = unhooked_hat ipt.hat (home ipt.size addr) p n } in
      let ipt₂ = record ipt₁ { entries = relink_prev ipt.entries n p } in
      let ipt₃ = record ipt₂ { entries = rehooked ipt.entries p n } in
      (
        record ipt₃ {
          entries = removed_entries ipt.entries i p n;
          free_pages = ipt.free_pages ++ i ∷ [];
        },
        rw (
          get_vaddr_idx-find_page inv addr,
          found,
          at-get_or ipt.entries i no_entry lt,
          unhook_hat-ok inv addr p n,
          unhook_next-ok ipt₁ p n rn,
          unhook_prev-ok ipt₂ p n (
              InRange-congr ipt.entries (relink_prev ipt.entries n p) p
                (length-relink_prev ipt.entries n p) rp),
          modify-set ipt₃ i invalidate (omega (arith, length-rehooked ipt.entries p n)),
        ),
        record {
          size = refl;
          hat = refl;
          free = refl;
          count = refl;
          slots = removed_entries-lem ipt.entries i lt rp rn;
        },
      )
