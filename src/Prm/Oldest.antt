-- ===== src/Prm/Oldest.antt =====
-- `get_page_to_swap` of vmsim/prm.c chooses a page of the least age.
use vmsim.Prelude.{
  ℕ, zero, suc, ◌+◌, ◌≤◌, ◌<◌, ◌≡◌, refl, Bool, true, false, ◌&&◌, ◌||◌, not, List, [], ◌∷◌, arith,
  if◌then◌else◌, ltb, get_or, ap, ◌∙◌, sym, subst, Bool-cases, inl, inr, ◌⊎◌, negsuc,
}
use vmsim.Run.{ok}
use vmsim.Types.{VirtAddr, page_eq}
use vmsim.Ipt.{IptEntry, visit, ipt_for_each_entry}
use vmsim.Ipt.Chain.{entry}
use vmsim.Mmu.{Mmu, mmu_for_each_mem_page}
use vmsim.Prm.{Choice, is_unset, get_oldest_page, get_page_to_swap}

-- the slot holds a page other than `target`
abbrev pub is_candidate : VirtAddr → IptEntry → Bool
is_candidate target e = e.page_data.valid && not (page_eq target e.page_data.addr)

abbrev pub age_at : List IptEntry → ℕ → ℕ
age_at es j = (entry es j).page_data.page_age

abbrev pub candidate_at : VirtAddr → List IptEntry → ℕ → Bool
candidate_at target es j = is_candidate target (entry es j)

-- no slot is better than the choice so far
record Kept (c c' : Choice) (es : List IptEntry) : Type 0 where
  target : c'.swap_target ≡ c.swap_target
  unset : is_unset c'.oldest_page_idx ≡ is_unset c.oldest_page_idx
  age : c'.oldest_page_age ≡ c.oldest_page_age
  vaddr : c'.oldest_page_vaddr ≡ c.oldest_page_vaddr
  least :
      (k : ℕ)
      → candidate_at c.swap_target es k ≡ true
      → (is_unset c.oldest_page_idx ≡ false) × (c.oldest_page_age ≤ age_at es k)

-- slot `j` is the first of those with the least age, and better than the choice so far
record Chose (c c' : Choice) (es : List IptEntry) (j : ℕ) : Type 0 where
  target : c'.swap_target ≡ c.swap_target
  set : is_unset c'.oldest_page_idx ≡ false
  age : c'.oldest_page_age ≡ age_at es j
  vaddr : c'.oldest_page_vaddr ≡ (entry es j).page_data.addr
  candidate : candidate_at c.swap_target es j ≡ true
  least : (k : ℕ) → candidate_at c.swap_target es k ≡ true → age_at es j ≤ age_at es k
  first : (k : ℕ) → k < j → candidate_at c.swap_target es k ≡ true → age_at es j < age_at es k
  better : is_unset c.oldest_page_idx ≡ false → age_at es j < c.oldest_page_age

-- one slot, as `visit` treats it
abbrev step : ℕ → IptEntry → Choice → Choice
step i e c = if e.page_data.valid then (get_oldest_page i e.page_data c).1 else c

takes : Choice → IptEntry → Bool
takes c e =
    is_candidate c.swap_target e
    && (ltb e.page_data.page_age c.oldest_page_age || is_unset c.oldest_page_idx)

step-taken :
    (i : ℕ) (e : IptEntry) (c : Choice)
    → takes c e ≡ true
    → ((step i e c).swap_target ≡ c.swap_target)
      × (is_unset (step i e c).oldest_page_idx ≡ false)
      × ((step i e c).oldest_page_age ≡ e.page_data.page_age)
      × ((step i e c).oldest_page_vaddr ≡ e.page_data.addr)
unfolding takes get_oldest_page
step-taken i e c t = ground arith

step-left :
    (i : ℕ) (e : IptEntry) (c : Choice)
    → takes c e ≡ false
    → ((step i e c).swap_target ≡ c.swap_target)
      × (is_unset (step i e c).oldest_page_idx ≡ is_unset c.oldest_page_idx)
      × ((step i e c).oldest_page_age ≡ c.oldest_page_age)
      × ((step i e c).oldest_page_vaddr ≡ c.oldest_page_vaddr)
unfolding takes get_oldest_page
step-left i e c t = ground arith

visit-cons :
    (i : ℕ) (e : IptEntry) (es : List IptEntry) (c : Choice)
    → visit get_oldest_page i (e ∷ es) c ≡ (
      e ∷ (visit get_oldest_page (i + 1) es (step i e c)).0,
      (visit get_oldest_page (i + 1) es (step i e c)).1,
    )
unfolding visit get_oldest_page
visit-cons i e es c = ground arith

visit-same : (i : ℕ) (es : List IptEntry) (c : Choice) → (visit get_oldest_page i es c).0 ≡ es
unfolding visit
visit-same i [] c = refl
visit-same i (e ∷ es) c =
    ap (λ (p : List IptEntry × Choice). p.0) (visit-cons i e es c)
    ∙ (ap (λ l. e ∷ l) (visit-same (i + 1) es (step i e c)))

module _ (i : ℕ) (e : IptEntry) (es : List IptEntry) (c c' : Choice) where
  Kept-left : takes c e ≡ false → Kept (step i e c) c' es → Kept c c' (e ∷ es)
  unfolding takes get_or
  Kept-left t k =
      let (target, unset, age, vaddr) = step-left i e c t in
      record {
        target = k.target ∙ target;
        unset = k.unset ∙ unset;
        age = k.age ∙ age;
        vaddr = k.vaddr ∙ vaddr;
        least = elim [
          | zero ↦ λ cand. (ground arith, ground arith)
          | suc n ↦ λ cand.
              let (isset, le) = k.least n (rw target cand) in (sym unset ∙ isset, rw age at le)
        ];
      }

  Chose-left :
      (j : ℕ) → takes c e ≡ false → Chose (step i e c) c' es j → Chose c c' (e ∷ es) (suc j)
  unfolding takes get_or
  Chose-left j t h =
      let (target, unset, age, vaddr) = step-left i e c t in
      let before : candidate_at c.swap_target (e ∷ es) 0 ≡ true
          → age_at es j < e.page_data.page_age =
        λ cand.
          let isset : is_unset c.oldest_page_idx ≡ false = ground arith in
          let less : age_at es j < c.oldest_page_age = rw age at (h.better (unset ∙ isset)) in
          ground arith in
      record {
        target = h.target ∙ target;
        set = h.set;
        age = h.age;
        vaddr = h.vaddr;
        candidate = rw target at h.candidate;
        least = elim [
          | zero ↦ λ cand. omega (arith, before cand)
          | suc n ↦ λ cand. h.least n (rw target cand)
        ];
        first = elim [
          | zero ↦ λ lt cand. before cand
          | suc n ↦ λ lt cand. h.first n (omega arith) (rw target cand)
        ];
        better = λ isset. rw age at (h.better (unset ∙ isset));
      }

  Chose-first : takes c e ≡ true → Kept (step i e c) c' es → Chose c c' (e ∷ es) 0
  unfolding takes get_or
  Chose-first t k =
      let (target, unset, age, vaddr) = step-taken i e c t in
      record {
        target = k.target ∙ target;
        set = k.unset ∙ unset;
        age = k.age ∙ age;
        vaddr = k.vaddr ∙ vaddr;
        candidate = ground arith;
        least = elim [
          | zero ↦ λ cand. omega arith
          | suc n ↦ λ cand. rw age at (k.least n (rw target cand)).1
        ];
        first = λ n lt. absurd (omega arith);
        better = λ isset. ground arith;
      }

  Chose-later :
      (j : ℕ) → takes c e ≡ true → Chose (step i e c) c' es j → Chose c c' (e ∷ es) (suc j)
  unfolding takes get_or
  Chose-later j t h =
      let (target, unset, age, vaddr) = step-taken i e c t in
      let lt : age_at es j < e.page_data.page_age = rw age at (h.better unset) in
      record {
        target = h.target ∙ target;
        set = h.set;
        age = h.age;
        vaddr = h.vaddr;
        candidate = rw target at h.candidate;
        least = elim [ zero ↦ λ cand. omega arith | suc n ↦ λ cand. h.least n (rw target cand) ];
        first = elim [
          | zero ↦ λ l cand. lt
          | suc n ↦ λ l cand. h.first n (omega arith) (rw target cand)
        ];
        better = λ isset. ground arith;
      }

visit-choice :
    (i : ℕ) (es : List IptEntry) (c : Choice)
    → Kept c (visit get_oldest_page i es c).1 es
      ⊎ ((j : ℕ) × Chose c (visit get_oldest_page i es c).1 es j)
unfolding visit get_or
visit-choice i [] c = inl (record {
  target = refl;
  unset = refl;
  age = refl;
  vaddr = refl;
  least = λ k cand. absurd (ground arith);
})
visit-choice i (e ∷ es) c =
    let result = ap (λ (p : List IptEntry × Choice). p.1) (visit-cons i e es c) in
    subst (λ c'. Kept c c' (e ∷ es) ⊎ ((j : ℕ) × Chose c c' (e ∷ es) j)) (sym result)
      (elim (Bool-cases (takes c e)) [
        | inl t ↦ elim (visit-choice (i + 1) es (step i e c)) [
          | inl k ↦ inr (0, Chose-first i e es c _ t k)
          | inr (j, h) ↦ inr (suc j, Chose-later i e es c _ j t h)
        ]
        | inr t ↦ elim (visit-choice (i + 1) es (step i e c)) [
          | inl k ↦ inl (Kept-left i e es c _ t k)
          | inr (j, h) ↦ inr (suc j, Chose-left i e es c _ j t h)
        ]
      ])

abbrev started : Choice → VirtAddr → Choice
started c addr = record c { oldest_page_idx = negsuc 0; swap_target = addr }

-- If some frame holds a page other than the one to load, get_page_to_swap chooses the page in the
-- first of such frames with the least age, and changes nothing in the MMU.
pub get_page_to_swap_lem :
    (c : Choice) (mmu : Mmu) (addr : VirtAddr) (k : ℕ)
    → candidate_at addr mmu.mem_ipt.entries k ≡ true
    → (j : ℕ) × (c' : Choice) × (get_page_to_swap c mmu addr
        ≡ ok ((entry mmu.mem_ipt.entries j).page_data.addr, c', mmu))
      × (candidate_at addr mmu.mem_ipt.entries j ≡ true)
      × ((n : ℕ)
          → candidate_at addr mmu.mem_ipt.entries n ≡ true
          → age_at mmu.mem_ipt.entries j ≤ age_at mmu.mem_ipt.entries n)
      × ((n : ℕ)
          → n < j
          → candidate_at addr mmu.mem_ipt.entries n ≡ true
          → age_at mmu.mem_ipt.entries j < age_at mmu.mem_ipt.entries n)
unfolding get_page_to_swap mmu_for_each_mem_page ipt_for_each_entry
get_page_to_swap_lem c mmu addr k cand =
    elim (visit-choice 0 mmu.mem_ipt.entries (started c addr)) [
      | inl kept ↦ absurd (ground (arith, kept.least k cand))
      | inr (j, h) ↦ (
        j,
        (visit get_oldest_page 0 mmu.mem_ipt.entries (started c addr)).1,
        rw
            (
              visit-same 0 mmu.mem_ipt.entries (started c addr),
              h.vaddr,
              differs (entry mmu.mem_ipt.entries j) h.candidate,
            )
            refl,
        h.candidate,
        h.least,
        h.first,
      )
    ]
  where
    differs : (e : IptEntry) → is_candidate addr e ≡ true → page_eq addr e.page_data.addr ≡ false
    differs e d = ground arith
