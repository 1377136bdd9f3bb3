-- ===== src/Ipt/Valid.antt =====
-- The invariant of ipt.c, and the table as a plain function from pages to slots.
use vmsim.Prelude.{
  ℕ, zero, suc, ◌+◌, ◌*◌, ◌%◌, ◌<◌, ◌≡◌, Bool, true, false, ◌&&◌, not, Option, none, some, List, [],
  ◌∷◌, arith, ◌==◌, if◌then◌else◌, ltb, length, get_or, has, distinct, Bool-cases, inl, inr, sym,
  ap, ◌∙◌, subst, Option-cases,
}
use vmsim.Types.{VirtAddr, page_eq, unsigned_mod, page_eq_symm, page_eq_trans}
use vmsim.Ipt.{Ipt, IptEntry}
use vmsim.Ipt.Chain.{entry, IsChain}

-- the bucket of an address in a table of `size` slots
unfoldable pub home : ℕ → VirtAddr → ℕ
home size addr = addr.pid * addr.page % unsigned_mod % size

abbrev pub valid_at : List IptEntry → ℕ → Bool
valid_at es i = (entry es i).page_data.valid

abbrev pub addr_at : List IptEntry → ℕ → VirtAddr
addr_at es i = (entry es i).page_data.addr

-- `chains h` lists the slots of bucket `h`. A slot is in the chain of its page's bucket if it is valid,
-- and among the free slots if it is not; no page has two valid slots.
pub record IptInv (ipt : Ipt) (chains : ℕ → List ℕ) : Type 0 where
  pub positive : 0 < ipt.size
  pub entries_size : length ipt.entries ≡ ipt.size
  pub hat_size : length ipt.hat ≡ ipt.size
  pub linked : (h : ℕ) → h < ipt.size → IsChain ipt.entries none (get_or ipt.hat h none) (chains h)
  pub members :
      (h i : ℕ)
      → h < ipt.size
      → has i (chains h)
        ≡ (ltb i ipt.size && (valid_at ipt.entries i && home ipt.size (addr_at ipt.entries i) == h))
  pub once : (h : ℕ) → h < ipt.size → distinct (chains h) ≡ true
  pub free : (i : ℕ) → has i ipt.free_pages ≡ (ltb i ipt.size && not (valid_at ipt.entries i))
  pub free_once : distinct ipt.free_pages ≡ true
  pub unique :
      (i j : ℕ)
      → i < ipt.size
      → j < ipt.size
      → valid_at ipt.entries i ≡ true
      → valid_at ipt.entries j ≡ true
      → page_eq (addr_at ipt.entries i) (addr_at ipt.entries j) ≡ true
      → i ≡ j

abbrev pub IsValid : Ipt → Type 0
IsValid ipt = (chains : ℕ → List ℕ) × IptInv ipt chains

-- the slot `i` is valid and holds the page of `addr`
abbrev pub holds : List IptEntry → ℕ → VirtAddr → Bool
holds es i addr = valid_at es i && page_eq (addr_at es i) addr

find_from : ℕ → List IptEntry → VirtAddr → Option ℕ
find_from i [] addr = none
find_from i (e ∷ es) addr =
    if e.page_data.valid && page_eq e.page_data.addr addr then some i else find_from (i + 1) es addr

-- The table with no hashing: the first valid slot that holds the page of `addr`.
pub find_page : List IptEntry → VirtAddr → Option ℕ
unfolding find_from
find_page es addr = find_from 0 es addr

-- what a search from index `base` on has found
abbrev Found : ℕ → List IptEntry → VirtAddr → Option ℕ → Type 0
Found base es addr none = (i : ℕ) → i < length es → holds es i addr ≡ false
Found base es addr (some k) = (i : ℕ) × (k ≡ base + i) × (i < length es) × (holds es i addr ≡ true)

find_from-Found :
    (base : ℕ) (es : List IptEntry) (addr : VirtAddr) → Found base es addr (find_from base es addr)
unfolding find_from get_or
find_from-Found base [] addr = λ i h. absurd (omega arith)
find_from-Found base (e ∷ es) addr =
    elim (Bool-cases (e.page_data.valid && page_eq e.page_data.addr addr)) [
      | inl hit ↦ rw hit (0, omega arith, omega arith, hit)
      | inr miss ↦
          rw miss (later (find_from (base + 1) es addr) (find_from-Found (base + 1) es addr) miss)
    ]
  where
    later :
        (o : Option ℕ)
        → Found (base + 1) es addr o
        → (e.page_data.valid && page_eq e.page_data.addr addr) ≡ false
        → Found base (e ∷ es) addr o
    later none f miss = elim [ zero ↦ λ h. miss | suc i ↦ λ h. f i (omega arith) ]
    later (some k) (i, at_k, lt, hit) miss = (suc i, omega arith, omega arith, hit)

pub find_page-none :
    (es : List IptEntry) (addr : VirtAddr) (i : ℕ)
    → find_page es addr ≡ none
    → i < length es
    → holds es i addr ≡ false
unfolding find_page
find_page-none es addr i e lt = (subst (Found 0 es addr) e (find_from-Found 0 es addr)) i lt

pub find_page-some :
    (es : List IptEntry) (addr : VirtAddr) (k : ℕ)
    → find_page es addr ≡ some k
    → (k < length es) × (holds es k addr ≡ true)
unfolding find_page
find_page-some es addr k e =
    let (i, at_i, lt, hit) = subst (Found 0 es addr) e (find_from-Found 0 es addr) in
    let same : k ≡ i = omega arith in (rw same lt, rw same hit)

module _ {ipt : Ipt} {chains : ℕ → List ℕ} (inv : IptInv ipt chains) where
  -- A valid slot that holds the page is the one that the search finds.
  pub find_page-eq :
      (addr : VirtAddr) (k : ℕ)
      → k < ipt.size
      → holds ipt.entries k addr ≡ true
      → find_page ipt.entries addr ≡ some k
  find_page-eq addr k lt hit = elim (Option-cases (find_page ipt.entries addr)) [
    | inl e ↦ cc (sym hit ∙ find_page-none ipt.entries addr k e (omega (arith, inv.entries_size)))
    | inr (j, e) ↦
        let (lt_j, hit_j) = find_page-some ipt.entries addr j e in
        let same : j ≡ k =
          inv.unique j k (omega (arith, inv.entries_size)) lt (ground arith) (ground arith) (
            page_eq_trans (addr_at ipt.entries j) addr (addr_at ipt.entries k) (ground arith)
              (page_eq_symm addr (addr_at ipt.entries k) ∙ ground arith)) in
        e ∙ ap some same
  ]

  pub find_page-eq_none :
      (addr : VirtAddr)
      → ((i : ℕ) → i < ipt.size → holds ipt.entries i addr ≡ false)
      → find_page ipt.entries addr ≡ none
  find_page-eq_none addr miss = elim (Option-cases (find_page ipt.entries addr)) [
    | inl e ↦ e
    | inr (j, e) ↦
        let (lt_j, hit_j) = find_page-some ipt.entries addr j e in
        cc (sym hit_j ∙ miss j (omega (arith, inv.entries_size)))
  ]

  -- A search goes by which slots hold the page, and by nothing else.
  pub find_page-congr :
      (es : List IptEntry) (addr : VirtAddr)
      → length es ≡ ipt.size
      → ((j : ℕ) → j < ipt.size → holds ipt.entries j addr ≡ holds es j addr)
      → find_page ipt.entries addr ≡ find_page es addr
  find_page-congr es addr len same = elim (Option-cases (find_page es addr)) [
    | inl e ↦
        find_page-eq_none addr (λ j lt. same j lt ∙ find_page-none es addr j e (omega arith))
        ∙ sym e
    | inr (k, e) ↦
        let (lt, hit) = find_page-some es addr k e in
        find_page-eq addr k (omega arith) (same k (omega arith) ∙ hit) ∙ sym e
  ]

pub home_congr : (size : ℕ) (a b : VirtAddr) → page_eq a b ≡ true → home size a ≡ home size b
unfolding page_eq home
home_congr size a b e =
    let pid : a.pid ≡ b.pid = ground arith in
    let page : a.page ≡ b.page = ground arith in rw (pid, page)

pub home-lt : (size : ℕ) (a : VirtAddr) → 0 < size → home size a < size
unfolding home
home-lt size a h = omega arith

-- the search does not look at the offset
pub find_page-same :
    {ipt : Ipt} (a b : VirtAddr) {i : ℕ}
    → IsValid ipt
    → page_eq a b ≡ true
    → find_page ipt.entries a ≡ some i
    → find_page ipt.entries b ≡ some i
find_page-same {ipt} a b {i} (chains, inv) same found =
    let (lt, hit) = find_page-some ipt.entries a i found in
    find_page-eq inv b i (omega (arith, inv.entries_size)) (
      ground (
        arith,
        same,
        page_eq_symm a b,
        page_eq_trans (addr_at ipt.entries i) a b,
        page_eq_trans b a (addr_at ipt.entries i),
        page_eq_symm a (addr_at ipt.entries i),
      ))

-- two pages are not in one slot
pub find_page-apart :
    (es : List IptEntry) (a b : VirtAddr) {i k : ℕ}
    → page_eq a b ≡ false
    → find_page es a ≡ some i
    → find_page es b ≡ some k
    → (i == k) ≡ false
find_page-apart es a b {i} {k} apart found_a found_b = elim (Bool-cases (i == k)) [
  | inr no_eq ↦ no_eq
  | inl same ↦
      let e : k ≡ i = ground arith in
      let hit_a = (find_page-some es a i found_a).1 in
      let hit_b = (find_page-some es b i (found_b ∙ ap some e)).1 in
      absurd (
        ground (
          arith,
          hit_a,
          hit_b,
          apart,
          page_eq_trans a (addr_at es i) b,
          page_eq_symm a (addr_at es i),
          page_eq_symm b (addr_at es i),
        ))
]
