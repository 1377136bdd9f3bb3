-- ===== src/Ipt/Chain.antt =====
-- The chains of ipt.c: what `next` and `prev` link, and the two loops that walk along a chain.
use vmsim.Prelude.{
  ℕ, zero, suc, ◌≤◌, ◌<◌, ◌≡◌, refl, Bool, true, false, ◌||◌, Option, none, some, List, [], ◌∷◌,
  ◌++◌, arith, ◌==◌, if◌then◌else◌, length, get_or, has, distinct, Bool-cases, inl, inr, sym, ap,
  ◌∙◌,
}
use vmsim.Run.{ok, at-get_or}
use vmsim.Types.{VirtAddr, page_eq}
use vmsim.Ipt.{IptEntry, no_entry, scan_chain, walk_chain}

abbrev pub entry : List IptEntry → ℕ → IptEntry
entry es i = get_or es i no_entry

abbrev pub is_at : Option ℕ → ℕ → Bool
is_at none j = false
is_at (some i) j = i == j

-- The slots `is` are linked both ways: `start` leads to the first, whose `prev` is `prev`, each `next`
-- leads to the slot behind, and the last one's is IPT_INVALID.
abbrev pub IsChain : List IptEntry → Option ℕ → Option ℕ → List ℕ → Type 0
IsChain es prev start [] = start ≡ none
IsChain es prev start (i ∷ is) =
    (start ≡ some i)
    × (i < length es)
    × ((entry es i).prev ≡ prev)
    × IsChain es (some i) (entry es i).next is

-- the first of the slots `is` that holds the page of `addr`
unfoldable pub find_in : List IptEntry → List ℕ → VirtAddr → Option ℕ
find_in es [] addr = none
find_in es (i ∷ is) addr =
    if page_eq (entry es i).page_data.addr addr then some i else find_in es is addr

unfoldable pub last_of : List ℕ → Option ℕ → Option ℕ
last_of [] prev = prev
last_of (i ∷ is) prev = last_of is (some i)

pub scan_chain-find_in :
    (fuel : ℕ) (es : List IptEntry) (prev start : Option ℕ) (is : List ℕ) (addr : VirtAddr)
    → IsChain es prev start is
    → ((i : ℕ) → has i is ≡ true → (entry es i).page_data.valid ≡ true)
    → length is ≤ fuel
    → scan_chain fuel es start addr ≡ ok (find_in es is addr)
unfolding scan_chain find_in has
scan_chain-find_in zero es prev start [] addr c v le = rw c
scan_chain-find_in (suc fuel) es prev start [] addr c v le = rw c
scan_chain-find_in zero es prev start (i ∷ is) addr c v le = absurd (omega arith)
scan_chain-find_in (suc fuel) es prev start (i ∷ is) addr c v le =
    rw (c.0, at-get_or es i no_entry c.1)
      (elim (Bool-cases (page_eq (entry es i).page_data.addr addr)) [
        | inl here ↦ rw here
        | inr miss ↦
            rw (miss, v i (ground arith))
              (scan_chain-find_in fuel es (some i) (entry es i).next is addr c.3
                (λ j m. v j (ground arith)) (omega arith))
      ])

pub walk_chain-last_of :
    (fuel : ℕ) (es : List IptEntry) (prev start q : Option ℕ) (is : List ℕ)
    → IsChain es prev start is
    → length is ≤ fuel
    → walk_chain fuel es start q ≡ ok (last_of is q)
unfolding walk_chain last_of
walk_chain-last_of zero es prev start q [] c le = rw c
walk_chain-last_of (suc fuel) es prev start q [] c le = rw c
walk_chain-last_of zero es prev start q (i ∷ is) c le = absurd (omega arith)
walk_chain-last_of (suc fuel) es prev start q (i ∷ is) c le =
    rw (c.0, at-get_or es i no_entry c.1)
      (walk_chain-last_of fuel es (some i) (entry es i).next (some i) is c.3 (omega arith))

-- A chain depends on the links of its own slots alone.
pub IsChain-frame :
    (es gs : List IptEntry) (prev start : Option ℕ) (is : List ℕ)
    → length gs ≡ length es
    → ((i : ℕ)
        → has i is ≡ true
        → ((entry gs i).next ≡ (entry es i).next) × ((entry gs i).prev ≡ (entry es i).prev))
    → IsChain es prev start is
    → IsChain gs prev start is
unfolding has
IsChain-frame es gs prev start [] len same c = c
IsChain-frame es gs prev start (i ∷ is) len same c =
    let (n, p) = same i (ground arith) in
    (
      c.0,
      omega arith,
      p ∙ c.2,
      rw n (
          IsChain-frame es gs (some i) (entry es i).next is len (λ j m. same j (ground arith)) c.3),
    )

-- where a chain starts once `new` is linked behind it
abbrev pub first_of : List ℕ → ℕ → Option ℕ → Option ℕ
first_of [] new start = some new
first_of (_ ∷ _) new start = start

pub last_of-mem :
    (is : List ℕ) (q : Option ℕ) (k : ℕ)
    → is_at (last_of is q) k ≡ true
    → (is_at q k || has k is) ≡ true
unfolding has last_of
last_of-mem [] q k e = ground arith
last_of-mem (i ∷ is) q k e = ground (arith, last_of-mem is (some i) k e)

-- A slot that is linked behind the last one of a chain extends the chain.
pub IsChain-append :
    (es gs : List IptEntry) (prev start : Option ℕ) (is : List ℕ) (new : ℕ)
    → length gs ≡ length es
    → new < length es
    → ((i : ℕ)
        → has i is ≡ true
        → ((entry gs i).next ≡ (if is_at (last_of is prev) i then some new else (entry es i).next))
          × ((entry gs i).prev ≡ (entry es i).prev))
    → (entry gs new).next ≡ none
    → (entry gs new).prev ≡ last_of is prev
    → distinct is ≡ true
    → IsChain es prev start is
    → IsChain gs prev (first_of is new start) (is ++ new ∷ [])
unfolding has last_of distinct
IsChain-append es gs prev start [] new len lt same n p d c = (refl, omega arith, p, n)
IsChain-append es gs prev start (i ∷ []) new len lt same n p d c =
    let (nx, pv) = same i (ground arith) in
    (c.0, omega arith, pv ∙ c.2, (nx ∙ ground arith, omega arith, p, n))
IsChain-append es gs prev start (i ∷ j ∷ is) new len lt same n p d c =
    let (nx, pv) = same i (ground arith) in
    let apart : is_at (last_of is (some j)) i ≡ false = ground (arith, last_of-mem is (some j) i) in
    let rest =
      IsChain-append es gs (some i) (entry es i).next (j ∷ is) new len lt
        (λ k m. same k (ground arith)) n p (ground arith) c.3 in
    (c.0, omega arith, pv ∙ c.2, (((rw (apart) at nx) ∙ rest.0), rest.1, rest.2, rest.3))

pub next-mem :
    (es : List IptEntry) (prev start : Option ℕ) (is : List ℕ) (i j : ℕ)
    → IsChain es prev start is
    → has i is ≡ true
    → is_at (entry es i).next j ≡ true
    → has j is ≡ true
unfolding has
next-mem es prev start [] i j c m e = cc
next-mem es prev start (k ∷ []) i j c m e =
    let here : i ≡ k = ground arith in
    let e' : is_at (entry es k).next j ≡ true = rw here at e in
    cc (sym (ap (λ o. is_at o j) c.3) ∙ e')
next-mem es prev start (k ∷ l ∷ is) i j c m e = elim (Bool-cases (i == k)) [
  | inl h ↦
      let here : i ≡ k = ground arith in
      let e' : is_at (entry es k).next j ≡ true = rw here at e in
      let e'' : is_at (some l) j ≡ true = rw (c.3.0) at e' in ground arith
  | inr h ↦ ground (arith, next-mem es (some k) (entry es k).next (l ∷ is) i j c.3 (ground arith) e)
]

pub prev-mem :
    (es : List IptEntry) (prev start : Option ℕ) (is : List ℕ) (i j : ℕ)
    → IsChain es prev start is
    → has i is ≡ true
    → is_at (entry es i).prev j ≡ true
    → (is_at prev j || has j is) ≡ true
unfolding has
prev-mem es prev start [] i j c m e = cc
prev-mem es prev start (k ∷ is) i j c m e = elim (Bool-cases (i == k)) [
  | inl h ↦
      let here : i ≡ k = ground arith in
      let e' : is_at (entry es k).prev j ≡ true = rw here at e in
      let e'' : is_at prev j ≡ true = rw (c.2) at e' in rw e''
  | inr h ↦ ground (arith, prev-mem es (some k) (entry es k).next is i j c.3 (ground arith) e)
]
