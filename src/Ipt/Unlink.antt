-- ===== src/Ipt/Unlink.antt =====
-- vmsim/ipt.c: a chain from which a slot is taken out.
use vmsim.Prelude.{
  ℕ, ◌≡◌, Bool, true, false, Option, none, some, List, [], ◌∷◌, arith, ◌==◌, if◌then◌else◌, length,
  has, distinct, erase, ==_refl, Bool-cases, inl, inr, sym, ◌∙◌,
}
use vmsim.Ipt.{IptEntry}
use vmsim.Ipt.Chain.{entry, is_at, IsChain, IsChain-frame, next-mem, prev-mem}

-- what unlinking the slot `i` does to the links of another slot `j`
abbrev pub Unlinked : List IptEntry → List IptEntry → ℕ → ℕ → Type 0
Unlinked es gs i j =
    ((entry gs j).next
      ≡ (if is_at (entry es i).prev j then (entry es i).next else (entry es j).next))
    × ((entry gs j).prev
        ≡ (if is_at (entry es i).next j then (entry es i).prev else (entry es j).prev))

erase_head :
    (es gs : List IptEntry) (k : ℕ) (prev : Option ℕ) (is : List ℕ)
    → length gs ≡ length es
    → ((j : ℕ) → has j (k ∷ is) ≡ true → (j == k) ≡ false → Unlinked es gs k j)
    → ((j : ℕ) → is_at prev j ≡ true → has j (k ∷ is) ≡ false)
    → distinct (k ∷ is) ≡ true
    → (entry es k).prev ≡ prev
    → IsChain es (some k) (entry es k).next is
    → IsChain gs prev (entry es k).next is
unfolding has distinct
erase_head es gs k prev [] len step out d e c = c
erase_head es gs k prev (m ∷ ms) len step out d e c =
    let (nx, pv) = step m (ground arith) (ground arith) in
    let nx' : (entry gs m).next ≡ (entry es m).next = ground (arith, nx, e, out m) in
    (
      c.0,
      omega arith,
      ground (arith, c.0, pv),
      rw nx' (
          IsChain-frame es gs (some m) (entry es m).next ms len
            (λ j mem. ground (arith, step j, e, out j, c.0)) c.3),
    )

linked_both :
    (es : List IptEntry) (k i : ℕ) (start : Option ℕ) (is : List ℕ)
    → IsChain es (some k) start is
    → has i is ≡ true
    → distinct (k ∷ is) ≡ true
    → is_at (entry es i).prev k ≡ is_at start i
unfolding has distinct
linked_both es k i start [] c m d = cc
linked_both es k i start (l ∷ is) c m d = elim (Bool-cases (i == l)) [
  | inl h ↦ let here : i ≡ l = ground arith in rw (c.0, here, c.2) (==_refl k ∙ sym (==_refl l))
  | inr h ↦ ground (arith, c.0, prev-mem es (some l) (entry es l).next is i k c.3)
]

-- Unlinking a slot leaves a chain of the other ones.
pub IsChain-erase :
    (es gs : List IptEntry) (i : ℕ) (prev start : Option ℕ) (is : List ℕ)
    → length gs ≡ length es
    → ((j : ℕ) → has j is ≡ true → (j == i) ≡ false → Unlinked es gs i j)
    → ((j : ℕ) → is_at prev j ≡ true → has j is ≡ false)
    → distinct is ≡ true
    → has i is ≡ true
    → IsChain es prev start is
    → IsChain gs prev (if is_at start i then (entry es i).next else start) (erase i is)
unfolding has distinct erase
IsChain-erase es gs i prev start [] len step out d m c = cc
IsChain-erase es gs i prev start (k ∷ is) len step out d m c = elim (Bool-cases (i == k)) [
  | inl h ↦
      let here : i ≡ k = ground arith in
      let start' : (if is_at start i then (entry es i).next else start) ≡ (entry es k).next =
        ground (arith, c.0) in
      rw (h, start') (erase_head es gs k prev is len (rw here at step) out d c.2 c.3)
  | inr h ↦
      let nk : is_at (entry es i).next k ≡ false =
        ground (arith, next-mem es (some k) (entry es k).next is i k c.3) in
      let (nx, pv) = step k (ground arith) (ground arith) in
      let both = linked_both es k i (entry es k).next is c.3 (ground arith) d in
      let rest =
        IsChain-erase es gs i (some k) (entry es k).next is len (λ j e. step j (ground arith))
          (λ j e. ground arith) (ground arith) (ground arith) c.3 in
      rw h (ground (arith, c.0), omega arith, (rw nk at pv) ∙ c.2, rw (nx, both) rest)
]

abbrev pub is_none : Option ℕ → Bool
is_none none = true
is_none (some _) = false

prev_is_some :
    (es : List IptEntry) (k : ℕ) (start : Option ℕ) (is : List ℕ) (i : ℕ)
    → IsChain es (some k) start is
    → has i is ≡ true
    → is_none (entry es i).prev ≡ false
unfolding has
prev_is_some es k start [] i c m = cc
prev_is_some es k start (l ∷ is) i c m = elim (Bool-cases (i == l)) [
  | inl h ↦ let here : i ≡ l = ground arith in rw (here, c.2)
  | inr h ↦ prev_is_some es l (entry es l).next is i c.3 (ground arith)
]

-- The head of a chain is the slot with no `prev`.
pub head-prev :
    (es : List IptEntry) (start : Option ℕ) (is : List ℕ) (i : ℕ)
    → IsChain es none start is
    → has i is ≡ true
    → is_at start i ≡ is_none (entry es i).prev
unfolding has
head-prev es start [] i c m = cc
head-prev es start (l ∷ is) i c m = elim (Bool-cases (i == l)) [
  | inl h ↦ let here : i ≡ l = ground arith in rw (c.0, here, c.2) (==_refl l)
  | inr h ↦ rw (c.0, prev_is_some es l (entry es l).next is i c.3 (ground arith)) (ground arith)
]
