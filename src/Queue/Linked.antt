-- ===== src/Queue/Linked.antt =====
-- Chains of distinct linked nodes on the heap: what the links of util/queue.c stand for.
use vmsim.Prelude.{
  ◌≡◌, refl, ◌≢◌, Bool, true, false, ◌||◌, none, some, List, [], ◌∷◌, ◌++◌, arith, ◌==◌, sym, ap,
  ◌∙◌, if◌then◌else◌, length,
}
use vmsim.Node.{Ptr, null, Node, node, Heap}
use vmsim.Queue.{Queue}

-- the address and the item of each node, in order
abbrev pub Cells : Type 0 → Type 0
Cells A = List (Ptr × A)

module _ {A : Type 0} where
  abbrev pub occurs : Ptr → Cells A → Bool
  occurs a [] = false
  occurs a ((p, _) ∷ xs) = (a == p) || occurs a xs

  abbrev pub first : Cells A → Ptr
  first [] = null
  first ((p, _) ∷ xs) = p

  abbrev pub last : Cells A → Ptr
  last [] = null
  last ((p, _) ∷ []) = p
  last (_ ∷ x ∷ xs) = last (x ∷ xs)

  abbrev pub items : Cells A → List A
  items [] = []
  items ((_, v) ∷ xs) = v ∷ items xs

  -- The cells are distinct nodes of the heap, each leading to the next, the last to `NULL`.
  abbrev pub Linked : Heap A → Cells A → Type 0
  Linked h [] = Unit {0}
  Linked h ((p, v) ∷ xs) =
      (p ≢ null) × (h p ≡ some (node v (first xs))) × (occurs p xs ≡ false) × Linked h xs

  pub record IsQueue (h : Heap A) (q : Queue) (xs : Cells A) : Type 0 where
    pub head : q.head ≡ first xs
    pub tail : q.tail ≡ last xs
    pub size : q.size ≡ length xs
    pub linked : Linked h xs

  pub Linked-frame :
      (h g : Heap A) (xs : Cells A)
      → ((a : Ptr) → occurs a xs ≡ true → g a ≡ h a)
      → Linked h xs
      → Linked g xs
  Linked-frame h g [] same l = tt
  Linked-frame h g ((p, v) ∷ xs) same l =
      (l.0, ground (arith, same p), l.2, Linked-frame h g xs (λ a o. ground (arith, same a)) l.3)

  pub occurs-none :
      (h : Heap A) (a : Ptr) (xs : Cells A) → h a ≡ none → Linked h xs → occurs a xs ≡ false
  occurs-none h a [] e l = refl
  occurs-none h a ((p, v) ∷ xs) e l = ground (arith, occurs-none h a xs e l.3)

  pub last-occurs : (x : Ptr × A) (xs : Cells A) → occurs (last (x ∷ xs)) (x ∷ xs) ≡ true
  last-occurs x [] = ground arith
  last-occurs x (y ∷ xs) = ground (arith, last-occurs y xs)

  pub last-ne :
      (a : Ptr) (x : Ptr × A) (xs : Cells A) → occurs a (x ∷ xs) ≡ false → a ≢ last (x ∷ xs)
  last-ne a x xs out e = cc (sym (last-occurs x xs) ∙ ap (λ p. occurs p (x ∷ xs)) (sym e) ∙ out)

  pub occurs-append_one :
      (a b : Ptr) (v : A) (xs : Cells A) → occurs a (xs ++ (b, v) ∷ []) ≡ (occurs a xs || a == b)
  occurs-append_one a b v [] = ground arith
  occurs-append_one a b v (x ∷ xs) = ground (arith, occurs-append_one a b v xs)

  pub Linked-append :
      (h g : Heap A) (fresh : Ptr) (v : A) (xs : Cells A)
      → fresh ≢ null
      → g fresh ≡ some (node v null)
      → occurs fresh xs ≡ false
      → ((a : Ptr) → occurs a xs ≡ true → a ≢ last xs → g a ≡ h a)
      → ((n : Node A) → h (last xs) ≡ some n → g (last xs) ≡ some (record n { next = fresh }))
      → Linked h xs
      → Linked g (xs ++ (fresh, v) ∷ [])
  Linked-append h g fresh v [] ne new out same end l = (ne, new, refl, tt)
  Linked-append h g fresh v ((p, u) ∷ []) ne new out same end l =
      (l.0, end (node u null) l.1, ground arith, (ne, new, refl, tt))
  Linked-append h g fresh v ((p, u) ∷ y ∷ xs) ne new out same end l =
      let l' : Linked h (y ∷ xs) = l.3 in
      let ih =
        Linked-append h g fresh v (y ∷ xs) ne new (ground arith) (λ a o d. same a (ground arith) d)
          end l' in
      (
        l.0,
        same p (ground arith) (last-ne p y xs l.2) ∙ l.1,
        ground (arith, occurs-append_one p fresh v (y ∷ xs)),
        ih,
      )

  pub tail_after_pop :
      (p : Ptr) (v : A) (xs : Cells A)
      → occurs p xs ≡ false
      → (if p == last ((p, v) ∷ xs) then null else last ((p, v) ∷ xs)) ≡ last xs
  tail_after_pop p v [] out = ground arith
  tail_after_pop p v (y ∷ xs) out = ground (arith, last-ne p y xs out)

  pub items-append : (xs ys : Cells A) → items (xs ++ ys) ≡ items xs ++ items ys
  items-append [] ys = refl
  items-append ((p, v) ∷ xs) ys = ap (λ l. v ∷ l) (items-append xs ys)

  pub last-append : (xs : Cells A) (x : Ptr × A) → last (xs ++ x ∷ []) ≡ x.0
  last-append [] x = refl
  last-append (y ∷ []) x = refl
  last-append (y ∷ z ∷ xs) x = last-append (z ∷ xs) x

  pub first-append :
      (xs : Cells A) (x : Ptr × A)
      → first (xs ++ x ∷ []) ≡ (if length xs == 0 then x.0 else first xs)
  first-append [] x = refl
  first-append (y ∷ xs) x = ground arith

  pub last-node :
      (h : Heap A) (y : Ptr × A) (xs : Cells A)
      → Linked h (y ∷ xs)
      → (last (y ∷ xs) ≢ null) × (n : Node A) × (h (last (y ∷ xs)) ≡ some n)
  last-node h y [] l = (l.0, node y.1 null, l.1)
  last-node h y (z ∷ xs) l = last-node h z xs l.3
