-- ===== src/Map/Search.antt =====
-- The loops of `remove_idx` of util/map.c, and the arrays of a list of pairs.
use vmsim.Prelude.{
  ℕ, zero, suc, ◌+◌, ◌-◌, ◌<◌, ◌≡◌, refl, false, List, [], ◌∷◌, arith, length, set, take, ◌∙◌, ap,
  Bool-cases, inl, inr, ◌⊎◌, ltb,
}
use vmsim.Run.{Run, Fault, ok, fault, bad_access, ◌>>=◌, at, put, put-set, at-get_or}
use vmsim.Map.{shift, remove_idx}

module _ {A : Type 0} where
  -- the list without the item at an index
  unfoldable pub erase_at : ℕ → List A → List A
  erase_at i [] = []
  erase_at zero (x ∷ xs) = xs
  erase_at (suc i) (x ∷ xs) = x ∷ erase_at i xs

  pub Run-cases : (r : Run A) → ((x : A) × (r ≡ ok x)) ⊎ ((e : Fault) × (r ≡ fault e))
  Run-cases (ok x) = inl (x, refl)
  Run-cases (fault e) = inr (e, refl)

  pub length-erase_at :
      (i : ℕ) (xs : List A) → i < length xs → length (erase_at i xs) + 1 ≡ length xs
  unfolding erase_at
  length-erase_at i [] lt = absurd (omega arith)
  length-erase_at zero (x ∷ xs) lt = omega arith
  length-erase_at (suc i) (x ∷ xs) lt = omega (arith, length-erase_at i xs (omega arith))

  put-outside :
      (xs : List A) (i : ℕ) (v : A) → ltb i (length xs) ≡ false → put xs i v ≡ fault bad_access
  unfolding put
  put-outside xs i v e = rw e refl

  at-suc : (a : A) (xs : List A) (i : ℕ) → at (a ∷ xs) (suc i + 1) ≡ at xs (i + 1)
  unfolding at
  at-suc a xs i = let e : suc i + 1 ≡ suc (i + 1) = omega arith in rw e refl

  put-suc :
      (a : A) (xs : List A) (i : ℕ) (v : A)
      → put (a ∷ xs) (suc i) v ≡ (put xs i v >>= λ ys. ok (a ∷ ys))
  unfolding put set
  put-suc a xs i v = elim (Bool-cases (ltb i (length xs))) [
    | inl inside ↦ ground arith
    | inr outside ↦ ground arith
  ]

  -- A shift behind the first item leaves that item alone.
  shift-suc :
      (rounds : ℕ) (a : A) (xs : List A) (i : ℕ)
      → shift rounds (a ∷ xs) (suc i) ≡ (shift rounds xs i >>= λ ys. ok (a ∷ ys))
  unfolding shift
  shift-suc zero a xs i = refl
  shift-suc (suc rounds) a xs i = elim (Run-cases (at xs (i + 1))) [
    | inr (e, bad) ↦ rw (at-suc, bad) refl
    | inl (x, good) ↦ elim (Bool-cases (ltb i (length xs))) [
      | inl inside ↦
          let e : suc i + 1 ≡ suc (i + 1) = omega arith in
          rw (at-suc, good, put-suc, put-set xs i x (ground arith), e)
            (shift-suc rounds a (set xs i x) (i + 1))
      | inr outside ↦ rw (at-suc, good, put-suc, put-outside xs i x outside) refl
    ]
  ]

  shift-step :
      (n : ℕ) (x y : A) (rest : List A) → shift (suc n) (x ∷ y ∷ rest) 0 ≡ shift n (y ∷ y ∷ rest) 1
  unfolding shift at set
  shift-step n x y rest = rw (put-set (x ∷ y ∷ rest) 0 y (omega arith)) refl

  shift-zero :
      (x : A) (rest : List A)
      → (ys : List A) × (shift (length rest) (x ∷ rest) 0 ≡ ok ys) × (take (length rest) ys ≡ rest)
  unfolding shift take
  shift-zero x [] = (x ∷ [], refl, refl)
  shift-zero x (y ∷ rest) =
      let (ys, run, same) = shift-zero y rest in
      (
        y ∷ ys,
        shift-step (length rest) x y rest ∙ shift-suc (length rest) y (y ∷ rest) 0 ∙ rw run refl,
        ap (λ l. y ∷ l) same,
      )

  shift-erase_at :
      (arr : List A) (i : ℕ)
      → i < length arr
      → (ys : List A) × (shift (length arr - 1 - i) arr i ≡ ok ys)
        × (take (length arr - 1) ys ≡ erase_at i arr)
  unfolding erase_at take
  shift-erase_at [] i lt = absurd (omega arith)
  shift-erase_at (x ∷ xs) zero lt =
      let e : suc (length xs) - 1 - 0 ≡ length xs = omega arith in
      let e' : suc (length xs) - 1 ≡ length xs = omega arith in rw (e, e') (shift-zero x xs)
  shift-erase_at (x ∷ xs) (suc i) lt =
      let (ys, run, same) = shift-erase_at xs i (omega arith) in
      let e : suc (length xs) - 1 - suc i ≡ length xs - 1 - i = omega arith in
      let e' : suc (length xs) - 1 ≡ suc (length xs - 1) = omega arith in
      (x ∷ ys, rw e (shift-suc _ x xs i ∙ rw run refl), rw e' (ap (λ l. x ∷ l) same))

  -- what `remove_idx` leaves in the places that `realloc` keeps
  pub remove_idx-erase_at :
      (arr : List A) (i : ℕ)
      → i < length arr
      → (ys : List A) × (remove_idx arr i (length arr) ≡ ok ys)
        × (take (length arr - 1) ys ≡ erase_at i arr)
  unfolding remove_idx
  remove_idx-erase_at [] i lt = absurd (omega arith)
  remove_idx-erase_at (x ∷ xs) i lt =
      let (ys, run, same) = shift-erase_at (x ∷ xs) i lt in
      (ys, rw (at-get_or (x ∷ xs) i x lt) run, same)

module _ {K V : Type 0} where
  abbrev pub firsts : List (K × V) → List K
  firsts [] = []
  firsts ((k, v) ∷ ps) = k ∷ firsts ps

  abbrev pub seconds : List (K × V) → List V
  seconds [] = []
  seconds ((k, v) ∷ ps) = v ∷ seconds ps

  pub length-firsts : (ps : List (K × V)) → length (firsts ps) ≡ length ps
  length-firsts [] = refl
  length-firsts ((k, v) ∷ ps) = ap suc (length-firsts ps)

  pub length-seconds : (ps : List (K × V)) → length (seconds ps) ≡ length ps
  length-seconds [] = refl
  length-seconds ((k, v) ∷ ps) = ap suc (length-seconds ps)
