-- ===== src/Map/Assoc.antt =====
-- What a map promises: a list of pairs, in which a key stands at most once.
use vmsim.Prelude.{
  ◌≡◌, refl, Bool, true, false, ◌||◌, Option, none, some, List, [], ◌∷◌, arith, if◌then◌else◌, sym,
  ◌∙◌, Bool-cases, inl, inr,
}

-- a Boolean equivalence of keys
pub record IsEquality {K : Type 0} (same : K → K → Bool) : Type 0 where
  pub refl_law : (a : K) → same a a ≡ true
  pub symm_law : (a b : K) → same a b ≡ same b a
  pub trans_law : (a b c : K) → same a b ≡ true → same b c ≡ true → same a c ≡ true

module _ {K V : Type 0} (same : K → K → Bool) where
  -- the value of a key
  unfoldable pub find : List (K × V) → K → Option V
  find [] key = none
  find ((k, v) ∷ ps) key = if same k key then some v else find ps key

  -- the value of a key is replaced, or a pair is added at the end
  unfoldable pub insert : List (K × V) → K → V → List (K × V)
  insert [] key val = (key, val) ∷ []
  insert ((k, v) ∷ ps) key val = if same k key then (k, val) ∷ ps else (k, v) ∷ insert ps key val

  unfoldable pub delete : List (K × V) → K → List (K × V)
  delete [] key = []
  delete ((k, v) ∷ ps) key = if same k key then ps else (k, v) ∷ delete ps key

  unfoldable pub holds_key : List (K × V) → K → Bool
  holds_key [] key = false
  holds_key ((k, v) ∷ ps) key = same k key || holds_key ps key

  -- no two pairs have the same key
  abbrev pub KeysDiffer : List (K × V) → Type 0
  KeysDiffer [] = Unit
  KeysDiffer ((k, v) ∷ ps) = (holds_key ps k ≡ false) × KeysDiffer ps

same_congr :
    {K : Type 0} {same : K → K → Bool} (eq : IsEquality same) (a b c : K)
    → same a b ≡ true
    → same a c ≡ same b c
same_congr eq a b c e = ground (arith, eq.trans_law a b c, eq.trans_law b a c, eq.symm_law a b)

module _ {K V : Type 0} {same : K → K → Bool} (eq : IsEquality same) where
  pub find-insert :
      (ps : List (K × V)) (key : K) (val : V) (k : K)
      → find same (insert same ps key val) k ≡ (if same key k then some val else find same ps k)
  unfolding find insert
  find-insert [] key val k = refl
  find-insert ((a, v) ∷ ps) key val k = elim (Bool-cases (same a key)) [
    | inl hit ↦ rw (hit, same_congr eq a key k hit) (ground arith)
    | inr miss ↦
        rw (miss, find-insert ps key val k)
          (ground (arith, eq.symm_law a key, eq.trans_law a k key, eq.symm_law key k))
  ]

  holds_key-insert :
      (ps : List (K × V)) (key : K) (val : V) (k : K)
      → holds_key same (insert same ps key val) k ≡ (same key k || holds_key same ps k)
  unfolding holds_key insert
  holds_key-insert [] key val k = ground arith
  holds_key-insert ((a, v) ∷ ps) key val k = elim (Bool-cases (same a key)) [
    | inl hit ↦ rw (hit, same_congr eq a key k hit) (ground arith)
    | inr miss ↦ rw (miss, holds_key-insert ps key val k) (ground arith)
  ]

  pub insert-KeysDiffer :
      (ps : List (K × V)) (key : K) (val : V)
      → KeysDiffer same ps
      → KeysDiffer same (insert same ps key val)
  unfolding insert holds_key
  insert-KeysDiffer [] key val d = (refl, tt)
  insert-KeysDiffer ((a, v) ∷ ps) key val d = elim (Bool-cases (same a key)) [
    | inl hit ↦ rw hit d
    | inr miss ↦ rw miss (
      ground (arith, holds_key-insert ps key val a, eq.symm_law a key, d.0),
      insert-KeysDiffer ps key val d.1,
    )
  ]

  holds_key-congr :
      (ps : List (K × V)) (a b : K) → same a b ≡ true → holds_key same ps a ≡ holds_key same ps b
  unfolding holds_key
  holds_key-congr [] a b e = refl
  holds_key-congr ((k, v) ∷ ps) a b e =
      rw (eq.symm_law k a, same_congr eq a b k e, eq.symm_law b k, holds_key-congr ps a b e) refl

  -- Keys that are the same have the same value.
  pub find_congr : (ps : List (K × V)) (a b : K) → same a b ≡ true → find same ps a ≡ find same ps b
  unfolding find
  find_congr [] a b e = refl
  find_congr ((k, v) ∷ ps) a b e =
      rw (eq.symm_law k a, same_congr eq a b k e, eq.symm_law b k, find_congr ps a b e) refl

  find-absent : (ps : List (K × V)) (k : K) → holds_key same ps k ≡ false → find same ps k ≡ none
  unfolding find holds_key
  find-absent [] k e = refl
  find-absent ((a, v) ∷ ps) k e = ground (arith, find-absent ps k)

  pub find-delete :
      (ps : List (K × V)) (key k : K)
      → KeysDiffer same ps
      → find same (delete same ps key) k ≡ (if same key k then none else find same ps k)
  unfolding find delete
  find-delete [] key k d = ground arith
  find-delete ((a, v) ∷ ps) key k d = elim (Bool-cases (same a key)) [
    | inr miss ↦
        rw (miss, find-delete ps key k d.1)
          (ground (arith, eq.symm_law a key, eq.trans_law a k key, eq.symm_law key k))
    | inl hit ↦ elim (Bool-cases (same key k)) [
      | inl this ↦
          rw (hit, this)
            (find-absent ps k (sym (holds_key-congr ps a k (eq.trans_law a key k hit this)) ∙ d.0))
      | inr other ↦ rw (hit, other, same_congr eq a key k hit, other) refl
    ]
  ]

  holds_key-delete :
      (ps : List (K × V)) (key k : K)
      → holds_key same ps k ≡ false
      → holds_key same (delete same ps key) k ≡ false
  unfolding holds_key delete
  holds_key-delete [] key k e = refl
  holds_key-delete ((a, v) ∷ ps) key k e = ground (arith, holds_key-delete ps key k)

  pub delete-KeysDiffer :
      (ps : List (K × V)) (key : K) → KeysDiffer same ps → KeysDiffer same (delete same ps key)
  unfolding delete
  delete-KeysDiffer [] key d = tt
  delete-KeysDiffer ((a, v) ∷ ps) key d = elim (Bool-cases (same a key)) [
    | inl hit ↦ rw hit d.1
    | inr miss ↦ rw miss (holds_key-delete ps key a d.0, delete-KeysDiffer ps key d.1)
  ]
