-- ===== src/Map/Locate.antt =====
-- util/map.c: `find_key` finds the pair of a key.
use vmsim.Prelude.{
  ℕ, zero, suc, ◌+◌, ◌<◌, ◌≡◌, refl, Bool, true, false, not, Option, none, some, List, [], ◌∷◌,
  ◌++◌, arith, length, set, ◌∙◌, ap, Bool-cases, inl, inr, ◌⊎◌,
}
use vmsim.Run.{ok, ◌>>=◌, at}
use vmsim.Map.{find_loop}
use vmsim.Map.Assoc.{find, insert, delete}
use vmsim.Map.Search.{erase_at, Run-cases, firsts, seconds}

abbrev later : Option ℕ → Option ℕ
later none = none
later (some i) = some (suc i)

module _ {K : Type 0} where
  find_loop-suc :
      (rounds : ℕ) (comp : K → K → Bool) (k : K) (keys : List K) (i : ℕ) (key : K)
      → find_loop rounds comp (k ∷ keys) (suc i) key
        ≡ (find_loop rounds comp keys i key >>= λ o. ok (later o))
  unfolding find_loop at
  find_loop-suc zero comp k keys i key = refl
  find_loop-suc (suc rounds) comp k keys i key = elim (Run-cases (at keys i)) [
    | inr (e, bad) ↦ rw bad refl
    | inl (x, good) ↦ elim (Bool-cases (comp x key)) [
      | inr equal ↦ rw (good, equal) refl
      | inl differ ↦
          let e : suc i + 1 ≡ suc (i + 1) = omega arith in
          rw (good, differ, e) (find_loop-suc rounds comp k keys (i + 1) key)
    ]
  ]

  find_loop-hit :
      (rounds : ℕ) (comp : K → K → Bool) (k : K) (keys : List K) (key : K)
      → comp k key ≡ false
      → find_loop (suc rounds) comp (k ∷ keys) 0 key ≡ ok (some 0)
  unfolding find_loop at
  find_loop-hit rounds comp k keys key e = rw e refl

  find_loop-miss :
      (rounds : ℕ) (comp : K → K → Bool) (k : K) (keys : List K) (key : K)
      → comp k key ≡ true
      → find_loop (suc rounds) comp (k ∷ keys) 0 key
        ≡ (find_loop rounds comp keys 0 key >>= λ o. ok (later o))
  unfolding find_loop at
  find_loop-miss rounds comp k keys key e = rw e (find_loop-suc rounds comp k keys 0 key)

module _ {K V : Type 0} (comp same : K → K → Bool) (ps : List (K × V)) (key : K) where
  -- no pair has the key
  pub record Miss : Type 0 where
    pub run : find_loop (length ps) comp (firsts ps) 0 key ≡ ok none
    pub absent : find same ps key ≡ none
    pub insert_firsts : (v : V) → firsts (insert same ps key v) ≡ firsts ps ++ key ∷ []
    pub insert_seconds : (v : V) → seconds (insert same ps key v) ≡ seconds ps ++ v ∷ []

  -- the pair at `i` has the key, and the value `u`
  pub record Hit (i : ℕ) (u : V) : Type 0 where
    pub run : find_loop (length ps) comp (firsts ps) 0 key ≡ ok (some i)
    pub inside : i < length ps
    pub present : find same ps key ≡ some u
    pub value : at (seconds ps) i ≡ ok u
    pub insert_firsts : (v : V) → firsts (insert same ps key v) ≡ firsts ps
    pub insert_seconds : (v : V) → seconds (insert same ps key v) ≡ set (seconds ps) i v
    pub delete_firsts : firsts (delete same ps key) ≡ erase_at i (firsts ps)
    pub delete_seconds : seconds (delete same ps key) ≡ erase_at i (seconds ps)

module _ {K V : Type 0} {comp same : K → K → Bool}
    (agree : (a b : K) → comp a b ≡ not (same a b)) where
  Hit-first :
      (k : K) (v : V) (ps : List (K × V)) (key : K)
      → same k key ≡ true
      → Hit comp same ((k, v) ∷ ps) key 0 v
  unfolding find insert delete set erase_at at
  Hit-first k v ps key e = record {
    run = find_loop-hit (length ps) comp k (firsts ps) key (agree k key ∙ ap not e);
    inside = omega arith;
    present = rw e refl;
    value = refl;
    insert_firsts = λ w. rw e refl;
    insert_seconds = λ w. rw e refl;
    delete_firsts = rw e refl;
    delete_seconds = rw e refl;
  }

  Hit-later :
      (k : K) (v : V) (ps : List (K × V)) (key : K) (i : ℕ) (u : V)
      → same k key ≡ false
      → Hit comp same ps key i u
      → Hit comp same ((k, v) ∷ ps) key (suc i) u
  unfolding find insert delete set erase_at at
  Hit-later k v ps key i u e h = record {
    run =
        find_loop-miss (length ps) comp k (firsts ps) key (agree k key ∙ ap not e) ∙ rw h.run refl;
    inside = omega (arith, h.inside);
    present = rw e h.present;
    value = h.value;
    insert_firsts = λ w. rw e (ap (λ l. k ∷ l) (h.insert_firsts w));
    insert_seconds = λ w. rw e (ap (λ l. v ∷ l) (h.insert_seconds w));
    delete_firsts = rw e (ap (λ l. k ∷ l) h.delete_firsts);
    delete_seconds = rw e (ap (λ l. v ∷ l) h.delete_seconds);
  }

  Miss-later :
      (k : K) (v : V) (ps : List (K × V)) (key : K)
      → same k key ≡ false
      → Miss comp same ps key
      → Miss comp same ((k, v) ∷ ps) key
  unfolding find insert
  Miss-later k v ps key e m = record {
    run =
        find_loop-miss (length ps) comp k (firsts ps) key (agree k key ∙ ap not e) ∙ rw m.run refl;
    absent = rw e m.absent;
    insert_firsts = λ w. rw e (ap (λ l. k ∷ l) (m.insert_firsts w));
    insert_seconds = λ w. rw e (ap (λ l. v ∷ l) (m.insert_seconds w));
  }

  -- The loop of `find_key` decides which of the two it is.
  pub find_loop-cases :
      (ps : List (K × V)) (key : K)
      → Miss comp same ps key ⊎ ((i : ℕ) × (u : V) × Hit comp same ps key i u)
  unfolding find_loop find insert
  find_loop-cases [] key =
      inl (record {
        run = refl;
        absent = refl;
        insert_firsts = λ v. refl;
        insert_seconds = λ v. refl;
      })
  find_loop-cases ((k, v) ∷ ps) key = elim (Bool-cases (same k key)) [
    | inl e ↦ inr (0, v, Hit-first k v ps key e)
    | inr e ↦ elim (find_loop-cases ps key) [
      | inl m ↦ inl (Miss-later k v ps key e m)
      | inr (i, u, h) ↦ inr (suc i, u, Hit-later k v ps key i u e h)
    ]
  ]
