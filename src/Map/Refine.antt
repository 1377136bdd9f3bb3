-- ===== src/Map/Refine.antt =====
-- util/map.c implements the list of pairs of Map/Assoc.antt.
use vmsim.Prelude.{
  ℕ, ◌+◌, ◌-◌, ◌<◌, ◌≡◌, refl, Bool, not, Option, none, some, List, [], ◌∷◌, ◌++◌, arith,
  if◌then◌else◌, length, set, take, sym, ◌∙◌, ap, ◌∙◌, inl, inr, ◌⊎◌, length-append,
}
use vmsim.Run.{ok, ◌>>=◌, at, put-set}
use vmsim.Types.{Errcode, success, not_found}
use vmsim.Map.{Map, map_set, map_get, map_remove, find_key, remove_idx}
use vmsim.Map.Assoc.{
  IsEquality, find, insert, delete, KeysDiffer, insert-KeysDiffer, delete-KeysDiffer, find-insert,
  find-delete,
}
use vmsim.Map.Search.{
  firsts, seconds, length-firsts, length-seconds, erase_at, remove_idx-erase_at, length-erase_at,
}
use vmsim.Map.Locate.{find_loop-cases, Hit, Miss}

module _ {K V : Type 0} (same : K → K → Bool) where
  -- the arrays hold the list of pairs, and the comparison is false exactly for equal keys
  pub record IsMap (m : Map K V) (ps : List (K × V)) : Type 0 where
    pub keys : m.keys ≡ firsts ps
    pub values : m.values ≡ seconds ps
    pub size : m.size ≡ length ps
    pub agree : (a b : K) → m.comp a b ≡ not (same a b)
    pub differ : KeysDiffer same ps

-- what `map_get` gives for the value that a key has, if any
abbrev pub got : {V : Type 0} → Option V → Option V → Errcode × Option V
got val none = (not_found, val)
got none (some u) = (success, none)
got (some _) (some u) = (success, some u)

module _ {K V : Type 0} {same : K → K → Bool} (eq : IsEquality same) {m : Map K V}
    {ps : List (K × V)} (is : IsMap same m ps) where
  find_key-cases :
      (key : K)
      → ((find_key m key ≡ ok none) × Miss m.comp same ps key)
        ⊎ ((i : ℕ) × (u : V) × (find_key m key ≡ ok (some i)) × Hit m.comp same ps key i u)
  unfolding find_key
  find_key-cases key = elim (find_loop-cases is.agree ps key) [
    | inl miss ↦ inl (rw (is.size, is.keys) miss.run, miss)
    | inr (i, u, hit) ↦ inr (i, u, rw (is.size, is.keys) hit.run, hit)
  ]

  -- On a map that holds a list of pairs with a Boolean equivalence as comparison, map_get gives
  -- not_found for a key without a pair, and for any other key success, with its value if the pointer
  -- for the value is not null.
  pub map_get_lem : (key : K) (val : Option V) → map_get m key val ≡ ok (got val (find same ps key))
  unfolding map_get
  map_get_lem key val = elim (find_key-cases key) [
    | inl (run, miss) ↦ rw (run, miss.absent) refl
    | inr (i, u, run, hit) ↦ rw (run, hit.present) (shown val i u hit)
  ]
    where
      shown :
          (val : Option V) (i : ℕ) (u : V)
          → Hit m.comp same ps key i u
          → elim val [
            | none ↦ ok (success, none)
            | some _ ↦ (do v ← at m.values i; ok (success, some v))
          ]
            ≡ ok (got val (some u))
      shown none i u hit = refl
      shown (some _) i u hit = rw (is.values, hit.value) refl

  -- On a map that holds a list of pairs with a Boolean equivalence as comparison, map_set succeeds
  -- and stores the list with the value of the key replaced or the pair added, in which that key has
  -- the new value and every other key the value it had.
  pub map_set_lem :
      (key : K) (val : V)
      → (m' : Map K V) × (map_set m key val ≡ ok (success, m'))
        × IsMap same m' (insert same ps key val)
        × ((k : K)
            → find same (insert same ps key val) k
              ≡ (if same key k then some val else find same ps k))
  unfolding map_set
  map_set_lem key val = elim (find_key-cases key) [
    | inl (run, miss) ↦ (
      record m { keys = m.keys ++ key ∷ []; values = m.values ++ val ∷ []; size = m.size + 1 },
      rw run refl,
      record {
        keys = rw is.keys (sym (miss.insert_firsts val));
        values = rw is.values (sym (miss.insert_seconds val));
        size = omega (
          arith,
          is.size,
          length-firsts ps,
          length-firsts (insert same ps key val),
          ap length (miss.insert_firsts val),
          length-append (firsts ps) (key ∷ []),
        );
        agree = is.agree;
        differ = insert-KeysDiffer eq ps key val is.differ;
      },
      find-insert eq ps key val,
    )
    | inr (i, u, run, hit) ↦ (
      record m { values = set m.values i val },
      rw
          (
            run,
            put-set m.values i val
                (omega (arith, hit.inside, ap length is.values, length-seconds ps)),
          )
          refl,
      record {
        keys = is.keys ∙ sym (hit.insert_firsts val);
        values = rw is.values (sym (hit.insert_seconds val));
        size =
            is.size
            ∙ sym (length-firsts ps)
            ∙ ap length (sym (hit.insert_firsts val))
            ∙ length-firsts (insert same ps key val);
        agree = is.agree;
        differ = insert-KeysDiffer eq ps key val is.differ;
      },
      find-insert eq ps key val,
    )
  ]

  cut :
      {A : Type 0} (arr : List A) (i : ℕ)
      → length arr ≡ m.size
      → i < m.size
      → (ys : List A) × (remove_idx arr i m.size ≡ ok ys) × (take (m.size - 1) ys ≡ erase_at i arr)
  cut arr i len lt = rw (sym len) (remove_idx-erase_at arr i (omega arith))

  -- On a map that holds a list of pairs with a Boolean equivalence as comparison, map_remove answers
  -- not_found and changes nothing for an absent key, and otherwise succeeds and stores the list
  -- without the pair of the key, in which every other key has the value it had.
  pub map_remove_lem :
      (key : K)
      → ((find same ps key ≡ none) × (map_remove m key ≡ ok (not_found, m)))
        ⊎ ((u : V) × (m' : Map K V) × (find same ps key ≡ some u)
            × (map_remove m key ≡ ok (success, m'))
            × IsMap same m' (delete same ps key)
            × ((k : K)
                → find same (delete same ps key) k ≡ (if same key k then none else find same ps k)))
  unfolding map_remove
  map_remove_lem key = elim (find_key-cases key) [
    | inl (run, miss) ↦ inl (miss.absent, rw run refl)
    | inr (i, u, run, hit) ↦
        let lt : i < m.size = omega (arith, is.size, hit.inside) in
        let len : length (firsts ps) ≡ m.size = length-firsts ps ∙ sym is.size in
        let (ks, run_k, same_k) = cut m.keys i (rw is.keys len) lt in
        let (vs, run_v, same_v) =
          cut m.values i (rw is.values (length-seconds ps ∙ sym is.size)) lt in
        inr (
          u,
          record m {
            keys = take (m.size - 1) ks;
            values = take (m.size - 1) vs;
            size = m.size - 1;
          },
          hit.present,
          rw (run, run_k, run_v) refl,
          record {
            keys = same_k ∙ rw is.keys (sym hit.delete_firsts);
            values = same_v ∙ rw is.values (sym hit.delete_seconds);
            size = omega (
              arith,
              len,
              lt,
              length-firsts (delete same ps key),
              ap length hit.delete_firsts,
              length-erase_at i (firsts ps) (rw len lt),
            );
            agree = is.agree;
            differ = delete-KeysDiffer eq ps key is.differ;
          },
          λ k. find-delete eq ps key k is.differ,
        )
  ]
