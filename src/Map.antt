-- ===== src/Map.antt =====
-- util/map.h, util/map.c: a map as two arrays, of keys and of values.
pub mod Assoc
pub mod Search
pub mod Locate
pub mod Refine
use vmsim.Prelude.{
  ℕ, zero, suc, ◌+◌, ◌-◌, Bool, not, Option, none, some, List, [], ◌∷◌, ◌++◌, if◌then◌else◌, take,
}
use vmsim.Run.{Run, ok, ◌>>=◌, at, put}
use vmsim.Types.{Errcode, success, not_found}

-- `map_t`. A key and a value are of types `K` and `V` in place of `key_size` and `val_size` bytes. `comp`
-- is true for keys that differ, which is how `find_key` reads it.
pub record Map (K V : Type 0) : Type 0 where
  pub keys : List K
  pub values : List V
  pub comp : K → K → Bool
  pub size : ℕ

module _ {A : Type 0} where
  -- the `for` of `remove_idx`, from `i` on
  unfoldable pub shift : ℕ → List A → ℕ → Run (List A)
  shift zero arr i = ok arr
  shift (suc rounds) arr i = do x ← at arr (i + 1); arr' ← put arr i x; shift rounds arr' (i + 1)

  unfoldable pub remove_idx : List A → ℕ → ℕ → Run (List A)
  remove_idx arr idx arrsize = do _ ← at arr idx; shift (arrsize - 1 - idx) arr idx

module _ {K : Type 0} where
  -- the `for` of `find_key`, from `i` on
  unfoldable pub find_loop : ℕ → (K → K → Bool) → List K → ℕ → K → Run (Option ℕ)
  find_loop zero comp keys i key = ok none
  find_loop (suc rounds) comp keys i key = do
    k ← at keys i
    let rest = find_loop rounds comp keys (i + 1) key
    if not (comp k key) then ok (some i) else rest

module _ {K V : Type 0} where
  unfoldable pub find_key : Map K V → K → Run (Option ℕ)
  find_key map key = find_loop map.size map.comp map.keys 0 key

  unfoldable pub map_init : (K → K → Bool) → Errcode × Map K V
  map_init comp = (success, record { keys = []; values = []; comp = comp; size = 0 })

  -- `realloc` and `malloc` are taken to succeed, as the code does not ask: they give room for one more
  -- key and one more value at the end.
  unfoldable pub map_set : Map K V → K → V → Run (Errcode × Map K V)
  map_set map key val = do
    idx ← find_key map key
    elim idx [
      | none ↦ ok (
        success,
        record map {
          keys = map.keys ++ key ∷ [];
          values = map.values ++ val ∷ [];
          size = map.size + 1;
        },
      )
      | some i ↦ do values ← put map.values i val; ok (success, record map { values = values })
    ]

  -- `val` is what the pointer shows before the call, `none` for `NULL`, and the result has what it
  -- shows after it
  unfoldable pub map_get : Map K V → K → Option V → Run (Errcode × Option V)
  map_get map key val = do
    idx ← find_key map key
    elim idx [
      | none ↦ ok (not_found, val)
      | some i ↦ elim val [
        | none ↦ ok (success, none)
        | some _ ↦ do v ← at map.values i; ok (success, some v)
      ]
    ]

  unfoldable pub map_remove : Map K V → K → Run (Errcode × Map K V)
  map_remove map key = do
    idx ← find_key map key
    elim idx [
      | none ↦ ok (not_found, map)
      | some i ↦ do
        keys ← remove_idx map.keys i map.size
        values ← remove_idx map.values i map.size
        ok (
          success,
          record map {
            keys = take (map.size - 1) keys;
            values = take (map.size - 1) values;
            size = map.size - 1;
          },
        )
    ]

  -- the size stays
  unfoldable pub map_destroy : Map K V → Map K V
  map_destroy map = record map { keys = []; values = [] }
