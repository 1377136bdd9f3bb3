-- ===== src/Run.antt =====
-- The outcome of running C code: a value, or one of the ways in which it stops.
use vmsim.Prelude.{
  ℕ, zero, suc, ◌<◌, ◌≡◌, refl, Bool, true, false, List, [], ◌∷◌, arith, if◌then◌else◌, length,
  get_or, set, ltb,
}

-- `assertion` is a failing `assert`; `bad_access` is an index outside an array or a dangling pointer,
-- which C leaves undefined, as it does
-- `overflow`, a result that is no `int`; `out_of_fuel` is a loop that has used up the rounds that it was given.
pub data Fault : Type 0 where
  assertion bad_access overflow division_by_zero out_of_fuel : Fault

pub data Run {ℓ} (A : Type ℓ) : Type ℓ where
  ok : A → Run A
  fault : Fault → Run A

infixl 5 ◌>>=◌ ◌>>◌
abbrev pub ◌>>=◌ {ℓ κ} : {A : Type ℓ} {B : Type κ} → Run A → (A → Run B) → Run B
ok a >>= f = f a
fault e >>= f = fault e

abbrev pub ◌>>◌ {ℓ} : {B : Type ℓ} → Run (Unit {0}) → Run B → Run B
m >> k = m >>= λ _. k

pub >>=-assoc :
    {A B C : Type 0} (m : Run A) (f : A → Run B) (g : B → Run C)
    → ((m >>= f) >>= g) ≡ (m >>= λ a. f a >>= g)
>>=-assoc (ok a) f g = refl
>>=-assoc (fault e) f g = refl

-- `assert(b)`
abbrev pub assert : Bool → Run (Unit {0})
assert true = ok tt
assert false = fault assertion

module _ {ℓ} {A : Type ℓ} where
  -- `a[i]`
  unfoldable pub at : List A → ℕ → Run A
  at [] i = fault bad_access
  at (x ∷ xs) zero = ok x
  at (x ∷ xs) (suc i) = at xs i

  -- `a[i] = v`
  unfoldable pub put : List A → ℕ → A → Run (List A)
  put xs i v = if ltb i (length xs) then ok (set xs i v) else fault bad_access

  pub at-get_or :
      (arr : List A) (idx : ℕ) (d : A) → idx < length arr → at arr idx ≡ ok (get_or arr idx d)
  unfolding at get_or
  at-get_or [] idx d inside = absurd (omega arith)
  at-get_or (first ∷ rest) (suc idx) d inside = at-get_or rest idx d (omega arith)
  at-get_or (first ∷ rest) zero d inside = refl

  pub put-set : (xs : List A) (i : ℕ) (v : A) → i < length xs → put xs i v ≡ ok (set xs i v)
  unfolding put
  put-set xs i v h = ground arith
