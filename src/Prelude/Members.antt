-- ===== src/Prelude/Members.antt =====
-- Lists of numbers as sets: Boolean membership, distinctness, erasure and the pigeonhole bound.
use Prim.Native.Nat.{ℕ, zero, suc, ◌+◌, ◌≤◌, ◌<◌}
use mathlib.Core.Path.{◌≡◌, refl}
use mathlib.Core.Logic.{inl, inr}
use mathlib.Core.Bool.{Bool, true, false, ◌&&◌, ◌||◌, not}
use mathlib.Core.List.{List, [], ◌∷◌, ◌++◌}
use native.Mathlib.Omega.{arith}
use vmsim.Prelude.Tests.{◌==◌, if◌then◌else◌, Bool-cases}
use vmsim.Prelude.Lists.{length}

unfoldable pub has : ℕ → List ℕ → Bool
has a [] = false
has a (x ∷ xs) = (a == x) || has a xs

unfoldable pub distinct : List ℕ → Bool
distinct [] = true
distinct (x ∷ xs) = not (has x xs) && distinct xs

unfoldable pub erase : ℕ → List ℕ → List ℕ
erase a [] = []
erase a (x ∷ xs) = if a == x then xs else x ∷ erase a xs

pub has-append : (a : ℕ) (xs ys : List ℕ) → has a (xs ++ ys) ≡ (has a xs || has a ys)
unfolding has
has-append a [] ys = refl
has-append a (x ∷ xs) ys = ground (arith, has-append a xs ys)

pub distinct-append_one :
    (xs : List ℕ) (a : ℕ) → distinct xs ≡ true → has a xs ≡ false → distinct (xs ++ a ∷ []) ≡ true
unfolding distinct has
distinct-append_one [] a d h = refl
distinct-append_one (x ∷ xs) a d h =
    ground (arith, distinct-append_one xs a, has-append x xs (a ∷ []))

pub has-erase :
    (a b : ℕ) (xs : List ℕ) → distinct xs ≡ true → has b (erase a xs) ≡ (not (a == b) && has b xs)
unfolding distinct has erase
has-erase a b [] d = ground arith
has-erase a b (x ∷ xs) d = ground (arith, has-erase a b xs)

pub distinct-erase : (a : ℕ) (xs : List ℕ) → distinct xs ≡ true → distinct (erase a xs) ≡ true
unfolding distinct erase
distinct-erase a [] d = refl
distinct-erase a (x ∷ xs) d = ground (arith, distinct-erase a xs, has-erase a x xs)

pub length-erase : (a : ℕ) (xs : List ℕ) → has a xs ≡ true → length (erase a xs) + 1 ≡ length xs
unfolding has erase
length-erase a [] h = ground arith
length-erase a (x ∷ xs) h = ground (arith, length-erase a xs)

-- Distinct numbers below `n` are at most `n` in number.
pub length-le_of_distinct :
    (n : ℕ) (xs : List ℕ) → distinct xs ≡ true → ((a : ℕ) → has a xs ≡ true → a < n) → length xs ≤ n
unfolding has
length-le_of_distinct zero [] d h = omega arith
length-le_of_distinct zero (x ∷ xs) d h = absurd (ground (arith, h x))
length-le_of_distinct (suc n) xs d h = elim (Bool-cases (has n xs)) [
  | inl e ↦ omega (
    arith,
    length-erase n xs e,
    length-le_of_distinct n (erase n xs) (distinct-erase n xs d)
        (λ a m. ground (arith, h a, has-erase n a xs d)),
  )
  | inr e ↦ omega (arith, length-le_of_distinct n xs d (λ a m. ground (arith, h a)))
]
