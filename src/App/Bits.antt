-- ===== src/App/Bits.antt =====
-- The masks of util/app_util.c: the low and the high bits of a word as remainder and rest.
use Prim.Native.Nat.{min, bit_and, digits, bit_and-bitwise}
use vmsim.Prelude.{ℕ, zero, suc, ◌+◌, ◌-◌, ◌*◌, ◌/◌, ◌%◌, ◌^◌, ◌≤◌, ◌<◌, ◌≡◌, refl, arith, ◌∙◌, ap}
use native.Mathlib.Nat.{
  mod-lt, mod-eq_of_lt, div-add-mod, add-mul-mod_self_left, two-pow-succ, mod-le, pow-le-pow_right,
  zero-add, suc-add,
}

-- rounds that are left over at the end change nothing
spare_rounds :
    (a left b spare : ℕ)
    → a ≤ left
    → digits (λ _. zero) min (left + spare) a b ≡ digits (λ _. zero) min left a b
spare_rounds zero zero b zero within = refl
spare_rounds zero zero b (suc spare) within = rw zero-add refl
spare_rounds zero (suc left) b spare within = rw suc-add refl
spare_rounds (suc a) zero b spare within = absurd (omega arith)
spare_rounds (suc a) (suc left) b spare within =
    let halves = spare_rounds (suc a / 2) left (b / 2) spare (omega arith) in
    rw suc-add (omega (arith, halves))

and_halves : (a b : ℕ) → bit_and a b ≡ bit_and (a / 2) (b / 2) * 2 + min (a % 2) (b % 2)
and_halves zero b = omega (arith, bit_and-bitwise 0 b, bit_and-bitwise 0 (b / 2))
and_halves (suc a) b =
    let spare = spare_rounds (suc a / 2) (suc a / 2) (b / 2) (a - suc a / 2) (omega arith) in
    let rounds : suc a / 2 + (a - suc a / 2) ≡ a = omega arith in
    rw (bit_and-bitwise (suc a) b, bit_and-bitwise (suc a / 2) (b / 2))
      (omega (arith, rw rounds at spare))

and_none : (bound a : ℕ) → a ≤ bound → bit_and a 0 ≡ 0
and_none bound zero within = bit_and-bitwise 0 0
and_none zero (suc a) within = absurd (omega arith)
and_none (suc bound) (suc a) within =
    and_halves (suc a) 0 ∙ omega (arith, and_none bound (suc a / 2) (omega arith))

pub pow_double : (k : ℕ) → 2 ^ suc k ≡ 2 * 2 ^ k
pow_double k = omega (arith, two-pow-succ k)

pub pow_pos : (k : ℕ) → 0 < 2 ^ k
pow_pos zero = omega arith
pow_pos (suc k) = omega (arith, pow_double k, pow_pos k)

-- a remainder by twice a number, from the remainder of the half
mod_double : (a q : ℕ) → 0 < q → a % (2 * q) ≡ a / 2 % q * 2 + a % 2
mod_double a q pos =
    ap (λ (n : ℕ). n % (2 * q)) whole
    ∙ add-mul-mod_self_left (a / 2 % q * 2 + a % 2) (2 * q) (a / 2 / q)
    ∙ mod-eq_of_lt (omega (arith, mod-lt (a / 2) {m = q} pos))
  where
    regroup : (d : ℕ) → q * d * 2 ≡ 2 * q * d
    regroup d = grind arith

    whole : a ≡ a / 2 % q * 2 + a % 2 + 2 * q * (a / 2 / q)
    whole = omega (arith, div-add-mod (a / 2) q, regroup (a / 2 / q))

-- the mask of `k` low ones
pub and_low : (k a : ℕ) → bit_and a (2 ^ k - 1) ≡ a % 2 ^ k
and_low zero a = and_none a a (omega arith) ∙ omega arith
and_low (suc k) a =
    let half : (2 ^ suc k - 1) / 2 ≡ 2 ^ k - 1 = omega (arith, pow_double k, pow_pos k) in
    let odd : (2 ^ suc k - 1) % 2 ≡ 1 = omega (arith, pow_double k, pow_pos k) in
    and_halves a (2 ^ suc k - 1)
    ∙ rw (half, odd, and_low k (a / 2), pow_double k, mod_double a (2 ^ k) (pow_pos k))
        (omega arith)

pow_le : (k j : ℕ) → 2 ^ k ≤ 2 ^ (k + j)
pow_le k j = pow-le-pow_right {n = 2} (omega arith) (omega arith)

-- the mask of the ones from `k` on, in `k + j` bits
pub and_high : (k j a : ℕ) → a < 2 ^ (k + j) → bit_and a (2 ^ (k + j) - 2 ^ k) ≡ a - a % 2 ^ k
and_high zero j a lt = rw zero-add (and_low j a ∙ mod-eq_of_lt (rw zero-add at lt) ∙ omega arith)
and_high (suc k) j a lt = rw suc-add (
    and_halves a (2 ^ suc (k + j) - 2 ^ suc k)
    ∙ rw (half, even, and_high k j (a / 2) below, pow_double k, mod_double a (2 ^ k) (pow_pos k))
        (omega (arith, mod-le (a / 2) (2 ^ k))))
  where
    half : (2 ^ suc (k + j) - 2 ^ suc k) / 2 ≡ 2 ^ (k + j) - 2 ^ k
    half = omega (arith, pow_double k, pow_double (k + j), pow_le k j)

    even : (2 ^ suc (k + j) - 2 ^ suc k) % 2 ≡ 0
    even = omega (arith, pow_double k, pow_double (k + j), pow_le k j)

    below : a / 2 < 2 ^ (k + j)
    below = omega (arith, lt, pow_double (k + j), ap (λ n. 2 ^ n) (suc-add k j))
