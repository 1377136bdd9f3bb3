-- ===== src/Int.antt =====
-- The `int` of C, as the 32-bit pattern that it has: the negative numbers are the patterns from 2 ^ 31 on, and
-- a conversion from `unsigned` keeps the pattern. An operation whose result is no `int` is a fault.
use vmsim.Prelude.{
  ℕ, ◌+◌, ◌-◌, ◌*◌, ◌%◌, ◌^◌, ◌<◌, ◌≡◌, Bool, true, false, not, ◌&&◌, ◌||◌, ◌≤◌, arith,
  if◌then◌else◌, ltb, leb, ◌==◌,
}
use vmsim.Run.{Run, ok, fault, overflow}
use vmsim.Types.{unsigned_mod}

-- the number of values of an `int` that are not negative
abbrev pub int_max_next : ℕ
int_max_next = 2 ^ 31

-- `n < 0`
unfoldable pub is_negative : ℕ → Bool
is_negative n = leb int_max_next n

-- `n > 0`
unfoldable pub is_positive : ℕ → Bool
is_positive n = ltb 0 n && not (is_negative n)

abbrev pub int_abs : ℕ → ℕ
int_abs n = if is_negative n then unsigned_mod - n else n

-- the number with the magnitude `m` and the sign, which an `int` must be able to hold
abbrev int_of : Bool → ℕ → Run ℕ
int_of negative m =
    if negative
    then (if ltb int_max_next m then fault overflow else ok ((unsigned_mod - m) % unsigned_mod))
    else (if ltb m int_max_next then ok m else fault overflow)

-- `a * b`
unfoldable pub int_mul : ℕ → ℕ → Run ℕ
int_mul a b =
    int_of (if is_negative a then not (is_negative b) else is_negative b) (int_abs a * int_abs b)

-- `a + 1`
unfoldable pub int_inc : ℕ → Run ℕ
int_inc a = if a + 1 == int_max_next then fault overflow else ok ((a + 1) % unsigned_mod)

-- `a + b`
unfoldable pub int_add : ℕ → ℕ → Run ℕ
int_add a b =
    if is_negative a && is_negative b
    then (if ltb (a + b) (unsigned_mod + int_max_next)
        then fault overflow
        else ok (a + b - unsigned_mod))
    else (if is_negative a || is_negative b
        then ok ((a + b) % unsigned_mod)
        else (if ltb (a + b) int_max_next then ok (a + b) else fault overflow))

-- `a <= b`
unfoldable pub int_leb : ℕ → ℕ → Bool
int_leb a b = leb ((a + int_max_next) % unsigned_mod) ((b + int_max_next) % unsigned_mod)

pub is_positive-small : (n : ℕ) → 0 < n → n < int_max_next → is_positive n ≡ true
unfolding is_positive is_negative
is_positive-small n more less = ground arith

pub is_negative-small : (n : ℕ) → n < int_max_next → is_negative n ≡ false
unfolding is_negative
is_negative-small n less = ground arith

pub int_mul-small :
    (a b : ℕ)
    → a < int_max_next
    → b < int_max_next
    → a * b < int_max_next
    → int_mul a b ≡ ok (a * b)
unfolding int_mul is_negative
int_mul-small a b small_a small_b fits = ground arith

pub int_inc-small : (a : ℕ) → a + 1 < int_max_next → int_inc a ≡ ok (a + 1)
unfolding int_inc
int_inc-small a fits = ground arith

pub int_add-small : (a b : ℕ) → a + b < int_max_next → int_add a b ≡ ok (a + b)
unfolding int_add is_negative
int_add-small a b fits = ground arith

pub int_leb-small : (a b : ℕ) → a ≤ b → b < int_max_next → int_leb a b ≡ true
unfolding int_leb
int_leb-small a b le small = ground arith
