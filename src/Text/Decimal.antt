-- ===== src/Text/Decimal.antt =====
-- Numbers in decimal, as the user types them, and words between single spaces.
use vmsim.Prelude.{
  ℕ, zero, suc, ◌+◌, ◌-◌, ◌*◌, ◌/◌, ◌%◌, ◌^◌, ◌≤◌, ◌<◌, ◌≡◌, refl, Bool, true, false, ◌&&◌, not,
  some, List, [], ◌∷◌, ◌++◌, arith, ◌==◌, if◌then◌else◌, ltb, ap, ◌∙◌, Bool-cases, inl, inr, ltb→lt,
  length, length-append,
}
use vmsim.Text.{
  is_space, is_digit, skip_space, read_digits, to_unsigned, scan_digits, scan_sign, scan_unsigned,
  split_space, strtok,
}

-- the digits of a number, with as many rounds as the number
unfoldable pub decimal_loop : ℕ → ℕ → List ℕ
decimal_loop zero n = (b'0' + n % 10) ∷ []
decimal_loop (suc rounds) n =
    let rest = decimal_loop rounds (n / 10) ++ (b'0' + n % 10) ∷ [] in
    if ltb n 10 then (b'0' + n) ∷ [] else rest

unfoldable pub decimal : ℕ → List ℕ
decimal n = decimal_loop n n

-- every byte satisfies a test
unfoldable pub all : (ℕ → Bool) → List ℕ → Bool
all p [] = true
all p (c ∷ s) = p c && all p s

all-append : (p : ℕ → Bool) (s t : List ℕ) → all p (s ++ t) ≡ (all p s && all p t)
unfolding all
all-append p [] t = refl
all-append p (c ∷ s) t = ground (arith, all-append p s t)

digit : (d : ℕ) → d < 10 → is_digit (b'0' + d) ≡ true
unfolding is_digit
digit d lt = ground arith

decimal_loop-digits : (rounds n : ℕ) → all is_digit (decimal_loop rounds n) ≡ true
unfolding decimal_loop all
decimal_loop-digits zero n = rw (digit (n % 10) (omega arith)) refl
decimal_loop-digits (suc rounds) n = elim (Bool-cases (ltb n 10)) [
  | inl small ↦ rw (small, digit n (ltb→lt n 10 small)) refl
  | inr large ↦
      rw
        (
          large,
          all-append is_digit (decimal_loop rounds (n / 10)) ((b'0' + n % 10) ∷ []),
          decimal_loop-digits rounds (n / 10),
          digit (n % 10) (omega arith),
        )
        refl
]

read_digits-append :
    (acc : ℕ) (s t : List ℕ)
    → all is_digit s ≡ true
    → read_digits acc (s ++ t) ≡ read_digits (read_digits acc s) t
unfolding read_digits all
read_digits-append acc [] t h = refl
read_digits-append acc (c ∷ s) t h = ground (arith, read_digits-append (acc * 10 + (c - b'0')) s t)

read_digits-decimal_loop : (rounds n : ℕ) → n ≤ rounds → read_digits 0 (decimal_loop rounds n) ≡ n
unfolding decimal_loop read_digits
read_digits-decimal_loop zero n le = rw (digit (n % 10) (omega arith)) (omega arith)
read_digits-decimal_loop (suc rounds) n le = elim (Bool-cases (ltb n 10)) [
  | inl small ↦ rw (small, digit n (ltb→lt n 10 small)) (omega arith)
  | inr large ↦
      rw
        (
          large,
          read_digits-append 0 (decimal_loop rounds (n / 10)) ((b'0' + n % 10) ∷ [])
              (decimal_loop-digits rounds (n / 10)),
          read_digits-decimal_loop rounds (n / 10) (ground arith),
          digit (n % 10) (omega arith),
        )
        (omega arith)
]

pub read_digits-decimal : (n : ℕ) → read_digits 0 (decimal n) ≡ n
unfolding decimal
read_digits-decimal n = read_digits-decimal_loop n n (omega arith)

-- no byte is a space, and there is one
pub record IsWord (s : List ℕ) : Type 0 where
  pub letters : all (λ c. not (c == b' ')) s ≡ true
  pub filled : 0 < length s

digits-letters : (s : List ℕ) → all is_digit s ≡ true → all (λ c. not (c == b' ')) s ≡ true
unfolding all is_digit
digits-letters [] h = refl
digits-letters (c ∷ s) h = ground (arith, digits-letters s)

decimal_loop-filled : (rounds n : ℕ) → 0 < length (decimal_loop rounds n)
unfolding decimal_loop
decimal_loop-filled zero n = omega arith
decimal_loop-filled (suc rounds) n = elim (Bool-cases (ltb n 10)) [
  | inl small ↦ rw small (omega arith)
  | inr large ↦
      rw large (omega (arith, length-append (decimal_loop rounds (n / 10)) ((b'0' + n % 10) ∷ [])))
]

pub decimal-IsWord : (n : ℕ) → IsWord (decimal n)
unfolding decimal
decimal-IsWord n = record {
  letters = digits-letters (decimal_loop n n) (decimal_loop-digits n n);
  filled = decimal_loop-filled n n;
}

digit-not_space : (c : ℕ) → is_digit c ≡ true → is_space c ≡ false
unfolding is_digit is_space
digit-not_space c h = ground arith

digit-not_sign : (c : ℕ) → is_digit c ≡ true → ((c == b'-') ≡ false) × ((c == b'+') ≡ false)
unfolding is_digit
digit-not_sign c h = (ground arith, ground arith)

scan-digits :
    (s : List ℕ)
    → all is_digit s ≡ true
    → 0 < length s
    → scan_unsigned s ≡ some (to_unsigned false (read_digits 0 s))
unfolding scan_unsigned skip_space scan_sign scan_digits all
scan-digits [] h pos = absurd (omega arith)
scan-digits (c ∷ s) h pos =
    rw
      (
        digit-not_space c (ground arith),
        (digit-not_sign c (ground arith)).0,
        (digit-not_sign c (ground arith)).1,
      )
      (ground arith)

pub scan_unsigned-decimal : (n : ℕ) → n < 2 ^ 32 → scan_unsigned (decimal n) ≡ some n
unfolding to_unsigned decimal
scan_unsigned-decimal n lt =
    scan-digits (decimal n) (decimal_loop-digits n n) (decimal-IsWord n).filled
    ∙ rw (read_digits-decimal n) (ap some (ground arith))

-- words between single spaces
unfoldable pub spaced : List (List ℕ) → List ℕ
spaced [] = []
spaced (w ∷ []) = w
spaced (w ∷ v ∷ ws) = w ++ b' ' ∷ spaced (v ∷ ws)

split_space-word :
    (s rest : List ℕ)
    → all (λ c. not (c == b' ')) s ≡ true
    → split_space (s ++ b' ' ∷ rest) ≡ (s, rest)
unfolding split_space all
split_space-word [] rest h = refl
split_space-word (c ∷ s) rest h = ground (arith, split_space-word s rest)

split_space-last : (s : List ℕ) → all (λ c. not (c == b' ')) s ≡ true → split_space s ≡ (s, [])
unfolding split_space all
split_space-last [] h = refl
split_space-last (c ∷ s) h = ground (arith, split_space-last s)

strtok-word : (s rest : List ℕ) → IsWord s → strtok (s ++ rest) ≡ some (split_space (s ++ rest))
unfolding strtok all
strtok-word [] rest is = absurd (omega (arith, is.filled))
strtok-word (c ∷ s) rest is = ground (arith, is.letters)

strtok-last : (s : List ℕ) → IsWord s → strtok s ≡ some (s, [])
unfolding strtok all
strtok-last [] is = absurd (omega (arith, is.filled))
strtok-last (c ∷ s) is = ground (arith, is.letters, split_space-last (c ∷ s) is.letters)

pub strtok-spaced :
    (w : List ℕ) (ws : List (List ℕ)) → IsWord w → strtok (spaced (w ∷ ws)) ≡ some (w, spaced ws)
unfolding spaced
strtok-spaced w [] is = strtok-last w is
strtok-spaced w (v ∷ ws) is =
    strtok-word w (b' ' ∷ spaced (v ∷ ws)) is
    ∙ ap some (split_space-word w (spaced (v ∷ ws)) is.letters)
