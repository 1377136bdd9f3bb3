-- ===== src/Bitmap/Bits.antt =====
-- The bit macros of util/bitmap.c on a byte, checked over every byte.
use vmsim.Prelude.{
  ℕ, zero, suc, ◌<◌, ◌≡◌, refl, Bool, true, false, ◌&&◌, ◌||◌, not, arith, ◌==◌, ==_iff, ltb, ◌∙◌,
}
use vmsim.Bitmap.{same_bit, get_bit, set_bit, clear_bit}

-- `p` holds of every number below the bound
all_below : ℕ → (ℕ → Bool) → Bool
all_below zero p = true
all_below (suc bound) p = all_below bound p && p bound

all_below_sound :
    (bound : ℕ) (p : ℕ → Bool) (k : ℕ) → all_below bound p ≡ true → k < bound → p k ≡ true
unfolding all_below
all_below_sound zero p k all inside = absurd (omega arith)
all_below_sound (suc bound) p k all inside = ground (arith, all_below_sound bound p k)

iff→eq : (a b : Bool) → same_bit a b ≡ true → a ≡ b
iff→eq a b h = ground arith

all_below_intro : (n : ℕ) (p : ℕ → Bool) → ((x : ℕ) → x < n → p x ≡ true) → all_below n p ≡ true
unfolding all_below
all_below_intro zero p h = refl
all_below_intro (suc n) p h =
    rw (h n (omega arith), all_below_intro n p (λ x lt. h x (omega arith)))

-- a property of every byte and two bit indices
all_bytes : (ℕ → ℕ → ℕ → Bool) → Bool
unfolding all_below
all_bytes p = all_below 256 (λ x. all_below 8 (λ b. all_below 8 (λ c. p x b c)))

all_bytes_sound :
    (p : ℕ → ℕ → ℕ → Bool) (x b c : ℕ)
    → all_bytes p ≡ true
    → x < 256
    → b < 8
    → c < 8
    → p x b c ≡ true
unfolding all_bytes
all_bytes_sound p x b c h lx lb lc =
    all_below_sound 8 (p x b) c
      (all_below_sound 8 (λ b'. all_below 8 (p x b')) b
        (all_below_sound 256 (λ x'. all_below 8 (λ b'. all_below 8 (p x' b'))) x h lx) lb)
      lc

set_table : all_bytes (λ x b c. same_bit (get_bit (set_bit x b) c) ((b == c) || get_bit x c)) ≡ true
unfolding all_bytes get_bit set_bit
set_table = refl

clear_table :
    all_bytes (λ x b c. same_bit (get_bit (clear_bit x b) c) (not (b == c) && get_bit x c)) ≡ true
unfolding all_bytes get_bit clear_bit
clear_table = refl

range_table : all_bytes (λ x b c. ltb (set_bit x b) 256 && ltb (clear_bit x b) 256) ≡ true
unfolding all_bytes set_bit clear_bit
range_table = refl

module _ (x b : ℕ) (lx : x < 256) (lb : b < 8) where
  pub get_bit-set_bit : (c : ℕ) → c < 8 → get_bit (set_bit x b) c ≡ ((b == c) || get_bit x c)
  get_bit-set_bit c lc = iff→eq _ _ (all_bytes_sound _ x b c set_table lx lb lc)

  pub get_bit-clear_bit :
      (c : ℕ) → c < 8 → get_bit (clear_bit x b) c ≡ (not (b == c) && get_bit x c)
  get_bit-clear_bit c lc = iff→eq _ _ (all_bytes_sound _ x b c clear_table lx lb lc)

  pub bits_in_range : (set_bit x b < 256) × (clear_bit x b < 256)
  bits_in_range =
      let h = all_bytes_sound _ x b 0 range_table lx lb (omega arith) in
      (ground arith, ground arith)

full_table : all_below 256 (λ x. same_bit (x == 255) (all_below 8 (λ c. get_bit x c))) ≡ true
unfolding all_below get_bit
full_table = refl

empty_table : all_below 256 (λ x. same_bit (x == 0) (all_below 8 (λ c. not (get_bit x c)))) ≡ true
unfolding all_below get_bit
empty_table = refl

skip_table :
    (all_below 8 (λ c. not (get_bit 0 c)) ≡ true) × (all_below 8 (λ c. get_bit 255 c) ≡ true)
unfolding all_below get_bit
skip_table = (refl, refl)

-- the byte whose bits all differ from `value`
abbrev pub skip_of : Bool → ℕ
skip_of true = 0
skip_of false = 255

-- A byte other than the one whose bits all differ from `value` has a bit that equals it.
pub eq_skip_of :
    (value : Bool) (x : ℕ)
    → x < 256
    → ((c : ℕ) → c < 8 → same_bit (get_bit x c) value ≡ false)
    → x ≡ skip_of value
eq_skip_of true x lx h = (==_iff x 0).0 (
    iff→eq _ _ (all_below_sound 256 _ x empty_table lx)
    ∙ all_below_intro 8 _ (λ c lc. ground (arith, h c)))
eq_skip_of false x lx h = (==_iff x 255).0 (
    iff→eq _ _ (all_below_sound 256 _ x full_table lx)
    ∙ all_below_intro 8 _ (λ c lc. ground (arith, h c)))

pub bit_of_skip :
    (value : Bool) (c : ℕ) → c < 8 → same_bit (get_bit (skip_of value) c) value ≡ false
bit_of_skip true c lc =
    ground (arith, all_below_sound 8 (λ c. not (get_bit 0 c)) c (skip_table.0) lc)
bit_of_skip false c lc = ground (arith, all_below_sound 8 (λ c. get_bit 255 c) c (skip_table.1) lc)
