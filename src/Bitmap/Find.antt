-- ===== src/Bitmap/Find.antt =====
-- The loops of `find_first` of util/bitmap.c: skipping blocks, and scanning the bits of one.
use vmsim.Prelude.{
  ℕ, zero, suc, ◌+◌, ◌/◌, ◌≤◌, ◌<◌, ◌≡◌, refl, ◌≢◌, Bool, true, false, ◌&&◌, none, some, arith,
  ◌==◌, ltb, leb, Bool-cases, inl, inr, ◌⊎◌, Option,
}
use vmsim.Run.{ok}
use vmsim.Bitmap.{Bitmap, same_bit, get_bit, read_block, skip_blocks, scan_bits}

-- `r` is the first index in `[from, to)` at which `p` holds, or `none` if there is none
abbrev pub IsFirst : (ℕ → Bool) → ℕ → ℕ → Option ℕ → Type 0
IsFirst p from to none = (i : ℕ) → from ≤ i → i < to → p i ≡ false
IsFirst p from to (some k) =
    (from ≤ k) × (k < to) × (p k ≡ true) × ((i : ℕ) → from ≤ i → i < k → p i ≡ false)

pub skip_blocks_lem :
    (fuel : ℕ) (bm : Bitmap) (beyond : ℕ → ℕ) (skip b : ℕ)
    → bm.size / 8 + 1 < fuel + b
    → b ≤ bm.size / 8 + 1
    → (b' : ℕ) × (skip_blocks fuel bm beyond skip b ≡ ok b')
      × (b ≤ b')
      × ((j : ℕ) → b ≤ j → j < b' → read_block bm beyond j ≡ skip)
      × ((bm.size / 8 < b') ⊎ (read_block bm beyond b' ≢ skip))
unfolding skip_blocks
skip_blocks_lem zero bm beyond skip b enough le = absurd (omega arith)
skip_blocks_lem (suc fuel) bm beyond skip b enough le =
    elim (Bool-cases ((read_block bm beyond b == skip) && leb b (bm.size / 8))) [
      | inr stop ↦ (
        b,
        rw stop,
        omega arith,
        (λ j l h. absurd (omega arith)),
        elim (Bool-cases (leb b (bm.size / 8))) [
          | inl inside ↦ inr (λ e. ground arith)
          | inr outside ↦ inl (ground arith)
        ],
      )
      | inl go ↦
          let (b', run, le', skipped, why) =
            skip_blocks_lem fuel bm beyond skip (b + 1) (omega arith) (ground arith) in
          (
            b',
            rw (go) run,
            omega arith,
            (λ j l h. elim (Bool-cases (j == b)) [
              | inl here ↦ let e : j ≡ b = ground arith in rw e (ground arith)
              | inr later ↦ skipped j (ground arith) h
            ]),
            why,
          )
    ]

-- what a scan of a block from bit `c` on has found
abbrev pub Scanned : ℕ → Bool → ℕ → ℕ → ℕ → ℕ → Option ℕ → Type 0
Scanned block value max base c rounds none =
    (d : ℕ) → c ≤ d → d < c + rounds → d < max → same_bit (get_bit block d) value ≡ false
Scanned block value max base c rounds (some k) =
    (d : ℕ) × (k ≡ base + d)
    × (c ≤ d)
    × (d < c + rounds)
    × (d < max)
    × (same_bit (get_bit block d) value ≡ true)
    × ((e : ℕ) → c ≤ e → e < d → same_bit (get_bit block e) value ≡ false)

-- a bit that differs, in front of a scan
Scanned-cons :
    (block : ℕ) (value : Bool) (max base c rounds : ℕ) (r : Option ℕ)
    → same_bit (get_bit block c) value ≡ false
    → Scanned block value max base (c + 1) rounds r
    → Scanned block value max base c (suc rounds) r
Scanned-cons block value max base c rounds none miss s = λ d l1 l2 l3. elim (Bool-cases (d == c)) [
  | inl here ↦ let e : d ≡ c = ground arith in rw e miss
  | inr later ↦ s d (ground arith) (omega arith) l3
]
Scanned-cons block value max base c rounds (some k) miss s = (
  s.0,
  s.1,
  omega arith,
  omega arith,
  s.4,
  s.5,
  λ e l1 l2. elim (Bool-cases (e == c)) [
    | inl here ↦ let q : e ≡ c = ground arith in rw q miss
    | inr later ↦ s.6 e (ground arith) l2
  ],
)

pub scan_bits-Scanned :
    (rounds block : ℕ) (value : Bool) (max base c : ℕ)
    → Scanned block value max base c rounds (scan_bits rounds block value max base c)
unfolding scan_bits
scan_bits-Scanned zero block value max base c = λ d l1 l2 l3. absurd (omega arith)
scan_bits-Scanned (suc rounds) block value max base c = elim (Bool-cases (ltb c max)) [
  | inr outside ↦ rw outside (λ d l1 l2 l3. absurd (ground arith))
  | inl inside ↦ elim (Bool-cases (same_bit (get_bit block c) value)) [
    | inl hit ↦
        rw (inside, hit)
          (c, refl, omega arith, omega arith, ground arith, hit, λ e l1 l2. absurd (omega arith))
    | inr miss ↦
        rw (inside, miss)
          (Scanned-cons block value max base c rounds _ miss
            (scan_bits-Scanned rounds block value max base (c + 1)))
  ]
]
