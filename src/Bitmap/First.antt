-- ===== src/Bitmap/First.antt =====
-- util/bitmap.c: `bitmap_first_set` and `bitmap_first_clear` find the first bit.
use vmsim.Prelude.{
  ℕ, ◌+◌, ◌-◌, ◌*◌, ◌/◌, ◌%◌, ◌≤◌, ◌<◌, ◌≡◌, ◌≢◌, Bool, true, false, not, none, some, arith, lt→ltb,
  length, get_or, inl, inr, ◌⊎◌, ◌∙◌, sym, Option, ltb-false,
}
use native.Mathlib.Decide.{dec_lt}
use vmsim.Run.{ok}
use vmsim.Bitmap.{
  Bitmap, same_bit, get_bit, read_block, scan_bits, find_first, bitmap_first_set,
  bitmap_first_clear, found_code,
}
use vmsim.Bitmap.Bits.{eq_skip_of, bit_of_skip, skip_of}
use vmsim.Bitmap.Access.{IsBitmap, bit, block_in}
use vmsim.Bitmap.Find.{IsFirst, skip_blocks_lem, Scanned, scan_bits-Scanned}

module _ {bm : Bitmap} (b : IsBitmap bm) (beyond : ℕ → ℕ) (value : Bool) where
  abbrev hit_at : ℕ → Bool
  hit_at i = same_bit (bit bm i) value

  -- a block in the array that is skipped holds no bit with the value
  skipped-miss :
      (i : ℕ) → i < bm.size → read_block bm beyond (i / 8) ≡ skip_of value → hit_at i ≡ false
  unfolding read_block bit
  skipped-miss i lt e =
      let block : get_or bm.data_blocks (i / 8) 0 ≡ skip_of value =
        rw (lt→ltb (i / 8) (length bm.data_blocks) (block_in b i lt)) at e in
      rw block (bit_of_skip value (i % 8) (omega arith))

  read_in : (i : ℕ) → i < bm.size → read_block bm beyond (i / 8) ≡ get_or bm.data_blocks (i / 8) 0
  unfolding read_block
  read_in i lt = rw (lt→ltb (i / 8) (length bm.data_blocks) (block_in b i lt))

  hit_at-read :
      (i k : ℕ)
      → i < bm.size
      → i / 8 ≡ k
      → hit_at i ≡ same_bit (get_bit (read_block bm beyond k) (i % 8)) value
  unfolding bit
  hit_at-read i k lt e = rw (← e, read_in i lt)

  -- If a whole block lies in the array and no bit of it has the value, it would have been skipped.
  whole_block :
      (i k : ℕ)
      → i < bm.size
      → k < i / 8
      → ((d : ℕ) → d < 8 → same_bit (get_bit (read_block bm beyond k) d) value ≡ false)
      → read_block bm beyond k ≡ skip_of value
  whole_block i k lt before miss =
      let inside : (k * 8) / 8 ≡ k = omega arith in
      let here = rw inside at (read_in (k * 8) (omega arith)) in
      eq_skip_of value (read_block bm beyond k) (rw here (b.bytes k)) miss

  found-First :
      (k : ℕ)
      → k ≤ bm.size / 8
      → ((j : ℕ) → 0 ≤ j → j < k → read_block bm beyond j ≡ skip_of value)
      → read_block bm beyond k ≢ skip_of value
      → (r : Option ℕ) → Scanned (read_block bm beyond k) value (bm.size - k * 8) (k * 8) 0 8 r
      → IsFirst hit_at 0 bm.size r
  found-First k le skipped differs none s = λ i l0 lt. elim (dec_lt (i / 8) k) [
    | yes before ↦ skipped-miss i lt (skipped (i / 8) (omega arith) before)
    | no not_before ↦ elim (dec_lt k (i / 8)) [
      | yes after ↦ absurd (
          differs
            (whole_block i k lt after (λ d ld. s d (omega arith) (omega arith) (omega arith))))
      | no not_after ↦
          hit_at-read i k lt (omega arith) ∙ s (i % 8) (omega arith) (omega arith) (omega arith)
    ]
  ]
  found-First k le skipped differs (some i) s =
      let lt : i < bm.size = omega (arith, s.1, s.4) in
      let block : i / 8 ≡ k = omega (arith, s.1, s.3) in
      let place : i % 8 ≡ s.0 = omega (arith, s.1, s.3) in
      (
        omega arith,
        lt,
        hit_at-read i k lt block ∙ rw place s.5,
        λ j l0 lj. elim (dec_lt (j / 8) k) [
          | yes before ↦ skipped-miss j (omega arith) (skipped (j / 8) (omega arith) before)
          | no not_before ↦
              hit_at-read j k (omega arith) (omega arith) ∙ s.6 (j % 8) (omega arith) (omega arith)
        ],
      )

  find_first-First :
      (r : Option ℕ) × (find_first bm beyond value (skip_of value) ≡ ok r)
      × IsFirst hit_at 0 bm.size r
  unfolding find_first
  find_first-First =
      let (k, run, le, skipped, why) =
        skip_blocks_lem (bm.size / 8 + 2) bm beyond (skip_of value) 0 (omega arith) (omega arith) in
      let block = read_block bm beyond k in
      let r = scan_bits 8 block value (bm.size - k * 8) (k * 8) 0 in
      elim (dec_lt (bm.size / 8) k) [
        | yes past ↦ (
          none,
          rw (run, lt→ltb (bm.size / 8) k past),
          λ i l0 lt. skipped-miss i lt (skipped (i / 8) (omega arith) (omega arith)),
        )
        | no within ↦ (
          r,
          rw (run, ltb-false (bm.size / 8) k (omega arith)),
          found-First k (omega arith) skipped (differs_of why (omega arith)) r
              (scan_bits-Scanned 8 block value (bm.size - k * 8) (k * 8) 0),
        )
      ]
    where
      differs_of :
          {k : ℕ}
          → ((bm.size / 8 < k) ⊎ (read_block bm beyond k ≢ skip_of value))
          → k ≤ bm.size / 8
          → read_block bm beyond k ≢ skip_of value
      differs_of (inl past) le = absurd (omega arith)
      differs_of (inr d) le = d

IsFirst-agree :
    {p q : ℕ → Bool} (agree : (i : ℕ) → p i ≡ q i) (from to : ℕ) (r : Option ℕ)
    → IsFirst p from to r
    → IsFirst q from to r
IsFirst-agree agree from to none first = λ i l lt. sym (agree i) ∙ first i l lt
IsFirst-agree agree from to (some k) first =
    (first.0, first.1, sym (agree k) ∙ first.2, λ i l lt. sym (agree i) ∙ first.3 i l lt)

same_bit-true : (b : Bool) → same_bit b true ≡ b
same_bit-true b = ground arith

same_bit-false : (b : Bool) → same_bit b false ≡ not b
same_bit-false b = ground arith

-- On a well-formed bitmap, bitmap_first_set gives the least index in range whose bit is set, with
-- success, or not_found if there is none, whatever reads past the array give.
pub bitmap_first_set_lem :
    {bm : Bitmap}
    → IsBitmap bm
    → (beyond : ℕ → ℕ)
    → (r : Option ℕ) × (bitmap_first_set bm beyond ≡ ok (found_code r))
      × IsFirst (bit bm) 0 bm.size r
unfolding bitmap_first_set
bitmap_first_set_lem {bm} b beyond =
    let (r, run, first) = find_first-First b beyond true in
    (r, rw run, IsFirst-agree (λ i. same_bit-true (bit bm i)) 0 bm.size r first)

-- On a well-formed bitmap, bitmap_first_clear gives the least index in range whose bit is clear,
-- with success, or not_found if there is none, whatever reads past the array give.
pub bitmap_first_clear_lem :
    {bm : Bitmap}
    → IsBitmap bm
    → (beyond : ℕ → ℕ)
    → (r : Option ℕ) × (bitmap_first_clear bm beyond ≡ ok (found_code r))
      × IsFirst (λ i. not (bit bm i)) 0 bm.size r
unfolding bitmap_first_clear
bitmap_first_clear_lem {bm} b beyond =
    let (r, run, first) = find_first-First b beyond false in
    (r, rw run, IsFirst-agree (λ i. same_bit-false (bit bm i)) 0 bm.size r first)
