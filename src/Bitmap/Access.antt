-- ===== src/Bitmap/Access.antt =====
-- `bitmap_init`, `bitmap_get`, `bitmap_set` and `bitmap_clear` on a bitmap as a function from indices to
-- bits.
use vmsim.Prelude.{
  ℕ, ◌+◌, ◌-◌, ◌/◌, ◌%◌, ◌^◌, ◌≤◌, ◌<◌, ◌≡◌, refl, Bool, true, false, ◌&&◌, ◌||◌, not, none, some,
  arith, ◌==◌, if◌then◌else◌, lt→ltb, length, get_or, set, replicate, length-replicate,
  get_or-replicate, length-set, get_or-set, Bool-cases, inl, inr, ◌⊎◌, ap, ◌∙◌, ltb-false,
}
use vmsim.Run.{ok, fault, assertion, at-get_or, put-set}
use vmsim.Types.{success, fail}
use vmsim.Bitmap.{
  Bitmap, get_bit, set_bit, clear_bit, bitmap_init, bitmap_set, bitmap_clear, bitmap_get,
}
use vmsim.Bitmap.Bits.{get_bit-set_bit, get_bit-clear_bit, bits_in_range, bit_of_skip}

-- enough blocks of a byte for the bits
pub record IsBitmap (bm : Bitmap) : Type 0 where
  pub positive : 0 < bm.size
  pub blocks : length bm.data_blocks ≡ (bm.size - 1) / 8 + 1
  pub bytes : (i : ℕ) → get_or bm.data_blocks i 0 < 256

-- the bit at an index
unfoldable pub bit : Bitmap → ℕ → Bool
bit bm i = get_bit (get_or bm.data_blocks (i / 8) 0) (i % 8)

pub block_in : {bm : Bitmap} → IsBitmap bm → (i : ℕ) → i < bm.size → i / 8 < length bm.data_blocks
block_in b i lt = omega arith

pub bitmap_get-bit :
    {bm : Bitmap} (b : IsBitmap bm) (i : ℕ) → i < bm.size → bitmap_get bm i ≡ ok (bit bm i)
unfolding bitmap_get bit
bitmap_get-bit {bm} b i lt =
    rw (lt→ltb i bm.size lt, at-get_or bm.data_blocks (i / 8) 0 (block_in b i lt))

abbrev replaced : Bitmap → ℕ → ℕ → Bitmap
replaced bm i block = record bm { data_blocks = set bm.data_blocks (i / 8) block }

replaced-IsBitmap :
    {bm : Bitmap} (b : IsBitmap bm) (i block : ℕ)
    → i < bm.size
    → block < 256
    → IsBitmap (replaced bm i block)
replaced-IsBitmap {bm} b i block lt range = record {
  positive = b.positive;
  blocks = length-set bm.data_blocks (i / 8) block ∙ b.blocks;
  bytes = λ j.
      rw (get_or-set bm.data_blocks (i / 8) j block 0 (block_in b i lt))
        (ground (arith, b.bytes j));
}

bit-replaced :
    {bm : Bitmap} (b : IsBitmap bm) (i block j : ℕ)
    → i < bm.size
    → bit (replaced bm i block) j ≡ (if i / 8 == j / 8 then get_bit block (j % 8) else bit bm j)
unfolding bit
bit-replaced {bm} b i block j lt =
    rw (get_or-set bm.data_blocks (i / 8) (j / 8) block 0 (block_in b i lt)) (ground arith)

index_split : (i j : ℕ) → (i / 8 == j / 8) ≡ true → (i % 8 == j % 8) ≡ (i == j)
index_split i j e = ground arith

index_apart : (i j : ℕ) → (i / 8 == j / 8) ≡ false → (i == j) ≡ false
index_apart i j e = ground arith

module _ {bm : Bitmap} (b : IsBitmap bm) (i : ℕ) (lt : i < bm.size) where
  -- On a well-formed bitmap, bitmap_set of an index in range succeeds: that bit reads 1 and every
  -- other bit as before, and the bitmap keeps its size and its form.
  pub bitmap_set_lem :
      (bm' : Bitmap) × (bitmap_set bm i ≡ ok (success, bm'))
      × IsBitmap bm'
      × (bm'.size ≡ bm.size)
      × ((j : ℕ) → bit bm' j ≡ ((i == j) || bit bm j))
  unfolding bitmap_set bit
  bitmap_set_lem =
      let block = get_or bm.data_blocks (i / 8) 0 in
      let new = set_bit block (i % 8) in
      (
        replaced bm i new,
        rw (
          lt→ltb i bm.size lt,
          at-get_or bm.data_blocks (i / 8) 0 (block_in b i lt),
          put-set bm.data_blocks (i / 8) new (block_in b i lt),
        ),
        replaced-IsBitmap b i new lt
            (bits_in_range block (i % 8) (b.bytes (i / 8)) (omega arith)).0,
        refl,
        λ j. bit-replaced b i new j lt ∙ elim (Bool-cases (i / 8 == j / 8)) [
          | inl same ↦
              let e : i / 8 ≡ j / 8 = ground arith in
              rw
                (
                  same,
                  get_bit-set_bit block (i % 8) (b.bytes (i / 8)) (omega arith) (j % 8)
                      (omega arith),
                  index_split i j same,
                )
                (ap (λ k. (i == j) || get_bit (get_or bm.data_blocks k 0) (j % 8)) e)
          | inr apart ↦ rw (apart, index_apart i j apart)
        ],
      )

  -- On a well-formed bitmap, bitmap_clear of an index in range succeeds: that bit reads 0 and every
  -- other bit as before, and the bitmap keeps its size and its form.
  pub bitmap_clear_lem :
      (bm' : Bitmap) × (bitmap_clear bm i ≡ ok (success, bm'))
      × IsBitmap bm'
      × (bm'.size ≡ bm.size)
      × ((j : ℕ) → bit bm' j ≡ (not (i == j) && bit bm j))
  unfolding bitmap_clear bit
  bitmap_clear_lem =
      let block = get_or bm.data_blocks (i / 8) 0 in
      let new = clear_bit block (i % 8) in
      (
        replaced bm i new,
        rw (
          lt→ltb i bm.size lt,
          at-get_or bm.data_blocks (i / 8) 0 (block_in b i lt),
          put-set bm.data_blocks (i / 8) new (block_in b i lt),
        ),
        replaced-IsBitmap b i new lt
            (bits_in_range block (i % 8) (b.bytes (i / 8)) (omega arith)).1,
        refl,
        λ j. bit-replaced b i new j lt ∙ elim (Bool-cases (i / 8 == j / 8)) [
          | inl same ↦
              let e : i / 8 ≡ j / 8 = ground arith in
              rw
                (
                  same,
                  get_bit-clear_bit block (i % 8) (b.bytes (i / 8)) (omega arith) (j % 8)
                      (omega arith),
                  index_split i j same,
                )
                (ap (λ k. not (i == j) && get_bit (get_or bm.data_blocks k 0) (j % 8)) e)
          | inr apart ↦ rw (apart, index_apart i j apart)
        ],
      )

-- bitmap_get, bitmap_set and bitmap_clear fail their assertion for an index at or past the size.
pub bitmap_out_of_range :
    (bm : Bitmap) (i : ℕ)
    → bm.size ≤ i
    → (bitmap_get bm i ≡ fault assertion)
      × (bitmap_set bm i ≡ fault assertion)
      × (bitmap_clear bm i ≡ fault assertion)
unfolding bitmap_get bitmap_set bitmap_clear
bitmap_out_of_range bm i le = rw (ltb-false i bm.size le) (refl, refl, refl)

pub cleared-IsBitmap :
    (n : ℕ) → 0 < n → IsBitmap (record { data_blocks = replicate ((n - 1) / 8 + 1) 0; size = n })
cleared-IsBitmap n pos = record {
  positive = pos;
  blocks = length-replicate ((n - 1) / 8 + 1) 0;
  bytes = λ i. rw (get_or-replicate {A = ℕ} ((n - 1) / 8 + 1) i 0) (omega arith);
}

pub cleared_bit :
    (n j : ℕ) → bit (record { data_blocks = replicate ((n - 1) / 8 + 1) 0; size = n }) j ≡ false
unfolding bit
cleared_bit n j =
    rw (get_or-replicate {A = ℕ} ((n - 1) / 8 + 1) (j / 8) 0)
      (ground (arith, bit_of_skip true (j % 8) (omega arith)))

-- For 1 to 2 ^ 31 - 1 bits bitmap_init asks for one byte for each eight bits begun; it gives a well-
-- formed bitmap of that size with every bit clear if it gets them, and fails if not.
pub bitmap_init_lem :
    (calloc_ok : ℕ → Bool) (n : ℕ)
    → 0 < n
    → n < 2 ^ 31
    → ((calloc_ok ((n - 1) / 8 + 1) ≡ false) × (bitmap_init calloc_ok n ≡ (fail, none)))
      ⊎ ((bm : Bitmap) × (bitmap_init calloc_ok n ≡ (success, some bm))
          × IsBitmap bm
          × (bm.size ≡ n)
          × ((j : ℕ) → bit bm j ≡ false))
unfolding bitmap_init
bitmap_init_lem calloc_ok n pos small =
    let count : (n + 2 ^ 64 - 1) % 2 ^ 64 / 8 + 1 ≡ (n - 1) / 8 + 1 = omega arith in
    elim (Bool-cases (calloc_ok ((n - 1) / 8 + 1))) [
      | inr refused ↦ inl (refused, rw (count, refused))
      | inl given ↦ inr (
        record { data_blocks = replicate ((n - 1) / 8 + 1) 0; size = n },
        rw (count, given),
        cleared-IsBitmap n pos,
        refl,
        cleared_bit n,
      )
    ]
