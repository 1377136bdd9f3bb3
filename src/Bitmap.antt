-- ===== src/Bitmap.antt =====
-- util/bitmap.h, util/bitmap.c: bits in blocks of a byte.
pub mod Bits
pub mod Access
pub mod Find
pub mod First
use Prim.Native.Nat.{bit_and, bit_or}
use vmsim.Prelude.{
  ℕ, zero, suc, ◌+◌, ◌-◌, ◌*◌, ◌/◌, ◌%◌, ◌^◌, Bool, true, false, ◌&&◌, not, Option, none, some,
  List, [], ◌==◌, if◌then◌else◌, ltb, leb, length, get_or, replicate,
}
use vmsim.Run.{Run, ok, fault, out_of_fuel, ◌>>=◌, ◌>>◌, assert, at, put}
use vmsim.Types.{Errcode, success, fail, not_found}

-- BLOCK_SIZE, in bits
abbrev pub block_size : ℕ
block_size = 8

-- `bitmap_t`
pub record Bitmap : Type 0 where
  pub data_blocks : List ℕ
  pub size : ℕ

-- GET_BIT
unfoldable pub get_bit : ℕ → ℕ → Bool
get_bit block bitidx = not (bit_and block (2 ^ bitidx) == 0)

-- SET_BIT
unfoldable pub set_bit : ℕ → ℕ → ℕ
set_bit block bitidx = bit_or block (2 ^ bitidx)

-- CLEAR_BIT; of the complement of `1 << bitidx` only the low byte meets the block
unfoldable pub clear_bit : ℕ → ℕ → ℕ
clear_bit block bitidx = bit_and block (255 - 2 ^ bitidx)

-- `calloc_ok n` says whether `calloc` gives `n` bytes. `nbits - 1` becomes an unsigned 64-bit number.
unfoldable pub bitmap_init : (ℕ → Bool) → ℕ → Errcode × Option Bitmap
bitmap_init calloc_ok nbits =
    let blocks = (nbits + 2 ^ 64 - 1) % 2 ^ 64 / block_size + 1 in
    if calloc_ok blocks
    then (success, some (record { data_blocks = replicate blocks 0; size = nbits }))
    else (fail, none)

-- The byte at an index. The loop of `find_first` reads before it tests the index, so it may read past
-- the end of the array; `beyond` is what such a read gives.
unfoldable pub read_block : Bitmap → (ℕ → ℕ) → ℕ → ℕ
read_block bitmap beyond i =
    if ltb i (length bitmap.data_blocks) then get_or bitmap.data_blocks i 0 else beyond i

-- the first `while` of `find_first`
unfoldable pub skip_blocks : ℕ → Bitmap → (ℕ → ℕ) → ℕ → ℕ → Run ℕ
skip_blocks zero bitmap beyond skip_block blockidx = fault out_of_fuel
skip_blocks (suc fuel) bitmap beyond skip_block blockidx =
    let rest = skip_blocks fuel bitmap beyond skip_block (blockidx + 1) in
    if (read_block bitmap beyond blockidx == skip_block) && leb blockidx (bitmap.size / block_size)
    then rest
    else ok blockidx

-- equality of two BOOLs
abbrev pub same_bit : Bool → Bool → Bool
same_bit true b = b
same_bit false b = not b

-- the second `while` of `find_first`, with the rounds that `bitidx < BLOCK_SIZE` leaves
unfoldable pub scan_bits : ℕ → ℕ → Bool → ℕ → ℕ → ℕ → Option ℕ
scan_bits zero block value maxbitidx base bitidx = none
scan_bits (suc rounds) block value maxbitidx base bitidx =
    let rest = scan_bits rounds block value maxbitidx base (bitidx + 1) in
    if ltb bitidx maxbitidx
    then (if same_bit (get_bit block bitidx) value then some (base + bitidx) else rest)
    else none

-- -1 is `none`
unfoldable pub find_first : Bitmap → (ℕ → ℕ) → Bool → ℕ → Run (Option ℕ)
find_first bitmap beyond value skip_block = do
  blockidx ← skip_blocks (bitmap.size / block_size + 2) bitmap beyond skip_block 0
  let block = read_block bitmap beyond blockidx
  let maxbitidx = bitmap.size - blockidx * block_size
  ok (
      if ltb (bitmap.size / block_size) blockidx
      then none
      else scan_bits block_size block value maxbitidx (blockidx * block_size) 0)

-- the error code that `*idx` gives
unfoldable pub found_code : Option ℕ → Errcode × Option ℕ
found_code none = (not_found, none)
found_code (some i) = (success, some i)

unfoldable pub bitmap_first_set : Bitmap → (ℕ → ℕ) → Run (Errcode × Option ℕ)
bitmap_first_set bitmap beyond = do idx ← find_first bitmap beyond true 0x00; ok (found_code idx)

unfoldable pub bitmap_first_clear : Bitmap → (ℕ → ℕ) → Run (Errcode × Option ℕ)
bitmap_first_clear bitmap beyond = do idx ← find_first bitmap beyond false 0xFF; ok (found_code idx)

-- An index is a number, not an `int`: `bitmap_get` and its kin do not refuse a negative one.
unfoldable pub bitmap_set : Bitmap → ℕ → Run (Errcode × Bitmap)
bitmap_set bitmap idx = do
  assert (ltb idx bitmap.size)
  block ← at bitmap.data_blocks (idx / block_size)
  blocks ← put bitmap.data_blocks (idx / block_size) (set_bit block (idx % block_size))
  ok (success, record bitmap { data_blocks = blocks })

unfoldable pub bitmap_clear : Bitmap → ℕ → Run (Errcode × Bitmap)
bitmap_clear bitmap idx = do
  assert (ltb idx bitmap.size)
  block ← at bitmap.data_blocks (idx / block_size)
  blocks ← put bitmap.data_blocks (idx / block_size) (clear_bit block (idx % block_size))
  ok (success, record bitmap { data_blocks = blocks })

unfoldable pub bitmap_get : Bitmap → ℕ → Run Bool
bitmap_get bitmap idx = do
  assert (ltb idx bitmap.size)
  block ← at bitmap.data_blocks (idx / block_size)
  ok (get_bit block (idx % block_size))

unfoldable pub bitmap_destroy : Bitmap → Bitmap
bitmap_destroy bitmap = record bitmap { data_blocks = [] }
