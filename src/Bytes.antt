-- ===== src/Bytes.antt =====
-- `memcpy` between arrays of bytes, as util/ and vmsim/ use it.
pub mod Frames
pub mod Within
use vmsim.Prelude.{
  ℕ, zero, suc, false, ◌+◌, ◌-◌, ◌≤◌, ◌<◌, ◌≡◌, refl, List, ◌++◌, min, arith, if◌then◌else◌, leb,
  ltb, length, get_or, take, drop, length-append, length-take, length-drop, get_or-take,
  get_or-drop, get_or-append_left, get_or-append_right, eq_of_get_or, Bool-cases, inl, inr, ◌∙◌,
  sym,
}
use vmsim.Run.{Run, ok, fault, bad_access}

-- the `n` bytes from `off` on
unfoldable pub slice : List ℕ → ℕ → ℕ → List ℕ
slice bytes off n = take n (drop off bytes)

-- the bytes with those from `off` on replaced
unfoldable pub paste : List ℕ → ℕ → List ℕ → List ℕ
paste bytes off new = take off bytes ++ (new ++ drop (off + length new) bytes)

-- `memcpy` out of an array
unfoldable pub read_bytes : List ℕ → ℕ → ℕ → Run (List ℕ)
read_bytes bytes off n =
    if leb (off + n) (length bytes) then ok (slice bytes off n) else fault bad_access

-- `memcpy` into an array
unfoldable pub write_bytes : List ℕ → ℕ → List ℕ → Run (List ℕ)
write_bytes bytes off new =
    if leb (off + length new) (length bytes) then ok (paste bytes off new) else fault bad_access

pub length-slice :
    (bytes : List ℕ) (off n : ℕ) → off + n ≤ length bytes → length (slice bytes off n) ≡ n
unfolding slice
length-slice bytes off n h = omega (arith, length-take n (drop off bytes), length-drop off bytes)

pub length-paste :
    (bytes : List ℕ) (off : ℕ) (new : List ℕ)
    → off + length new ≤ length bytes
    → length (paste bytes off new) ≡ length bytes
unfolding paste
length-paste bytes off new h =
    rw (length-append, length-append, length-take, length-drop) (omega arith)

pub get_or-slice :
    (bytes : List ℕ) (off n j : ℕ)
    → j < n
    → get_or (slice bytes off n) j 0 ≡ get_or bytes (off + j) 0
unfolding slice
get_or-slice bytes off n j lt = get_or-take n j (drop off bytes) 0 lt ∙ get_or-drop off j bytes 0

pub get_or-paste :
    (bytes : List ℕ) (off : ℕ) (new : List ℕ) (j : ℕ)
    → off + length new ≤ length bytes
    → get_or (paste bytes off new) j 0 ≡ (
        if ltb j off
        then get_or bytes j 0
        else if ltb j (off + length new)
        then get_or new (j - off) 0
        else get_or bytes j 0)
unfolding paste
get_or-paste bytes off new j h =
    let len : length (take off bytes) ≡ off = omega (arith, length-take off bytes) in
    elim (Bool-cases (ltb j off)) [
      | inl before ↦ rw before (
          get_or-append_left (take off bytes) (new ++ drop (off + length new) bytes) j 0
            (ground arith)
          ∙ get_or-take off j bytes 0 (ground arith))
      | inr not_before ↦ rw not_before (
          get_or-append_right (take off bytes) (new ++ drop (off + length new) bytes) j 0
            (ground arith)
          ∙ rw len (rest not_before))
    ]
  where
    rest :
        ltb j off ≡ false
        → get_or (new ++ drop (off + length new) bytes) (j - off) 0
          ≡ (if ltb j (off + length new) then get_or new (j - off) 0 else get_or bytes j 0)
    rest not_before = elim (Bool-cases (ltb j (off + length new))) [
      | inl within ↦
          rw within
            (get_or-append_left new (drop (off + length new) bytes) (j - off) 0 (ground arith))
      | inr after ↦
          let e : off + length new + (j - off - length new) ≡ j = ground arith in
          rw after (
            get_or-append_right new (drop (off + length new) bytes) (j - off) 0 (ground arith)
            ∙ get_or-drop (off + length new) (j - off - length new) bytes 0
            ∙ rw e refl)
    ]
