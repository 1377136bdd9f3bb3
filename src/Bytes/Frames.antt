-- ===== src/Bytes/Frames.antt =====
-- An array of bytes as a row of frames of one size.
use vmsim.Prelude.{
  ℕ, ◌+◌, ◌-◌, ◌*◌, ◌≤◌, ◌<◌, ◌≡◌, refl, ◌≢◌, List, arith, length, eq_of_get_or, ◌∙◌, sym, inl, inr,
  ◌⊎◌, lt→ltb, ltb-false,
}
use native.Mathlib.Decide.{dec_lt}
use vmsim.Bytes.{slice, paste, length-slice, length-paste, get_or-slice, get_or-paste}

pub frame_in : (i n size : ℕ) → i < n → i * size + size ≤ n * size
frame_in i n size lt = grind arith

frames_apart : (i j size : ℕ) → i ≢ j → (j * size + size ≤ i * size) ⊎ (i * size + size ≤ j * size)
frames_apart i j size ne = elim (dec_lt j i) [
  | yes lt ↦ inl (frame_in j i size lt)
  | no not_lt ↦ inr (frame_in i j size (omega arith))
]

-- frame `i` of `size` bytes
abbrev pub frame : List ℕ → ℕ → ℕ → List ℕ
frame bytes size i = slice bytes (i * size) size

-- A frame that is written reads back as it was written.
pub frame-paste_same :
    (bytes : List ℕ) (size i : ℕ) (new : List ℕ)
    → i * size + size ≤ length bytes
    → length new ≡ size
    → frame (paste bytes (i * size) new) size i ≡ new
frame-paste_same bytes size i new h len =
    eq_of_get_or 0 _ new
      (length-slice _ (i * size) size
          (omega (arith, length-paste bytes (i * size) new (omega arith)))
        ∙ sym len)
      (λ k lt.
        let total = length-paste bytes (i * size) new (omega arith) in
        let lt' : k < size = omega (
          arith,
          length-slice (paste bytes (i * size) new) (i * size) size (omega (arith, total)),
        ) in
        let e : i * size + k - i * size ≡ k = omega arith in
        get_or-slice (paste bytes (i * size) new) (i * size) size k lt'
        ∙ get_or-paste bytes (i * size) new (i * size + k) (omega arith)
        ∙ rw
            (
              ltb-false (i * size + k) (i * size) (omega arith),
              lt→ltb (i * size + k) (i * size + length new) (omega arith),
              e,
            )
            refl)

-- Bytes written within one frame leave every other frame as it is.
pub frame-paste_other :
    (bytes : List ℕ) (size i off : ℕ) (new : List ℕ) (j : ℕ)
    → off + length new ≤ size
    → i * size + size ≤ length bytes
    → j * size + size ≤ length bytes
    → i ≢ j
    → frame (paste bytes (i * size + off) new) size j ≡ frame bytes size j
frame-paste_other bytes size i off new j within h h' ne =
    let len = length-paste bytes (i * size + off) new (omega arith) in
    eq_of_get_or 0 _ _
      (length-slice _ (j * size) size (omega (arith, len))
        ∙ sym (length-slice _ (j * size) size h'))
      (λ k lt.
        let lt' : k < size = omega (
          arith,
          length-slice (paste bytes (i * size + off) new) (j * size) size (omega (arith, len)),
        ) in
        get_or-slice (paste bytes (i * size + off) new) (j * size) size k lt'
        ∙ get_or-paste bytes (i * size + off) new (j * size + k) (omega arith)
        ∙ elim (frames_apart i j size ne) [
          | inl before ↦ rw (lt→ltb (j * size + k) (i * size + off) (omega arith)) refl
          | inr after ↦
              rw
                (
                  ltb-false (j * size + k) (i * size + off) (omega arith),
                  ltb-false (j * size + k) (i * size + off + length new) (omega arith),
                )
                refl
        ]
        ∙ sym (get_or-slice bytes (j * size) size k lt'))

-- A frame that is written as a whole leaves every other frame as it is.
pub frame-paste-frame :
    (bytes : List ℕ) (size i : ℕ) (new : List ℕ) (j : ℕ)
    → length new ≡ size
    → i * size + size ≤ length bytes
    → j * size + size ≤ length bytes
    → i ≢ j
    → frame (paste bytes (i * size) new) size j ≡ frame bytes size j
frame-paste-frame bytes size i new j len h h' ne =
    let e : i * size + 0 ≡ i * size = omega arith in
    rw e at (frame-paste_other bytes size i 0 new j (omega arith) h h' ne)

-- Bytes that are written read back as they were written.
pub slice-paste :
    (bytes : List ℕ) (off : ℕ) (new : List ℕ)
    → off + length new ≤ length bytes
    → slice (paste bytes off new) off (length new) ≡ new
slice-paste bytes off new h =
    let total = length-paste bytes off new h in
    let len = length-slice (paste bytes off new) off (length new) (omega (arith, total)) in
    eq_of_get_or 0 _ new len λ k lt.
      let e : off + k - off ≡ k = omega arith in
      get_or-slice (paste bytes off new) off (length new) k (omega (arith, len))
      ∙ get_or-paste bytes off new (off + k) h
      ∙ rw
          (
            ltb-false (off + k) off (omega arith),
            lt→ltb (off + k) (off + length new) (omega (arith, len)),
            e,
          )
          refl
