-- ===== src/Bytes/Within.antt =====
-- Bytes within one frame: reading and writing them in the frame, or in the whole array.
use vmsim.Prelude.{
  ℕ, ◌+◌, ◌-◌, ◌*◌, ◌≤◌, ◌<◌, ◌≡◌, refl, List, arith, length, eq_of_get_or, ◌∙◌, sym, get_or, ltb,
  if◌then◌else◌,
}
use vmsim.Bytes.{slice, paste, length-slice, length-paste, get_or-slice, get_or-paste}
use vmsim.Bytes.Frames.{frame}

ltb_shift : (base k n m : ℕ) → m ≡ base + n → ltb (base + k) m ≡ ltb k n
ltb_shift base k n m e = ground arith

module _ (bytes : List ℕ) (size i off : ℕ) (whole : i * size + size ≤ length bytes) where
  frame_long : length (frame bytes size i) ≡ size
  frame_long = length-slice bytes (i * size) size whole

  pub slice-frame :
      (n : ℕ) → off + n ≤ size → slice bytes (i * size + off) n ≡ slice (frame bytes size i) off n
  slice-frame n fits =
      let left = length-slice bytes (i * size + off) n (omega arith) in
      eq_of_get_or 0 _ _
        (left ∙ sym (length-slice (frame bytes size i) off n (omega (arith, frame_long))))
        (λ k lt.
          let lt' : k < n = omega (arith, left) in
          let e : i * size + off + k ≡ i * size + (off + k) = omega arith in
          get_or-slice bytes (i * size + off) n k lt'
          ∙ rw e (sym (get_or-slice bytes (i * size) size (off + k) (omega arith)))
          ∙ sym (get_or-slice (frame bytes size i) off n k lt'))

  pub frame-paste_within :
      (new : List ℕ)
      → off + length new ≤ size
      → frame (paste bytes (i * size + off) new) size i ≡ paste (frame bytes size i) off new
  frame-paste_within new fits =
      let total = length-paste bytes (i * size + off) new (omega arith) in
      let left =
        length-slice (paste bytes (i * size + off) new) (i * size) size (omega (arith, total)) in
      eq_of_get_or 0 _ _
        (left
          ∙ sym
              (length-paste (frame bytes size i) off new (omega (arith, frame_long)) ∙ frame_long))
        (λ k lt.
          let lt' : k < size = omega (arith, left) in
          get_or-slice (paste bytes (i * size + off) new) (i * size) size k lt'
          ∙ get_or-paste bytes (i * size + off) new (i * size + k) (omega arith)
          ∙ same k lt'
          ∙ sym (get_or-paste (frame bytes size i) off new k (omega (arith, frame_long))))
    where
      same :
          (k : ℕ)
          → k < size
          → (if ltb (i * size + k) (i * size + off)
              then get_or bytes (i * size + k) 0
              else if ltb (i * size + k) (i * size + off + length new)
              then get_or new (i * size + k - (i * size + off)) 0
              else get_or bytes (i * size + k) 0)
            ≡ (if ltb k off
                then get_or (frame bytes size i) k 0
                else if ltb k (off + length new)
                then get_or new (k - off) 0
                else get_or (frame bytes size i) k 0)
      same k lt =
          let there : i * size + k - (i * size + off) ≡ k - off = omega arith in
          rw
            (
              there,
              ltb_shift (i * size) k off (i * size + off) refl,
              ltb_shift (i * size) k (off + length new) (i * size + off + length new) (omega arith),
              sym (get_or-slice bytes (i * size) size k lt),
            )
            refl
