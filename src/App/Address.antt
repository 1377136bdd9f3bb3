-- ===== src/App/Address.antt =====
-- util/app_util.c: how an address splits into a page and an offset.
use vmsim.Prelude.{
  ℕ, zero, suc, ◌+◌, ◌-◌, ◌*◌, ◌/◌, ◌%◌, ◌^◌, ◌≤◌, ◌<◌, ◌≡◌, refl, arith, ◌∙◌, ap, sym, Bool-cases,
  inl, inr, ltb, ltb→lt,
}
use Prim.Native.Nat.{bit_and}
use native.Mathlib.Decide.{dec_lt}
use native.Mathlib.Nat.{mod-lt, div-add-mod', div-eq_of_eq-mul_left, pow-le-pow_right, zero-add}
use vmsim.Run.{ok}
use vmsim.Types.{VirtAddr, unsigned_mod}
use vmsim.App.{
  shift_loop, page_shift, mask_loop, page_mask, offset_mask, page_from_address, offset_from_address,
  make_virt_addr,
}
use vmsim.App.Bits.{pow_double, pow_pos, and_low, and_high}

-- `2 ^ k` is the greatest power of two that is at most `n`
pub record IsLog (n k : ℕ) : Type 0 where
  pub at_most : 2 ^ k ≤ n
  pub greatest : n < 2 ^ suc k

shift_loop-IsLog :
    (rounds n shift : ℕ)
    → 0 < n
    → n < 2 ^ rounds
    → (k : ℕ) × (shift_loop rounds n shift ≡ ok (shift + k)) × IsLog n k × (k < rounds)
unfolding shift_loop
shift_loop-IsLog zero n shift pos lt = absurd (omega arith)
shift_loop-IsLog (suc rounds) n shift pos lt = elim (Bool-cases (ltb 1 n)) [
  | inr done ↦ (
    0,
    rw done (ap ok (omega arith)),
    record { at_most = omega arith; greatest = ground arith },
    omega arith,
  )
  | inl more ↦
      let (k, e, log, small) =
        shift_loop-IsLog rounds (n / 2) (shift + 1) (omega (arith, ltb→lt 1 n more))
          (omega (arith, pow_double rounds)) in
      (
        suc k,
        rw more (e ∙ ap ok (omega arith)),
        record {
          at_most = omega (arith, log.at_most, pow_double k);
          greatest = omega (arith, log.greatest, pow_double (suc k));
        },
        omega arith,
      )
]

mask_loop-power :
    (left i : ℕ)
    → i + left < 32
    → mask_loop left (unsigned_mod - 2 ^ i) ≡ unsigned_mod - 2 ^ (i + left)
unfolding mask_loop
mask_loop-power zero i lt = ap (λ (n : ℕ). unsigned_mod - 2 ^ n) (omega arith)
mask_loop-power (suc left) i lt =
    ap (mask_loop left) shifted
    ∙ mask_loop-power left (suc i) (omega arith)
    ∙ ap (λ (n : ℕ). unsigned_mod - 2 ^ n) (omega arith)
  where
    shifted : (unsigned_mod - 2 ^ i) * 2 % unsigned_mod ≡ unsigned_mod - 2 ^ suc i
    shifted = omega (
      arith,
      pow_double i,
      pow_pos i,
      pow-le-pow_right {n = 2} (omega arith) {i = suc i} {j = 32} (omega arith),
    )

module _ (page_size : ℕ) (pos : 0 < page_size) (small : page_size < 2 ^ 31) where
  page_shift-IsLog : (k : ℕ) × (page_shift page_size ≡ ok k) × IsLog page_size k × (k < 31)
  unfolding page_shift
  page_shift-IsLog =
      let (k, e, log, lt) = shift_loop-IsLog 32 page_size 0 pos (omega arith) in
      (k, e ∙ ap ok (zero-add k), log, below k log)
    where
      below : (k : ℕ) → IsLog page_size k → k < 31
      below k log = elim (dec_lt k 31) [
        | yes lt ↦ lt
        | no ge ↦ absurd (
            omega (
              arith,
              log.at_most,
              pow-le-pow_right {n = 2} (omega arith) {i = 31} {j = k} (omega arith),
            ))
      ]

  module _ (k : ℕ) (shift : page_shift page_size ≡ ok k) (lt : k < 31) where
    page_mask-power : page_mask page_size ≡ ok (unsigned_mod - 2 ^ k)
    unfolding page_mask
    page_mask-power = rw shift (
        ap ok
          (mask_loop-power k 0 (omega arith) ∙ ap (λ (n : ℕ). unsigned_mod - 2 ^ n) (zero-add k)))

    bits : k + (32 - k) ≡ 32
    bits = omega arith

    module _ (user_addr : ℕ) (word : user_addr < unsigned_mod) where
      high : bit_and user_addr (unsigned_mod - 2 ^ k) ≡ user_addr - user_addr % 2 ^ k
      high =
          ap (λ (n : ℕ). bit_and user_addr (2 ^ n - 2 ^ k)) (sym bits)
          ∙ and_high k (32 - k) user_addr (rw bits word)

      page_from_address-div : page_from_address page_size user_addr ≡ ok (user_addr / 2 ^ k)
      unfolding page_from_address
      page_from_address-div =
          rw (page_mask-power, shift, high)
            (ap ok
              (div-eq_of_eq-mul_left (pow_pos k) (omega (arith, div-add-mod' user_addr (2 ^ k)))))

      offset_from_address-mod : offset_from_address page_size user_addr ≡ ok (user_addr % 2 ^ k)
      unfolding offset_from_address offset_mask
      offset_from_address-mod =
          rw page_mask-power (
            ap ok (ap (bit_and user_addr) (omega (arith, pow_pos k, within)) ∙ and_low k user_addr))
        where
          within : 2 ^ k ≤ 2 ^ 32
          within = pow-le-pow_right {n = 2} (omega arith) {i = k} {j = 32} (omega arith)

-- For a page size of 1 to 2 ^ 31 - 1 and a 32-bit address, make_virt_addr splits the address by the
-- greatest power of two that is at most the page size: the page number times that power and the
-- offset make up the address, and the offset is less than it.
pub make_virt_addr_lem :
    (user_addr page_size pid : ℕ)
    → 0 < page_size
    → page_size < 2 ^ 31
    → user_addr < unsigned_mod
    → (v : VirtAddr) × (k : ℕ) × (make_virt_addr user_addr page_size pid ≡ ok v)
      × (v.pid ≡ pid)
      × (2 ^ k ≤ page_size)
      × (page_size < 2 ^ suc k)
      × (v.page * 2 ^ k + v.offset ≡ user_addr)
      × (v.offset < 2 ^ k)
unfolding make_virt_addr
make_virt_addr_lem user_addr page_size pid pos small word =
    let (k, shift, log, lt) = page_shift-IsLog page_size pos small in
    (
      record { pid = pid; page = user_addr / 2 ^ k; offset = user_addr % 2 ^ k },
      k,
      rw
          (
            offset_from_address-mod page_size pos small k shift lt user_addr word,
            page_from_address-div page_size pos small k shift lt user_addr word,
          )
          refl,
      refl,
      log.at_most,
      log.greatest,
      div-add-mod' user_addr (2 ^ k),
      mod-lt user_addr (pow_pos k),
    )
