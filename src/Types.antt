-- ===== src/Types.antt =====
-- util/vmsim_types.h: error codes, machine words, and virtual addresses.
use vmsim.Prelude.{ℕ, ◌+◌, ◌^◌, ◌≡◌, Bool, true, false, ◌&&◌, arith, ◌==◌, if◌then◌else◌, ltb}

-- `errcode_t`
pub data Errcode : Type 0 where
  success fail not_found : Errcode

abbrev pub is_success : Errcode → Bool
is_success success = true
is_success fail = false
is_success not_found = false

abbrev pub is_fail : Errcode → Bool
is_fail success = false
is_fail fail = true
is_fail not_found = false

abbrev pub is_not_found : Errcode → Bool
is_not_found success = false
is_not_found fail = false
is_not_found not_found = true

-- the number of values of an `unsigned`
abbrev pub unsigned_mod : ℕ
unsigned_mod = 2 ^ 32

-- `virt_addr_t`
pub record VirtAddr : Type 0 where
  pub pid : ℕ
  pub page : ℕ
  pub offset : ℕ

-- `VIRT_ADDR_PAGE_EQ`
unfoldable pub page_eq : VirtAddr → VirtAddr → Bool
page_eq v w = (v.pid == w.pid) && (v.page == w.page)

-- `SET_MSB(var, bit)` on an `unsigned`: `var |= bit << 31`, which changes `var` only if its top bit
-- is clear and `bit` is 1.
unfoldable pub set_msb : ℕ → ℕ → ℕ
set_msb var bit = if (bit == 1) && ltb var (2 ^ 31) then var + 2 ^ 31 else var

pub page_eq_refl : (v : VirtAddr) → page_eq v v ≡ true
unfolding page_eq
page_eq_refl v = ground arith

pub page_eq_symm : (v w : VirtAddr) → page_eq v w ≡ page_eq w v
unfolding page_eq
page_eq_symm v w = ground arith

pub page_eq_trans :
    (u v w : VirtAddr) → page_eq u v ≡ true → page_eq v w ≡ true → page_eq u w ≡ true
unfolding page_eq
page_eq_trans u v w p q = ground arith
