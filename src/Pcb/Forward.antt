-- ===== src/Pcb/Forward.antt =====
-- Where `advance_virt_addr` of util/pcb_util.c goes, by a division, and the addresses that a loop visits with it.
use vmsim.Prelude.{
  ℕ, zero, suc, ◌+◌, ◌*◌, ◌/◌, ◌%◌, ◌≤◌, ◌<◌, ◌≡◌, List, [], ◌∷◌, arith, ◌∙◌, sym, ap,
}
use vmsim.Run.{ok}
use vmsim.Types.{VirtAddr, unsigned_mod}
use vmsim.Pcb.Sim.{advance_virt_addr}
use vmsim.Pcb.Advance.{advance_virt_addr_lem}
use native.Mathlib.Nat.{mod-eq_of_lt, add-mul-mod_self_left, div-eq_of_lt-le, mod-lt}

-- the address `step` bytes further on
abbrev pub forward : ℕ → ℕ → VirtAddr → VirtAddr
forward size step a = record a {
  page = (a.page + (a.offset + step) / size) % unsigned_mod;
  offset = (a.offset + step) % size;
}

-- `n` addresses, each `step` bytes after the one before
abbrev pub visits : ℕ → ℕ → ℕ → VirtAddr → List VirtAddr
visits size step zero a = []
visits size step (suc n) a = a ∷ visits size step n (forward size step a)

rest_unique : (q size rest total : ℕ) → rest < size → q * size + rest ≡ total → rest ≡ total % size
rest_unique q size rest total below whole =
    sym (mod-eq_of_lt below)
    ∙ sym (add-mul-mod_self_left rest size q)
    ∙ ap (λ n. n % size) (shape ∙ whole)
  where
    shape : rest + size * q ≡ q * size + rest
    shape = grind arith

quotient_unique : (q size rest total : ℕ) → rest < size → q * size + rest ≡ total → q ≡ total / size
quotient_unique q size rest total below whole =
    sym (div-eq_of_lt-le size (omega (arith, whole)) (grind (arith, below, whole)))

VirtAddr-eq : {a b : VirtAddr} → a.pid ≡ b.pid → a.page ≡ b.page → a.offset ≡ b.offset → a ≡ b
VirtAddr-eq p q r = λ i. record { pid = p i; page = q i; offset = r i }

pub advance_virt_addr-forward :
    (addr : VirtAddr) (step size : ℕ)
    → 0 < size
    → addr.page < unsigned_mod
    → addr.offset + step < unsigned_mod
    → advance_virt_addr addr step size ≡ ok (forward size step addr)
advance_virt_addr-forward addr step size pos small fits =
    let (q, next, run, c) = advance_virt_addr_lem addr step size pos small fits in
    let rest = rest_unique q size next.offset (addr.offset + step) c.below c.whole in
    let pages = quotient_unique q size next.offset (addr.offset + step) c.below c.whole in
    let page : next.page ≡ (addr.page + (addr.offset + step) / size) % unsigned_mod =
      c.page ∙ ap (λ n. (addr.page + n) % unsigned_mod) pages in
    run ∙ ap ok (VirtAddr-eq c.pid page rest)

-- `forward` stays within a page
pub forward_inside : (size step : ℕ) (a : VirtAddr) → 0 < size → (forward size step a).offset < size
forward_inside size step a pos = mod-lt (a.offset + step) pos

pub advanced :
    (size : ℕ) (a : VirtAddr) (step : ℕ)
    → a.offset < size
    → a.page < unsigned_mod
    → size + step ≤ unsigned_mod
    → advance_virt_addr a step size ≡ ok (forward size step a)
advanced size a step inside small fits =
    advance_virt_addr-forward a step size (omega arith) small (omega arith)
