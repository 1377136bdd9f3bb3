-- ===== src/App/Print.antt =====
-- util/app_util.c: what the commands print, as values.
use vmsim.Prelude.{
  ℕ, zero, suc, ◌+◌, ◌/◌, ◌%◌, ◌^◌, Bool, ◌&&◌, ◌||◌, not, Option, none, some, List, [], ◌∷◌, ◌==◌,
  if◌then◌else◌, ltb, leb,
}
use vmsim.Run.{Run, ok, fault, bad_access, ◌>>=◌, ◌>>◌, assert, at}
use vmsim.Int.{is_negative, int_abs}
use vmsim.Ipt.{Ipt, IptEntry}
use vmsim.Mm.{Mm}
use vmsim.Mmu.{Mmu, mmu_get_stats}

-- the fields of an entry, or `none` for `(free)`, which is printed for a valid one
pub record Row : Type 0 where
  pub pid : ℕ
  pub page_num : ℕ
  pub dirty : Bool
  pub aging_ref : Bool
  pub next : Option ℕ
  pub prev : Option ℕ

unfoldable pub print_ipt_entry : IptEntry → Option Row
print_ipt_entry entry =
    if not entry.page_data.valid
    then some (record {
      pid = entry.page_data.addr.pid;
      page_num = entry.page_data.addr.page;
      dirty = entry.page_data.dirty;
      aging_ref = entry.page_data.referenced;
      next = entry.next;
      prev = entry.prev;
    })
    else none

-- the `for` over an array, from `i` on
unfoldable pub print_rows : {A B : Type 0} → (A → B) → ℕ → List A → ℕ → Run (List B)
print_rows print zero xs i = ok []
print_rows print (suc left) xs i = do
  x ← at xs i
  rest ← print_rows print left xs (i + 1)
  ok (print x ∷ rest)

unfoldable pub print_mmu_table : Ipt → Run (List (Option Row))
print_mmu_table table = print_rows print_ipt_entry table.size table.entries 0

-- the `for` over the bits of a byte, from bit `i - 1` down
unfoldable pub binary_loop : ℕ → ℕ → List ℕ
binary_loop zero byte = []
binary_loop (suc i) byte = (if byte / 2 ^ i % 2 == 1 then b'1' else b'0') ∷ binary_loop i byte

unfoldable pub print_byte_binary : ℕ → List ℕ
print_byte_binary byte = binary_loop 8 byte

-- a byte that is 0 is printed as `-`
unfoldable pub print_byte_char : ℕ → ℕ
print_byte_char byte = if byte == 0 then b'-' else byte

-- a line of the dump: in binary, as a number, which stands in hexadecimal and in decimal, and as a character
abbrev pub print_byte : ℕ → List ℕ × ℕ × ℕ
print_byte byte = (print_byte_binary byte, byte, print_byte_char byte)

-- as many bytes as there are frames
unfoldable pub print_mm : Mm → Run (List (List ℕ × ℕ × ℕ))
print_mm mm = elim mm.bytes [
  | none ↦ fault bad_access
  | some bytes ↦ print_rows print_byte mm.npages bytes 0
]

-- The quotient as its two numbers, `int`s given by their patterns. With no reference it is not a number, and both
-- assertions fail.
unfoldable pub print_hit_rate : Mmu → Run (ℕ × ℕ)
print_hit_rate mmu =
    let stats = mmu_get_stats mmu in
    let same_sign =
      (stats.hits == 0)
      || (if is_negative stats.hits
          then is_negative stats.nrefs
          else not (is_negative stats.nrefs)) in
    do
      assert (ltb 0 stats.nrefs && leb (int_abs stats.hits) (int_abs stats.nrefs) && same_sign)
      ok (stats.hits, stats.nrefs)

unfoldable pub print_registers : Ipt → Run (List ℕ)
print_registers ipt = print_rows (λ (e : IptEntry). e.page_data.page_age) ipt.size ipt.entries 0

unfoldable pub print_hat : Ipt → Run (List (Option ℕ))
print_hat ipt = print_rows (λ h. h) ipt.size ipt.hat 0
