-- ===== src/Mm.antt =====
-- vmsim/mm.h, vmsim/mm.c: the main memory, frames of bytes.
pub mod Frames
use vmsim.Prelude.{ℕ, ◌*◌, Bool, Option, none, some, List, if◌then◌else◌, ltb, replicate}
use vmsim.Run.{Run, ok, fault, assertion, ◌>>=◌, ◌>>◌, assert}
use vmsim.Int.{int_mul}
use vmsim.Types.{Errcode, success, fail}
use vmsim.Bytes.{read_bytes, write_bytes}

-- `mm_t`; `data` is `none` when it is `NULL`. `orig_addr` is the address that `mm_init` gave to `data`, so
-- it equals `data` as long as that is not `NULL`.
pub record Mm : Type 0 where
  pub bytes : Option (List ℕ)
  pub npages : ℕ
  pub page_size : ℕ

-- the assertions on `data`
unfoldable pub mm_data : Mm → Run (List ℕ)
mm_data mm = elim mm.bytes [ none ↦ fault assertion | some bytes ↦ ok bytes ]

-- the index in `data` of the first byte of the page, an `int`
unfoldable pub get_page_start : Mm → ℕ → Run ℕ
get_page_start mm page = int_mul page mm.page_size

unfoldable pub mm_init : Bool → ℕ → ℕ → Errcode × Option Mm
mm_init calloc_ok npages pagesize =
    if calloc_ok
    then (
      success,
      some (record {
        bytes = some (replicate (npages * pagesize) 0);
        npages = npages;
        page_size = pagesize;
      }),
    )
    else (fail, none)

-- with what is copied to `buf`
unfoldable pub mm_read : Mm → ℕ → Run (Errcode × List ℕ)
mm_read mm page = do
  bytes ← mm_data mm
  assert (ltb page mm.npages)
  start ← get_page_start mm page
  data_read ← read_bytes bytes start mm.page_size
  ok (success, data_read)

unfoldable pub mm_write : Mm → ℕ → List ℕ → Run (Errcode × Mm)
mm_write mm page buf = do
  bytes ← mm_data mm
  assert (ltb page mm.npages)
  new ← read_bytes buf 0 mm.page_size
  start ← get_page_start mm page
  bytes' ← write_bytes bytes start new
  ok (success, record mm { bytes = some bytes' })

-- a second call fails the assertion on `orig_addr`
unfoldable pub mm_destroy : Mm → Run Mm
mm_destroy mm = do _ ← mm_data mm; ok (record mm { bytes = none })
