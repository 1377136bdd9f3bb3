-- ===== src/Ipt/Writes.antt =====
-- The writes of ipt.c, in range.
use vmsim.Prelude.{ℕ, ◌<◌, ◌≡◌, Option, arith, length, set}
use vmsim.Run.{ok, at-get_or, put-set}
use vmsim.Types.{VirtAddr}
use vmsim.Ipt.{Ipt, IptEntry, no_entry, modify, ipt_hash, ipt_set_hat}
use vmsim.Ipt.Chain.{entry}
use vmsim.Ipt.Valid.{home, home-lt}

-- `ipt->entries[i] = f(ipt->entries[i])`
pub modify-set :
    (ipt : Ipt) (i : ℕ) (f : IptEntry → IptEntry)
    → i < length ipt.entries
    → modify ipt i f ≡ ok (record ipt { entries = set ipt.entries i (f (entry ipt.entries i)) })
unfolding modify
modify-set ipt i f lt = rw (at-get_or ipt.entries i no_entry lt, put-set ipt.entries i _ lt)

pub ipt_hash-pos :
    (ipt : Ipt) (addr : VirtAddr) → 0 < ipt.size → ipt_hash ipt addr ≡ ok (home ipt.size addr)
unfolding ipt_hash home
ipt_hash-pos ipt addr pos = ground arith

pub ipt_set_hat-set :
    (ipt : Ipt) (addr : VirtAddr) (idx : Option ℕ)
    → 0 < ipt.size
    → length ipt.hat ≡ ipt.size
    → ipt_set_hat ipt addr idx ≡ ok (record ipt { hat = set ipt.hat (home ipt.size addr) idx })
unfolding ipt_set_hat
ipt_set_hat-set ipt addr idx pos len = rw (
  ipt_hash-pos ipt addr pos,
  put-set ipt.hat (home ipt.size addr) idx (omega (arith, home-lt ipt.size addr pos)),
)
