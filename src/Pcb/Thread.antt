-- ===== src/Pcb/Thread.antt =====
-- vmsim/pcb.c: `process_func`, which the thread of a process calls until it answers `TRUE`, with the loop of
-- util/worker_thread.c around it. Nobody asks such a thread to stop in another way.
use vmsim.Prelude.{
  ℕ, zero, suc, ◌<◌, ◌≡◌, refl, Bool, Option, none, some, [], ◌∷◌, if◌then◌else◌, length,
}
use vmsim.Run.{Run, ok, fault, out_of_fuel, ◌>>=◌, at, at-get_or}
use vmsim.Types.{success}
use vmsim.Mmu.{Mmu}
use vmsim.Pcb.{ProcCont, zero_process, del_post, mail_of, put_process, process_dealloc}
use vmsim.Pcb.Sim.{Memory}
use vmsim.Pcb.Decode.{Printed, process_post}
use vmsim.Pcb.Mail.{process_at, put_process-set}
use vmsim.Pcb.Delete.{mail_of-some}
use vmsim.Pcb.System.{with_process}

-- `S` is the state of the page replacement and of the aging daemon
module _ {S : Type 0} (memory : Memory (S × ProcCont × Mmu)) (junk_offset pid : ℕ) where
  abbrev dealloc : S × ProcCont × Mmu → Run (Printed memory)
  dealloc (s, cont, mmu) = do
    (err, cont', mmu') ← process_dealloc junk_offset cont mmu pid
    ok (err, [], none, (s, cont', mmu'))

  -- with what it gives and what the post prints, or `none` while it waits for mail
  unfoldable pub process_func : S → ProcCont → Mmu → Run (Option (Bool × Printed memory))
  process_func s cont mmu = do
    prc ← at cont.processes pid
    mail ← mail_of prc
    elim mail [
      | [] ↦ ok none
      | post ∷ rest ↦ do
        cont' ← put_process cont pid (record prc { mail_box = some rest })
        r ← process_post memory dealloc (s, cont', mmu) post
        ok (some r)
    ]

  -- the `while` of `worker_thread_func`; with nobody to send mail, a thread that waits does not end
  unfoldable pub process_thread : ℕ → S → ProcCont → Mmu → Run (S × ProcCont × Mmu)
  process_thread zero s cont mmu = fault out_of_fuel
  process_thread (suc rounds) s cont mmu = do
    r ← process_func s cont mmu
    elim r [
      | none ↦ fault out_of_fuel
      | some (stop, (_, _, _, (s', cont', mmu'))) ↦
          let rest = process_thread rounds s' cont' mmu' in
          if stop then ok (s', cont', mmu') else rest
    ]

  -- A thread whose mail box holds nothing but the message to delete takes it, and ends with
  -- `process_dealloc`.
  pub process_thread-del :
      (rounds : ℕ) (s : S) (cont : ProcCont) (mmu : Mmu) (cont' : ProcCont) (mmu' : Mmu)
      → pid < length cont.processes
      → (process_at cont pid).mail_box ≡ some (del_post ∷ [])
      → process_dealloc junk_offset
          (with_process cont pid (record (process_at cont pid) { mail_box = some [] }))
          mmu
          pid
        ≡ ok (success, cont', mmu')
      → process_thread (suc rounds) s cont mmu ≡ ok (s, cont', mmu')
  unfolding process_thread process_func process_post
  process_thread-del rounds s cont mmu cont' mmu' inside box freed =
      simp
        (
          at-get_or cont.processes pid zero_process inside,
          mail_of-some (process_at cont pid) (del_post ∷ []) box,
          put_process-set cont pid (record (process_at cont pid) { mail_box = some [] }) inside,
          freed,
        )
        refl
