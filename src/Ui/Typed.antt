-- ===== src/Ui/Typed.antt =====
-- vmsim/ui_app.c: from a typed line to the mail of the process.
use vmsim.Prelude.{
  ℕ, zero, suc, ◌<◌, ◌^◌, ◌≡◌, refl, Bool, true, false, some, List, [], ◌∷◌, ◌++◌, if◌then◌else◌,
}
use vmsim.Run.{Run, ok, ◌>>=◌, >>=-assoc}
use vmsim.Types.{success, VirtAddr}
use vmsim.Text.{codes, same_text}
use vmsim.Text.Decimal.{spaced}
use vmsim.Mmu.{Mmu}
use vmsim.Pcb.{ProcCont, Post}
use vmsim.Pcb.Sim.{Memory}
use vmsim.Pcb.Decode.{Printed, process_post}
use vmsim.App.{AppData, make_virt_addr}
use vmsim.App.Request.{
  Request, read, loop_read, read_to_file, loop_read_to_file, write, loop_write, send, effect,
  IsLive, delivered, send-process_post,
}
use vmsim.Ui.{UiCmd, Answer}
use vmsim.Ui.Line.{words_of, do_request, IsTypeable, do_request-send}
use vmsim.Ui.Handler.{Ui, World, Outcome, wait_job_done, choose_command, finish, command_handler}

-- the name of the command for a request
abbrev pub name_of : Request → List ℕ
name_of (read amount) = codes "read"
name_of (loop_read off amount) = codes "loopRead"
name_of (read_to_file amount file) = codes "readToFile"
name_of (loop_read_to_file off amount file) = codes "loopReadToFile"
name_of (write s) = codes "write"
name_of (loop_write c off amount) = codes "loopWrite"

-- the line that the user types
abbrev pub typed : ℕ → ℕ → Request → UiCmd
typed vaddr id r = record { command = name_of r; param = spaced (words_of vaddr id r) }

-- a command for a process, from the answer of its function
abbrev after : Ui → Answer → Run Outcome
after ui answer = do
  (ret_cmd, app) ← answer
  ok (record {
    to_return = true;
    async_wait = true;
    ret_cmd = ret_cmd;
    ui = record ui { app = app };
  })

choose_command-request :
    (world : World) (batch : UiCmd → Ui → Run (Bool × Ui)) (vaddr id : ℕ) (r : Request) (ui : Ui)
    → choose_command world batch (typed vaddr id r) ui
      ≡ after ui (do_request r (typed vaddr id r) ui.app)
unfolding choose_command same_text do_request
choose_command-request world batch vaddr id (read amount) ui = refl
choose_command-request world batch vaddr id (loop_read off amount) ui = refl
choose_command-request world batch vaddr id (read_to_file amount file) ui = refl
choose_command-request world batch vaddr id (loop_read_to_file off amount file) ui = refl
choose_command-request world batch vaddr id (write s) ui = refl
choose_command-request world batch vaddr id (loop_write c off amount) ui = refl

-- the end of a command that has sent its message
finish_waits :
    (world : World) (ui : Ui)
    → finish world (record { to_return = true; async_wait = true; ret_cmd = true; ui = ui }) ≡ (do
      ui' ← if ui.job_done then ok ui else world.others ui
      ok (true, record ui' { job_done = false }))
unfolding finish wait_job_done
finish_waits world ui =
    >>=-assoc (if ui.job_done then ok ui else world.others ui)
      (λ ui'. ok (record ui' { job_done = false })) (λ ui'. ok (true, ui'))

-- For a system that is initialised, a page size of 1 to 2 ^ 31 - 1, a process that is neither junk
-- nor being deleted, 32-bit numbers and words without blanks, command_handler with one of the six
-- lines that ask for memory puts one post at the end of the mail box of that process and changes
-- nothing else of the data; it then goes on at once if job_done is set, and otherwise after the
-- other threads, and clears job_done; and the process that takes the post does what the line asks
-- for, with each number taken as the int of the same 32-bit pattern, at the address that
-- make_virt_addr gives, for any memory.
pub command_handler-typed :
    {W : Type 0} (memory : Memory W) (dealloc : W → Run (Printed memory)) (w : W) (depth : ℕ)
    (world : World) (ui : Ui) (cont : ProcCont) (mmu : Mmu) (mail : List Post) (vaddr id : ℕ)
    (r : Request)
    → ui.app.initialized ≡ true
    → ui.app.proc_cont ≡ some (cont, mmu)
    → 0 < mmu.mem.page_size
    → mmu.mem.page_size < 2 ^ 31
    → IsLive cont id mail
    → vaddr < 2 ^ 32
    → id < 2 ^ 32
    → IsTypeable r
    → (post : Post) × (v : VirtAddr) × (app' : AppData) × (make_virt_addr vaddr mmu.mem.page_size id
        ≡ ok v)
      × (app'.proc_cont ≡ some (delivered cont id (mail ++ post ∷ []), mmu))
      × (command_handler depth world (typed vaddr id r) ui ≡ (do
        ui' ←
            if ui.job_done
            then ok (record ui { app = app' })
            else world.others (record ui { app = app' })
        ok (true, record ui' { job_done = false })))
      × (process_post memory dealloc w post ≡ (effect memory w v r >>= λ p. ok (false, p)))
unfolding command_handler
command_handler-typed memory dealloc w depth world ui cont mmu mail vaddr id r ready held pos small
      live a b h =
    let (post, v, made, sent, run) =
      send-process_post memory dealloc w mmu.mem.page_size cont vaddr id mail r pos small a live in
    (
      post,
      v,
      record (ui.app) { proc_cont = some (delivered cont id (mail ++ post ∷ []), mmu) },
      made,
      refl,
      handled depth sent,
      run,
    )
  where
    handled :
        {cont' : ProcCont} (depth : ℕ)
        → send mmu.mem.page_size cont vaddr id r ≡ ok (success, cont')
        → command_handler depth world (typed vaddr id r) ui ≡ (do
          ui' ←
              if ui.job_done
              then ok (record ui { app = record (ui.app) { proc_cont = some (cont', mmu) } })
              else world.others
                  (record ui { app = record (ui.app) { proc_cont = some (cont', mmu) } })
          ok (true, record ui' { job_done = false }))
    handled zero sent =
        rw
          (
            choose_command-request world _ vaddr id r ui,
            do_request-send ui.app cont mmu ready held (name_of r) vaddr id r a b h,
            sent,
          )
          (finish_waits world _)
    handled (suc depth) sent =
        rw
          (
            choose_command-request world _ vaddr id r ui,
            do_request-send ui.app cont mmu ready held (name_of r) vaddr id r a b h,
            sent,
          )
          (finish_waits world _)
