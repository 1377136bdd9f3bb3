-- ===== src/Ui.antt =====
-- vmsim/ui_app.h, vmsim/ui_app.c: the commands that the user types.
pub mod Line
pub mod Handler
pub mod Typed
pub mod Batch
pub mod Session
use vmsim.Prelude.{
  ℕ, zero, suc, ◌+◌, Bool, true, false, not, Option, none, some, List, [], ◌∷◌, ◌==◌, if◌then◌else◌,
  length, is_negative,
}
use vmsim.Run.{Run, ok, fault, bad_access, ◌>>=◌}
use vmsim.Types.{Errcode, is_success}
use vmsim.Text.{Token, strtok, scan_unsigned}
use vmsim.Mmu.{Mmu}
use vmsim.Pcb.{ProcCont}
use vmsim.App.{
  AppData, create_process, del_process, read_process, loop_read_process, read_to_file_process,
  loop_read_to_file_process, write_process, loop_write_process,
}

-- `ui_cmd_t`
pub record UiCmd : Type 0 where
  pub command : List ℕ
  pub param : List ℕ

-- the answer of a command, and the data after it
abbrev pub Answer : Type 0
Answer = Run (Bool × AppData)

abbrev pub refused : AppData → Answer
refused app = ok (false, app)

-- the tests with which the commands begin
unfoldable pub when_ready : UiCmd → AppData → Answer → Answer
when_ready cmd app go =
    if app.initialized then (if length cmd.param == 0 then refused app else go) else refused app

-- `err = f(APP_DATA_PROC_CONT(app_data), ...)`, where the page size is that of its MMU
unfoldable pub post_command : AppData → (ℕ → ProcCont → Run (Errcode × ProcCont)) → Answer
post_command app send = elim app.proc_cont [
  | none ↦ fault bad_access
  | some (cont, mmu) ↦ do
    (code, cont') ← send mmu.mem.page_size cont
    ok (is_success code, record app { proc_cont = some (cont', mmu) })
]

-- the `while` that reads `left` more numbers from the tokens; it stops at the first token that is none, and
-- gives the numbers and the token at which it stopped
unfoldable pub params_loop : ℕ → Option Token → List ℕ × Option Token
params_loop zero token = ([], token)
params_loop (suc left) none = ([], none)
params_loop (suc left) (some (token, rest)) = elim (scan_unsigned token) [
  | none ↦ ([], some (token, rest))
  | some n ↦ let (params, stop) = params_loop left (strtok rest) in (n ∷ params, stop)
]

-- the arguments of `init_process` come first; the thread of the process starts to wait for mail
unfoldable pub do_create_process : ℕ → (ℕ → ℕ) → UiCmd → AppData → Answer
do_create_process junk_offset beyond cmd app =
    let create = (do
      (pid, app') ← create_process junk_offset beyond app
      ok (not (is_negative pid), app')) in
    if app.initialized then create else refused app

-- `deleted` is what the thread of a process does while `process_destroy` waits for it
unfoldable pub do_del_process : (ℕ → AppData → Run AppData) → UiCmd → AppData → Answer
do_del_process deleted cmd app = when_ready cmd app (elim (scan_unsigned cmd.param) [
  | none ↦ refused app
  | some pid ↦ do
    (code, app') ← del_process app pid
    elim code [ some c ↦ ok (true, app') | none ↦ (do app'' ← deleted pid app'; ok (true, app'')) ]
])

unfoldable pub read_with : AppData → List ℕ → Answer
read_with app (vaddr ∷ id ∷ amount ∷ []) =
    post_command app (λ page_size cont. read_process page_size cont vaddr id amount)
read_with app params = refused app

unfoldable pub do_read : UiCmd → AppData → Answer
do_read cmd app =
    let (params, _) = params_loop 3 (strtok cmd.param) in when_ready cmd app (read_with app params)

unfoldable pub loop_read_with : AppData → List ℕ → Answer
loop_read_with app (vaddr ∷ id ∷ off ∷ amount ∷ []) =
    post_command app (λ page_size cont. loop_read_process page_size cont vaddr id off amount)
loop_read_with app params = refused app

unfoldable pub do_loop_read : UiCmd → AppData → Answer
do_loop_read cmd app =
    let (params, _) = params_loop 4 (strtok cmd.param) in
    when_ready cmd app (loop_read_with app params)

unfoldable pub read_to_file_with : AppData → List ℕ → Option Token → Answer
read_to_file_with app (vaddr ∷ id ∷ amount ∷ []) (some (file, _)) =
    post_command app (λ page_size cont. read_to_file_process page_size cont vaddr id amount file)
read_to_file_with app params token = refused app

unfoldable pub do_read_to_file : UiCmd → AppData → Answer
do_read_to_file cmd app =
    let (params, token) = params_loop 3 (strtok cmd.param) in
    when_ready cmd app (read_to_file_with app params token)

unfoldable pub loop_read_to_file_with : AppData → List ℕ → Option Token → Answer
loop_read_to_file_with app (vaddr ∷ id ∷ off ∷ amount ∷ []) (some (file, _)) =
    post_command app
      (λ page_size cont. loop_read_to_file_process page_size cont vaddr id off amount file)
loop_read_to_file_with app params token = refused app

unfoldable pub do_loop_read_to_file : UiCmd → AppData → Answer
do_loop_read_to_file cmd app =
    let (params, token) = params_loop 4 (strtok cmd.param) in
    when_ready cmd app (loop_read_to_file_with app params token)

unfoldable pub write_with : AppData → List ℕ → Option Token → Answer
write_with app (vaddr ∷ id ∷ []) (some (s, _)) =
    post_command app (λ page_size cont. write_process page_size cont vaddr id s)
write_with app params token = refused app

unfoldable pub do_write : UiCmd → AppData → Answer
do_write cmd app =
    let (params, token) = params_loop 2 (strtok cmd.param) in
    when_ready cmd app (write_with app params token)

-- the `while` of `do_loop_write`: the third token is one character, the others are numbers
unfoldable pub loop_write_loop : ℕ → ℕ → Option Token → List ℕ
loop_write_loop zero tok_count token = []
loop_write_loop (suc left) tok_count none = []
loop_write_loop (suc left) tok_count (some (token, rest)) =
    let next = loop_write_loop left (tok_count + 1) (strtok rest) in
    if tok_count == 2
    then (elim token [ c ∷ [] ↦ c ∷ next | _ ↦ [] ])
    else (elim (scan_unsigned token) [ none ↦ [] | some n ↦ n ∷ next ])

unfoldable pub loop_write_with : AppData → List ℕ → Answer
loop_write_with app (vaddr ∷ id ∷ c ∷ off ∷ amount ∷ []) =
    post_command app (λ page_size cont. loop_write_process page_size cont vaddr id c off amount)
loop_write_with app params = refused app

unfoldable pub do_loop_write : UiCmd → AppData → Answer
do_loop_write cmd app =
    when_ready cmd app (loop_write_with app (loop_write_loop 5 0 (strtok cmd.param)))
