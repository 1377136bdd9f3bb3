-- ===== src/Ui/Handler.antt =====
-- vmsim/ui_app.c: the choice of the command, batch files, and the main loop.
use vmsim.Prelude.{
  ℕ, zero, suc, ◌+◌, Bool, true, false, not, Option, none, some, List, [], ◌∷◌, ◌==◌, if◌then◌else◌,
  length, drop,
}
use vmsim.Run.{Run, ok, fault, bad_access, out_of_fuel, ◌>>=◌}
use vmsim.Text.{codes, same_text, skip_space, word_of}
use vmsim.Mmu.{Mmu}
use vmsim.App.{AppData}
use vmsim.App.Print.{print_hit_rate, print_mm, print_mmu_table, print_registers, print_hat}
use vmsim.Ui.{
  UiCmd, Answer, do_create_process, do_del_process, do_read, do_loop_read, do_read_to_file,
  do_loop_read_to_file, do_write, do_loop_write,
}

-- `log_level_t`
pub data LogLevel : Type 0 where
  lv_debug lv_info lv_error : LogLevel

-- what the thread of the user interface works on: its data, `job_done`, and the level of the log
pub record Ui : Type 0 where
  pub app : AppData
  pub job_done : Bool
  pub level : LogLevel

-- What is outside the thread: the two arguments of `init_process`, the other threads while this one waits
-- for a deletion or for the end of a job, and the lines of a file, as `fgets` gives them.
pub record World : Type 0 where
  pub junk_offset : ℕ
  pub beyond : ℕ → ℕ
  pub deleted : ℕ → AppData → Run AppData
  pub others : Ui → Run Ui
  pub lines : List ℕ → Option (List (List ℕ))

-- it also unlocks the mutex, which only the wait takes
unfoldable pub signal_job_done : Ui → Ui
signal_job_done ui = record ui { job_done = true }

-- while `job_done` is false the other threads run, until one of them signals
unfoldable pub wait_job_done : World → Ui → Run Ui
wait_job_done world ui = do
  ui' ← (if ui.job_done then ok ui else world.others ui)
  ok (record ui' { job_done = false })

-- the three flags of `command_handler`, with what the command left behind
pub record Outcome : Type 0 where
  pub to_return : Bool
  pub async_wait : Bool
  pub ret_cmd : Bool
  pub ui : Ui

-- a command on the data of the application
abbrev asked : Bool → Ui → Answer → Run Outcome
asked async_wait ui answer = do
  (ret_cmd, app) ← answer
  ok (record {
    to_return = true;
    async_wait = async_wait;
    ret_cmd = ret_cmd;
    ui = record ui { app = app };
  })

-- a command that prints, from what it prints
abbrev printed : {A : Type 0} → Ui → (Mmu → Run A) → Run Outcome
printed ui print =
    let go : Run Outcome = (elim ui.app.proc_cont [
      | none ↦ fault bad_access
      | some (cont, mmu) ↦ do
        _ ← print mmu
        ok (record { to_return = true; async_wait = true; ret_cmd = true; ui = signal_job_done ui })
    ]) in
    if ui.app.initialized
    then go
    else ok
        (record { to_return = true; async_wait = true; ret_cmd = false; ui = signal_job_done ui })

-- `log_set_level`, which always succeeds
abbrev leveled : Ui → LogLevel → Run Outcome
leveled ui level = ok (record {
  to_return = true;
  async_wait = true;
  ret_cmd = true;
  ui = signal_job_done (record ui { level = level });
})

-- the chain of comparisons; `batch` is `do_batch_file`
unfoldable pub choose_command : World → (UiCmd → Ui → Run (Bool × Ui)) → UiCmd → Ui → Run Outcome
choose_command world batch cmd ui =
    let batched = (do
      (to_return, ui') ← batch cmd ui
      ok (record { to_return = to_return; async_wait = true; ret_cmd = false; ui = ui' })) in
    if same_text (codes "exit") cmd.command
    then ok (record { to_return = false; async_wait = false; ret_cmd = true; ui = ui })
    else if same_text (codes "createProcess") cmd.command
    then asked false ui (do_create_process world.junk_offset world.beyond cmd ui.app)
    else if same_text (codes "delProcess") cmd.command
    then asked false ui (do_del_process world.deleted cmd ui.app)
    else if same_text (codes "read") cmd.command
    then asked true ui (do_read cmd ui.app)
    else if same_text (codes "loopRead") cmd.command
    then asked true ui (do_loop_read cmd ui.app)
    else if same_text (codes "readToFile") cmd.command
    then asked true ui (do_read_to_file cmd ui.app)
    else if same_text (codes "loopReadToFile") cmd.command
    then asked true ui (do_loop_read_to_file cmd ui.app)
    else if same_text (codes "write") cmd.command
    then asked true ui (do_write cmd ui.app)
    else if same_text (codes "loopWrite") cmd.command
    then asked true ui (do_loop_write cmd ui.app)
    else if same_text (codes "hitRate") cmd.command
    then printed ui (λ mmu. print_hit_rate mmu)
    else if same_text (codes "printMM") cmd.command
    then printed ui (λ mmu. print_mm mmu.mem)
    else if same_text (codes "printMMUTable") cmd.command
    then printed ui (λ mmu. print_mmu_table mmu.mem_ipt)
    else if same_text (codes "printRegisters") cmd.command
    then printed ui (λ mmu. print_registers mmu.mem_ipt)
    else if same_text (codes "printHAT") cmd.command
    then printed ui (λ mmu. print_hat mmu.mem_ipt)
    else if same_text (codes "monitor") cmd.command
    then leveled ui lv_info
    else if same_text (codes "noMonitor") cmd.command
    then leveled ui lv_error
    else if same_text (codes "debug") cmd.command
    then leveled ui lv_debug
    else if same_text (codes "batchFile") cmd.command
    then batched
    else ok (record { to_return = true; async_wait = true; ret_cmd = false; ui = ui })

-- the end of `command_handler`
unfoldable pub finish : World → Outcome → Run (Bool × Ui)
finish world out =
    let signaled = if not out.ret_cmd then signal_job_done out.ui else out.ui in
    let waited = (do ui' ← wait_job_done world signaled; ok (out.to_return, ui')) in
    if out.async_wait then waited else ok (out.to_return, signaled)

-- a line without the byte at its end, if that is the one for a new line; with no byte the code reads before
-- the array
unfoldable pub strip_newline : List ℕ → Run (List ℕ)
strip_newline [] = fault bad_access
strip_newline (c ∷ []) = ok (if c == b'\n' then [] else c ∷ [])
strip_newline (c ∷ d ∷ s) = do rest ← strip_newline (d ∷ s); ok (c ∷ rest)

-- the command of a line of a batch file
unfoldable pub batch_command : List ℕ → Run UiCmd
batch_command line = do
  raw_cmd ← strip_newline line
  let command = word_of 14 (skip_space raw_cmd)
  param ←
      (if same_text raw_cmd command
        then ok []
        else strip_newline (drop (length command + 1) raw_cmd))
  command' ← strip_newline command
  ok (record { command = command'; param = param })

-- the `while` of `do_batch_file`
unfoldable pub batch_loop : (UiCmd → Ui → Run (Bool × Ui)) → List (List ℕ) → Ui → Run (Bool × Ui)
batch_loop handle [] ui = ok (true, ui)
batch_loop handle (line ∷ rest) ui = do
  cmd ← batch_command line
  (not_done, ui') ← handle cmd ui
  let more = batch_loop handle rest ui'
  if not_done then more else ok (false, ui')

unfoldable pub do_batch_file : World → (UiCmd → Ui → Run (Bool × Ui)) → UiCmd → Ui → Run (Bool × Ui)
do_batch_file world handle cmd ui =
    let go : Run (Bool × Ui) = (elim (world.lines cmd.param) [
      | none ↦ ok (true, ui)
      | some lines ↦ batch_loop handle lines ui
    ]) in
    if ui.app.initialized then go else ok (false, ui)

-- `depth` bounds how deep batch files call each other
unfoldable pub command_handler : ℕ → World → UiCmd → Ui → Run (Bool × Ui)
command_handler zero world cmd ui = do
  out ← choose_command world (λ _ _. fault out_of_fuel) cmd ui
  finish world out
command_handler (suc depth) world cmd ui = do
  out ← choose_command world (do_batch_file world (command_handler depth world)) cmd ui
  finish world out

-- `fgets(s, limit + 1, stdin)`, with what is left of the input; `none` at its end
unfoldable pub fgets : ℕ → List ℕ → List ℕ × List ℕ
fgets zero input = ([], input)
fgets (suc limit) [] = ([], [])
fgets (suc limit) (c ∷ input) =
    let (s, rest) = fgets limit input in if c == b'\n' then (c ∷ [], input) else (c ∷ s, rest)

-- the parameters of a command, from the input after it. At the end of the input `param` stays empty, and the
-- code looks at the byte before it.
unfoldable pub get_param : List ℕ → List ℕ → Run (UiCmd × List ℕ)
get_param command [] = fault bad_access
get_param command (sep ∷ rest) =
    let with_param = (do
      let (s, rest') = fgets 4095 rest
      param ← strip_newline s
      ok (record { command = command; param = param }, rest')) in
    if sep == b'\n' then ok (record { command = command; param = [] }, rest) else with_param

-- with what is left of the input
unfoldable pub get_command : List ℕ → Run (UiCmd × List ℕ)
get_command input =
    let start = skip_space input in
    let command = word_of 14 start in get_param command (drop (length command) start)

-- the `do` of `app_main`, for at most `rounds` commands
unfoldable pub main_loop : ℕ → ℕ → World → List ℕ → Ui → Run Ui
main_loop zero depth world input ui = fault out_of_fuel
main_loop (suc rounds) depth world input ui = do
  (cmd, rest) ← get_command input
  (cmd_ret, ui') ← command_handler depth world cmd ui
  let more = main_loop rounds depth world rest ui'
  if cmd_ret then more else ok ui'
