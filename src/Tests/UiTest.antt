-- ===== src/Tests/UiTest.antt =====
-- vmsim/ui_app.c on a line that writes a word, and on lines of a batch file.
use vmsim.Prelude.{
  ◌≡◌, some, refl, true, false, none, [], ◌∷◌, ◌++◌, arith, if◌then◌else◌, get_or, drop, List,
}
use vmsim.Run.{Run, ok, fault, bad_access, ◌>>=◌}
use vmsim.Types.{success, VirtAddr}
use vmsim.Text.{codes, same_text, skip_space, word_of, is_space}
use vmsim.Text.Decimal.{all}
use vmsim.Pcb.{Post}
use vmsim.Pcb.Decode.{Printed, process_post}
use vmsim.App.{AppData, make_virt_addr}
use vmsim.App.Request.{Request, write, effect, IsLive, delivered}
use vmsim.Ui.Handler.{
  Ui, World, lv_error, command_handler, batch_command, strip_newline, get_command, do_batch_file,
}
use vmsim.Ui.{UiCmd}
use vmsim.Ui.Session.{session, main_loop-run_all}
use vmsim.Ui.Handler.{main_loop, choose_command, finish, wait_job_done, signal_job_done, lv_info}
use vmsim.Ui.Batch.{
  IsCommand, IsParam, line_of, lines_of, run_all, get_command-batch_command, do_batch_file-run_all,
}
use vmsim.Ui.Typed.{typed, command_handler-typed}
use vmsim.Tests.MmuTest.{small}
use vmsim.Tests.PcbTest.{one_alive, constant_memory}

abbrev loaded_app : AppData
loaded_app = record {
  initialized = true;
  page_size = 2;
  num_of_proc_page = 2;
  shift_clock = 100;
  proc_cont = some (one_alive, small);
}

-- no other thread runs, and there are no files
abbrev quiet_world : World
quiet_world = record {
  junk_offset = 0;
  beyond = λ i. 0;
  deleted = λ pid app. ok app;
  others = λ ui. ok ui;
  lines = λ name. none;
}

abbrev fresh_ui : Ui
fresh_ui = record { app = loaded_app; job_done = true; level = lv_error }

one_alive-IsLive : IsLive one_alive 0 []
unfolding get_or
one_alive-IsLive = record { full = refl; below = omega arith; here = refl; box = refl }

abbrev abc : Request
abc = write (codes "abc")

abbrev ended : Unit {0} → Run (Printed constant_memory)
ended w = ok (success, [], none, w)

command_handler-typed_example :
    (post : Post) × (v : VirtAddr) × (app' : AppData) × (make_virt_addr 5 2 0 ≡ ok v)
    × (app'.proc_cont ≡ some (delivered one_alive 0 (post ∷ []), small))
    × (command_handler 1 quiet_world (typed 5 0 abc) fresh_ui ≡ (do
      ui' ←
          if true
          then ok (record fresh_ui { app = app' })
          else quiet_world.others (record fresh_ui { app = app' })
      ok (true, record ui' { job_done = false })))
    × (process_post constant_memory ended tt post
        ≡ (effect constant_memory tt v abc >>= λ p. ok (false, p)))
unfolding all
command_handler-typed_example =
    command_handler-typed constant_memory ended tt 1 quiet_world fresh_ui one_alive small [] 5 0 abc
      refl refl (omega arith) (omega arith) one_alive-IsLive (omega arith) (omega arith)
      (record { letters = refl; filled = omega arith })

-- a line without a command makes the code look at the byte before the array
blank_line : batch_command (b'\n' ∷ []) ≡ fault bad_access
unfolding batch_command strip_newline same_text skip_space word_of
blank_line = refl

read_line :
    batch_command (codes "read 0 1 4" ++ b'\n' ∷ [])
    ≡ ok (record { command = codes "read"; param = codes "0 1 4" })
unfolding batch_command strip_newline same_text skip_space word_of is_space drop
read_line = refl

abbrev two_commands : List UiCmd
two_commands =
    record { command = codes "read"; param = codes "0 1 4" }
    ∷ record { command = codes "exit"; param = [] }
    ∷ []

read-IsCommand : IsCommand (codes "read")
unfolding all is_space
read-IsCommand = record { letters = refl; filled = omega arith; short = omega arith }

numbers-IsParam : IsParam (codes "0 1 4")
unfolding all
numbers-IsParam = record { line = refl; short = omega arith }

exit-IsCommand : IsCommand (codes "exit")
unfolding all is_space
exit-IsCommand = record { letters = refl; filled = omega arith; short = omega arith }

nothing-IsParam : IsParam []
unfolding all
nothing-IsParam = record { line = refl; short = omega arith }

-- a world with one file
abbrev file_world : World
file_world = record quiet_world { lines = λ name. some (lines_of two_commands) }

abbrev batch : UiCmd
batch = record { command = codes "batchFile"; param = codes "two" }

get_command-batch_command_example :
    (get_command (line_of (codes "read") (codes "0 1 4") ++ codes "exit")
      ≡ ok (record { command = codes "read"; param = codes "0 1 4" }, codes "exit"))
    × (batch_command (line_of (codes "read") (codes "0 1 4"))
        ≡ ok (record { command = codes "read"; param = codes "0 1 4" }))
get_command-batch_command_example =
    get_command-batch_command (codes "read") (codes "0 1 4") (codes "exit") read-IsCommand
      numbers-IsParam

do_batch_file-run_all_example :
    do_batch_file file_world (command_handler 0 file_world) batch fresh_ui
    ≡ run_all (command_handler 0 file_world) two_commands fresh_ui
do_batch_file-run_all_example =
    do_batch_file-run_all file_world (command_handler 0 file_world) batch two_commands fresh_ui refl
      refl (read-IsCommand, numbers-IsParam, (exit-IsCommand, nothing-IsParam, tt))

abbrev monitored : List UiCmd
monitored =
    record { command = codes "monitor"; param = [] }
    ∷ record { command = codes "exit"; param = [] }
    ∷ []

abbrev last_ui : Ui
last_ui = record fresh_ui { job_done = false; level = lv_info }

monitor-IsCommand : IsCommand (codes "monitor")
unfolding all is_space
monitor-IsCommand = record { letters = refl; filled = omega arith; short = omega arith }

monitored-ends : run_all (command_handler 0 quiet_world) monitored fresh_ui ≡ ok (false, last_ui)
unfolding command_handler choose_command finish wait_job_done signal_job_done same_text
monitored-ends = refl

main_loop-run_all_example : main_loop 5 0 quiet_world (session monitored) fresh_ui ≡ ok last_ui
main_loop-run_all_example =
    main_loop-run_all 5 0 quiet_world monitored fresh_ui last_ui
      (monitor-IsCommand, nothing-IsParam, (exit-IsCommand, nothing-IsParam, tt)) (omega arith)
      monitored-ends
