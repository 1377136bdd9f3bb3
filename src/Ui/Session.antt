-- ===== src/Ui/Session.antt =====
-- vmsim/ui_app.c: the main loop on the lines that a user types.
use vmsim.Prelude.{
  ℕ, zero, suc, ◌≤◌, ◌≡◌, Bool, true, false, List, [], ◌∷◌, ◌++◌, arith, length, ap, if◌then◌else◌,
}
use vmsim.Run.{Run, ok, fault, ◌>>=◌}
use vmsim.Ui.{UiCmd}
use vmsim.Ui.Handler.{Ui, World, command_handler, main_loop}
use vmsim.Ui.Batch.{line_of, AreCommands, run_all, get_command-batch_command}

-- the lines of the commands one after the other
abbrev pub session : List UiCmd → List ℕ
session [] = []
session (cmd ∷ rest) = line_of cmd.command cmd.param ++ session rest

result_of : Ui → Run (Bool × Ui) → Ui
result_of ui (ok (not_done, ui')) = ui'
result_of ui (fault e) = ui

-- a loop that goes on as the commands do ends with the same state
goes_on :
    (r : Run (Bool × Ui)) (ui' : Ui) (more : Ui → Run (Bool × Ui)) (loop : Ui → Run Ui)
    → ((ui : Ui) → more ui ≡ ok (false, ui') → loop ui ≡ ok ui')
    → (r >>= λ (not_done, ui). if not_done then more ui else ok (false, ui)) ≡ ok (false, ui')
    → (r >>= λ (not_done, ui). if not_done then loop ui else ok ui) ≡ ok ui'
unfolding result_of
goes_on (fault e) ui' more loop next ends = absurd (ground (arith, ends))
goes_on (ok (true, ui)) ui' more loop next ends = next ui ends
goes_on (ok (false, ui)) ui' more loop next ends = ap ok (ap (result_of ui) ends)

-- For lines of such commands that end the program when they are handled one after the other, the
-- main loop, with at least as many rounds as commands, reads them from the input, ends, and leaves
-- the same state.
pub main_loop-run_all :
    (rounds depth : ℕ) (world : World) (cmds : List UiCmd) (ui ui' : Ui)
    → AreCommands cmds
    → length cmds ≤ rounds
    → run_all (command_handler depth world) cmds ui ≡ ok (false, ui')
    → main_loop rounds depth world (session cmds) ui ≡ ok ui'
unfolding main_loop
main_loop-run_all rounds depth world [] ui ui' are enough ends = absurd (ground (arith, ends))
main_loop-run_all zero depth world (cmd ∷ rest) ui ui' are enough ends = absurd (omega arith)
main_loop-run_all (suc rounds) depth world (cmd ∷ rest) ui ui' (command, param, others) enough
      ends =
    rw (get_command-batch_command cmd.command cmd.param (session rest) command param).0 (
      goes_on (command_handler depth world cmd ui) ui' (run_all (command_handler depth world) rest)
        (main_loop rounds depth world (session rest))
        (λ ui₁ h. main_loop-run_all rounds depth world rest ui₁ ui' others (omega arith) h) ends)
