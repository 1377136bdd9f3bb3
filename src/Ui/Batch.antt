-- ===== src/Ui/Batch.antt =====
-- vmsim/ui_app.c: a line is the same command at the prompt and in a batch file.
use vmsim.Prelude.{
  ℕ, zero, suc, ◌+◌, ◌≤◌, ◌<◌, ◌≡◌, refl, Bool, true, false, not, List, [], ◌∷◌, ◌++◌, ◌==◌, arith,
  length, drop, ap, if◌then◌else◌, some,
}
use vmsim.Run.{Run, ok, ◌>>=◌}
use vmsim.Text.{is_space, same_text, skip_space, word_of}
use vmsim.Text.Decimal.{all}
use vmsim.Ui.{UiCmd}
use vmsim.Ui.Handler.{
  Ui, World, do_batch_file, strip_newline, batch_command, batch_loop, fgets, get_param, get_command,
}

-- a word that fits the array of the command
pub record IsCommand (command : List ℕ) : Type 0 where
  pub letters : all (λ c. not (is_space c)) command ≡ true
  pub filled : 0 < length command
  pub short : length command ≤ 14

-- what follows fits the array of the parameters, with the byte for the new line
pub record IsParam (param : List ℕ) : Type 0 where
  pub line : all (λ c. not (c == b'\n')) param ≡ true
  pub short : length param < 4095

-- the line for a command
abbrev pub line_of : List ℕ → List ℕ → List ℕ
line_of command [] = command ++ b'\n' ∷ []
line_of command (c ∷ param) = command ++ b' ' ∷ ((c ∷ param) ++ b'\n' ∷ [])

skip_space-word :
    (s t : List ℕ)
    → all (λ c. not (is_space c)) s ≡ true
    → 0 < length s
    → skip_space (s ++ t) ≡ s ++ t
unfolding skip_space all
skip_space-word [] t letters filled = absurd (omega arith)
skip_space-word (c ∷ s) t letters filled = ground arith

word_of-word :
    (limit : ℕ) (s : List ℕ) (sep : ℕ) (t : List ℕ)
    → all (λ c. not (is_space c)) s ≡ true
    → length s ≤ limit
    → is_space sep ≡ true
    → word_of limit (s ++ sep ∷ t) ≡ s
unfolding word_of all
word_of-word zero [] sep t letters short space = refl
word_of-word (suc limit) [] sep t letters short space = rw space refl
word_of-word zero (c ∷ s) sep t letters short space = absurd (omega arith)
word_of-word (suc limit) (c ∷ s) sep t letters short space =
    ground (arith, word_of-word limit s sep t)

word_of-all :
    (limit : ℕ) (s : List ℕ)
    → all (λ c. not (is_space c)) s ≡ true
    → length s ≤ limit
    → word_of limit s ≡ s
unfolding word_of all
word_of-all zero [] letters short = refl
word_of-all (suc limit) [] letters short = refl
word_of-all zero (c ∷ s) letters short = absurd (omega arith)
word_of-all (suc limit) (c ∷ s) letters short = ground (arith, word_of-all limit s)

drop-append : (s t : List ℕ) → drop (length s) (s ++ t) ≡ t
unfolding drop
drop-append [] t = refl
drop-append (c ∷ s) t = drop-append s t

fgets-line :
    (limit : ℕ) (s rest : List ℕ)
    → all (λ c. not (c == b'\n')) s ≡ true
    → length s < limit
    → fgets limit (s ++ b'\n' ∷ rest) ≡ (s ++ b'\n' ∷ [], rest)
unfolding fgets all
fgets-line zero s rest line short = absurd (omega arith)
fgets-line (suc limit) [] rest line short = refl
fgets-line (suc limit) (c ∷ s) rest line short = ground (arith, fgets-line limit s rest)

strip_newline-line : (s : List ℕ) → strip_newline (s ++ b'\n' ∷ []) ≡ ok s
unfolding strip_newline
strip_newline-line [] = refl
strip_newline-line (c ∷ []) = refl
strip_newline-line (c ∷ d ∷ s) = rw (strip_newline-line (d ∷ s)) refl

strip_newline-none :
    (s : List ℕ) → all (λ c. not (c == b'\n')) s ≡ true → 0 < length s → strip_newline s ≡ ok s
unfolding strip_newline all
strip_newline-none [] line filled = absurd (omega arith)
strip_newline-none (c ∷ []) line filled = ground arith
strip_newline-none (c ∷ d ∷ s) line filled =
    rw (strip_newline-none (d ∷ s) (ground arith) (omega arith)) refl

space_blank : is_space b' ' ≡ true
unfolding is_space
space_blank = refl

space_line : is_space b'\n' ≡ true
unfolding is_space
space_line = refl

drop-suc : (s : List ℕ) (c : ℕ) (t : List ℕ) → drop (suc (length s)) (s ++ c ∷ t) ≡ t
unfolding drop
drop-suc [] c t = refl
drop-suc (d ∷ s) c t = drop-suc s c t

drop-next : (s : List ℕ) (c : ℕ) (t : List ℕ) → drop (length s + 1) (s ++ c ∷ t) ≡ t
drop-next s c t = let next : length s + 1 ≡ suc (length s) = omega arith in rw next (drop-suc s c t)

skip_space-all :
    (s : List ℕ) → all (λ c. not (is_space c)) s ≡ true → 0 < length s → skip_space s ≡ s
unfolding skip_space all
skip_space-all [] letters filled = absurd (omega arith)
skip_space-all (c ∷ s) letters filled = ground arith

letters-line :
    (s : List ℕ) → all (λ c. not (is_space c)) s ≡ true → all (λ c. not (c == b'\n')) s ≡ true
unfolding all is_space
letters-line [] letters = refl
letters-line (c ∷ s) letters = ground (arith, letters-line s)

same_text_refl : (s : List ℕ) → same_text s s ≡ true
unfolding same_text
same_text_refl [] = refl
same_text_refl (c ∷ s) = ground (arith, same_text_refl s)

same_text-longer : (s : List ℕ) (c : ℕ) (t : List ℕ) → same_text (s ++ c ∷ t) s ≡ false
unfolding same_text
same_text-longer [] c t = refl
same_text-longer (d ∷ s) c t = ground (arith, same_text-longer s c t)

append_assoc : (a b c : List ℕ) → (a ++ b) ++ c ≡ a ++ (b ++ c)
append_assoc [] b c = refl
append_assoc (x ∷ a) b c = ap (λ l. x ∷ l) (append_assoc a b c)

-- the command with its parameters, at the prompt
get_command-param :
    (command param rest : List ℕ)
    → IsCommand command
    → IsParam param
    → get_command (command ++ b' ' ∷ (param ++ b'\n' ∷ rest))
      ≡ ok (record { command = command; param = param }, rest)
unfolding get_command get_param
get_command-param command param rest is line =
    rw
      (
        skip_space-word command (b' ' ∷ (param ++ b'\n' ∷ rest)) is.letters is.filled,
        word_of-word 14 command b' ' (param ++ b'\n' ∷ rest) is.letters is.short space_blank,
        drop-append command (b' ' ∷ (param ++ b'\n' ∷ rest)),
        fgets-line 4095 param rest line.line line.short,
        strip_newline-line param,
      )
      refl

get_command-bare :
    (command rest : List ℕ)
    → IsCommand command
    → get_command (command ++ b'\n' ∷ rest) ≡ ok (record { command = command; param = [] }, rest)
unfolding get_command get_param
get_command-bare command rest is =
    rw
      (
        skip_space-word command (b'\n' ∷ rest) is.letters is.filled,
        word_of-word 14 command b'\n' rest is.letters is.short space_line,
        drop-append command (b'\n' ∷ rest),
      )
      refl

-- and in a batch file
batch_command-param :
    (command param : List ℕ)
    → IsCommand command
    → IsParam param
    → 0 < length param
    → batch_command ((command ++ b' ' ∷ param) ++ b'\n' ∷ [])
      ≡ ok (record { command = command; param = param })
unfolding batch_command
batch_command-param command param is line filled =
    rw
      (
        strip_newline-line (command ++ b' ' ∷ param),
        skip_space-word command (b' ' ∷ param) is.letters is.filled,
        word_of-word 14 command b' ' param is.letters is.short space_blank,
        same_text-longer command b' ' param,
        drop-next command b' ' param,
        strip_newline-none param line.line filled,
        strip_newline-none command (letters-line command is.letters) is.filled,
      )
      refl

batch_command-bare :
    (command : List ℕ)
    → IsCommand command
    → batch_command (command ++ b'\n' ∷ []) ≡ ok (record { command = command; param = [] })
unfolding batch_command
batch_command-bare command is =
    rw
      (
        strip_newline-line command,
        skip_space-all command is.letters is.filled,
        word_of-all 14 command is.letters is.short,
        same_text_refl command,
        strip_newline-none command (letters-line command is.letters) is.filled,
      )
      refl

-- For a command of 1 to 14 bytes without white space and parameters of fewer than 4095 bytes without
-- a new line, the line that has them is read by get_command, whatever follows it, and by the batch
-- file reader as the same command with the same parameters.
pub get_command-batch_command :
    (command param rest : List ℕ)
    → IsCommand command
    → IsParam param
    → (get_command (line_of command param ++ rest)
        ≡ ok (record { command = command; param = param }, rest))
      × (batch_command (line_of command param) ≡ ok (record { command = command; param = param }))
get_command-batch_command command [] rest is line = (
  rw (append_assoc command (b'\n' ∷ []) rest) (get_command-bare command rest is),
  batch_command-bare command is,
)
get_command-batch_command command (c ∷ param) rest is line = (
  rw
      (
        append_assoc command (b' ' ∷ ((c ∷ param) ++ b'\n' ∷ [])) rest,
        append_assoc (c ∷ param) (b'\n' ∷ []) rest,
      )
      (get_command-param command (c ∷ param) rest is line),
  rw (← append_assoc command (b' ' ∷ (c ∷ param)) (b'\n' ∷ []))
      (batch_command-param command (c ∷ param) is line (omega arith)),
)

-- the commands one after the other, up to the first that ends the program
abbrev pub run_all : (UiCmd → Ui → Run (Bool × Ui)) → List UiCmd → Ui → Run (Bool × Ui)
run_all handle [] ui = ok (true, ui)
run_all handle (cmd ∷ rest) ui = do
  (not_done, ui') ← handle cmd ui
  let more = run_all handle rest ui'
  if not_done then more else ok (false, ui')

-- their lines
abbrev pub lines_of : List UiCmd → List (List ℕ)
lines_of [] = []
lines_of (cmd ∷ rest) = line_of cmd.command cmd.param ∷ lines_of rest

abbrev pub AreCommands : List UiCmd → Type 0
AreCommands [] = Unit {0}
AreCommands (cmd ∷ rest) = IsCommand cmd.command × IsParam cmd.param × AreCommands rest

batch_loop-run_all :
    (handle : UiCmd → Ui → Run (Bool × Ui)) (cmds : List UiCmd) (ui : Ui)
    → AreCommands cmds
    → batch_loop handle (lines_of cmds) ui ≡ run_all handle cmds ui
unfolding batch_loop
batch_loop-run_all handle [] ui are = refl
batch_loop-run_all handle (cmd ∷ rest) ui (command, param, others) =
    rw (get_command-batch_command cmd.command cmd.param [] command param).1 (
      ap (λ (k : Bool × Ui → Run (Bool × Ui)). handle cmd ui >>= k)
        (λ i (not_done, ui').
          if not_done then batch_loop-run_all handle rest ui' others i else ok (false, ui')))

-- On a system that is initialised, for a file that can be opened and whose lines are those of such
-- commands, do_batch_file handles these commands one after the other, up to the first that ends the
-- program, and answers whether none did, for any handler of commands.
pub do_batch_file-run_all :
    (world : World) (handle : UiCmd → Ui → Run (Bool × Ui)) (cmd : UiCmd) (cmds : List UiCmd)
    (ui : Ui)
    → ui.app.initialized ≡ true
    → world.lines cmd.param ≡ some (lines_of cmds)
    → AreCommands cmds
    → do_batch_file world handle cmd ui ≡ run_all handle cmds ui
unfolding do_batch_file
do_batch_file-run_all world handle cmd cmds ui ready file are =
    simp (ready, file, batch_loop-run_all handle cmds ui are)
