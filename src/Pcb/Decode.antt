-- ===== src/Pcb/Decode.antt =====
-- util/pcb_util.c and vmsim/pcb.c: what a process does with one piece of mail.
use vmsim.Prelude.{ℕ, Bool, true, false, Option, none, some, List, [], ◌==◌, length}
use vmsim.Run.{Run, ok, fault, bad_access, ◌>>=◌, ◌>>◌, assert, at}
use vmsim.Types.{Errcode, VirtAddr}
use vmsim.Pcb.{
  Func, Arg, address, number, text, byte, Post, fc_read, fc_loop_read, fc_read_to_file,
  fc_loop_read_to_file, fc_write, fc_loop_write, fc_del,
}
use vmsim.Pcb.Sim.{Memory, sim_read, sim_write, sim_loop_write}

-- `post->func == f`; the functions are numbered as in the `enum`
abbrev func_code : Func → ℕ
func_code fc_read = 0
func_code fc_loop_read = 1
func_code fc_read_to_file = 2
func_code fc_loop_read_to_file = 3
func_code fc_write = 4
func_code fc_loop_write = 5
func_code fc_del = 6

abbrev is_func : Post → Func → Bool
is_func post f = func_code post.func == func_code f

-- the casts of an argument; the number that `int*` points to is the 32-bit pattern that was stored
abbrev as_address : Arg → Run VirtAddr
as_address (address a) = ok a
as_address (number n) = fault bad_access
as_address (text s) = fault bad_access
as_address (byte c) = fault bad_access

abbrev as_number : Arg → Run ℕ
as_number (address a) = fault bad_access
as_number (number n) = ok n
as_number (text s) = fault bad_access
as_number (byte c) = fault bad_access

abbrev as_text : Arg → Run (List ℕ)
as_text (address a) = fault bad_access
as_text (number n) = fault bad_access
as_text (text s) = ok s
as_text (byte c) = fault bad_access

abbrev as_byte : Arg → Run ℕ
as_byte (address a) = fault bad_access
as_byte (number n) = fault bad_access
as_byte (text s) = fault bad_access
as_byte (byte c) = ok c

unfoldable pub arg : {B : Type 0} → (Arg → Run B) → Post → ℕ → Run B
arg cast post i = do a ← at post.args i; cast a

module _ {W : Type 0} (memory : Memory W) where
  -- a reading command gives the bytes and the name of the file, if any
  abbrev pub Printed : Type 0
  Printed = Errcode × List ℕ × Option (List ℕ) × W

  abbrev printed : Option (List ℕ) → Errcode × List ℕ × VirtAddr × W → Run Printed
  printed file (err, bytes, _, w') = ok (err, bytes, file, w')

  unfoldable pub read_decoder : W → Post → Run Printed
  read_decoder w post = do
    assert (length post.args == 2)
    assert (is_func post fc_read)
    addr ← arg as_address post 0
    amount ← arg as_number post 1
    r ← sim_read memory w addr 1 amount
    printed none r

  unfoldable pub loop_read_decoder : W → Post → Run Printed
  loop_read_decoder w post = do
    assert (length post.args == 3)
    assert (is_func post fc_loop_read)
    addr ← arg as_address post 0
    offset ← arg as_number post 1
    amount ← arg as_number post 2
    r ← sim_read memory w addr offset amount
    printed none r

  unfoldable pub read_file_decoder : W → Post → Run Printed
  read_file_decoder w post = do
    assert (length post.args == 3)
    assert (is_func post fc_read_to_file)
    addr ← arg as_address post 0
    amount ← arg as_number post 1
    file ← arg as_text post 2
    r ← sim_read memory w addr 1 amount
    printed (some file) r

  unfoldable pub loop_read_file_decoder : W → Post → Run Printed
  loop_read_file_decoder w post = do
    assert (length post.args == 4)
    assert (is_func post fc_loop_read_to_file)
    addr ← arg as_address post 0
    offset ← arg as_number post 1
    amount ← arg as_number post 2
    file ← arg as_text post 3
    r ← sim_read memory w addr offset amount
    printed (some file) r

  abbrev silent : Errcode × VirtAddr × W → Run Printed
  silent (err, _, w') = ok (err, [], none, w')

  unfoldable pub write_decoder : W → Post → Run Printed
  write_decoder w post = do
    assert (length post.args == 3)
    assert (is_func post fc_write)
    addr ← arg as_address post 0
    s ← arg as_text post 1
    amount ← arg as_number post 2
    r ← sim_write memory w addr s amount
    silent r

  unfoldable pub loop_write_decoder : W → Post → Run Printed
  loop_write_decoder w post = do
    assert (length post.args == 4)
    assert (is_func post fc_loop_write)
    addr ← arg as_address post 0
    c ← arg as_byte post 1
    off ← arg as_number post 2
    amount ← arg as_number post 3
    r ← sim_loop_write memory w addr c off amount
    silent r

  -- the `switch` of `process_func` on a post; `dealloc` is `process_dealloc` for this process. The Boolean says
  -- whether the thread stops.
  unfoldable pub process_post : (W → Run Printed) → W → Post → Run (Bool × Printed)
  process_post dealloc w post = elim post.func [
    | fc_read ↦ (do r ← read_decoder w post; ok (false, r))
    | fc_loop_read ↦ (do r ← loop_read_decoder w post; ok (false, r))
    | fc_read_to_file ↦ (do r ← read_file_decoder w post; ok (false, r))
    | fc_loop_read_to_file ↦ (do r ← loop_read_file_decoder w post; ok (false, r))
    | fc_write ↦ (do r ← write_decoder w post; ok (false, r))
    | fc_loop_write ↦ (do r ← loop_write_decoder w post; ok (false, r))
    | fc_del ↦ (do r ← dealloc w; ok (true, r))
  ]
