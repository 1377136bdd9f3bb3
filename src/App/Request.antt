-- ===== src/App/Request.antt =====
-- util/app_util.c and util/pcb_util.c: a message that a command sends makes the process run the command.
use vmsim.Prelude.{
  ℕ, ◌%◌, ◌^◌, ◌<◌, ◌≡◌, refl, false, ◌||◌, Option, none, some, List, [], ◌∷◌, ◌++◌, length, set,
}
use vmsim.Run.{Run, ok, ◌>>=◌, at}
use vmsim.Types.{Errcode, success, VirtAddr, unsigned_mod}
use vmsim.Pcb.{
  ProcCont, Post, address, number, text, byte, fc_read, fc_loop_read, fc_read_to_file,
  fc_loop_read_to_file, fc_write, fc_loop_write, compose_mail,
}
use vmsim.Pcb.Sim.{Memory, sim_read, sim_write, sim_loop_write}
use vmsim.Pcb.Decode.{
  Printed, process_post, arg, read_decoder, loop_read_decoder, read_file_decoder,
  loop_read_file_decoder, write_decoder, loop_write_decoder,
}
use vmsim.Pcb.Mail.{process_at, compose_mail_lem}
use vmsim.App.{
  make_virt_addr, read_process, loop_read_process, read_to_file_process, loop_read_to_file_process,
  write_process, loop_write_process,
}
use vmsim.App.Address.{make_virt_addr_lem}

-- what a command asks of a process at an address
pub data Request : Type 0 where
  read : ℕ → Request
  loop_read : ℕ → ℕ → Request
  read_to_file : ℕ → List ℕ → Request
  loop_read_to_file : ℕ → ℕ → List ℕ → Request
  write : List ℕ → Request
  loop_write : ℕ → ℕ → ℕ → Request

-- the function that the command calls
unfoldable pub send : ℕ → ProcCont → ℕ → ℕ → Request → Run (Errcode × ProcCont)
send page_size cont vaddr id (read amount) = read_process page_size cont vaddr id amount
send page_size cont vaddr id (loop_read off amount) =
    loop_read_process page_size cont vaddr id off amount
send page_size cont vaddr id (read_to_file amount file) =
    read_to_file_process page_size cont vaddr id amount file
send page_size cont vaddr id (loop_read_to_file off amount file) =
    loop_read_to_file_process page_size cont vaddr id off amount file
send page_size cont vaddr id (write s) = write_process page_size cont vaddr id s
send page_size cont vaddr id (loop_write c off amount) =
    loop_write_process page_size cont vaddr id c off amount

-- a process that takes mail, with what is in its mail box
pub record IsLive (cont : ProcCont) (id : ℕ) (mail : List Post) : Type 0 where
  pub full : length cont.processes ≡ cont.max_num_of_proc
  pub below : id < cont.max_num_of_proc
  pub here : ((process_at cont id).junk || (process_at cont id).del) ≡ false
  pub box : (process_at cont id).mail_box ≡ some mail

-- the table with one more post in that mail box
abbrev pub delivered : ProcCont → ℕ → List Post → ProcCont
delivered cont id mail = record cont {
  processes = set cont.processes id (record (process_at cont id) { mail_box = some mail });
}

abbrev post_of : VirtAddr → Request → Post
post_of v (read amount) = record { func = fc_read; args = address v ∷ number amount ∷ [] }
post_of v (loop_read off amount) = record {
  func = fc_loop_read;
  args = address v ∷ number off ∷ number amount ∷ [];
}
post_of v (read_to_file amount file) = record {
  func = fc_read_to_file;
  args = address v ∷ number amount ∷ text file ∷ [];
}
post_of v (loop_read_to_file off amount file) = record {
  func = fc_loop_read_to_file;
  args = address v ∷ number off ∷ number amount ∷ text file ∷ [];
}
post_of v (write s) = record {
  func = fc_write;
  args = address v ∷ text s ∷ number (length s % unsigned_mod) ∷ [];
}
post_of v (loop_write c off amount) = record {
  func = fc_loop_write;
  args = address v ∷ byte c ∷ number off ∷ number amount ∷ [];
}

module _ {W : Type 0} (memory : Memory W) where
  -- the bytes of a reading command, for the standard output or a file
  abbrev shown : Option (List ℕ) → Errcode × List ℕ × VirtAddr × W → Run (Printed memory)
  shown file (err, bytes, _, w') = ok (err, bytes, file, w')

  abbrev done : Errcode × VirtAddr × W → Run (Printed memory)
  done (err, _, w') = ok (err, [], none, w')

  -- what the command means, with no message in between
  pub effect : W → VirtAddr → Request → Run (Printed memory)
  effect w v (read amount) = sim_read memory w v 1 amount >>= shown none
  effect w v (loop_read off amount) = sim_read memory w v off amount >>= shown none
  effect w v (read_to_file amount file) = sim_read memory w v 1 amount >>= shown (some file)
  effect w v (loop_read_to_file off amount file) =
      sim_read memory w v off amount >>= shown (some file)
  effect w v (write s) = sim_write memory w v s (length s % unsigned_mod) >>= done
  effect w v (loop_write c off amount) = sim_loop_write memory w v c off amount >>= done

  process_post-post_of :
      (dealloc : W → Run (Printed memory)) (w : W) (v : VirtAddr) (r : Request)
      → process_post memory dealloc w (post_of v r) ≡ (effect w v r >>= λ p. ok (false, p))
  unfolding process_post effect read_decoder loop_read_decoder read_file_decoder
      loop_read_file_decoder write_decoder loop_write_decoder arg at
  process_post-post_of dealloc w v (read amount) = refl
  process_post-post_of dealloc w v (loop_read off amount) = refl
  process_post-post_of dealloc w v (read_to_file amount file) = refl
  process_post-post_of dealloc w v (loop_read_to_file off amount file) = refl
  process_post-post_of dealloc w v (write s) = refl
  process_post-post_of dealloc w v (loop_write c off amount) = refl

-- A request to a process that is neither junk nor being deleted puts a post at the end of its mail
-- box, and the process that takes the post does what was requested.
pub send-process_post :
    {W : Type 0} (memory : Memory W) (dealloc : W → Run (Printed memory)) (w : W) (page_size : ℕ)
    (cont : ProcCont) (vaddr id : ℕ) (mail : List Post) (r : Request)
    → 0 < page_size
    → page_size < 2 ^ 31
    → vaddr < unsigned_mod
    → IsLive cont id mail
    → (post : Post) × (v : VirtAddr) × (make_virt_addr vaddr page_size id ≡ ok v)
      × (send page_size cont vaddr id r ≡ ok (success, delivered cont id (mail ++ post ∷ [])))
      × (process_post memory dealloc w post ≡ (effect memory w v r >>= λ p. ok (false, p)))
unfolding send read_process loop_read_process read_to_file_process loop_read_to_file_process
    write_process loop_write_process
send-process_post memory dealloc w page_size cont vaddr id mail r pos small word live =
    let (v, _, made, _, _, _, _, _) = make_virt_addr_lem vaddr page_size id pos small word in
    (post_of v r, v, made, sent v made r, process_post-post_of memory dealloc w v r)
  where
    posted :
        (post : Post)
        → compose_mail cont id post ≡ ok (success, delivered cont id (mail ++ post ∷ []))
    posted post = (compose_mail_lem cont id post live.full).3 live.below live.here mail live.box

    sent :
        (v : VirtAddr)
        → make_virt_addr vaddr page_size id ≡ ok v
        → (r : Request)
        → send page_size cont vaddr id r
          ≡ ok (success, delivered cont id (mail ++ post_of v r ∷ []))
    sent v made (read amount) = rw made (posted _)
    sent v made (loop_read off amount) = rw made (posted _)
    sent v made (read_to_file amount file) = rw made (posted _)
    sent v made (loop_read_to_file off amount file) = rw made (posted _)
    sent v made (write s) = rw made (posted _)
    sent v made (loop_write c off amount) = rw made (posted _)
