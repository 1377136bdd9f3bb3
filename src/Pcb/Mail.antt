-- ===== src/Pcb/Mail.antt =====
-- `compose_mail` of util/pcb_util.c on every process number.
use vmsim.Prelude.{
  ℕ, zero, suc, ◌≤◌, ◌<◌, ◌≡◌, refl, Bool, true, false, ◌||◌, some, List, [], ◌∷◌, ◌++◌, arith,
  if◌then◌else◌, ◌∙◌, ltb-false, lt→ltb, length, get_or, set,
}
use vmsim.Run.{ok, fault, bad_access, at, at-get_or, put-set}
use vmsim.Types.{success, not_found}
use vmsim.Queue.Fifo
use vmsim.Pcb.{ProcCont, Process, Post, zero_process, compose_mail, push_mail, put_process}

at_outside : {A : Type 0} (xs : List A) (i : ℕ) → length xs ≤ i → at xs i ≡ fault bad_access
unfolding at
at_outside [] i le = refl
at_outside (x ∷ xs) zero le = absurd (omega arith)
at_outside (x ∷ xs) (suc i) le = at_outside xs i (omega arith)

push_mail-some :
    (prc : Process) (post : Post) (mail : List Post)
    → prc.mail_box ≡ some mail
    → push_mail prc post ≡ ok (record prc { mail_box = some (mail ++ post ∷ []) })
unfolding push_mail Fifo.push
push_mail-some prc post mail e = rw e refl

pub put_process-set :
    (cont : ProcCont) (pid : ℕ) (prc : Process)
    → pid < length cont.processes
    → put_process cont pid prc ≡ ok (record cont { processes = set cont.processes pid prc })
unfolding put_process
put_process-set cont pid prc lt = rw (put-set cont.processes pid prc lt) refl

neither :
    {A : Type 0} (a b : Bool) (x y : A)
    → (a || b) ≡ false
    → (if a then x else if b then x else y) ≡ y
neither a b x y e = ground arith

abbrev pub process_at : ProcCont → ℕ → Process
process_at cont pid = get_or cont.processes pid zero_process

-- In a table of max_num_of_proc processes, compose_mail answers not_found past the maximum and for a
-- process that is junk or being deleted, reads outside the array for the maximum itself, and
-- otherwise puts the post at the end of the mail box of that process and changes nothing else.
pub compose_mail_lem :
    (cont : ProcCont) (pid : ℕ) (post : Post)
    → length cont.processes ≡ cont.max_num_of_proc
    → (cont.max_num_of_proc < pid → compose_mail cont pid post ≡ ok (not_found, cont))
      × (pid ≡ cont.max_num_of_proc → compose_mail cont pid post ≡ fault bad_access)
      × (pid < cont.max_num_of_proc
          → ((process_at cont pid).junk || (process_at cont pid).del) ≡ true
          → compose_mail cont pid post ≡ ok (not_found, cont))
      × (pid < cont.max_num_of_proc
          → ((process_at cont pid).junk || (process_at cont pid).del) ≡ false
          → (mail : List Post) → (process_at cont pid).mail_box ≡ some mail
          → compose_mail cont pid post
            ≡ ok (
              success,
              record cont {
                processes =
                    set cont.processes pid
                      (record (process_at cont pid) { mail_box = some (mail ++ post ∷ []) });
              },
            ))
unfolding compose_mail
compose_mail_lem cont pid post full = (
  λ past. rw (lt→ltb cont.max_num_of_proc pid past) refl,
  λ e.
      rw
        (
          ltb-false cont.max_num_of_proc pid (omega arith),
          at_outside cont.processes pid (omega arith),
        )
        refl,
  λ lt gone.
      rw
        (
          ltb-false cont.max_num_of_proc pid (omega arith),
          at-get_or cont.processes pid zero_process (omega arith),
        )
        (ground arith),
  λ lt here mail box.
      let prc = process_at cont pid in
      rw
        (
          ltb-false cont.max_num_of_proc pid (omega arith),
          at-get_or cont.processes pid zero_process (omega arith),
        )
        (neither prc.junk prc.del _ _ here
          ∙ rw
              (
                push_mail-some prc post mail box,
                put_process-set cont pid (record prc { mail_box = some (mail ++ post ∷ []) })
                    (omega arith),
              )
              refl),
)
