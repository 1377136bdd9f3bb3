-- ===== src/Pcb/Destroy.antt =====
-- `process_destroy` of vmsim/pcb.c on every process number.
use vmsim.Prelude.{
  ℕ, ◌≤◌, ◌<◌, ◌≡◌, refl, true, false, some, none, List, [], ◌∷◌, ◌++◌, arith, ◌==◌, if◌then◌else◌,
  leb, le→leb, length, set, ◌∙◌, sym, ap, Bool-cases, inl, inr, length-set, set-set, ==_refl,
}
use vmsim.Run.{ok, at, at-get_or}
use vmsim.Types.{Errcode, success, fail, not_found, VirtAddr}
use vmsim.Mmu.{Mmu}
use vmsim.Pcb.{ProcCont, Process, Post, zero_process, del_post, compose_mail, process_destroy}
use vmsim.Pcb.Mail.{process_at, put_process-set, compose_mail_lem}
use vmsim.Pcb.System.{IsSystem, owned, with_process, process_at-with_process}

-- the process once it has been told to end
abbrev pub doomed : Process → List Post → Process
doomed prc mail = record prc { del = true; mail_box = some mail }

-- whether a process has pages does not depend on its mail and its mark
owned-doomed :
    (cont : ProcCont) (i : ℕ) (mail : List Post) (k : VirtAddr)
    → i < length cont.processes
    → owned (with_process cont i (doomed (process_at cont i) mail)) k ≡ owned cont k
owned-doomed cont i mail k lt = elim (Bool-cases (i == k.pid)) [
  | inl same ↦
      let here : i ≡ k.pid = ground arith in
      rw (process_at-with_process cont i k.pid (doomed (process_at cont i) mail) lt, same, here)
        refl
  | inr other ↦
      rw (process_at-with_process cont i k.pid (doomed (process_at cont i) mail) lt, other) refl
]

-- what is left in the mail box
abbrev pub told : Process → List Post → List Post
told prc mail = if prc.del then mail else mail ++ del_post ∷ []

module _ {cont : ProcCont} {mmu : Mmu} {bytes stored : List ℕ} {pages : List (VirtAddr × ℕ)}
    (sys : IsSystem cont mmu bytes stored pages) (id : ℕ) where
  pub doomed-IsSystem :
      (mail : List Post)
      → id < cont.max_num_of_proc
      → IsSystem (with_process cont id (doomed (process_at cont id) mail)) mmu bytes stored pages
  doomed-IsSystem mail lt = record {
    full = length-set cont.processes id (doomed (process_at cont id) mail) ∙ sys.full;
    block = sys.block;
    positive = sys.positive;
    fits = sys.fits;
    memory = sys.memory;
    placed = λ k. sys.placed k ∙ sym (owned-doomed cont id mail k (omega (arith, sys.full)));
  }

  destroy_run :
      (code : Errcode) (cont₁ : ProcCont) (prc₁ : Process)
      → id < cont.max_num_of_proc
      → (process_at cont id).junk ≡ false
      → compose_mail cont id del_post ≡ ok (code, cont₁)
      → at cont₁.processes id ≡ ok prc₁
      → id < length cont₁.processes
      → process_destroy cont id ≡ ok (none, with_process cont₁ id (record prc₁ { del = true }))
  unfolding process_destroy
  destroy_run code cont₁ prc₁ lt live sent found below =
      let inside : leb cont.max_num_of_proc id ≡ false = ground arith in
      simp
        (
          inside,
          at-get_or cont.processes id zero_process (omega (arith, sys.full)),
          live,
          sent,
          found,
        )
        (rw (put_process-set cont₁ id (record prc₁ { del = true }) below) refl)

  destroyed :
      (mail : List Post)
      → id < cont.max_num_of_proc
      → (process_at cont id).junk ≡ false
      → (process_at cont id).mail_box ≡ some mail
      → process_destroy cont id
        ≡ ok (
          none,
          with_process cont id (doomed (process_at cont id) (told (process_at cont id) mail)),
        )
  destroyed mail lt live box =
      let prc = process_at cont id in
      let posted = compose_mail_lem cont id del_post sys.full in
      let below : id < length cont.processes = omega (arith, sys.full) in
      elim (Bool-cases prc.del) [
        | inl marked ↦
            destroy_run not_found cont prc lt live (posted.2 lt (ground arith))
              (at-get_or cont.processes id zero_process below) below
            ∙ ap (λ m. ok (none, with_process cont id (record prc { del = true; mail_box = m })))
                (box ∙ ap some (rw marked refl))
        | inr unmarked ↦
            let prc' = record prc { mail_box = some (mail ++ del_post ∷ []) } in
            destroy_run success (with_process cont id prc') prc' lt live
              (posted.3 lt (ground arith) mail box)
              (at-get_or (set cont.processes id prc') id zero_process
                  (omega (arith, below, length-set cont.processes id prc'))
                ∙ ap ok (process_at-with_process cont id id prc' below ∙ rw (==_refl id) refl))
              (omega (arith, below, length-set cont.processes id prc'))
            ∙ ap (λ xs. ok (none, record cont { processes = xs }))
                (set-set cont.processes id prc' (record prc' { del = true }))
            ∙ ap (λ m. ok (none, with_process cont id (doomed prc m))) (rw unmarked refl)
      ]

  -- Under the invariant of the system, process_destroy fails for a process past the maximum and
  -- answers not_found for one that is junk, and changes nothing; for any other it marks the process
  -- as being deleted, puts one message to delete into its mail box if it was not marked before, goes
  -- on to wait, and the invariant holds.
  pub process_destroy_lem :
      (cont.max_num_of_proc ≤ id → process_destroy cont id ≡ ok (some fail, cont))
      × (id < cont.max_num_of_proc
          → (process_at cont id).junk ≡ true
          → process_destroy cont id ≡ ok (some not_found, cont))
      × ((mail : List Post)
          → id < cont.max_num_of_proc
          → (process_at cont id).junk ≡ false
          → (process_at cont id).mail_box ≡ some mail
          → (process_destroy cont id
              ≡ ok (
                none,
                with_process cont id (doomed (process_at cont id) (told (process_at cont id) mail)),
              ))
            × IsSystem
                (with_process cont id
                  (doomed (process_at cont id) (told (process_at cont id) mail)))
                mmu
                bytes
                stored
                pages)
  unfolding process_destroy
  process_destroy_lem = (
    λ past. rw (le→leb cont.max_num_of_proc id past) refl,
    λ lt junk.
        let inside : leb cont.max_num_of_proc id ≡ false = ground arith in
        simp (inside, at-get_or cont.processes id zero_process (omega (arith, sys.full)), junk),
    λ mail lt live box.
        (destroyed mail lt live box, doomed-IsSystem (told (process_at cont id) mail) lt),
  )
