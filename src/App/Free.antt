-- ===== src/App/Free.antt =====
-- `free_app_data` of util/app_util.c: every process is deleted before the table is freed.
use vmsim.Prelude.{
  ℕ, zero, suc, ◌+◌, ◌≤◌, ◌<◌, ◌≡◌, refl, true, false, none, some, List, [], arith, ◌==◌, length,
  ◌∙◌, length-set, set-set, subst, Bool-cases, inl, inr, ==_refl, ap,
}
use vmsim.Run.{Run, ok, fault, bad_access, ◌>>=◌, at-get_or}
use vmsim.Types.{Errcode, success, VirtAddr}
use vmsim.Mmu.{Mmu}
use vmsim.Pcb.{
  ProcCont, Process, zero_process, process_destroy, process_dealloc, all_junk, proc_cont_destroy,
}
use vmsim.Pcb.Mail.{process_at}
use vmsim.Pcb.System.{IsSystem, with_process, process_at-with_process}
use vmsim.Pcb.Sim.{Memory}
use vmsim.Pcb.Thread.{process_thread, process_thread-del}
use vmsim.Pcb.Delete.{gone, process_dealloc_lem}
use vmsim.Pcb.Destroy.{doomed, told, doomed-IsSystem, process_destroy_lem}
use vmsim.App.{AppData}

-- what the thread of a process does while `process_destroy` waits for it; `S` is the state of the page
-- replacement and of the aging daemon
abbrev pub Deleted : Type 0 → Type 0
Deleted S = ℕ → S → ProcCont → Mmu → Run (S × ProcCont × Mmu)

-- the `for` over the processes, from `pid` on; the codes are not looked at
unfoldable pub destroy_all :
    {S : Type 0} → Deleted S → ℕ → ℕ → S → ProcCont → Mmu → Run (S × ProcCont × Mmu)
destroy_all deleted zero pid s cont mmu = ok (s, cont, mmu)
destroy_all deleted (suc left) pid s cont mmu = do
  (code, cont₁) ← process_destroy cont pid
  (s', cont₂, mmu₂) ← elim code [ some c ↦ ok (s, cont₁, mmu) | none ↦ deleted pid s cont₁ mmu ]
  destroy_all deleted left (pid + 1) s' cont₂ mmu₂

-- with the code of `proc_cont_destroy` and the table; the MMU is freed before
unfoldable pub free_app_data : {S : Type 0} → Deleted S → S → AppData → Run (Errcode × ProcCont)
free_app_data deleted s app = elim app.proc_cont [
  | none ↦ fault bad_access
  | some (cont, mmu) ↦ do
    (_, cont', mmu') ← destroy_all deleted cont.max_num_of_proc 0 s cont mmu
    proc_cont_destroy cont'
]

-- every process has served its mail, and none is being deleted
abbrev pub IsIdle : ProcCont → Type 0
IsIdle cont =
    (j : ℕ)
    → j < cont.max_num_of_proc
    → (process_at cont j).junk ≡ false
    → ((process_at cont j).mail_box ≡ some []) × ((process_at cont j).del ≡ false)

abbrev pub AreJunk : ProcCont → ℕ → Type 0
AreJunk cont n = (j : ℕ) → j < n → (process_at cont j).junk ≡ true

all_junk-true :
    (cont : ProcCont) (left i : ℕ)
    → i + left ≤ length cont.processes
    → AreJunk cont (i + left)
    → all_junk left cont.processes i ≡ ok true
unfolding all_junk
all_junk-true cont zero i fits junk = refl
all_junk-true cont (suc left) i fits junk =
    rw
      (
        at-get_or cont.processes i zero_process (omega arith),
        junk i (omega arith),
        all_junk-true cont left (i + 1) (omega arith) (λ j lt. junk j (omega arith)),
      )
      refl

-- replacing a process by one that is junk
module _ (cont : ProcCont) (i : ℕ) (prc : Process) (lt : i < length cont.processes)
    (full : length cont.processes ≡ cont.max_num_of_proc) (dead : prc.junk ≡ true) where
  with_junk-AreJunk : AreJunk cont i → AreJunk (with_process cont i prc) (i + 1)
  with_junk-AreJunk before j below = elim (Bool-cases (i == j)) [
    | inl same ↦ rw (process_at-with_process cont i j prc lt, same) dead
    | inr other ↦ rw (process_at-with_process cont i j prc lt, other) (before j (ground arith))
  ]

  with_junk-IsIdle : IsIdle cont → IsIdle (with_process cont i prc)
  with_junk-IsIdle idle j below live = elim (Bool-cases (i == j)) [
    | inl same ↦ absurd (ground (arith, process_at-with_process cont i j prc lt, same, dead, live))
    | inr other ↦
        rw (process_at-with_process cont i j prc lt, other)
          (idle j below (ground (arith, process_at-with_process cont i j prc lt, other, live)))
  ]

module _ {S : Type 0} (memory : Memory (S × ProcCont × Mmu)) (junk_offset rounds : ℕ) where
  -- the thread of each process
  abbrev pub threads : Deleted S
  threads pid = process_thread memory junk_offset pid (suc rounds)

  -- A process that is idle is told to end, and its thread deletes it.
  idle_deleted :
      (i : ℕ) (s : S) {cont : ProcCont} {mmu : Mmu} {bytes stored : List ℕ}
      {pages : List (VirtAddr × ℕ)} (sys : IsSystem cont mmu bytes stored pages)
      → i < cont.max_num_of_proc
      → (process_at cont i).junk ≡ false
      → (process_at cont i).mail_box ≡ some []
      → (process_at cont i).del ≡ false
      → (cont₁ : ProcCont) × (prc : Process) × (mmu₂ : Mmu) × (pages₂ : List (VirtAddr × ℕ))
        × (process_destroy cont i ≡ ok (none, cont₁))
        × (threads i s cont₁ mmu ≡ ok (s, with_process cont i prc, mmu₂))
        × (prc.junk ≡ true)
        × IsSystem (with_process cont i prc) mmu₂ bytes stored pages₂
  idle_deleted i s {cont} {mmu} {bytes} {stored} sys lt live box unmarked =
      let prc = process_at cont i in
      let prc₁ = doomed prc (told prc []) in
      let prc₂ = doomed prc [] in
      let cont₁ = with_process cont i prc₁ in
      let cont₂ = with_process cont i prc₂ in
      let inside : i < length cont.processes = omega (arith, sys.full) in
      let inside₁ : i < length cont₁.processes =
        omega (arith, inside, length-set cont.processes i prc₁) in
      let (doom, _) = (process_destroy_lem sys i).2 [] lt live box in
      let sys₂ = doomed-IsSystem sys i [] lt in
      let here₁ : process_at cont₁ i ≡ prc₁ =
        process_at-with_process cont i i prc₁ inside ∙ rw (==_refl i) refl in
      let here₂ : process_at cont₂ i ≡ prc₂ =
        process_at-with_process cont i i prc₂ inside ∙ rw (==_refl i) refl in
      let (mmu₃, pages₃, freed, _, _, _, sys₃) =
        process_dealloc_lem sys₂ junk_offset i lt (ap (λ (p : Process). p.junk) here₂ ∙ live) []
          (ap (λ (p : Process). p.del) here₂) (ap (λ (p : Process). p.mail_box) here₂) in
      let again : (p : Process) → with_process cont₁ i p ≡ with_process cont i p =
        λ p. ap (λ xs. record cont { processes = xs }) (set-set cont.processes i prc₁ p) in
      let twice : with_process cont₂ i (gone (process_at cont₂ i))
          ≡ with_process cont i (gone prc₂) =
        ap (λ (p : Process). with_process cont₂ i (gone p)) here₂
        ∙ ap (λ xs. record cont { processes = xs }) (set-set cont.processes i prc₂ (gone prc₂)) in
      (
        cont₁,
        gone prc₂,
        mmu₃,
        pages₃,
        doom,
        process_thread-del memory junk_offset i rounds s cont₁ mmu (with_process cont i (gone prc₂))
            mmu₃ inside₁ (ap (λ (p : Process). p.mail_box) here₁ ∙ rw unmarked refl)
            (ap (λ c. process_dealloc junk_offset c mmu i)
                (ap (λ (p : Process). with_process cont₁ i (record p { mail_box = some [] })) here₁
                  ∙ again prc₂)
              ∙ freed
              ∙ ap (λ c. ok (success, c, mmu₃)) twice),
        refl,
        subst (λ c. IsSystem c mmu₃ bytes stored pages₃) twice sys₃,
      )

  -- the loop from a process on, when those before are junk
  destroy_all_lem :
      (left i : ℕ) (s : S) {cont : ProcCont} {mmu : Mmu} {bytes stored : List ℕ}
      {pages : List (VirtAddr × ℕ)} (sys : IsSystem cont mmu bytes stored pages)
      → i + left ≡ cont.max_num_of_proc
      → IsIdle cont
      → AreJunk cont i
      → (cont' : ProcCont) × (mmu' : Mmu) × (pages' : List (VirtAddr × ℕ)) × (destroy_all threads
            left i s cont mmu
          ≡ ok (s, cont', mmu'))
        × IsSystem cont' mmu' bytes stored pages'
        × (cont'.max_num_of_proc ≡ cont.max_num_of_proc)
        × AreJunk cont' cont.max_num_of_proc
  unfolding destroy_all
  destroy_all_lem zero i s {cont} {mmu} {pages} sys total idle junk =
      (cont, mmu, pages, refl, sys, refl, λ j lt. junk j (omega arith))
  destroy_all_lem (suc left) i s {cont} {mmu} {pages} sys total idle junk =
      elim (Bool-cases (process_at cont i).junk) [
        | inl dead ↦
            let (cont', mmu', pages', run, is', max', junk') =
              destroy_all_lem left (i + 1) s sys (omega arith) idle (λ j lt.
                elim (Bool-cases (i == j)) [
                  | inl same ↦ let e : j ≡ i = ground arith in rw e dead
                  | inr other ↦ junk j (ground arith)
                ]) in
            (
              cont',
              mmu',
              pages',
              rw ((process_destroy_lem sys i).1 (omega arith) dead, run) refl,
              is',
              max',
              junk',
            )
        | inr live ↦
            let (box, unmarked) = idle i (omega arith) live in
            let inside : i < length cont.processes = omega (arith, sys.full) in
            let (cont₁, prc, mmu₂, pages₂, doom, served, dead, sys₂) =
              idle_deleted i s sys (omega arith) live box unmarked in
            let (cont', mmu', pages', run, is', max', junk') =
              destroy_all_lem left (i + 1) s sys₂ (omega arith)
                (with_junk-IsIdle cont i prc inside sys.full dead idle)
                (with_junk-AreJunk cont i prc inside sys.full dead junk) in
            (cont', mmu', pages', rw (doom, served, run) refl, is', max', junk')
      ]

  -- Under the invariant of the system, when no process is being deleted and every mail box of a
  -- process that is not junk is empty, and the thread of each process serves its mail while
  -- process_destroy waits for it, the loop of free_app_data deletes every process and ends: all of
  -- them are junk, the invariant holds, in which no page of any process is allocated, and the table
  -- of processes is then freed with success.
  pub free_app_data_lem :
      (s : S) (app : AppData) {cont : ProcCont} {mmu : Mmu} {bytes stored : List ℕ}
      {pages : List (VirtAddr × ℕ)} (sys : IsSystem cont mmu bytes stored pages)
      → app.proc_cont ≡ some (cont, mmu)
      → IsIdle cont
      → (cont' : ProcCont) × (mmu' : Mmu) × (pages' : List (VirtAddr × ℕ)) × (destroy_all threads
            cont.max_num_of_proc 0 s cont mmu
          ≡ ok (s, cont', mmu'))
        × IsSystem cont' mmu' bytes stored pages'
        × AreJunk cont' cont.max_num_of_proc
        × (free_app_data threads s app ≡ ok (success, record cont' { processes = [] }))
  unfolding free_app_data proc_cont_destroy
  free_app_data_lem s app {cont} sys held idle =
      let (cont', mmu', pages', run, sys', max', junk) =
        destroy_all_lem cont.max_num_of_proc 0 s sys (omega arith) idle
          (λ j lt. absurd (omega arith)) in
      let all_dead =
        all_junk-true cont' cont'.max_num_of_proc 0 (omega (arith, sys'.full))
          (λ j lt. junk j (omega (arith, max'))) in
      (cont', mmu', pages', run, sys', junk, rw (held, run, all_dead) refl)
