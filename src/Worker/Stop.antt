-- ===== src/Worker/Stop.antt =====
-- util/worker_thread.c: how the loops of the client end, or do not.
use vmsim.Prelude.{ℕ, ◌+◌, ◌≤◌, ◌≡◌, refl, ◌∙◌, true, false, arith, ◌⊎◌, inl, inr}
use vmsim.Worker.{
  WorkerPc, absent, entering, looping, leaving, finishing, exited, called, ClientPc, before,
  starting, started, stopping, stopped, Thread, worker_thread_is_running, next_round, WorkerStep,
  enter, call, check, leave, finish, ClientStep, start, wait_running, run, request, wait_exit, end,
  Run, here, by_worker, by_client,
}
use vmsim.Worker.Safety.{
  created, created-Inv, Run-Inv, is_active, has_begun, has_started, has_requested,
}

-- the steps that the worker still takes once it is to stop
abbrev pub steps_left : WorkerPc → ℕ
steps_left absent = 6
steps_left entering = 5
steps_left looping = 4
steps_left (called b) = 3
steps_left leaving = 2
steps_left finishing = 1
steps_left exited = 0

-- the calls among them
abbrev pub calls_left : WorkerPc → ℕ
calls_left absent = 1
calls_left entering = 1
calls_left looping = 1
calls_left (called b) = 0
calls_left leaving = 0
calls_left finishing = 0
calls_left exited = 0

WorkerStep-stopping :
    {t u : Thread}
    → WorkerStep t u
    → t.stop ≡ true
    → (u.stop ≡ true)
      × (u.client ≡ t.client)
      × (steps_left u.worker + 1 ≡ steps_left t.worker)
      × (u.calls + calls_left u.worker ≡ t.calls + calls_left t.worker)
unfolding next_round
WorkerStep-stopping (enter e) h = (h, refl, ground arith, ground arith)
WorkerStep-stopping (call b e) h = (h, refl, ground arith, ground arith)
WorkerStep-stopping (check {stop} e) h = (h, refl, ground arith, ground arith)
WorkerStep-stopping (leave e) h = (h, refl, ground arith, ground arith)
WorkerStep-stopping (finish e) h = (h, refl, ground arith, ground arith)

ClientStep-stopping :
    {t u : Thread}
    → ClientStep t u
    → has_requested t.client ≡ true
    → (has_requested u.client ≡ true)
      × (u.stop ≡ t.stop)
      × (u.worker ≡ t.worker)
      × (u.calls ≡ t.calls)
ClientStep-stopping (start e) h = (ground arith, ground arith, ground arith, refl)
ClientStep-stopping (wait_running e r) h = (h, refl, refl, refl)
ClientStep-stopping (run e r) h = (ground arith, refl, refl, refl)
ClientStep-stopping (request e) h = (refl, ground arith, refl, refl)
ClientStep-stopping (wait_exit e r) h = (h, refl, refl, refl)
ClientStep-stopping (end e r) h = (refl, refl, refl, refl)

-- what a run keeps once the stop has been requested
record Stopping (t : Thread) (m : ℕ) (u : Thread) : Type 0 where
  flag : u.stop ≡ true
  client : has_requested u.client ≡ true
  steps : m + steps_left u.worker ≡ steps_left t.worker
  calls : u.calls + calls_left u.worker ≡ t.calls + calls_left t.worker

Run-Stopping :
    {t u : Thread} {m : ℕ}
    → t.stop ≡ true
    → has_requested t.client ≡ true
    → Run t m u
    → Stopping t m u
Run-Stopping flag client here = record {
  flag = flag;
  client = client;
  steps = omega arith;
  calls = refl;
}
Run-Stopping flag client (by_worker r st) =
    let before = Run-Stopping flag client r in
    let (flag', same, one, counted) = WorkerStep-stopping st before.flag in
    record {
      flag = flag';
      client = rw same before.client;
      steps = omega (arith, before.steps, one);
      calls = omega (arith, before.calls, counted);
    }
Run-Stopping flag client (by_client r st) =
    let before = Run-Stopping flag client r in
    let (client', flag', worker', calls') = ClientStep-stopping st before.client in
    record {
      flag = flag' ∙ before.flag;
      client = client';
      steps = rw worker' before.steps;
      calls = rw (worker', calls') before.calls;
    }

-- a step that the worker can take, if it has begun and not ended
WorkerStep-next :
    (t : Thread) (pc : WorkerPc)
    → t.worker ≡ pc
    → has_begun pc ≡ true
    → (pc ≡ exited) ⊎ ((u : Thread) × WorkerStep t u)
WorkerStep-next t absent e b = cc
WorkerStep-next t entering e b = inr (_, enter e)
WorkerStep-next t looping e b = inr (_, call true e)
WorkerStep-next t leaving e b = inr (_, leave e)
WorkerStep-next t finishing e b = inr (_, finish e)
WorkerStep-next t exited e b = inl refl
WorkerStep-next t (called c) e b = inr (_, check e)

begun_bounds : (pc : WorkerPc) → has_begun pc ≡ true → (steps_left pc ≤ 4) × (calls_left pc ≤ 1)
begun_bounds absent b = cc
begun_bounds entering b = cc
begun_bounds looping b = omega arith
begun_bounds leaving b = omega arith
begun_bounds finishing b = omega arith
begun_bounds exited b = omega arith
begun_bounds (called c) b = omega arith

few_steps-is_active : (pc : WorkerPc) → steps_left pc ≤ 1 → is_active pc ≡ false
few_steps-is_active absent few = refl
few_steps-is_active entering few = refl
few_steps-is_active looping few = absurd (omega arith)
few_steps-is_active leaving few = absurd (omega arith)
few_steps-is_active finishing few = refl
few_steps-is_active exited few = refl
few_steps-is_active (called c) few = absurd (omega arith)

ClientStep-end :
    (t : Thread) (pc : ClientPc)
    → t.client ≡ pc
    → has_requested pc ≡ true
    → t.running ≡ false
    → (pc ≡ stopped) ⊎ ((u : Thread) × ClientStep t u × (u.client ≡ stopped))
unfolding worker_thread_is_running
ClientStep-end t before e h off = cc
ClientStep-end t starting e h off = cc
ClientStep-end t started e h off = cc
ClientStep-end t stopping e h off = inr (_, end e off, refl)
ClientStep-end t stopped e h off = inl refl

has_requested-started : (pc : ClientPc) → has_requested pc ≡ true → has_started pc ≡ true
has_requested-started before h = cc
has_requested-started starting h = cc
has_requested-started started h = cc
has_requested-started stopping h = refl
has_requested-started stopped h = refl

-- From any state in which worker_thread_stop waits, the worker takes four steps at most, is not
-- running after three, and calls its function once more at most; until it has exited it can take a
-- step, and as soon as it is not running, worker_thread_stop has returned or can.
pub worker_thread_stop_lem :
    {t u : Thread} {n m : ℕ}
    → Run created n t
    → t.client ≡ stopping
    → Run t m u
    → (m ≤ 4)
      × (3 ≤ m → u.running ≡ false)
      × (u.calls ≤ t.calls + 1)
      × ((u.worker ≡ exited) ⊎ ((v : Thread) × WorkerStep u v))
      × (u.running ≡ false
          → (u.client ≡ stopped) ⊎ ((v : Thread) × ClientStep u v × (v.client ≡ stopped)))
worker_thread_stop_lem {t} {u} {n} {m} r e later =
    let inv = Run-Inv created-Inv r in
    let inv' = Run-Inv inv later in
    let kept = Run-Stopping (inv.requested ∙ rw e refl) (rw e refl) later in
    let bounds = begun_bounds t.worker (inv.begun (rw e refl)) in
    (
      omega (arith, kept.steps, bounds.0),
      λ three. inv'.flag ∙ few_steps-is_active u.worker (omega (arith, kept.steps, bounds.0)),
      omega (arith, kept.calls, bounds.1),
      WorkerStep-next u u.worker refl (inv'.begun (has_requested-started u.client kept.client)),
      λ off. ClientStep-end u u.client refl kept.client off,
    )

-- the client waits for a thread that is over
record IsStuck (t : Thread) : Type 0 where
  worker : t.worker ≡ exited
  client : t.client ≡ starting
  running : t.running ≡ false

WorkerStep-IsStuck : {t u : Thread} → WorkerStep t u → IsStuck t → IsStuck u
WorkerStep-IsStuck (enter e) is = absurd (ground (arith, is.worker))
WorkerStep-IsStuck (call b e) is = absurd (ground (arith, is.worker))
WorkerStep-IsStuck (check e) is = absurd (ground (arith, is.worker))
WorkerStep-IsStuck (leave e) is = absurd (ground (arith, is.worker))
WorkerStep-IsStuck (finish e) is = absurd (ground (arith, is.worker))

ClientStep-IsStuck : {t u : Thread} → ClientStep t u → IsStuck t → IsStuck u
unfolding worker_thread_is_running
ClientStep-IsStuck (start e) is = absurd (ground (arith, is.client))
ClientStep-IsStuck (wait_running e r) is = is
ClientStep-IsStuck (run e r) is = absurd (ground (arith, is.running))
ClientStep-IsStuck (request e) is = absurd (ground (arith, is.client))
ClientStep-IsStuck (wait_exit e r) is = is
ClientStep-IsStuck (end e r) is = absurd (ground (arith, is.client))

Run-IsStuck : {t u : Thread} {m : ℕ} → IsStuck t → Run t m u → IsStuck u
Run-IsStuck is here = is
Run-IsStuck is (by_worker r st) = WorkerStep-IsStuck st (Run-IsStuck is r)
Run-IsStuck is (by_client r st) = ClientStep-IsStuck st (Run-IsStuck is r)

-- If the thread has exited while worker_thread_start still waits for it to run, then in every later
-- state worker_thread_start still waits.
pub worker_thread_start_hangs :
    {t u : Thread} {n m : ℕ}
    → Run created n t
    → t.client ≡ starting
    → t.worker ≡ exited
    → Run t m u
    → (u.client ≡ starting) × (u.worker ≡ exited)
worker_thread_start_hangs r c w later =
    let inv = Run-Inv created-Inv r in
    let is =
      Run-IsStuck (record { worker = w; client = c; running = inv.flag ∙ rw w refl }) later in
    (is.client, is.worker)
