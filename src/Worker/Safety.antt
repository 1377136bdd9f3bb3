-- ===== src/Worker/Safety.antt =====
-- util/worker_thread.c: what holds at every moment of a run.
use vmsim.Prelude.{ℕ, ◌≡◌, ◌≢◌, refl, ◌∙◌, Bool, true, false, arith}
use vmsim.Worker.{
  WorkerPc, absent, entering, looping, leaving, finishing, exited, called, ClientPc, before,
  starting, started, stopping, stopped, Thread, worker_thread_create, worker_thread_is_running,
  next_round, WorkerStep, enter, call, check, leave, finish, ClientStep, start, wait_running, run,
  request, wait_exit, end, Run, here, by_worker, by_client,
}

-- in the loop or just after it
abbrev pub is_active : WorkerPc → Bool
is_active absent = false
is_active entering = false
is_active looping = true
is_active leaving = true
is_active finishing = false
is_active exited = false
is_active (called b) = true

-- the client has seen the thread run
abbrev pub has_started : ClientPc → Bool
has_started before = false
has_started starting = false
has_started started = true
has_started stopping = true
has_started stopped = true

abbrev pub has_begun : WorkerPc → Bool
has_begun absent = false
has_begun entering = false
has_begun looping = true
has_begun leaving = true
has_begun finishing = true
has_begun exited = true
has_begun (called b) = true

-- the flag `running` is cleared, and the function is not called again
abbrev pub is_past : WorkerPc → Bool
is_past absent = false
is_past entering = false
is_past looping = false
is_past leaving = false
is_past finishing = true
is_past exited = true
is_past (called b) = false

abbrev pub is_before : ClientPc → Bool
is_before before = true
is_before starting = false
is_before started = false
is_before stopping = false
is_before stopped = false

abbrev pub is_absent : WorkerPc → Bool
is_absent absent = true
is_absent entering = false
is_absent looping = false
is_absent leaving = false
is_absent finishing = false
is_absent exited = false
is_absent (called b) = false

abbrev pub has_requested : ClientPc → Bool
has_requested before = false
has_requested starting = false
has_requested started = false
has_requested stopping = true
has_requested stopped = true

abbrev pub is_stopped : ClientPc → Bool
is_stopped before = false
is_stopped starting = false
is_stopped started = false
is_stopped stopping = false
is_stopped stopped = true

pub record Inv (t : Thread) : Type 0 where
  pub flag : t.running ≡ is_active t.worker
  pub absent_before : is_absent t.worker ≡ is_before t.client
  pub begun : has_started t.client ≡ true → has_begun t.worker ≡ true
  pub requested : t.stop ≡ has_requested t.client
  pub ended : is_stopped t.client ≡ true → is_active t.worker ≡ false

WorkerStep-Inv : {t u : Thread} → WorkerStep t u → Inv t → Inv u
unfolding next_round
WorkerStep-Inv (enter e) inv = ground (arith, inv.begun, inv.ended)
WorkerStep-Inv (call b e) inv = ground (arith, inv.begun, inv.ended)
WorkerStep-Inv (check {stop} e) inv = ground (arith, inv.begun, inv.ended)
WorkerStep-Inv (leave e) inv = ground (arith, inv.begun, inv.ended)
WorkerStep-Inv (finish e) inv = ground (arith, inv.begun, inv.ended)

ClientStep-Inv : {t u : Thread} → ClientStep t u → Inv t → Inv u
unfolding worker_thread_is_running
ClientStep-Inv (start e) inv = ground (arith, inv.begun, inv.ended)
ClientStep-Inv (wait_running e r) inv = inv
ClientStep-Inv (run e r) inv = ground (arith, inv.begun, inv.ended)
ClientStep-Inv (request e) inv = ground (arith, inv.begun, inv.ended)
ClientStep-Inv (wait_exit e r) inv = inv
ClientStep-Inv (end e r) inv = ground (arith, inv.begun, inv.ended)

-- a worker that has begun and is not active is past its loop
begun-is_past : (pc : WorkerPc) → has_begun pc ≡ true → is_active pc ≡ false → is_past pc ≡ true
begun-is_past absent b a = cc
begun-is_past entering b a = cc
begun-is_past looping b a = cc
begun-is_past leaving b a = cc
begun-is_past finishing b a = refl
begun-is_past exited b a = refl
begun-is_past (called c) b a = cc

abbrev pub created : Thread
unfolding worker_thread_create
created = worker_thread_create.1

pub created-Inv : Inv created
unfolding worker_thread_create
created-Inv = record {
  flag = refl;
  absent_before = refl;
  begun = λ h. cc;
  requested = refl;
  ended = λ h. cc;
}

pub Run-Inv : {s t : Thread} {n : ℕ} → Inv s → Run s n t → Inv t
Run-Inv inv here = inv
Run-Inv inv (by_worker r st) = WorkerStep-Inv st (Run-Inv inv r)
Run-Inv inv (by_client r st) = ClientStep-Inv st (Run-Inv inv r)

-- the thread is past its loop and the client is done
pub record IsOver (t u : Thread) : Type 0 where
  pub worker : is_past u.worker ≡ true
  pub client : u.client ≡ stopped
  pub running : u.running ≡ false
  pub calls : u.calls ≡ t.calls

WorkerStep-IsOver : {t u v : Thread} → WorkerStep u v → IsOver t u → IsOver t v
WorkerStep-IsOver (enter e) over = absurd (ground (arith, over.worker))
WorkerStep-IsOver (call b e) over = absurd (ground (arith, over.worker))
WorkerStep-IsOver (check e) over = absurd (ground (arith, over.worker))
WorkerStep-IsOver (leave e) over = absurd (ground (arith, over.worker))
WorkerStep-IsOver (finish e) over = record {
  worker = refl;
  client = over.client;
  running = over.running;
  calls = over.calls;
}

ClientStep-stopped : {t u : Thread} → ClientStep t u → t.client ≢ stopped
ClientStep-stopped (start e) h = cc
ClientStep-stopped (wait_running e r) h = cc
ClientStep-stopped (run e r) h = cc
ClientStep-stopped (request e) h = cc
ClientStep-stopped (wait_exit e r) h = cc
ClientStep-stopped (end e r) h = cc

stays-IsOver : {t u : Thread} {m : ℕ} → IsOver t t → Run t m u → IsOver t u
stays-IsOver over here = over
stays-IsOver over (by_worker r st) = WorkerStep-IsOver st (stays-IsOver over r)
stays-IsOver over (by_client r st) = absurd (ClientStep-stopped st (stays-IsOver over r).client)

-- Once worker_thread_stop has returned, the thread is past its loop, with at most its return left,
-- and is not running, and in every later state it is so, with no further call of its function.
pub worker_thread_stop-IsOver :
    {t u : Thread} {n m : ℕ} → Run created n t → t.client ≡ stopped → Run t m u → IsOver t u
unfolding worker_thread_create
worker_thread_stop-IsOver {t} r e later =
    let inv = Run-Inv created-Inv r in
    let over : IsOver t t = record {
      worker = begun-is_past t.worker (inv.begun (rw e refl)) (inv.ended (rw e refl));
      client = e;
      running = inv.flag ∙ inv.ended (rw e refl);
      calls = refl;
    } in
    stays-IsOver over later
