-- ===== src/Tests/WorkerTest.antt =====
-- util/worker_thread.c on runs of a few steps.
use native.Mathlib.Nat.{zero-add, suc-add}
use vmsim.Prelude.{ℕ, ◌+◌, ◌≤◌, ◌≡◌, refl, true, false, ◌⊎◌}
use vmsim.Worker.{
  looping, exited, starting, started, stopping, stopped, Thread, worker_thread_create,
  worker_thread_is_running, next_round, WorkerStep, enter, call, check, leave, finish, ClientStep,
  start, run, request, end, Run, here, by_worker, by_client,
}
use vmsim.Worker.Safety.{created, IsOver, worker_thread_stop-IsOver}
use vmsim.Worker.Stop.{worker_thread_stop_lem, worker_thread_start_hangs}

-- the thread runs and the client has seen it
abbrev started_thread : Thread
started_thread = record {
  stop = false;
  running = true;
  calls = 0;
  worker = looping;
  client = started;
}

run_started : Run created 1 started_thread
unfolding worker_thread_create worker_thread_is_running
run_started = by_client (by_worker (by_client here (start refl)) (enter refl)) (run refl refl)

abbrev stopping_thread : Thread
stopping_thread = record started_thread { stop = true; client = stopping }

run_stopping : Run created 1 stopping_thread
run_stopping = by_client run_started (request refl)

-- the thread calls its function once more, sees the request and ends
abbrev left_thread : Thread
left_thread = record stopping_thread { running = false; calls = 1; worker = exited }

run_left : Run stopping_thread 4 left_thread
unfolding next_round
run_left =
    by_worker (by_worker (by_worker (by_worker here (call false refl)) (check refl)) (leave refl))
      (finish refl)

worker_thread_stop_lem_example :
    (◌≤◌ 4 4)
    × (◌≤◌ 3 4 → left_thread.running ≡ false)
    × (left_thread.calls ≤ stopping_thread.calls + 1)
    × ((left_thread.worker ≡ exited) ⊎ ((v : Thread) × WorkerStep left_thread v))
    × (left_thread.running ≡ false
        → (left_thread.client ≡ stopped)
          ⊎ ((v : Thread) × ClientStep left_thread v × (v.client ≡ stopped)))
worker_thread_stop_lem_example = worker_thread_stop_lem run_stopping refl run_left

abbrev stopped_thread : Thread
stopped_thread = record left_thread { client = stopped }

run_append : {s t u : Thread} {n m : ℕ} → Run s n t → Run t m u → Run s (m + n) u
run_append r here = rw zero-add r
run_append r (by_worker later st) = rw suc-add (by_worker (run_append r later) st)
run_append r (by_client later st) = by_client (run_append r later) st

run_stopped : Run created 5 stopped_thread
unfolding worker_thread_is_running
run_stopped = by_client (run_append run_stopping run_left) (end refl refl)

worker_thread_stop-IsOver_example : IsOver stopped_thread stopped_thread
worker_thread_stop-IsOver_example = worker_thread_stop-IsOver run_stopped refl here

-- a thread whose first call says that it is done, before the client has looked
abbrev hasty_thread : Thread
hasty_thread = record {
  stop = false;
  running = false;
  calls = 1;
  worker = exited;
  client = starting;
}

run_hasty : Run created 5 hasty_thread
unfolding worker_thread_create next_round
run_hasty =
    by_worker
      (by_worker
        (by_worker
          (by_worker (by_worker (by_client here (start refl)) (enter refl)) (call true refl))
          (check refl))
        (leave refl))
      (finish refl)

worker_thread_start_hangs_example :
    (hasty_thread.client ≡ starting) × (hasty_thread.worker ≡ exited)
worker_thread_start_hangs_example = worker_thread_start_hangs run_hasty refl refl here
