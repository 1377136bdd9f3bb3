-- ===== src/Worker.antt =====
-- util/worker_thread.h, util/worker_thread.c: a thread that calls a function until it is stopped, and the
-- client that starts and stops it, as steps that interleave. A step is one access to what they
-- share, one call of the function, whose effect is left open, or the return of the thread. The client reads
-- `running` without the lock, so it may see the thread out of its loop before the thread returns.
pub mod Safety
pub mod Stop
use vmsim.Prelude.{ℕ, suc, ◌+◌, ◌≡◌, Bool, true, false, ◌||◌, if◌then◌else◌}
use vmsim.Types.{Errcode, success}

-- where `worker_thread_func` stands: not begun, before `running = TRUE`, before the call of the function,
-- after a call that gave its argument, after the loop, after `running = FALSE`, and at its end
pub data WorkerPc : Type 0 where
  absent entering looping leaving finishing exited : WorkerPc
  called : Bool → WorkerPc

-- where the client stands: before `worker_thread_start`, in its loop, after it, in the loop of
-- `worker_thread_stop`, and after that
pub data ClientPc : Type 0 where
  before starting started stopping stopped : ClientPc

-- `worker_thread_t` with the two threads; `calls` counts the calls of the function
pub record Thread : Type 0 where
  pub stop : Bool
  pub running : Bool
  pub calls : ℕ
  pub worker : WorkerPc
  pub client : ClientPc

-- `worker_thread_create`
unfoldable pub worker_thread_create : Errcode × Thread
worker_thread_create =
    (success, record { stop = false; running = false; calls = 0; worker = absent; client = before })

unfoldable pub worker_thread_is_running : Thread → Bool
worker_thread_is_running t = t.running

unfoldable pub worker_thread_should_stop : Thread → Bool
worker_thread_should_stop t = t.stop

-- the test at the end of a round of the loop, after a call that gave `stop`
unfoldable pub next_round : Thread → Bool → WorkerPc
next_round t stop = if stop || t.stop then leaving else looping

-- the steps of `worker_thread_func`
pub data WorkerStep (t : Thread) : Thread → Type 0 where
  enter : t.worker ≡ entering → WorkerStep t (record t { running = true; worker = looping })
  call :
      (stop : Bool)
      → t.worker ≡ looping
      → WorkerStep t (record t { calls = suc t.calls; worker = called stop })
  check :
      {stop : Bool}
      → t.worker ≡ called stop
      → WorkerStep t (record t { worker = next_round t stop })
  leave : t.worker ≡ leaving → WorkerStep t (record t { running = false; worker = finishing })
  finish : t.worker ≡ finishing → WorkerStep t (record t { worker = exited })

-- the steps of `worker_thread_start_impl` and `worker_thread_stop`; `pthread_create` succeeds
pub data ClientStep (t : Thread) : Thread → Type 0 where
  start : t.client ≡ before → ClientStep t (record t { client = starting; worker = entering })
  wait_running : t.client ≡ starting → worker_thread_is_running t ≡ false → ClientStep t t
  run :
      t.client ≡ starting
      → worker_thread_is_running t ≡ true
      → ClientStep t (record t { client = started })
  request : t.client ≡ started → ClientStep t (record t { stop = true; client = stopping })
  wait_exit : t.client ≡ stopping → worker_thread_is_running t ≡ true → ClientStep t t
  end :
      t.client ≡ stopping
      → worker_thread_is_running t ≡ false
      → ClientStep t (record t { client = stopped })

-- a run from `s`, with the number of steps of the worker in it
pub data Run (s : Thread) : ℕ → Thread → Type 0 where
  here : Run s 0 s
  by_worker : {n : ℕ} {t u : Thread} → Run s n t → WorkerStep t u → Run s (suc n) u
  by_client : {n : ℕ} {t u : Thread} → Run s n t → ClientStep t u → Run s n u
