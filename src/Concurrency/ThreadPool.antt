-- ===== src/Concurrency/ThreadPool.antt =====
-- src/Utils/Concurrency/ThreadPoolManager.hpp. `T` is the type of tasks. One turn of a worker is one
-- critical section of the queue's mutex, or the call of the task that it took; a list of turns, with
-- enqueues and a stop between them, is an interleaving of the threads. A task that throws has its
-- exception caught by `std::packaged_task`, so that its call always returns.
pub mod Order
pub mod Created
pub mod Drain
mod Examples
use watchlist.Prelude.{
  ℕ, zero, suc, Bool, true, false, List, [], ◌∷◌, ◌++◌, ◌==◌, if◌then◌else◌, bytes,
}
use watchlist.Storage.Item.{Result, ok, err, Done, invalid_argument, runtime_error}

pub data Worker (T : Type 0) : Type 0 where
  waiting : Worker T
  running : T → Worker T
  exited : Worker T

pub record ThreadPool (T : Type 0) : Type 0 where
  pub workers : List (Worker T)
  pub tasks : List T
  pub stop : Bool

-- Where a worker is after its turn, what it leaves in the queue, what it took and what it finished.
pub record Turn (T : Type 0) : Type 0 where
  pub worker : Worker T
  pub left : List T
  pub taken : List T
  pub finished : List T

pub record Turned (T : Type 0) : Type 0 where
  pub workers : List (Worker T)
  pub left : List T
  pub taken : List T
  pub finished : List T

unfoldable pub validate_explicit_thread_count : ℕ → Result ℕ
validate_explicit_thread_count thread_count =
    if thread_count == 0
    then err (invalid_argument (bytes "ThreadPoolManager requires at least one worker"))
    else ok thread_count

unfoldable pub normalize_default_thread_count : ℕ → ℕ
normalize_default_thread_count hardware_concurrency =
    if hardware_concurrency == 0 then 1 else hardware_concurrency

module _ {T : Type 0} where
  -- The loop of the constructor; `thread_factory` says whether the thread of an index is made. After a
  -- throw, the workers that were made are stopped with an empty queue, and the exception goes on.
  unfoldable pub make_workers : (ℕ → Done) → ℕ → ℕ → List (Worker T) → Result (List (Worker T))
  make_workers thread_factory zero index made = ok made
  make_workers thread_factory (suc n) index made =
      let rest = make_workers thread_factory n (suc index) (made ++ waiting ∷ []) in
      elim (thread_factory index) [ ok _ ↦ rest | err e ↦ err e ]

  pool_of : Result (List (Worker T)) → Result (ThreadPool T)
  pool_of (ok ws) = ok (record { workers = ws; tasks = []; stop = false })
  pool_of (err e) = err e

  unfoldable pub create : (ℕ → Done) → ℕ → Result (ThreadPool T)
  unfolding make_workers pool_of
  create thread_factory thread_count = pool_of (make_workers thread_factory thread_count 0 [])

  create_counted : (ℕ → Done) → Result ℕ → Result (ThreadPool T)
  unfolding create
  create_counted thread_factory (err e) = err e
  create_counted thread_factory (ok n) = create thread_factory n

  unfoldable pub create_explicit : (ℕ → Done) → ℕ → Result (ThreadPool T)
  unfolding create_counted
  create_explicit thread_factory thread_count =
      create_counted thread_factory (validate_explicit_thread_count thread_count)

  unfoldable pub create_default : (ℕ → Done) → ℕ → Result (ThreadPool T)
  unfolding create
  create_default thread_factory hardware_concurrency =
      create thread_factory (normalize_default_thread_count hardware_concurrency)

  unfoldable pub enqueue : T → ThreadPool T → Done × ThreadPool T
  enqueue task p =
      if p.stop
      then (err (runtime_error (bytes "ThreadPoolManager is stopped")), p)
      else (ok tt, record p { tasks = p.tasks ++ task ∷ [] })

  -- The first half of `StopAndJoinWorkers`; the joins wait for the workers' own turns.
  unfoldable pub stop_workers : ThreadPool T → ThreadPool T
  stop_workers p = record p { stop = true }

  -- `WorkerThread`, from the wait up to the call of the task, or the call.
  unfoldable pub turn : Bool → List T → Worker T → Turn T
  turn stop [] waiting = record {
    worker = if stop then exited else waiting;
    left = [];
    taken = [];
    finished = [];
  }
  turn stop (t ∷ ts) waiting = record {
    worker = running t;
    left = ts;
    taken = t ∷ [];
    finished = [];
  }
  turn stop ts (running t) = record { worker = waiting; left = ts; taken = []; finished = t ∷ [] }
  turn stop ts exited = record { worker = exited; left = ts; taken = []; finished = [] }

  -- The worker with an index has its turn; beyond the last worker nothing happens.
  unfoldable pub turn_at : ℕ → Bool → List T → List (Worker T) → Turned T
  unfolding turn
  turn_at i stop ts [] = record { workers = []; left = ts; taken = []; finished = [] }
  turn_at zero stop ts (w ∷ ws) =
      let t = turn stop ts w in
      record { workers = t.worker ∷ ws; left = t.left; taken = t.taken; finished = t.finished }
  turn_at (suc i) stop ts (w ∷ ws) =
      let t = turn_at i stop ts ws in
      record { workers = w ∷ t.workers; left = t.left; taken = t.taken; finished = t.finished }

  unfoldable pub worker_turn : ℕ → ThreadPool T → ThreadPool T
  unfolding turn_at
  worker_turn i p =
      let t = turn_at i p.stop p.tasks p.workers in record p { workers = t.workers; tasks = t.left }
