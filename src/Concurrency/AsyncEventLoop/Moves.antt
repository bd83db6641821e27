-- ===== src/Concurrency/AsyncEventLoop/Moves.antt =====
-- The threads around the loop of src/Utils/Concurrency/AsyncEventLoop.hpp: the worker, the coroutine that
-- it runs, and the callers of the loop's methods.
use watchlist.Prelude.{ℕ, List, [], ◌∷◌, if◌then◌else◌}
use watchlist.Concurrency.AsyncEventLoop.{
  AsyncEventLoop, LoopEvent, Current, idle, taken, running, Suspension, spawn, emit_event, stop,
  start_run, take_work, resume_taken, suspend,
}

-- A number is the time on the clock. `suspends` ends the run of the worker's coroutine; the calls that
-- it makes before that are actions of their own.
pub data Action (D : Type 0) : Type 0 where
  spawns : ℕ → Suspension → Action D
  emits : LoopEvent D → Action D
  stops : Action D
  starts : Action D
  takes : ℕ → Action D
  resumes : Action D
  suspends : ℕ → Suspension → Action D

module _ {D : Type 0} where
  unfoldable pub take_if_idle : ℕ → Current → AsyncEventLoop D → AsyncEventLoop D
  take_if_idle now idle s = if s.run_started then take_work now s else s
  take_if_idle now (taken x) s = s
  take_if_idle now (running x) s = s

  unfoldable pub resume_if_taken : Current → AsyncEventLoop D → AsyncEventLoop D
  resume_if_taken idle s = s
  resume_if_taken (taken x) s = resume_taken x s
  resume_if_taken (running x) s = s

  unfoldable pub suspend_if_running : ℕ → Suspension → Current → AsyncEventLoop D → AsyncEventLoop D
  suspend_if_running now how idle s = s
  suspend_if_running now how (taken x) s = s
  suspend_if_running now how (running x) s = suspend now x how (record s { current = idle })

  -- What cannot happen in a state leaves it as it is.
  unfoldable pub act : Action D → AsyncEventLoop D → AsyncEventLoop D
  unfolding take_if_idle resume_if_taken suspend_if_running
  act (spawns now how) s = spawn now how s
  act (emits e) s = (emit_event e s).1
  act stops s = stop s
  act starts s = (start_run s).1
  act (takes now) s = take_if_idle now s.current s
  act resumes s = resume_if_taken s.current s
  act (suspends now how) s = suspend_if_running now how s.current s

  unfoldable pub act_all : List (Action D) → AsyncEventLoop D → AsyncEventLoop D
  unfolding act
  act_all [] s = s
  act_all (x ∷ xs) s = act_all xs (act x s)
