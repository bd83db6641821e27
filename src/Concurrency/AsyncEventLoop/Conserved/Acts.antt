-- ===== src/Concurrency/AsyncEventLoop/Conserved/Acts.antt =====
-- The actions of src/Utils/Concurrency/AsyncEventLoop.hpp in any order: tasks are conserved, a stop is
-- final, and so is the end of a task.
use mathlib.Core.Path.{subst}
use watchlist.Prelude.{
  ℕ, ◌+◌, Bool, true, false, ◌&&◌, List, [], ◌∷◌, ◌≡◌, refl, arith, if◌then◌else◌, Bool-cases, inl,
  inr, ltb,
}
use watchlist.Concurrency.AsyncEventLoop.{
  cancelled, is_pending_status, pop_top, pop_back, all_waiters, frames_of, Current, idle, taken,
  running, AsyncEventLoop, initial_loop, finish_task, take_work, take_ready, take_delayed,
  resume_taken,
}
use watchlist.Concurrency.AsyncEventLoop.Moves.{
  Action, spawns, emits, stops, starts, takes, resumes, suspends, take_if_idle, resume_if_taken,
  suspend_if_running, act, act_all,
}
use watchlist.Concurrency.AsyncEventLoop.Places.{times}
use watchlist.Concurrency.AsyncEventLoop.Conserved.Taken.{
  start_run-IsConserved, take_ready-IsConserved, take_delayed-IsConserved,
}
use watchlist.Concurrency.AsyncEventLoop.Conserved.{
  held, queued, IsConserved, IsDetached, suspend-IsConserved, spawn-IsConserved,
  emit_event-IsConserved, stop-IsConserved, finish_task-IsConserved,
}

module _ {D : Type 0} where
  take_work-IsConserved :
      (now : ℕ) (s : AsyncEventLoop D)
      → s.current ≡ idle
      → IsConserved s
      → IsConserved (take_work now s)
  unfolding take_work
  take_work-IsConserved now s e c = elim (Bool-cases s.stopping) [
    | inl f ↦ simp f c
    | inr f ↦ simp f (worked s.ready_tasks refl f)
  ]
    where
      worked :
          (xs : List ℕ)
          → s.ready_tasks ≡ xs
          → s.stopping ≡ false
          → IsConserved (elim xs [
            | [] ↦ take_delayed now (pop_top s.delayed_tasks) s
            | x ∷ xs ↦ take_ready (pop_back (x ∷ xs)) s
          ])
      worked [] r f = take_delayed-IsConserved now s e f c
      worked (x ∷ xs) r f =
          subst (λ ys. IsConserved (take_ready (pop_back ys) s)) r (take_ready-IsConserved s e f c)

  resume_taken-IsConserved :
      (x : ℕ) (s : AsyncEventLoop D)
      → s.current ≡ taken x
      → IsConserved s
      → IsConserved (resume_taken x s)
  unfolding resume_taken
  resume_taken-IsConserved x s e c = resumed s.stopping
    where
      detached : IsDetached x (record s { current = idle })
      detached = record {
        others = λ y. ground (arith, c.placed y, e);
        shut = c.closed;
        same = c.agrees;
      }

      ran :
          (b : Bool)
          → is_pending_status (s.status x) ≡ b
          → IsConserved (record s { current = if b then running x else idle })
      ran true p = record {
        placed = λ y. ground (arith, c.placed y, e);
        closed = c.closed;
        agrees = c.agrees;
      }
      ran false p = record {
        placed = λ y. ground (arith, c.placed y, e, c.placed x, p);
        closed = c.closed;
        agrees = c.agrees;
      }

      resumed :
          (b : Bool)
          → IsConserved (
              if b then finish_task cancelled x (record s { current = idle }) else record s {
                current = if is_pending_status (s.status x) then running x else idle;
              })
      resumed true = finish_task-IsConserved cancelled x _ refl detached
      resumed false = ran (is_pending_status (s.status x)) refl

  pub act-IsConserved :
      (e : Action D) (s : AsyncEventLoop D) → IsConserved s → IsConserved (act e s)
  unfolding act
  act-IsConserved (spawns now how) s c = spawn-IsConserved now how s c
  act-IsConserved (emits e) s c = emit_event-IsConserved e s c
  act-IsConserved stops s c = stop-IsConserved s c
  act-IsConserved starts s c = start_run-IsConserved s c
  act-IsConserved (takes now) s c = took s.current refl
    where
      started : (b : Bool) → s.current ≡ idle → IsConserved (if b then take_work now s else s)
      started true e = take_work-IsConserved now s e c
      started false e = c

      took : (w : Current) → s.current ≡ w → IsConserved (take_if_idle now w s)
      took idle e = started s.run_started e
      took (taken x) e = c
      took (running x) e = c
  act-IsConserved resumes s c = resumed s.current refl
    where
      resumed : (w : Current) → s.current ≡ w → IsConserved (resume_if_taken w s)
      resumed idle e = c
      resumed (taken x) e = resume_taken-IsConserved x s e c
      resumed (running x) e = c
  act-IsConserved (suspends now how) s c = suspended s.current refl
    where
      suspended : (w : Current) → s.current ≡ w → IsConserved (suspend_if_running now how w s)
      suspended idle e = c
      suspended (taken x) e = c
      suspended (running x) e =
          suspend-IsConserved now x how _ (record {
            others = λ y. ground (arith, c.placed y, e);
            shut = c.closed;
            same = c.agrees;
          })

  pub act_all-IsConserved :
      (es : List (Action D)) (s : AsyncEventLoop D) → IsConserved s → IsConserved (act_all es s)
  unfolding act_all
  act_all-IsConserved [] s c = c
  act_all-IsConserved (e ∷ es) s c = act_all-IsConserved es (act e s) (act-IsConserved e s c)

  pub initial-IsConserved : IsConserved {D = D} initial_loop
  unfolding times frames_of all_waiters
  initial-IsConserved = record {
    placed = λ x. ground arith;
    closed = λ e. absurd cc;
    agrees = refl;
  }

  -- In every interleaving, from a new loop: a task that was started and has not ended is in exactly
  -- one place, once: the delayed tasks, the ready tasks, the waiters of one event, or the worker's
  -- hands. No other frame is in any of them. So no task is lost, and none is resumed twice at once.
  pub act_all-placed :
      (es : List (Action D)) (x : ℕ)
      → let s = act_all es (initial_loop {D = D}) in
        queued x s + held x s.current
        ≡ (if ltb x s.next_frame && is_pending_status (s.status x) then 1 else 0)
  act_all-placed es x = (act_all-IsConserved es initial_loop initial-IsConserved).placed x
