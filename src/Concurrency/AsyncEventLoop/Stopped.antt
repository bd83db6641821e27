-- ===== src/Concurrency/AsyncEventLoop/Stopped.antt =====
-- The stop of src/Utils/Concurrency/AsyncEventLoop.hpp, and the ends of its tasks.
use mathlib.Core.Path.{subst}
use watchlist.Prelude.{
  if_true, if_false, ℕ, Bool, true, false, ◌&&◌, List, [], ◌∷◌, ◌≡◌, ◌⊎◌, refl, sym, ap, arith,
  if◌then◌else◌, inl, inr, ltb,
}
use watchlist.Concurrency.AsyncEventLoop.{
  TaskStatus, succeeded, cancelled, failed, is_pending_status, Current, idle, taken, running,
  AsyncEventLoop, LoopEvent, Suspension, awaits, returns, throws, initial_loop, finish_task,
  cancel_all, enqueue, await_suspend, suspend, spawn, emit_event, stop, start_run, take_work,
  resume_taken,
}
use watchlist.Concurrency.AsyncEventLoop.Moves.{
  Action, spawns, emits, stops, starts, takes, resumes, suspends, take_if_idle, resume_if_taken,
  suspend_if_running, act, act_all,
}
use watchlist.Concurrency.AsyncEventLoop.Conserved.{
  held, queued, IsConserved, cancel_all-status, queues,
}
use watchlist.Concurrency.AsyncEventLoop.Conserved.Acts.{
  act_all-IsConserved, act-IsConserved, initial-IsConserved,
}

module _ {D : Type 0} where
  -- Nothing opens the loop again, and the worker takes no other frame than the one that it held.
  record IsStopped (w : Current) (s : AsyncEventLoop D) : Type 0 where
    closed : s.accepting ≡ false
    stopped : s.stopping ≡ true
    kept : (s.current ≡ idle) ⊎ (s.current ≡ w)

  finish_task-IsStopped :
      (w : Current) (new : TaskStatus) (x : ℕ) (s : AsyncEventLoop D)
      → IsStopped w s
      → IsStopped w (finish_task new x s)
  unfolding finish_task
  finish_task-IsStopped w new x s i = record {
    closed = i.closed;
    stopped = i.stopped;
    kept = i.kept;
  }

  suspend-IsStopped :
      (w : Current) (now x : ℕ) (how : Suspension) (s : AsyncEventLoop D)
      → IsStopped w s
      → IsStopped w (suspend now x how s)
  unfolding suspend await_suspend
  suspend-IsStopped w now x (awaits a) s i = refused s.accepting i.closed
    where
      refused :
          (b : Bool)
          → b ≡ false
          → IsStopped w (if b then enqueue now x a s else finish_task cancelled x s)
      refused true e = absurd cc
      refused false e = finish_task-IsStopped w cancelled x s i
  suspend-IsStopped w now x returns s i = finish_task-IsStopped w succeeded x s i
  suspend-IsStopped w now x throws s i = finish_task-IsStopped w failed x s i

  emit_event-closed :
      (e : LoopEvent D) (s : AsyncEventLoop D) → s.accepting ≡ false → (emit_event e s).1 ≡ s
  unfolding emit_event
  emit_event-closed e s c = ap (λ (r : Bool × AsyncEventLoop D). r.1) (if_false s.accepting _ _ c)

  stop-closed : (s : AsyncEventLoop D) → s.accepting ≡ false → stop s ≡ s
  unfolding stop
  stop-closed s c = if_false s.accepting _ _ c

  take_work-stopped : (now : ℕ) (s : AsyncEventLoop D) → s.stopping ≡ true → take_work now s ≡ s
  unfolding take_work
  take_work-stopped now s c = if_true s.stopping _ _ c

  resume_taken-stopped :
      (x : ℕ) (s : AsyncEventLoop D)
      → s.stopping ≡ true
      → resume_taken x s ≡ finish_task cancelled x (record s { current = idle })
  unfolding resume_taken
  resume_taken-stopped x s c = if_true s.stopping _ _ c

  released :
      (w : Current) (s : AsyncEventLoop D)
      → IsStopped w s
      → IsStopped w (record s { current = idle })
  released w s i = record { closed = i.closed; stopped = i.stopped; kept = inl refl }

  act-IsStopped :
      (w : Current) (e : Action D) (s : AsyncEventLoop D) → IsStopped w s → IsStopped w (act e s)
  unfolding act start_run
  act-IsStopped w (spawns now how) s i =
      unfold spawn in
      suspend-IsStopped w now s.next_frame how _
        (record { closed = i.closed; stopped = i.stopped; kept = i.kept })
  act-IsStopped w (emits e) s i = subst (IsStopped w) (sym (emit_event-closed e s i.closed)) i
  act-IsStopped w stops s i = subst (IsStopped w) (sym (stop-closed s i.closed)) i
  act-IsStopped w starts s i = started s.run_started
    where
      started :
          (b : Bool)
          → let start : Bool × AsyncEventLoop D =
              if b then (false, s) else (true, record s { run_started = true }) in
            IsStopped w start.1
      started true = i
      started false = record { closed = i.closed; stopped = i.stopped; kept = i.kept }
  act-IsStopped w (takes now) s i = took s.current
    where
      started : (b : Bool) → IsStopped w (if b then take_work now s else s)
      started true = subst (IsStopped w) (sym (take_work-stopped now s i.stopped)) i
      started false = i

      took : (c : Current) → IsStopped w (take_if_idle now c s)
      took idle = started s.run_started
      took (taken x) = i
      took (running x) = i
  act-IsStopped w resumes s i = resumed s.current
    where
      resumed : (c : Current) → IsStopped w (resume_if_taken c s)
      resumed idle = i
      resumed (taken x) =
          subst (IsStopped w) (sym (resume_taken-stopped x s i.stopped))
            (finish_task-IsStopped w cancelled x _ (released w s i))
      resumed (running x) = i
  act-IsStopped w (suspends now how) s i = suspended s.current
    where
      suspended : (c : Current) → IsStopped w (suspend_if_running now how c s)
      suspended idle = i
      suspended (taken x) = i
      suspended (running x) = suspend-IsStopped w now x how _ (released w s i)

  act_all-IsStopped :
      (w : Current) (es : List (Action D)) (s : AsyncEventLoop D)
      → IsStopped w s
      → IsStopped w (act_all es s)
  unfolding act_all
  act_all-IsStopped w [] s i = i
  act_all-IsStopped w (e ∷ es) s i = act_all-IsStopped w es (act e s) (act-IsStopped w e s i)

  stop-IsStopped : (s : AsyncEventLoop D) → IsConserved s → IsStopped s.current (stop s)
  unfolding stop
  stop-IsStopped s c = stopped s.accepting refl
    where
      emptied : AsyncEventLoop D
      emptied = record s {
        accepting = false;
        stopping = true;
        delayed_tasks = [];
        ready_tasks = [];
        event_waiters = [];
      }

      stopped :
          (b : Bool)
          → s.accepting ≡ b
          → IsStopped s.current (if b then cancel_all (queues s) emptied else s)
      stopped true e =
          rw (cancel_all-status (queues s) emptied)
            (record { closed = refl; stopped = refl; kept = inr refl })
      stopped false e = record {
        closed = e;
        stopped = ground (arith, e, c.agrees);
        kept = inr refl;
      }

  -- After any history of a new loop, once it is stopped and whatever is done afterwards: the loop does
  -- not accept, nothing waits in its queues, every task that was started has ended but one that the
  -- worker still holds, and the worker holds no other frame than the one that it held at the stop. So
  -- a task that was queued at the stop is never resumed.
  pub stop-IsFinal :
      (before after : List (Action D)) (x : ℕ)
      → let stopped_at = act_all before (initial_loop {D = D}) in
        let s = act_all after (act stops stopped_at) in
        (s.accepting ≡ false)
        × (queued x s ≡ 0)
        × ((if ltb x s.next_frame && is_pending_status (s.status x) then 1 else 0)
            ≡ held x s.current)
        × ((s.current ≡ idle) ⊎ (s.current ≡ stopped_at.current))
  unfolding act
  stop-IsFinal before after x =
      let t : AsyncEventLoop D = act_all before initial_loop in
      let c : IsConserved t = act_all-IsConserved before initial_loop initial-IsConserved in
      let s : AsyncEventLoop D = act_all after (act stops t) in
      let d : IsConserved s = act_all-IsConserved after _ (act-IsConserved stops t c) in
      let i : IsStopped t.current s = act_all-IsStopped t.current after _ (stop-IsStopped t c) in
      (i.closed, d.closed i.closed x, omega (arith, d.placed x, d.closed i.closed x), i.kept)
