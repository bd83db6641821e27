-- ===== src/Concurrency/AsyncEventLoop/Conserved.antt =====
-- Where the pending tasks of src/Utils/Concurrency/AsyncEventLoop.hpp are, in every interleaving.
pub mod Taken
pub mod Acts
use watchlist.Prelude.{
  ℕ, suc, ◌+◌, ◌≤◌, ◌<◌, Bool, true, false, not, ◌&&◌, Option, none, some, List, [], ◌∷◌, ◌++◌, ◌≡◌,
  refl, sym, ap, ◌∙◌, arith, if◌then◌else◌, Bool-cases, inl, inr, Bytes, equal, ltb, leb, ◌==◌,
}
use watchlist.Concurrency.AsyncEventLoop.{
  TaskStatus, pending, succeeded, cancelled, failed, is_pending_status, finish, DelayedTask,
  pop_top, pop_back, push_waiter, take_waiters, all_waiters, frames_of, Current, idle, taken,
  running, AsyncEventLoop, LoopEvent, Await, delay, turn, event, Suspension, awaits, returns,
  throws, update, initial_loop, finish_task, cancel_all, enqueue, await_suspend, suspend, spawn,
  emit_event, stop, start_run, write_events, take_work, take_ready, take_delayed, resume_taken,
}
use watchlist.Concurrency.AsyncEventLoop.Moves.{
  Action, spawns, emits, stops, starts, takes, resumes, suspends, take_if_idle, resume_if_taken,
  suspend_if_running, act, act_all,
}
use watchlist.Concurrency.AsyncEventLoop.Places.{
  times, times-append, times-push_waiter, times-take_waiters, WasPopped, pop_back-WasPopped, WasTop,
  pop_top-WasTop,
}

abbrev pub held : ℕ → Current → ℕ
held x idle = 0
held x (taken y) = if y == x then 1 else 0
held x (running y) = if y == x then 1 else 0

pub finish-ended :
    (new old : TaskStatus)
    → is_pending_status new ≡ false
    → is_pending_status (finish new old) ≡ false
unfolding finish
finish-ended new pending e = e
finish-ended new succeeded e = refl
finish-ended new cancelled e = refl
finish-ended new failed e = refl

-- The states after a cancellation of frames.
abbrev pub cancelled_in : List ℕ → (ℕ → TaskStatus) → ℕ → TaskStatus
cancelled_in [] f = f
cancelled_in (x ∷ xs) f = cancelled_in xs (update x (finish cancelled (f x)) f)

pub cancelled_in-pending :
    (xs : List ℕ) (f : ℕ → TaskStatus) (x : ℕ)
    → is_pending_status (cancelled_in xs f x) ≡ (is_pending_status (f x) && times x xs == 0)
unfolding times
cancelled_in-pending [] f x = ground arith
cancelled_in-pending (y ∷ ys) f x = ground (
  arith,
  finish-ended cancelled (f y) refl,
  cancelled_in-pending ys (update y (finish cancelled (f y)) f) x,
)

module _ {D : Type 0} where
  -- How often a frame waits in the three queues, and with the worker's hold on it.
  abbrev pub queued : ℕ → AsyncEventLoop D → ℕ
  queued x s =
      times x (frames_of s.delayed_tasks)
      + times x s.ready_tasks
      + times x (all_waiters s.event_waiters)

  abbrev pub places : ℕ → AsyncEventLoop D → ℕ
  places x s = queued x s + held x s.current

  -- One for a task that was started and has not ended.
  abbrev pub wanted : ℕ → AsyncEventLoop D → ℕ
  wanted x s = if ltb x s.next_frame && is_pending_status (s.status x) then 1 else 0

  pub record IsConserved (s : AsyncEventLoop D) : Type 0 where
    pub placed : (x : ℕ) → places x s ≡ wanted x s
    pub closed : s.accepting ≡ false → (x : ℕ) → queued x s ≡ 0
    pub agrees : s.stopping ≡ not s.accepting

  -- All but one frame, which runs outside the loop.
  pub record IsDetached (y : ℕ) (s : AsyncEventLoop D) : Type 0 where
    pub others : (x : ℕ) → places x s + (if y == x then 1 else 0) ≡ wanted x s
    pub shut : s.accepting ≡ false → (x : ℕ) → queued x s ≡ 0
    pub same : s.stopping ≡ not s.accepting

  pub finish_task-IsConserved :
      (new : TaskStatus) (y : ℕ) (s : AsyncEventLoop D)
      → is_pending_status new ≡ false
      → IsDetached y s
      → IsConserved (finish_task new y s)
  unfolding finish_task
  finish_task-IsConserved new y s e d = record {
    placed = λ x. ground (arith, d.others x, finish-ended new (s.status x) e);
    closed = d.shut;
    agrees = d.same;
  }

  enqueue-IsConserved :
      (now y : ℕ) (w : Await) (s : AsyncEventLoop D)
      → s.accepting ≡ true
      → IsDetached y s
      → IsConserved (enqueue now y w s)
  unfolding enqueue
  enqueue-IsConserved now y (delay duration) s e d = record {
    placed = λ x. unfold times frames_of in omega (arith, d.others x);
    closed = λ f. absurd cc;
    agrees = d.same;
  }
  enqueue-IsConserved now y turn s e d = record {
    placed = λ x. unfold times in omega (arith, d.others x, times-append x s.ready_tasks (y ∷ []));
    closed = λ f. absurd cc;
    agrees = d.same;
  }
  enqueue-IsConserved now y (event name) s e d = record {
    placed = λ x. omega (arith, d.others x, times-push_waiter x name y s.event_waiters);
    closed = λ f. absurd cc;
    agrees = d.same;
  }

  pub suspend-IsConserved :
      (now y : ℕ) (how : Suspension) (s : AsyncEventLoop D)
      → IsDetached y s
      → IsConserved (suspend now y how s)
  unfolding suspend await_suspend
  suspend-IsConserved now y (awaits w) s d = chosen s.accepting refl
    where
      chosen :
          (b : Bool)
          → s.accepting ≡ b
          → IsConserved (if b then enqueue now y w s else finish_task cancelled y s)
      chosen true e = enqueue-IsConserved now y w s e d
      chosen false e = finish_task-IsConserved cancelled y s refl d
  suspend-IsConserved now y returns s d = finish_task-IsConserved succeeded y s refl d
  suspend-IsConserved now y throws s d = finish_task-IsConserved failed y s refl d

  pub spawn-IsConserved :
      (now : ℕ) (how : Suspension) (s : AsyncEventLoop D)
      → IsConserved s
      → IsConserved (spawn now how s)
  unfolding spawn
  spawn-IsConserved now how s c =
      suspend-IsConserved now s.next_frame how _
        (record { others = λ x. ground (arith, c.placed x); shut = c.closed; same = c.agrees })

  pub emit_event-IsConserved :
      (e : LoopEvent D) (s : AsyncEventLoop D) → IsConserved s → IsConserved (emit_event e s).1
  unfolding emit_event
  emit_event-IsConserved e s c = emitted s.accepting refl
    where
      found : List ℕ
      found = (take_waiters e.name s.event_waiters).0

      emitted :
          (b : Bool)
          → s.accepting ≡ b
          → let emission : Bool × AsyncEventLoop D =
              if b
              then (
                true,
                record s {
                  event_waiters = (take_waiters e.name s.event_waiters).1;
                  ready_tasks = s.ready_tasks ++ found;
                  event_of = write_events e found s.event_of;
                },
              )
              else (false, s) in
            IsConserved emission.1
      emitted true a = record {
        placed = λ x. omega (
          arith,
          c.placed x,
          times-append x s.ready_tasks found,
          times-take_waiters x e.name s.event_waiters,
        );
        closed = λ f. absurd cc;
        agrees = c.agrees;
      }
      emitted false a = c

  pub cancel_all-status :
      (xs : List ℕ) (s : AsyncEventLoop D)
      → cancel_all xs s ≡ record s { status = cancelled_in xs s.status }
  unfolding cancel_all
  cancel_all-status [] s = refl
  cancel_all-status (x ∷ xs) s = cancel_all-status xs (finish_task cancelled x s)

  -- Every frame of the three queues.
  abbrev pub queues : AsyncEventLoop D → List ℕ
  queues s = frames_of s.delayed_tasks ++ (s.ready_tasks ++ all_waiters s.event_waiters)

  times-queues : (x : ℕ) (s : AsyncEventLoop D) → times x (queues s) ≡ queued x s
  times-queues x s = omega (
    arith,
    times-append x (frames_of s.delayed_tasks) (s.ready_tasks ++ all_waiters s.event_waiters),
    times-append x s.ready_tasks (all_waiters s.event_waiters),
  )

  pub stop-IsConserved : (s : AsyncEventLoop D) → IsConserved s → IsConserved (stop s)
  unfolding stop
  stop-IsConserved s c = stopped s.accepting
    where
      emptied : AsyncEventLoop D
      emptied = record s {
        accepting = false;
        stopping = true;
        delayed_tasks = [];
        ready_tasks = [];
        event_waiters = [];
      }

      stopped : (b : Bool) → IsConserved (if b then cancel_all (queues s) emptied else s)
      stopped false = c
      stopped true = rw (cancel_all-status (queues s) emptied) (record {
        placed = λ x.
            unfold times frames_of all_waiters in
            ground
              (arith, c.placed x, cancelled_in-pending (queues s) s.status x, times-queues x s);
        closed = λ f x. unfold times frames_of all_waiters in refl;
        agrees = refl;
      })
