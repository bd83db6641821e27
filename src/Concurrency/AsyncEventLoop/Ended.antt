-- ===== src/Concurrency/AsyncEventLoop/Ended.antt =====
-- The end of a task of src/Utils/Concurrency/CoroutineTask.hpp: `TaskState::finish` takes the first one.
use watchlist.Prelude.{
  ℕ, ◌<◌, Bool, true, false, Option, none, some, List, [], ◌∷◌, ◌≡◌, refl, ◌∙◌, arith,
  if◌then◌else◌, Bool-cases, inl, inr, leb,
}
use watchlist.Concurrency.AsyncEventLoop.{
  TaskStatus, pending, succeeded, cancelled, failed, is_pending_status, finish, DelayedTask,
  pop_top, pop_back, Current, idle, taken, running, AsyncEventLoop, LoopEvent, Await, delay, turn,
  event, Suspension, awaits, returns, throws, update, initial_loop, finish_task, enqueue,
  await_suspend, suspend, spawn, emit_event, stop, start_run, take_work, take_ready, take_delayed,
  resume_taken,
}
use watchlist.Concurrency.AsyncEventLoop.Moves.{
  Action, spawns, emits, stops, starts, takes, resumes, suspends, take_if_idle, resume_if_taken,
  suspend_if_running, act, act_all,
}
use watchlist.Concurrency.AsyncEventLoop.Conserved.{cancelled_in, cancel_all-status, queues}

finish_lem : (new st : TaskStatus) → is_pending_status st ≡ false → finish new st ≡ st
unfolding finish
finish_lem new pending e = absurd cc
finish_lem new succeeded e = refl
finish_lem new cancelled e = refl
finish_lem new failed e = refl

cancelled_in-ended :
    (xs : List ℕ) (f : ℕ → TaskStatus) (x : ℕ)
    → is_pending_status (f x) ≡ false
    → cancelled_in xs f x ≡ f x
cancelled_in-ended [] f x e = refl
cancelled_in-ended (y ∷ ys) f x e =
    let same : update y (finish cancelled (f y)) f x ≡ f x =
      ground (arith, finish_lem cancelled (f x) e) in
    cancelled_in-ended ys (update y (finish cancelled (f y)) f) x (rw same e) ∙ same

module _ {D : Type 0} (x : ℕ) (st : TaskStatus) (ended : is_pending_status st ≡ false) where
  abbrev HasEnded : AsyncEventLoop D → Type 0
  HasEnded s = (x < s.next_frame) × (s.status x ≡ st)

  finish_task-HasEnded :
      (new : TaskStatus) (y : ℕ) (s : AsyncEventLoop D)
      → HasEnded s
      → HasEnded (finish_task new y s)
  unfolding finish_task
  finish_task-HasEnded new y s e = (e.0, ground (arith, finish_lem new st ended))

  suspend-HasEnded :
      (now y : ℕ) (how : Suspension) (s : AsyncEventLoop D)
      → HasEnded s
      → HasEnded (suspend now y how s)
  unfolding suspend await_suspend
  suspend-HasEnded now y (awaits a) s e = awaited s.accepting a
    where
      awaited :
          (b : Bool) (a : Await)
          → HasEnded (if b then enqueue now y a s else finish_task cancelled y s)
      awaited true (delay d) = unfold enqueue in e
      awaited true turn = unfold enqueue in e
      awaited true (event name) = unfold enqueue in e
      awaited false a = finish_task-HasEnded cancelled y s e
  suspend-HasEnded now y returns s e = finish_task-HasEnded succeeded y s e
  suspend-HasEnded now y throws s e = finish_task-HasEnded failed y s e

  if-HasEnded :
      (b : Bool) (s t : AsyncEventLoop D) → HasEnded s → HasEnded t → HasEnded (if b then s else t)
  if-HasEnded true s t p q = p
  if-HasEnded false s t p q = q

  stop-HasEnded : (s : AsyncEventLoop D) → HasEnded s → HasEnded (stop s)
  unfolding stop
  stop-HasEnded s e =
      if-HasEnded s.accepting _ s (rw (cancel_all-status (queues s) emptied) (e.0, cleared)) e
    where
      emptied : AsyncEventLoop D
      emptied = record s {
        accepting = false;
        stopping = true;
        delayed_tasks = [];
        ready_tasks = [];
        event_waiters = [];
      }

      cleared : cancelled_in (queues s) s.status x ≡ st
      cleared = cancelled_in-ended (queues s) s.status x (rw (e.1) ended) ∙ e.1

  take_work-HasEnded : (now : ℕ) (s : AsyncEventLoop D) → HasEnded s → HasEnded (take_work now s)
  unfolding take_work
  take_work-HasEnded now s e = if-HasEnded s.stopping s _ e (worked s.ready_tasks)
    where
      worked :
          (xs : List ℕ)
          → HasEnded (elim xs [
            | [] ↦ take_delayed now (pop_top s.delayed_tasks) s
            | x ∷ xs ↦ take_ready (pop_back (x ∷ xs)) s
          ])
      worked [] = delayed (pop_top s.delayed_tasks)
        where
          delayed : (o : Option (DelayedTask × List DelayedTask)) → HasEnded (take_delayed now o s)
          delayed none = unfold take_delayed in e
          delayed (some (top, rest)) = unfold take_delayed in if-HasEnded (leb top.time now) _ s e e
      worked (y ∷ ys) = ready (pop_back (y ∷ ys))
        where
          ready : (o : Option (ℕ × List ℕ)) → HasEnded (take_ready o s)
          ready none = unfold take_ready in e
          ready (some (y, rest)) = unfold take_ready in e

  emit_event-HasEnded :
      (v : LoopEvent D) (s : AsyncEventLoop D) → HasEnded s → HasEnded (emit_event v s).1
  unfolding emit_event
  emit_event-HasEnded v s e = elim (Bool-cases s.accepting) [
    | inl accepts ↦ rw accepts e
    | inr shut ↦ rw shut e
  ]

  start_run-HasEnded : (s : AsyncEventLoop D) → HasEnded s → HasEnded (start_run s).1
  unfolding start_run
  start_run-HasEnded s e = elim (Bool-cases s.run_started) [
    | inl again ↦ rw again e
    | inr first ↦ rw first e
  ]

  act-HasEnded : (a : Action D) (s : AsyncEventLoop D) → HasEnded s → HasEnded (act a s)
  unfolding act
  act-HasEnded (spawns now how) s e =
      unfold spawn in suspend-HasEnded now s.next_frame how _ (omega (arith, e.0), ground arith)
  act-HasEnded (emits v) s e = emit_event-HasEnded v s e
  act-HasEnded stops s e = stop-HasEnded s e
  act-HasEnded starts s e = start_run-HasEnded s e
  act-HasEnded (takes now) s e = took s.current
    where
      took : (c : Current) → HasEnded (take_if_idle now c s)
      took idle = if-HasEnded s.run_started _ s (take_work-HasEnded now s e) e
      took (taken y) = e
      took (running y) = e
  act-HasEnded resumes s e = resumed s.current
    where
      resumed : (c : Current) → HasEnded (resume_if_taken c s)
      resumed idle = e
      resumed (taken y) =
          unfold resume_taken in
          if-HasEnded s.stopping _ _
            (finish_task-HasEnded cancelled y (record s { current = idle }) e) e
      resumed (running y) = e
  act-HasEnded (suspends now how) s e = suspended s.current
    where
      suspended : (c : Current) → HasEnded (suspend_if_running now how c s)
      suspended idle = e
      suspended (taken y) = e
      suspended (running y) = suspend-HasEnded now y how (record s { current = idle }) e

  act_all-HasEnded :
      (es : List (Action D)) (s : AsyncEventLoop D) → HasEnded s → HasEnded (act_all es s)
  unfolding act_all
  act_all-HasEnded [] s e = e
  act_all-HasEnded (a ∷ es) s e = act_all-HasEnded es (act a s) (act-HasEnded a s e)

-- Once a task that was started has ended, whether by its return, an exception or a cancellation, its
-- status stays the same, whatever is done afterwards, a later stop included.
pub status-IsFinal :
    {D : Type 0} (before after : List (Action D)) (x : ℕ)
    → let s = act_all before (initial_loop {D = D}) in
      x < s.next_frame
      → is_pending_status (s.status x) ≡ false
      → (act_all after s).status x ≡ s.status x
status-IsFinal {D} before after x known ended =
    let s : AsyncEventLoop D = act_all before initial_loop in
    (act_all-HasEnded x (s.status x) ended after s (known, refl)).1
