-- ===== src/Concurrency/AsyncEventLoop.antt =====
-- src/Utils/Concurrency/AsyncEventLoop.hpp and the task states of src/Utils/Concurrency/CoroutineTask.hpp.
-- A coroutine is known by the number of its frame; what it does between two suspensions is chosen by
-- the actions. An action is one critical section of the loop's mutex, or the part of the worker's round
-- between two of them, so that a list of actions is an interleaving. Times are milliseconds.
pub mod Moves
pub mod Places
pub mod Conserved
pub mod Stopped
pub mod Ended
pub mod Timers
mod Examples
use watchlist.Prelude.{
  ℕ, suc, ◌+◌, ◌%◌, ◌^◌, Bool, true, false, not, Option, none, some, List, [], ◌∷◌, ◌++◌,
  if◌then◌else◌, Bytes, equal, ltb, leb, ◌==◌,
}
use watchlist.Prelude.Int.{ℤ, pos_part}

pub data TaskStatus : Type 0 where
  pending succeeded cancelled failed : TaskStatus

abbrev pub is_pending_status : TaskStatus → Bool
is_pending_status pending = true
is_pending_status _ = false

-- `TaskState::finish`
unfoldable pub finish : TaskStatus → TaskStatus → TaskStatus
finish new pending = new
finish new succeeded = succeeded
finish new cancelled = cancelled
finish new failed = failed

-- `D` stands for the variant of an event's data.
pub record LoopEvent (D : Type 0) : Type 0 where
  pub name : Bytes
  pub payload : D

pub record DelayedTask : Type 0 where
  pub time : ℕ
  pub sequence : ℕ
  pub frame : ℕ

-- `Later`
unfoldable pub later : DelayedTask → DelayedTask → Bool
later lhs rhs =
    if not (lhs.time == rhs.time) then ltb rhs.time lhs.time else ltb rhs.sequence lhs.sequence

-- `top` of the priority queue, and what `pop` leaves of it.
unfoldable pub pop_top : List DelayedTask → Option (DelayedTask × List DelayedTask)
unfolding later
pop_top [] = none
pop_top (t ∷ ts) = elim (pop_top ts) [
  | none ↦ some (t, [])
  | some (top, rest) ↦ if later t top then some (top, t ∷ rest) else some (t, ts)
]

-- `back` of a vector, and what `pop_back` leaves of it.
unfoldable pub pop_back : List ℕ → Option (ℕ × List ℕ)
pop_back [] = none
pop_back (x ∷ xs) = elim (pop_back xs) [
  | none ↦ some (x, [])
  | some (back, rest) ↦ some (back, x ∷ rest)
]

abbrev pub Waiters : Type 0
Waiters = List (Bytes × List ℕ)

-- `event_waiters_[name].push_back`
unfoldable pub push_waiter : Bytes → ℕ → Waiters → Waiters
push_waiter name x [] = (name, x ∷ []) ∷ []
push_waiter name x ((k, xs) ∷ m) =
    let rest = (k, xs) ∷ push_waiter name x m in
    if equal k name then (k, xs ++ x ∷ []) ∷ m else rest

-- The waiters of a name, and the map without them.
unfoldable pub take_waiters : Bytes → Waiters → List ℕ × Waiters
take_waiters name [] = ([], [])
take_waiters name ((k, xs) ∷ m) =
    let (found, rest) = take_waiters name m in
    if equal k name then (xs, m) else (found, (k, xs) ∷ rest)

unfoldable pub all_waiters : Waiters → List ℕ
all_waiters [] = []
all_waiters ((k, xs) ∷ m) = xs ++ all_waiters m

unfoldable pub frames_of : List DelayedTask → List ℕ
frames_of [] = []
frames_of (t ∷ ts) = t.frame ∷ frames_of ts

-- The worker between its rounds, with a frame that it took, and while the frame's coroutine runs.
pub data Current : Type 0 where
  idle : Current
  taken : ℕ → Current
  running : ℕ → Current

pub record AsyncEventLoop (D : Type 0) : Type 0 where
  pub delayed_tasks : List DelayedTask
  pub ready_tasks : List ℕ
  pub event_waiters : Waiters
  pub next_sequence : ℕ
  pub accepting : Bool
  pub stopping : Bool
  pub run_started : Bool
  pub current : Current
  -- The states of the tasks, the events that were written into their frames, and the next frame.
  pub status : ℕ → TaskStatus
  pub event_of : ℕ → Option (LoopEvent D)
  pub next_frame : ℕ

-- What a coroutine waits for.
pub data Await : Type 0 where
  delay : ℤ → Await
  turn : Await
  event : Bytes → Await

-- How a coroutine leaves the thread that runs it.
pub data Suspension : Type 0 where
  awaits : Await → Suspension
  returns : Suspension
  throws : Suspension

abbrev pub update {ℓ} : {A : Type ℓ} → ℕ → A → (ℕ → A) → ℕ → A
update x a f y = if x == y then a else f y

module _ {D : Type 0} where
  abbrev pub initial_loop : AsyncEventLoop D
  initial_loop = record {
    delayed_tasks = [];
    ready_tasks = [];
    event_waiters = [];
    next_sequence = 0;
    accepting = true;
    stopping = false;
    run_started = false;
    current = idle;
    status = λ x. pending;
    event_of = λ x. none;
    next_frame = 0;
  }

  unfoldable pub finish_task : TaskStatus → ℕ → AsyncEventLoop D → AsyncEventLoop D
  unfolding finish
  finish_task new x s = record s { status = update x (finish new (s.status x)) s.status }

  unfoldable pub cancel_all : List ℕ → AsyncEventLoop D → AsyncEventLoop D
  unfolding finish_task
  cancel_all [] s = s
  cancel_all (x ∷ xs) s = cancel_all xs (finish_task cancelled x s)

  -- `enqueue_after`, `enqueue_ready` and `enqueue_event_wait`, for a loop that accepts.
  unfoldable pub enqueue : ℕ → ℕ → Await → AsyncEventLoop D → AsyncEventLoop D
  unfolding push_waiter
  enqueue now x (delay duration) s = record s {
    delayed_tasks =
        record { time = now + pos_part duration; sequence = s.next_sequence; frame = x }
        ∷ s.delayed_tasks;
    next_sequence = (s.next_sequence + 1) % 2 ^ 64;
  }
  enqueue now x turn s = record s { ready_tasks = s.ready_tasks ++ x ∷ [] }
  enqueue now x (event name) s = record s { event_waiters = push_waiter name x s.event_waiters }

  -- The three `await_suspend`.
  unfoldable pub await_suspend : ℕ → ℕ → Await → AsyncEventLoop D → AsyncEventLoop D
  unfolding enqueue finish_task
  await_suspend now x a s = if s.accepting then enqueue now x a s else finish_task cancelled x s

  unfoldable pub suspend : ℕ → ℕ → Suspension → AsyncEventLoop D → AsyncEventLoop D
  unfolding await_suspend finish_task
  suspend now x (awaits a) s = await_suspend now x a s
  suspend now x returns s = finish_task succeeded x s
  suspend now x throws s = finish_task failed x s

  -- A call of a coroutine, which runs at once up to its first suspension.
  unfoldable pub spawn : ℕ → Suspension → AsyncEventLoop D → AsyncEventLoop D
  unfolding suspend
  spawn now how s =
      suspend now s.next_frame how
        (record s { next_frame = suc s.next_frame; status = update s.next_frame pending s.status })

  unfoldable pub write_events :
      LoopEvent D → List ℕ → (ℕ → Option (LoopEvent D)) → ℕ → Option (LoopEvent D)
  write_events e [] f = f
  write_events e (x ∷ xs) f = write_events e xs (update x (some e) f)

  unfoldable pub emit_event : LoopEvent D → AsyncEventLoop D → Bool × AsyncEventLoop D
  unfolding take_waiters write_events
  emit_event e s =
      let (resumed, rest) = take_waiters e.name s.event_waiters in
      if s.accepting
      then (
        true,
        record s {
          event_waiters = rest;
          ready_tasks = s.ready_tasks ++ resumed;
          event_of = write_events e resumed s.event_of;
        },
      )
      else (false, s)

  unfoldable pub stop : AsyncEventLoop D → AsyncEventLoop D
  unfolding cancel_all frames_of all_waiters
  stop s =
      if s.accepting
      then cancel_all (frames_of s.delayed_tasks ++ (s.ready_tasks ++ all_waiters s.event_waiters))
          (record s {
            accepting = false;
            stopping = true;
            delayed_tasks = [];
            ready_tasks = [];
            event_waiters = [];
          })
      else s

  -- `run` from a thread: a second call returns false.
  unfoldable pub start_run : AsyncEventLoop D → Bool × AsyncEventLoop D
  start_run s = if s.run_started then (false, s) else (true, record s { run_started = true })

  unfoldable pub take_ready : Option (ℕ × List ℕ) → AsyncEventLoop D → AsyncEventLoop D
  take_ready none s = s
  take_ready (some (x, rest)) s = record s { ready_tasks = rest; current = taken x }

  unfoldable pub take_delayed :
      ℕ → Option (DelayedTask × List DelayedTask) → AsyncEventLoop D → AsyncEventLoop D
  take_delayed now none s = s
  take_delayed now (some (top, rest)) s =
      if leb top.time now then record s { delayed_tasks = rest; current = taken top.frame } else s

  -- The worker's critical section: a ready frame, or else a delayed one whose time has come.
  unfoldable pub take_work : ℕ → AsyncEventLoop D → AsyncEventLoop D
  unfolding pop_back pop_top take_ready take_delayed
  take_work now s = if s.stopping then s else elim s.ready_tasks [
    | [] ↦ take_delayed now (pop_top s.delayed_tasks) s
    | x ∷ xs ↦ take_ready (pop_back (x ∷ xs)) s
  ]

  -- Under `execution_gate_`, up to the call of `resume`.
  unfoldable pub resume_taken : ℕ → AsyncEventLoop D → AsyncEventLoop D
  unfolding finish_task
  resume_taken x s =
      if s.stopping
      then finish_task cancelled x (record s { current = idle })
      else record s { current = if is_pending_status (s.status x) then running x else idle }
