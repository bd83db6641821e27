-- ===== src/Concurrency/AsyncEventLoop/Examples.antt =====
-- A run of the event loop, and its theorems at that run.
use watchlist.Prelude.{
  ◌+◌, true, false, ◌&&◌, List, [], ◌∷◌, ◌≡◌, ◌⊎◌, refl, arith, ltb, if◌then◌else◌, bytes,
}
use watchlist.Prelude.Int.{pos}
use watchlist.Concurrency.AsyncEventLoop.{
  succeeded, cancelled, is_pending_status, finish, idle, AsyncEventLoop, delay, turn, event, awaits,
  returns, initial_loop, spawn, emit_event, stop, start_run, take_work, resume_taken, suspend,
}
use watchlist.Concurrency.AsyncEventLoop.Moves.{
  Action, spawns, emits, stops, starts, takes, resumes, suspends, act, act_all,
}
use watchlist.Concurrency.AsyncEventLoop.Conserved.{held, queued}
use watchlist.Concurrency.AsyncEventLoop.Conserved.Acts.{act_all-placed}
use watchlist.Concurrency.AsyncEventLoop.Stopped.{stop-IsFinal}
use watchlist.Concurrency.AsyncEventLoop.Ended.{status-IsFinal}
use watchlist.Concurrency.AsyncEventLoop.Timers.{TakesDue, takes-TakesDue}

-- A task that waits for an event, two delayed tasks, and a task for the next turn, which runs and ends.
abbrev before : List (Action (Unit {0}))
before =
    starts
    ∷ spawns 0 (awaits (event (bytes "go")))
    ∷ spawns 0 (awaits (delay (pos 20)))
    ∷ spawns 0 (awaits (delay (pos 10)))
    ∷ spawns 1 (awaits turn)
    ∷ takes 1
    ∷ resumes
    ∷ suspends 2 returns
    ∷ []

abbrev busy : AsyncEventLoop (Unit {0})
busy = act_all before initial_loop

abbrev after : List (Action (Unit {0}))
after = emits (record { name = bytes "go"; payload = tt }) ∷ takes 30 ∷ resumes ∷ []

first_ended : busy.status 3 ≡ succeeded
unfolding act_all act spawn suspend start_run take_work resume_taken finish
first_ended = refl

four_started : busy.next_frame ≡ 4
unfolding act_all act spawn suspend start_run take_work resume_taken finish
four_started = refl

waiter_cancelled : (act_all after (act stops busy)).status 0 ≡ cancelled
unfolding act_all act spawn suspend start_run take_work resume_taken finish stop emit_event bytes
waiter_cancelled = refl

act_all-placed_example :
    queued 2 busy + held 2 busy.current
    ≡ (if ltb 2 busy.next_frame && is_pending_status (busy.status 2) then 1 else 0)
act_all-placed_example = act_all-placed before 2

stop-IsFinal_example :
    let s = act_all after (act stops busy) in
    (s.accepting ≡ false)
    × (queued 2 s ≡ 0)
    × ((if ltb 2 s.next_frame && is_pending_status (s.status 2) then 1 else 0) ≡ held 2 s.current)
    × ((s.current ≡ idle) ⊎ (s.current ≡ busy.current))
stop-IsFinal_example = stop-IsFinal before after 2

status-IsFinal_example : (act_all (stops ∷ []) busy).status 3 ≡ busy.status 3
status-IsFinal_example =
    status-IsFinal before (stops ∷ []) 3 (omega (arith, four_started)) (ground (arith, first_ended))

abbrev sleeping : AsyncEventLoop (Unit {0})
sleeping = record initial_loop {
  run_started = true;
  delayed_tasks =
      record { time = 20; sequence = 0; frame = 1 }
      ∷ record { time = 10; sequence = 1; frame = 2 }
      ∷ [];
}

takes-TakesDue_example : TakesDue 15 sleeping.delayed_tasks (act (takes 15) sleeping).current
takes-TakesDue_example = takes-TakesDue 15 sleeping refl refl refl refl
