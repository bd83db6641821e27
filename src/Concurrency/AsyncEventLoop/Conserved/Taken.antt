-- ===== src/Concurrency/AsyncEventLoop/Conserved/Taken.antt =====
-- The round of the worker of src/Utils/Concurrency/AsyncEventLoop.hpp keeps every task in one place.
use watchlist.Prelude.{
  ℕ, Bool, true, false, Option, none, some, List, ◌≡◌, arith, if◌then◌else◌, leb,
}
use watchlist.Concurrency.AsyncEventLoop.{
  DelayedTask, pop_top, pop_back, idle, taken, AsyncEventLoop, start_run, take_ready, take_delayed,
}
use watchlist.Concurrency.AsyncEventLoop.Places.{
  WasPopped, pop_back-WasPopped, WasTop, pop_top-WasTop,
}
use watchlist.Concurrency.AsyncEventLoop.Conserved.{IsConserved}

module _ {D : Type 0} where
  pub start_run-IsConserved : (s : AsyncEventLoop D) → IsConserved s → IsConserved (start_run s).1
  unfolding start_run
  start_run-IsConserved s c = started s.run_started
    where
      started :
          (b : Bool)
          → let start : Bool × AsyncEventLoop D =
              if b then (false, s) else (true, record s { run_started = true }) in
            IsConserved start.1
      started true = c
      started false = record { placed = c.placed; closed = c.closed; agrees = c.agrees }

  pub take_ready-IsConserved :
      (s : AsyncEventLoop D)
      → s.current ≡ idle
      → s.stopping ≡ false
      → IsConserved s
      → IsConserved (take_ready (pop_back s.ready_tasks) s)
  take_ready-IsConserved s e f c =
      after (pop_back s.ready_tasks) (λ x. pop_back-WasPopped x s.ready_tasks)
    where
      after :
          (o : Option (ℕ × List ℕ))
          → ((x : ℕ) → WasPopped x s.ready_tasks o)
          → IsConserved (take_ready o s)
      after none w = unfold take_ready in c
      after (some (y, rest)) w =
          unfold take_ready in
          record {
            placed = λ x. ground (arith, c.placed x, w x, e);
            closed = λ a. absurd (ground (arith, a, f, c.agrees));
            agrees = c.agrees;
          }

  pub take_delayed-IsConserved :
      (now : ℕ) (s : AsyncEventLoop D)
      → s.current ≡ idle
      → s.stopping ≡ false
      → IsConserved s
      → IsConserved (take_delayed now (pop_top s.delayed_tasks) s)
  unfolding take_delayed
  take_delayed-IsConserved now s e f c =
      after (pop_top s.delayed_tasks) (λ x. pop_top-WasTop x s.delayed_tasks)
    where
      after :
          (o : Option (DelayedTask × List DelayedTask))
          → ((x : ℕ) → WasTop x s.delayed_tasks o)
          → IsConserved (take_delayed now o s)
      after none w = c
      after (some (top, rest)) w = due (leb top.time now)
        where
          due :
              (b : Bool)
              → IsConserved
                  (if b then record s { delayed_tasks = rest; current = taken top.frame } else s)
          due false = c
          due true = record {
            placed = λ x. ground (arith, c.placed x, w x, e);
            closed = λ a. absurd (ground (arith, a, f, c.agrees));
            agrees = c.agrees;
          }
