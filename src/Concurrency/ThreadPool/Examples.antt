-- ===== src/Concurrency/ThreadPool/Examples.antt =====
-- A pool of src/Utils/Concurrency/ThreadPoolManager.hpp with two workers and three tasks.
use watchlist.Prelude.{ℕ, List, [], ◌∷◌, ◌≡◌, refl, false}
use watchlist.Storage.Item.{ok, Done}
use watchlist.Concurrency.ThreadPool.{
  waiting, ThreadPool, create_explicit, create, pool_of, make_workers, create_counted, enqueue,
  stop_workers, worker_turn, turn_at, turn, validate_explicit_thread_count,
}
use watchlist.Concurrency.ThreadPool.Order.{Action, enqueued, turned, stopped, act, act_on}
use watchlist.Concurrency.ThreadPool.Created.{fresh}
use watchlist.Concurrency.ThreadPool.Drain.{
  AreLive, IsDraining, is_live, turns, stop_workers-IsDraining,
}

abbrev thread_factory : ℕ → Done
thread_factory index = ok tt

abbrev two_workers : ThreadPool ℕ
two_workers = record { workers = waiting ∷ waiting ∷ []; tasks = []; stop = false }

two_workers-created : create_explicit thread_factory 2 ≡ ok two_workers
unfolding create_explicit create_counted create pool_of make_workers validate_explicit_thread_count
two_workers-created = refl

abbrev busy : List (Action ℕ)
busy = enqueued 10 ∷ enqueued 11 ∷ turned 0 ∷ enqueued 12 ∷ turned 1 ∷ []

-- Both tasks in work are finished, the third is taken and finished, and both workers exit.
abbrev schedule : List ℕ
schedule = 1 ∷ 0 ∷ 1 ∷ 0 ∷ 1 ∷ 1 ∷ []

schedule-AreLive : AreLive schedule (stop_workers (act_on busy (fresh two_workers)).pool)
unfolding act_on act enqueue worker_turn turn_at turn stop_workers is_live
schedule-AreLive = (refl, (refl, (refl, (refl, (refl, (refl, tt))))))

stop_workers-IsDraining_example :
    IsDraining schedule
      (act stopped (act_on busy (fresh two_workers)))
      (act_on (turns schedule) (act stopped (act_on busy (fresh two_workers))))
stop_workers-IsDraining_example =
    stop_workers-IsDraining thread_factory 2 two_workers two_workers-created busy schedule
      schedule-AreLive
