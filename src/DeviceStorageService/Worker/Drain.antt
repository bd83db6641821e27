-- ===== src/DeviceStorageService/Worker/Drain.antt =====
-- Stopping the service: the worker drains the queue by itself and exits.
use watchlist.Prelude.{ℕ, zero, suc, List, [], ◌∷◌}
use watchlist.Storage.Interface.{IDatabase}
use watchlist.DeviceStorageService.{DeviceStorageResult}
use watchlist.DeviceStorageService.Worker.Order.{Entry, ran}
use watchlist.DeviceStorageService.Worker.{Batch, Service, poll_results, request_stop, work}

-- The rounds that the worker needs for a queue: two for each batch, and one for its exit.
abbrev pub rounds : List Batch → ℕ
rounds [] = 1
rounds (b ∷ bs) = suc (suc (rounds bs))

abbrev pub sequence : List Batch → List Entry
sequence [] = []
sequence (b ∷ bs) = ran b ∷ sequence bs

module _ (d : IDatabase) where
  pub work_times : ℕ → Service d.State → Service d.State
  work_times zero s = s
  work_times (suc n) s = work_times n (work d s)

  -- `StopAndDrain`: the stop request, the join with a worker that goes on by itself for as long as it
  -- has rounds, and the poll.
  unfoldable pub stop_and_drain : ℕ → Service d.State → List DeviceStorageResult × Service d.State
  stop_and_drain n s = poll_results (work_times n (request_stop s))
