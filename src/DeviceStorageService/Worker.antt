-- ===== src/DeviceStorageService/Worker.antt =====
-- The worker thread, the queue before it and the results behind it. Each function below is one
-- critical section of the service's mutex, or the work of the worker between two of them.
pub mod Order
pub mod Drain
use watchlist.Prelude.{
  Bool, true, false, Option, none, some, List, [], ◌∷◌, ◌++◌, if◌then◌else◌, Bytes, bytes,
}
use watchlist.Gui.Device.{DeviceCommandKind, DeviceCommand}
use watchlist.Storage.Item.{ok, err, Done, Result, invalid_argument}
use watchlist.Storage.Interface.{IDatabase}
use watchlist.DeviceStorageService.{DeviceStorageResult, failed, what, execute}

abbrev pub Batch : Type 0
Batch = List DeviceCommand

pub data ExecutionMode : Type 0 where
  owned_thread calling_thread : ExecutionMode

-- Where the thread that runs `Run` stands: before it, in `Initialize`, at the wait, in `Execute`, or
-- behind it.
pub data Phase : Type 0 where
  idle initializing waiting : Phase
  executing : Batch → Phase
  exited : Phase

pub record Service (State : Type 0) : Type 0 where
  pub database : State
  pub commands : List Batch
  pub results : List DeviceStorageResult
  pub stop_requested : Bool
  pub run_started : Bool
  pub execution_mode : ExecutionMode
  pub phase : Phase

abbrev pub twice : Bytes
twice = bytes "Device storage worker was started more than once"

abbrev pub wrong_mode : Bytes
wrong_mode = bytes "RunOnCallingThread requires CallingThread execution mode"

abbrev pub refresh_command : DeviceCommand
refresh_command = record { kind = DeviceCommandKind.refresh; target_id = []; device = none }

module _ {State : Type 0} where
  abbrev pub push_result : DeviceStorageResult → Service State → Service State
  push_result r s = record s { results = s.results ++ r ∷ [] }

  unfoldable pub submit : Batch → Service State → Service State
  submit [] s = s
  submit (c ∷ cs) s = record s { commands = s.commands ++ (c ∷ cs) ∷ [] }

  -- The constructor, of a database or of a null pointer. The thread that it starts with
  -- `owned_thread` enters `Run` by the step `start_run`.
  unfoldable pub create_service : ExecutionMode → Option State → Result (Service State)
  unfolding submit
  create_service execution_mode none =
      err (invalid_argument (bytes "Device storage database cannot be null"))
  create_service execution_mode (some database) = ok (
      submit (refresh_command ∷ []) (record {
        database = database;
        commands = [];
        results = [];
        stop_requested = false;
        run_started = false;
        execution_mode = execution_mode;
        phase = Phase.idle;
      }))

  unfoldable pub poll_results : Service State → List DeviceStorageResult × Service State
  poll_results s = (s.results, record s { results = [] })

  unfoldable pub request_stop : Service State → Service State
  request_stop s = record s { stop_requested = true }

  -- `Run` up to its first unlock.
  unfoldable pub start_run : Service State → Service State
  start_run s =
      if s.run_started
      then push_result (failed twice) s
      else record s { run_started = true; phase = initializing }

  unfoldable pub run_on_calling_thread : Service State → Service State
  unfolding start_run
  run_on_calling_thread s = elim s.execution_mode [
    | ExecutionMode.owned_thread ↦ push_result (failed wrong_mode) s
    | ExecutionMode.calling_thread ↦ start_run s
  ]

  -- The wait returns when a batch is there, or on a stop request. What is queued is taken first.
  take_front : List Batch → Service State → Service State
  take_front [] s = if s.stop_requested then record s { phase = exited } else s
  take_front (b ∷ bs) s = record s { commands = bs; phase = executing b }

  unfoldable pub take_batch : Service State → Service State
  unfolding take_front
  take_batch s = take_front s.commands s

module _ (d : IDatabase) where
  initialized : Done × d.State → Service d.State → Service d.State
  initialized (ok _, db) s = record s { database = db; phase = waiting }
  initialized (err e, db) s = record s {
    database = db;
    phase = exited;
    results = s.results ++ failed (what (bytes "Unknown storage initialization failure") e) ∷ [];
  }

  unfoldable pub initialize : Service d.State → Service d.State
  unfolding initialized
  initialize s = initialized (d.initialize s.database) s

  unfoldable pub run_batch : Batch → Service d.State → Service d.State
  run_batch b s =
      let (r, db) = execute d b s.database in
      record s { database = db; phase = waiting; results = s.results ++ r ∷ [] }

  -- One step of the worker, at whatever point it stands.
  work_in : Phase → Service d.State → Service d.State
  work_in Phase.idle s = s
  work_in Phase.initializing s = initialize s
  work_in Phase.waiting s = take_batch s
  work_in (Phase.executing b) s = run_batch b s
  work_in Phase.exited s = s

  unfoldable pub work : Service d.State → Service d.State
  unfolding work_in initialize take_batch run_batch
  work s = work_in s.phase s
