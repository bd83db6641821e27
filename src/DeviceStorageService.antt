-- ===== src/DeviceStorageService.antt =====
-- src/Watchlist/DeviceStorageService.hpp and src/Watchlist/DeviceStorageService.cpp: batches of GUI
-- commands, executed one after the other on the database by one worker.
pub mod Stopped
pub mod Replayed
pub mod Execute
pub mod Sync
pub mod Worker
mod Examples
use watchlist.Prelude.{
  Bool, true, false, Option, none, some, List, [], ◌∷◌, ◌++◌, map, Bytes, bytes,
}
use watchlist.Gui.Device.{DeviceViewModel, DeviceCommandKind, DeviceCommand}
use watchlist.Storage.Item.{
  DatabaseItem, Failure, Result, ok, err, Done, validation_error, schema_error, logic_error,
  invalid_argument, sqlite_error, runtime_error, foreign,
}
use watchlist.Storage.Interface.{IDatabase}

pub record DeviceStorageResult : Type 0 where
  pub success : Bool
  pub error : Bytes
  pub devices : List DeviceViewModel

unfoldable pub to_database_item : DeviceViewModel → DatabaseItem
to_database_item d = record {
  id = d.id;
  name = d.name;
  ip_address = d.address;
  port = d.port;
  alive = d.alive;
}

unfoldable pub to_view_model : DatabaseItem → DeviceViewModel
to_view_model d = record {
  id = d.id;
  name = d.name;
  address = d.ip_address;
  port = d.port;
  alive = d.alive;
}

-- `exception.what()`, or the text of the `catch (...)` clause.
abbrev pub what : Bytes → Failure → Bytes
what unknown (validation_error f m) = m
what unknown (schema_error m) = m
what unknown (logic_error m) = m
what unknown (invalid_argument m) = m
what unknown (sqlite_error m) = m
what unknown (runtime_error m) = m
what unknown foreign = unknown

abbrev pub failed : Bytes → DeviceStorageResult
failed error = record { success = false; error = error; devices = [] }

module _ (d : IDatabase) where
  -- The command's device, as the two `switch` cases that need it take it.
  with_device :
      Bytes
      → Option DeviceViewModel
      → (DatabaseItem → d.State → Done × d.State)
      → d.State
      → Done × d.State
  with_device missing none f s = (err (invalid_argument missing), s)
  with_device missing (some v) f s = f (to_database_item v) s

  drop_result : Result Bool × d.State → Done × d.State
  drop_result (ok b, s) = (ok tt, s)
  drop_result (err e, s) = (err e, s)

  unfoldable pub run_kind : DeviceCommandKind → DeviceCommand → d.State → Done × d.State
  unfolding with_device drop_result
  run_kind DeviceCommandKind.refresh c s = (ok tt, s)
  run_kind DeviceCommandKind.add c s =
      with_device (bytes "Add command is missing device data") c.device d.add_item s
  run_kind DeviceCommandKind.edit c s =
      with_device (bytes "Update command is missing device data") c.device d.upsert_item s
  run_kind DeviceCommandKind.set_alive c s =
      with_device (bytes "Update command is missing device data") c.device d.upsert_item s
  run_kind DeviceCommandKind.delete c s = drop_result (d.remove_item c.target_id s)

  -- The loop over the batch; a throw leaves it at once.
  unfoldable pub run_commands : List DeviceCommand → d.State → Done × d.State
  unfolding run_kind
  run_commands [] s = (ok tt, s)
  run_commands (c ∷ cs) s =
      let (r, s') = run_kind c.kind c s in
      elim r [ ok _ ↦ run_commands cs s' | err e ↦ (err e, s') ]

  abbrev unknown_command : Bytes
  unknown_command = bytes "Unknown storage command failure"

  report : Done → d.State → DeviceStorageResult
  report (err e) s = failed (what unknown_command e)
  report (ok _) s = elim (d.get_all_sorted_by_id s) [
    | ok items ↦ record { success = true; error = []; devices = map to_view_model items }
    | err e ↦ failed (what unknown_command e)
  ]

  unfoldable pub execute : List DeviceCommand → d.State → DeviceStorageResult × d.State
  unfolding run_commands report
  execute commands s = let (r, s') = run_commands commands s in (report r s', s')
