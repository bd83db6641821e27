-- ===== src/DeviceStorageService/Examples.antt =====
-- A database in memory that keeps the contract, and the theorems of the service on it.
use watchlist.Prelude.{
  Bool, true, false, none, some, List, [], ◌∷◌, ◌≡◌, refl, arith, if◌then◌else◌, has_value, length,
  Bytes, bytes, equal, equal_iff,
}
use watchlist.Gui.Device.{
  DeviceViewModel, DeviceCommandKind, DeviceCommand, DeviceEditorMode, DeviceEditorState,
}
use watchlist.Prelude.Int.{pos}
use watchlist.Gui.DeviceMonitorState.{
  initial, find_device, consume_commands, begin_add, submit_editor,
}
use watchlist.Gui.DeviceMonitorState.Calls.{Call, run_call, run_calls}
use watchlist.Gui.DeviceMonitorState.Replay.{shown}
use watchlist.Storage.Item.{DatabaseItem, Result, ok, err, Done, logic_error}
use watchlist.Storage.Interface.{
  IDatabase, Contract, Changes, find_item, with_item, without_item, WasFree,
}
use watchlist.DeviceStorageService.{execute, to_database_item}
use watchlist.DeviceStorageService.Replayed.{stored}
use watchlist.DeviceStorageService.Execute.{Executed, execute-Executed}
use watchlist.DeviceStorageService.Sync.{InSync, execute-consume_commands}
use watchlist.DeviceStorageService.Worker.{
  Service, Phase, Batch, calling_thread, create_service, refresh_command, submit,
}
use watchlist.DeviceStorageService.Worker.Order.{
  Trace, Action, submits, polls, stops, works, InOrder, act_all, act_all-InOrder,
}

without : Bytes → List DatabaseItem → List DatabaseItem
without id [] = []
without id (i ∷ is) = let rest = without id is in if equal i.id id then rest else i ∷ rest

find_item-without :
    (id j : Bytes) (is : List DatabaseItem)
    → find_item (without id is) j ≡ without_item id (find_item is) j
unfolding without find_item
find_item-without id j [] = ground arith
find_item-without id j (i ∷ is) =
    ground (arith, find_item-without id j is, equal_iff i.id id, equal_iff i.id j, equal_iff id j)

add : DatabaseItem → List DatabaseItem → Done × List DatabaseItem
add i is =
    if has_value (find_item is i.id)
    then (err (logic_error (bytes "taken")), is)
    else (ok tt, i ∷ is)

upsert : DatabaseItem → List DatabaseItem → Done × List DatabaseItem
upsert i is = (ok tt, i ∷ without i.id is)

remove : Bytes → List DatabaseItem → Result Bool × List DatabaseItem
remove id is = (ok (has_value (find_item is id)), without id is)

abbrev memory : IDatabase
memory = record {
  State = List DatabaseItem;
  initialize = λ s. (ok tt, s);
  add_item = add;
  upsert_item = upsert;
  get_item = λ id s. ok (find_item s id);
  get_all_items = λ s. ok s;
  replace_all = λ is s. (ok tt, is);
  get_all_sorted_by_id = λ s. ok s;
  contains_item = λ id s. ok (has_value (find_item s id));
  count_items = λ s. ok (length s);
  remove_item = remove;
  clear = λ s. (ok tt, []);
}

add-Changes :
    (i : DatabaseItem) (s : List DatabaseItem)
    → Changes (add i s).0 (find_item s) (find_item (add i s).1) (with_item i (find_item s))
unfolding add find_item
add-Changes i s = ground arith

add-WasFree : (i : DatabaseItem) (s : List DatabaseItem) → WasFree (add i s).0 (find_item s i.id)
unfolding add
add-WasFree i s = ground arith

upsert-Changes :
    (i : DatabaseItem) (s : List DatabaseItem)
    → Changes (upsert i s).0 (find_item s) (find_item (upsert i s).1) (with_item i (find_item s))
unfolding upsert find_item
upsert-Changes i s id = ground (arith, find_item-without i.id id s)

remove-Changes :
    (id : Bytes) (s : List DatabaseItem)
    → Changes
        (remove id s).0
        (find_item s)
        (find_item (remove id s).1)
        (without_item id (find_item s))
unfolding remove
remove-Changes id s j = find_item-without id j s

abbrev memory-Contract : Contract memory
memory-Contract = record {
  IsOpen = λ s. Unit {0};
  view = find_item;
  open_add = λ i s o. tt;
  open_upsert = λ i s o. tt;
  open_remove = λ id s o. tt;
  add_changes = λ i s o. add-Changes i s;
  add_free = λ i s o. add-WasFree i s;
  upsert_changes = λ i s o. upsert-Changes i s;
  remove_changes = λ id s o. remove-Changes id s;
  sorted_reads = λ s o id. refl;
}

abbrev device : DeviceViewModel
device = record {
  id = bytes "d1";
  name = bytes "Lamp";
  address = bytes "10.0.0.7";
  port = 80;
  alive = false;
}

abbrev batch : List DeviceCommand
batch =
    record { kind = DeviceCommandKind.add; target_id = bytes "d1"; device = some device }
    ∷ record { kind = DeviceCommandKind.edit; target_id = bytes "d1"; device = none }
    ∷ []

execute-Executed_example : Executed memory memory-Contract batch [] (execute memory batch [])
execute-Executed_example = execute-Executed memory memory-Contract batch [] tt

abbrev session : DeviceEditorState
session = record {
  mode = DeviceEditorMode.add;
  original_id = [];
  draft = record {
    id = bytes "d1";
    name = bytes "Lamp";
    address = bytes "10.0.0.7";
    port = pos 80;
    alive = false;
  };
}

abbrev calls : List Call
calls = Call.begin_add ∷ Call.edit_session session ∷ Call.submit_editor ∷ []

initial-InSync : InSync memory memory-Contract initial []
unfolding find_device find_item
initial-InSync = record {
  valid = record { unique = tt; ports = tt; complete = tt };
  is_open = tt;
  idle = refl;
  same = refl;
}

executed : (execute memory (consume_commands (run_calls calls initial)).0 []).0.success ≡ true
unfolding execute consume_commands run_calls run_call begin_add submit_editor find_device find_item
    equal bytes add to_database_item
executed = refl

execute-consume_commands_example :
    (stored (find_item (execute memory (consume_commands (run_calls calls initial)).0 []).1)
      ≡ shown (run_calls calls initial))
    × ((id : Bytes)
        → find_device id
            (execute memory (consume_commands (run_calls calls initial)).0 []).0.devices
          ≡ shown (run_calls calls initial) id)
execute-consume_commands_example =
    execute-consume_commands memory memory-Contract calls initial [] (omega arith) initial-InSync
      executed

abbrev service : Service (List DatabaseItem)
service = record {
  database = [];
  commands = [];
  results = [];
  stop_requested = false;
  run_started = true;
  execution_mode = calling_thread;
  phase = Phase.waiting;
}

abbrev fresh : Trace memory
fresh = record { service = service; submitted = []; delivered = []; log = [] }

abbrev actions : List Action
actions = submits batch ∷ works ∷ submits batch ∷ works ∷ polls ∷ stops ∷ works ∷ []

act_all-InOrder_example : InOrder memory [] (act_all memory actions fresh)
act_all-InOrder_example =
    act_all-InOrder memory actions fresh
      (record { started = refl; running = tt; queue = refl; results = refl; database = refl })

abbrev loaded : Service (List DatabaseItem)
loaded = record service { commands = batch ∷ batch ∷ [] }

abbrev commands_of : Result (Service (List DatabaseItem)) → List Batch
commands_of (err e) = []
commands_of (ok s) = s.commands

-- The first batch of a new service asks for the stored devices.
created : commands_of (create_service calling_thread (some [])) ≡ (refresh_command ∷ []) ∷ []
unfolding create_service submit
created = refl
