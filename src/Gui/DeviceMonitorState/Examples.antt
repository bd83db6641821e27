-- ===== src/Gui/DeviceMonitorState/Examples.antt =====
-- Tests of the device monitor, and its theorems at concrete inputs.
use watchlist.Prelude.{◌⊎◌, true, false, some, [], ◌∷◌, ◌≡◌, refl, ◌↔◌, List, bytes, equal, arith}
use watchlist.Prelude.Int.{pos}
use watchlist.Gui.Device.{DeviceViewModel, DeviceEditorMode, DeviceEditorState}
use watchlist.Gui.DeviceMonitorState.{
  DeviceMonitorState, initial, begin_add, submit_editor, set_alive, request_delete, confirm_delete,
  find_device, assign_device, erase_device, consume_commands,
}
use watchlist.Gui.DeviceMonitorState.Calls.{Call, run_call, run_calls}
use watchlist.Gui.DeviceMonitorState.Invariant.{IsValid, run_calls-IsValid}
use watchlist.Gui.DeviceMonitorState.Submission.{
  CanSubmit, SameButError, Submitted, submit_editor_iff,
}
use watchlist.Gui.DeviceMonitorState.Replay.{replay, shown, replay-consume_commands}

abbrev device : DeviceViewModel
device = record {
  id = bytes "d1";
  name = bytes "Lamp";
  address = bytes "10.0.0.7";
  port = 80;
  alive = false;
}

abbrev shown_one : DeviceMonitorState
shown_one = record initial { devices = device ∷ [] }

abbrev session : DeviceEditorState
session = record {
  mode = DeviceEditorMode.add;
  original_id = [];
  draft = record {
    id = bytes "d2";
    name = bytes "Plug";
    address = bytes "10.0.0.8";
    port = pos 81;
    alive = true;
  };
}

abbrev calls : List Call
calls =
    Call.begin_add
    ∷ Call.edit_session session
    ∷ Call.submit_editor
    ∷ Call.set_alive (bytes "d1") true
    ∷ Call.request_delete (bytes "d2")
    ∷ Call.confirm_delete
    ∷ []

shown_one-IsValid : IsValid shown_one
unfolding find_device
shown_one-IsValid = record { unique = (refl, tt); ports = (omega arith, tt); complete = tt }

left_one : (run_calls calls shown_one).devices ≡ record device { alive = true } ∷ []
unfolding run_calls run_call begin_add submit_editor set_alive request_delete confirm_delete
    find_device assign_device erase_device equal bytes
left_one = refl

run_calls-IsValid_example : IsValid (run_calls (Call.replace_devices (device ∷ []) ∷ calls) initial)
unfolding find_device
run_calls-IsValid_example =
    run_calls-IsValid (Call.replace_devices (device ∷ []) ∷ calls) initial
      (((refl, tt), (omega arith, tt)), omega arith)
      (record { unique = tt; ports = tt; complete = tt })

abbrev editing : DeviceMonitorState
editing = record shown_one { editor = some session }

submit_editor_iff_example :
    (((submit_editor editing).0 ≡ true) ↔ CanSubmit (some session) (device ∷ []))
    × ((((submit_editor editing).0 ≡ false) × SameButError editing (submit_editor editing).1)
        ⊎ ((e : DeviceEditorState) × (some session ≡ some e)
            × ((submit_editor editing).0 ≡ true)
            × Submitted e editing (submit_editor editing).1))
submit_editor_iff_example = submit_editor_iff editing

replay-consume_commands_example :
    replay (consume_commands (run_calls calls shown_one)).0 (shown shown_one)
    ≡ shown (run_calls calls shown_one)
replay-consume_commands_example =
    replay-consume_commands calls shown_one (omega arith) shown_one-IsValid refl
