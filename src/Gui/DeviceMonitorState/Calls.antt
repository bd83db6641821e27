-- ===== src/Gui/DeviceMonitorState/Calls.antt =====
-- The methods of the device monitor as calls, in whatever order the GUI makes them.
use watchlist.Prelude.{Bool, Option, none, some, List, [], ◌∷◌, Bytes}
use watchlist.Gui.Device.{DeviceViewModel, DeviceEditorState}
use watchlist.Gui.DeviceMonitorState
use watchlist.Gui.DeviceMonitorState.{DeviceMonitorState}

-- `edit_session` is a write through the pointer that `EditSession` returns.
pub data Call : Type 0 where
  replace_devices : List DeviceViewModel → Call
  request_refresh begin_add cancel_editor submit_editor cancel_delete confirm_delete : Call
  request_exit clear_error consume_commands : Call
  begin_edit request_delete set_error : Bytes → Call
  set_alive : Bytes → Bool → Call
  edit_session : DeviceEditorState → Call

abbrev pub assign_session : DeviceEditorState → Option DeviceEditorState → Option DeviceEditorState
assign_session edited none = none
assign_session edited (some old) = some edited

unfoldable pub run_call : Call → DeviceMonitorState → DeviceMonitorState
run_call (Call.replace_devices ds) s = DeviceMonitorState.replace_devices ds s
run_call Call.request_refresh s = DeviceMonitorState.request_refresh s
run_call Call.begin_add s = DeviceMonitorState.begin_add s
run_call Call.cancel_editor s = DeviceMonitorState.cancel_editor s
run_call Call.submit_editor s = (DeviceMonitorState.submit_editor s).1
run_call Call.cancel_delete s = DeviceMonitorState.cancel_delete s
run_call Call.confirm_delete s = (DeviceMonitorState.confirm_delete s).1
run_call Call.request_exit s = DeviceMonitorState.request_exit s
run_call Call.clear_error s = DeviceMonitorState.clear_error s
run_call Call.consume_commands s = (DeviceMonitorState.consume_commands s).1
run_call (Call.begin_edit id) s = (DeviceMonitorState.begin_edit id s).1
run_call (Call.request_delete id) s = (DeviceMonitorState.request_delete id s).1
run_call (Call.set_error e) s = DeviceMonitorState.set_error e s
run_call (Call.set_alive id alive) s = (DeviceMonitorState.set_alive id alive s).1
run_call (Call.edit_session e) s = record s { editor = assign_session e s.editor }

unfoldable pub run_calls : List Call → DeviceMonitorState → DeviceMonitorState
run_calls [] s = s
run_calls (c ∷ cs) s = run_calls cs (run_call c s)
