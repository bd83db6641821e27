-- ===== src/Gui/DeviceMonitorState.antt =====
-- src/Gui/DeviceMonitorState.hpp and src/Gui/DeviceMonitorState.cpp: the devices that the GUI shows,
-- its editor, its pending deletion, and the commands for the storage service. `false` results come
-- with the state that the method left, since an error is written before the return.
pub mod Devices
pub mod Calls
pub mod Effects
pub mod Invariant
pub mod Submission
pub mod Replay
mod Examples
use watchlist.Prelude.{
  ℕ, Bool, true, false, not, ◌||◌, Option, none, some, List, [], ◌∷◌, ◌++◌, is_empty, if◌then◌else◌,
  has_value, Bytes, bytes, equal,
}
use watchlist.Gui.Device.{
  DeviceViewModel, DeviceDraft, DeviceCommandKind, DeviceCommand, DeviceEditorMode,
  DeviceEditorState,
}
use watchlist.Prelude.Int.{ℤ, pos, negsuc, ltb_ℤ, pos_part}

pub record DeviceMonitorState : Type 0 where
  pub devices : List DeviceViewModel
  pub editor : Option DeviceEditorState
  pub pending_delete_id : Option Bytes
  pub error : Option Bytes
  pub commands : List DeviceCommand
  pub exit_requested : Bool

abbrev pub initial : DeviceMonitorState
initial = record {
  devices = [];
  editor = none;
  pending_delete_id = none;
  error = none;
  commands = [];
  exit_requested = false;
}

abbrev pub empty_draft : DeviceDraft
empty_draft = record { id = []; name = []; address = []; port = pos 0; alive = false }

abbrev pub max_port : ℕ
max_port = 65535

-- `std::find_if` on the device with an id; the result is what the iterator points to.
unfoldable pub find_device : Bytes → List DeviceViewModel → Option DeviceViewModel
find_device id [] = none
find_device id (d ∷ ds) = if equal d.id id then some d else find_device id ds

-- A write through the iterator that `find_device` returned.
unfoldable pub assign_device : Bytes → DeviceViewModel → List DeviceViewModel → List DeviceViewModel
assign_device id v [] = []
assign_device id v (d ∷ ds) = if equal d.id id then v ∷ ds else d ∷ assign_device id v ds

-- `devices_.erase(found)`
unfoldable pub erase_device : Bytes → List DeviceViewModel → List DeviceViewModel
erase_device id [] = []
erase_device id (d ∷ ds) = if equal d.id id then ds else d ∷ erase_device id ds

unfoldable pub set_error : Bytes → DeviceMonitorState → DeviceMonitorState
set_error error s = record s { error = some error }

unfoldable pub clear_error : DeviceMonitorState → DeviceMonitorState
clear_error s = record s { error = none }

unfoldable pub replace_devices : List DeviceViewModel → DeviceMonitorState → DeviceMonitorState
replace_devices devices s = record s { devices = devices; error = none }

abbrev pub push_command :
    DeviceCommandKind → Bytes → Option DeviceViewModel → DeviceMonitorState → DeviceMonitorState
push_command kind target_id device s = record s {
  commands = s.commands ++ record { kind = kind; target_id = target_id; device = device } ∷ [];
}

unfoldable pub request_refresh : DeviceMonitorState → DeviceMonitorState
request_refresh s = push_command DeviceCommandKind.refresh [] none s

unfoldable pub begin_add : DeviceMonitorState → DeviceMonitorState
begin_add s = record s {
  error = none;
  editor = some (record { mode = DeviceEditorMode.add; original_id = []; draft = empty_draft });
}

begin_edit_on : Option DeviceViewModel → DeviceMonitorState → Bool × DeviceMonitorState
begin_edit_on none s = (false, set_error (bytes "The selected device no longer exists.") s)
begin_edit_on (some found) s = (
  true,
  record s {
    error = none;
    editor = some (record {
      mode = DeviceEditorMode.edit;
      original_id = found.id;
      draft = record {
        id = found.id;
        name = found.name;
        address = found.address;
        port = pos found.port;
        alive = found.alive;
      };
    });
  },
)

unfoldable pub begin_edit : Bytes → DeviceMonitorState → Bool × DeviceMonitorState
unfolding begin_edit_on set_error
begin_edit id s = begin_edit_on (find_device id s.devices) s

unfoldable pub cancel_editor : DeviceMonitorState → DeviceMonitorState
cancel_editor s = record s { editor = none }

unfoldable pub validate_draft : DeviceEditorState → DeviceMonitorState → Bool × DeviceMonitorState
unfolding set_error
validate_draft editor s =
    if is_empty editor.draft.id || is_empty editor.draft.name || is_empty editor.draft.address
    then (false, set_error (bytes "ID, name, and address are required.") s)
    else if ltb_ℤ editor.draft.port (pos 0) || ltb_ℤ (pos max_port) editor.draft.port
    then (false, set_error (bytes "Port must be between 0 and 65535.") s)
    else (true, s)

-- The device of a draft; `static_cast<std::uint16_t>` of a port that was validated.
abbrev pub drafted : DeviceDraft → DeviceViewModel
drafted draft = record {
  id = draft.id;
  name = draft.name;
  address = draft.address;
  port = pos_part draft.port;
  alive = draft.alive;
}

-- The two last statements of a submission that succeeds.
abbrev close_editor : DeviceMonitorState → DeviceMonitorState
close_editor s = record s { editor = none; error = none }

submit_valid :
    DeviceEditorMode → Bytes → DeviceViewModel → DeviceMonitorState → Bool × DeviceMonitorState
unfolding set_error
submit_valid DeviceEditorMode.add original_id device s =
    if has_value (find_device device.id s.devices)
    then (false, set_error (bytes "A device with this ID already exists.") s)
    else (
      true,
      close_editor (
          push_command DeviceCommandKind.add device.id (some device)
            (record s { devices = s.devices ++ device ∷ [] })),
    )
submit_valid DeviceEditorMode.edit original_id device s =
    if not (equal device.id original_id)
    then (false, set_error (bytes "A device ID cannot be changed after creation.") s)
    else if not (has_value (find_device original_id s.devices))
    then (false, set_error (bytes "The device being edited no longer exists.") s)
    else (
      true,
      close_editor (
          push_command DeviceCommandKind.edit device.id (some device)
            (record s { devices = assign_device original_id device s.devices })),
    )

submit_on : Option DeviceEditorState → DeviceMonitorState → Bool × DeviceMonitorState
unfolding submit_valid validate_draft
submit_on none s = (false, s)
submit_on (some editor) s =
    let (valid, s') = validate_draft editor s in
    if not valid
    then (false, s')
    else submit_valid editor.mode editor.original_id (drafted editor.draft) s'

unfoldable pub submit_editor : DeviceMonitorState → Bool × DeviceMonitorState
unfolding submit_on
submit_editor s = submit_on s.editor s

unfoldable pub request_delete : Bytes → DeviceMonitorState → Bool × DeviceMonitorState
unfolding set_error
request_delete id s =
    if not (has_value (find_device id s.devices))
    then (false, set_error (bytes "The selected device no longer exists.") s)
    else (true, record s { pending_delete_id = some id })

unfoldable pub cancel_delete : DeviceMonitorState → DeviceMonitorState
cancel_delete s = record s { pending_delete_id = none }

confirm_on : Option Bytes → DeviceMonitorState → Bool × DeviceMonitorState
unfolding set_error
confirm_on none s = (false, s)
confirm_on (some id) s =
    if not (has_value (find_device id s.devices))
    then (
      false,
      set_error (bytes "The device selected for deletion no longer exists.")
          (record s { pending_delete_id = none }),
    )
    else (
      true,
      record (push_command DeviceCommandKind.delete id none
          (record s { devices = erase_device id s.devices })) {
            pending_delete_id = none;
            error = none;
          },
    )

unfoldable pub confirm_delete : DeviceMonitorState → Bool × DeviceMonitorState
unfolding confirm_on
confirm_delete s = confirm_on s.pending_delete_id s

set_alive_on :
    Option DeviceViewModel → Bytes → Bool → DeviceMonitorState → Bool × DeviceMonitorState
unfolding set_error
set_alive_on none id alive s = (false, set_error (bytes "The selected device no longer exists.") s)
set_alive_on (some found) id alive s =
    let changed = record found { alive = alive } in
    (
      true,
      record (push_command DeviceCommandKind.set_alive id (some changed)
          (record s { devices = assign_device id changed s.devices })) { error = none },
    )

unfoldable pub set_alive : Bytes → Bool → DeviceMonitorState → Bool × DeviceMonitorState
unfolding set_alive_on
set_alive id alive s = set_alive_on (find_device id s.devices) id alive s

unfoldable pub request_exit : DeviceMonitorState → DeviceMonitorState
request_exit s = record s { exit_requested = true }

unfoldable pub consume_commands : DeviceMonitorState → List DeviceCommand × DeviceMonitorState
consume_commands s = (s.commands, record s { commands = [] })
